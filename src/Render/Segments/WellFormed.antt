-- ===== src/Render/Segments/WellFormed.antt =====
-- The resolved segments: each has a valid VNI and at least two VTEPs on different hosts, and no two
-- segments share a VNI.
use Prim.Native.String.{String}
use pulsaros_testbed.Prelude.{
  ◌≤◌, List, [], ◌∷◌, false, eq_iff, ◌≡◌, ◌≢◌, refl, sym, ◌∙◌, ap, subst, arith, Outcome, ok, All,
  AllPairs, length, each, Dict, map, >>=-elim,
}
use pulsaros_testbed.Number.{ℤ, pos, negsuc}
use pulsaros_testbed.Value.{
  Value, null, bool, int, float, str, list, nil, dict, Fields, elems, value_eq, number_of,
  same_number, get_field, get_or, to_int, as_dict, iterate,
}
use pulsaros_testbed.Render.Unique.Exact.{Distinct}
use pulsaros_testbed.Render.Hosts.{Hosts, lookup}
use pulsaros_testbed.Render.Segments.Good.{IsVni}
use pulsaros_testbed.Render.Segments.VtepHosts.{host_of}
use pulsaros_testbed.Render.Segments.Passed.{GoodSegment}
use pulsaros_testbed.Render.Segments.Resolve.{
  Vtep, Segment, key_text, subscript, int_unless_blank, resolve_vtep, resolve_segment,
}
use pulsaros_testbed.Render.Segments.Progress.{vteps-iterate}

pub record IsWellFormed (s : Segment) : Type 0 where
  pub vni_limits : IsVni s.vni
  pub vteps_many : 2 ≤ length s.vteps
  pub hosts_differ : AllPairs ◌≢◌ (map (λ v. v.host) s.vteps)

length-each {ℓ κ} :
    {A : Type ℓ} {B : Type κ} (f : A → Outcome B) (xs : List A) (ys : List B)
    → each f xs ≡ ok ys
    → length ys ≡ length xs
unfolding each
length-each f [] [] h = refl
length-each f [] (y ∷ ys) h = ground arith
length-each f (x ∷ xs) [] h = ground arith
length-each f (x ∷ xs) (y ∷ ys) h = omega (arith, length-each f xs ys (ground arith))

lookup-key :
    {A : Type 0} (d : Dict A) (v : Value) (a : A) → lookup d v ≡ ok a → v ≡ str (key_text v)
unfolding lookup
lookup-key d (str s) a h = refl
lookup-key d null a h = ground arith
lookup-key d (bool b) a h = ground arith
lookup-key d (int z) a h = ground arith
lookup-key d (float z k) a h = ground arith
lookup-key d (list vs) a h = ground arith
lookup-key d (dict fs) a h = ground arith

as_dict-ok : (v : Value) (fs : Fields) → as_dict v ≡ ok fs → v ≡ dict fs
unfolding as_dict
as_dict-ok (dict gs) fs h = ground arith
as_dict-ok null fs h = ground arith
as_dict-ok (bool b) fs h = ground arith
as_dict-ok (int z) fs h = ground arith
as_dict-ok (float z k) fs h = ground arith
as_dict-ok (str s) fs h = ground arith
as_dict-ok (list vs) fs h = ground arith

subscript-get_field :
    (k : String) (fs : Fields) (v : Value) → subscript k fs ≡ ok v → get_field k fs ≡ v
unfolding subscript get_field get_or
subscript-get_field k fs v h = ground arith

-- A resolved VTEP stands on the host that the file names.
resolve_vtep-host :
    (hosts : Hosts) (v : Value) (t : Vtep) → resolve_vtep hosts v ≡ ok t → host_of v ≡ str t.host
unfolding resolve_vtep
resolve_vtep-host hosts v t h = >>=-elim (as_dict v) _ h λ fs shape e1.
    >>=-elim (subscript "host" fs) _ e1 λ name named e2.
      >>=-elim (lookup hosts name) _ e2 λ host found e3.
        let kept : key_text name ≡ t.host = ground arith in
        ap host_of (as_dict-ok v fs shape)
        ∙ subscript-get_field "host" fs name named
        ∙ lookup-key hosts name host found
        ∙ ap str kept

pub str-value_eq : (a b : String) → value_eq (str a) (str b) ≡ false → a ≢ b
unfolding value_eq
str-value_eq a b h e = ground (arith, eq_iff a b)

pub int-value_eq : (a b : ℤ) → value_eq (int a) (int b) ≡ false → a ≢ b
unfolding value_eq number_of same_number
int-value_eq (pos a) (pos b) h e = ground arith
int-value_eq (pos a) (negsuc b) h e = ground arith
int-value_eq (negsuc a) (pos b) h e = ground arith
int-value_eq (negsuc a) (negsuc b) h e = ground arith

module _ (hosts : Hosts) where
  hosts-apart :
      (v : Value) (t : Vtep) (vs : List Value) (ts : List Vtep)
      → host_of v ≡ str t.host
      → each (resolve_vtep hosts) vs ≡ ok ts
      → All (λ w. value_eq (host_of v) w ≡ false) (map host_of vs)
      → All (◌≢◌ t.host) (map (λ u. u.host) ts)
  unfolding each
  hosts-apart v t vs [] n h a = tt
  hosts-apart v t [] (u ∷ us) n h a = ground arith
  hosts-apart v t (w ∷ ws) (u ∷ us) n h a = >>=-elim (resolve_vtep hosts w) _ h λ u' q rest.
      let same : u' ≡ u = ground arith in
      let named : host_of w ≡ str u.host =
        resolve_vtep-host hosts w u' q ∙ ap (λ (x : Vtep). str x.host) same in
      (
        str-value_eq t.host u.host (
            subst (λ x. value_eq x (str u.host) ≡ false) n
              (subst (λ x. value_eq (host_of v) x ≡ false) named a.0)),
        hosts-apart v t ws us n (ground arith) a.1,
      )

  hosts-AllPairs :
      (vs : List Value) (ts : List Vtep)
      → each (resolve_vtep hosts) vs ≡ ok ts
      → Distinct (map host_of vs)
      → AllPairs ◌≢◌ (map (λ u. u.host) ts)
  unfolding each
  hosts-AllPairs vs [] h d = tt
  hosts-AllPairs [] (t ∷ ts) h d = ground arith
  hosts-AllPairs (v ∷ vs) (t ∷ ts) h d = >>=-elim (resolve_vtep hosts v) _ h λ t' q rest.
      let same : t' ≡ t = ground arith in
      let named : host_of v ≡ str t.host =
        resolve_vtep-host hosts v t' q ∙ ap (λ (x : Vtep). str x.host) same in
      (hosts-apart v t vs ts named (ground arith) d.0, hosts-AllPairs vs ts (ground arith) d.1)

  -- What a good segment resolves to.
  pub resolve_segment-IsWellFormed :
      (name : String) (v : Value) (g : GoodSegment hosts name v) (s : Segment)
      → resolve_segment hosts name v ≡ ok s
      → (s.vni ≡ g.vni) × IsWellFormed s
  unfolding resolve_segment
  resolve_segment-IsWellFormed name v g s h0 = >>=-elim (as_dict v) _ h0 λ fs shape e1.
      >>=-elim (int_unless_blank (get_field "vlan" fs)) _ e1 λ vlan _ e2.
        >>=-elim (subscript "vni" fs) _ e2 λ raw raw_read e3.
          >>=-elim (to_int raw) _ e3 λ vni vni_read e4.
            >>=-elim (iterate (get_or "vteps" (list nil) fs)) _ e4 λ vs iterated e5.
              >>=-elim (each (resolve_vtep hosts) vs) _ e5 λ vteps resolved e6.
                let same : g.fs ≡ fs = ground (arith, sym g.shape ∙ as_dict-ok v fs shape) in
                let listed : elems g.vteps ≡ vs =
                  ground (arith, vteps-iterate g.fs g.vteps g.vteps_read) in
                let read : get_field "vni" fs ≡ raw = subscript-get_field "vni" fs raw raw_read in
                let kept : vteps ≡ s.vteps = ground arith in
                let number : s.vni ≡ vni = ground arith in
                let vni_same : vni ≡ g.vni = ground (arith, g.vni_read) in
                let all : each (resolve_vtep hosts) (elems g.vteps) ≡ ok s.vteps =
                  rw listed (resolved ∙ ap ok kept) in
                (
                  number ∙ vni_same,
                  record {
                    vni_limits = subst IsVni (sym (number ∙ vni_same)) g.vni_limits;
                    vteps_many =
                        subst (λ n. 2 ≤ n)
                          (sym (length-each (resolve_vtep hosts) (elems g.vteps) s.vteps all))
                          g.vteps_many;
                    hosts_differ = hosts-AllPairs (elems g.vteps) s.vteps all g.hosts_differ;
                  },
                )
