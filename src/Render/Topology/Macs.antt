-- ===== src/Render/Topology/Macs.antt =====
-- The MAC addresses of a resolved document.
use Prim.Native.String.{String, ◌++◌}
use pulsaros_testbed.Prelude.{
  List, [], ◌∷◌, Option, ◌≡◌, arith, ok, die_if, not, >>=-eq-ok, All, AllPairs, Dict, put, map,
  subst, sym, ◌∙◌, Bool-cases, inl, inr, ◌==◌, ◌≢◌,
}
use pulsaros_testbed.Number.{ℤ, pos, negsuc}
use mathlib.Core.Bool.{false}
use pulsaros_testbed.Text.{is_name}
use pulsaros_testbed.Value.{
  Value, nil, list, as_dict, to_int, get_field, get_or, iterate, int, Fields, end, field, value_eq,
  number_of, same_number,
}
use pulsaros_testbed.Render.Unique.Exact.{Distinct, validate_unique-Distinct}
use pulsaros_testbed.Render.Env.{Environ, mac_for}
use pulsaros_testbed.Render.Env.Mac.{mac_for_injective}
use pulsaros_testbed.Render.Hosts.{Network, Nic, Host, Hosts}
use pulsaros_testbed.Render.Topology.Build.{
  Run, build_nic, build_nics, build_host, build_hosts, nics_before, nics_of, all_mac_offsets,
}
use pulsaros_testbed.Render.Topology.Document.{Resolved, render}
use pulsaros_testbed.Render.Topology.Steps.{base_of, render_base-Steps, render-Rendered}

abbrev HasMac : Run → Nic → Type 0
HasMac run n = n.mac ≡ mac_for run.run_id n.mac_offset

build_nic-HasMac :
    (run : Run) (networks : Dict Network) (name : String) (v : Value) (n : Nic)
    → build_nic run networks name v ≡ ok n
    → HasMac run n
unfolding build_nic
build_nic-HasMac run networks name v n h = ground arith

build_nics-HasMac :
    (run : Run) (networks : Dict Network) (name : String) (vs : List Value) (ns : List Nic)
    → build_nics run networks name vs ≡ ok ns
    → All (HasMac run) ns
unfolding build_nics
build_nics-HasMac run networks name [] [] h = tt
build_nics-HasMac run networks name [] (n ∷ ns) h = ground arith
build_nics-HasMac run networks name (v ∷ vs) [] h = tt
build_nics-HasMac run networks name (v ∷ vs) (n ∷ ns) h = (
  build_nic-HasMac run networks name v n (ground arith),
  build_nics-HasMac run networks name vs ns (ground arith),
)

build_host-HasMac :
    (run : Run) (networks : Dict Network) (previous : Value) (name : String) (v : Value) (h : Host)
    → build_host run networks previous name v ≡ ok h
    → All (HasMac run) h.nics
unfolding build_host
build_host-HasMac run networks previous name v h e =
    let (a, _, e1) = >>=-eq-ok (die_if (not (is_name name)) ("invalid host name: " ++ name)) _ e in
    let (fs, _, e2) = >>=-eq-ok (as_dict v) _ e1 in
    let (offset, _, e3) = >>=-eq-ok (to_int (get_field "vmid_offset" fs)) _ e2 in
    let (vs, _, e4) = >>=-eq-ok (iterate (get_or "nics" (list nil) fs)) _ e3 in
    let (ns, built, e5) = >>=-eq-ok (build_nics run networks name vs) _ e4 in
    subst (All (HasMac run)) (ground arith) (build_nics-HasMac run networks name vs ns built)

module _ (P : Nic → Type 0) where
  All-nics_before : (ns rest : List Nic) → All P ns → All P rest → All P (nics_before ns rest)
  unfolding nics_before
  All-nics_before [] rest h k = k
  All-nics_before (n ∷ ns) rest h k = (h.0, All-nics_before ns rest h.1 k)

  All-nics_before_split : (ns rest : List Nic) → All P (nics_before ns rest) → All P ns × All P rest
  unfolding nics_before
  All-nics_before_split [] rest h = (tt, h)
  All-nics_before_split (n ∷ ns) rest h =
      let (a, b) = All-nics_before_split ns rest h.1 in ((h.0, a), b)

  All-nics_of-put :
      (k : String) (h : Host) (d : Hosts)
      → All P h.nics
      → All P (nics_of d)
      → All P (nics_of (put k h d))
  unfolding nics_of put
  All-nics_of-put k h [] a b = All-nics_before h.nics [] a tt
  All-nics_of-put k h ((j, g) ∷ d) a b =
      let (old, rest) = All-nics_before_split g.nics (nics_of d) b in
      elim (Bool-cases (j == k)) [
        | inl e ↦ rw e (All-nics_before h.nics (nics_of d) a rest)
        | inr e ↦
            rw e (All-nics_before g.nics (nics_of (put k h d)) old (All-nics_of-put k h d a rest))
      ]

build_hosts-HasMac :
    (run : Run) (networks : Dict Network) (previous : Value) (d : Hosts) (fs : Fields) (r : Hosts)
    → All (HasMac run) (nics_of d)
    → build_hosts run networks previous d fs ≡ ok r
    → All (HasMac run) (nics_of r)
unfolding build_hosts
build_hosts-HasMac run networks previous d end r a h =
    subst (λ x. All (HasMac run) (nics_of x)) (ground arith) a
build_hosts-HasMac run networks previous d (field name v fs) r a h =
    let (g, built, rest) = >>=-eq-ok (build_host run networks previous name v) _ h in
    build_hosts-HasMac run networks previous (put name g d) fs r
      (All-nics_of-put (HasMac run) name g d
        (build_host-HasMac run networks previous name v g built) a)
      rest

int-value_eq : (a b : ℤ) → value_eq (int a) (int b) ≡ false → a ≢ b
unfolding value_eq number_of same_number
int-value_eq (pos a) (pos b) h e = ground arith
int-value_eq (pos a) (negsuc b) h e = ground arith
int-value_eq (negsuc a) (pos b) h e = ground arith
int-value_eq (negsuc a) (negsuc b) h e = ground arith

macs-apart :
    (run : Run) (n : Nic) (ns : List Nic)
    → HasMac run n
    → All (HasMac run) ns
    → All (λ w. value_eq (int n.mac_offset) w ≡ false) (map (λ m. int m.mac_offset) ns)
    → All (◌≢◌ n.mac) (map (λ m. m.mac) ns)
macs-apart run n [] h a d = tt
macs-apart run n (m ∷ ns) h a d = (
  λ e.
      int-value_eq n.mac_offset m.mac_offset d.0
        (mac_for_injective run.run_id n.mac_offset m.mac_offset (sym h ∙ e ∙ a.0)),
  macs-apart run n ns h a.1 d.1,
)

macs-AllPairs :
    (run : Run) (ns : List Nic)
    → All (HasMac run) ns
    → Distinct (map (λ n. int n.mac_offset) ns)
    → AllPairs ◌≢◌ (map (λ n. n.mac) ns)
macs-AllPairs run [] a d = tt
macs-AllPairs run (n ∷ ns) a d = (macs-apart run n ns a.0 a.1 d.0, macs-AllPairs run ns a.1 d.1)

-- In a document that `render` returns, no two NICs of any hosts have one MAC address.
pub render-macs :
    (environ : Environ) (path : String) (previous : Option Value) (option : Option String)
    (v : Value) (r : Resolved)
    → render environ path previous option v ≡ ok r
    → AllPairs ◌≢◌ (map (λ n. n.mac) (nics_of r.hosts))
unfolding all_mac_offsets
render-macs environ path previous option v r h =
    let p = render-Rendered environ path previous option v r h in
    let q = render_base-Steps p.run previous p.source (base_of r) p.steps.base in
    macs-AllPairs p.run (nics_of r.hosts)
      (build_hosts-HasMac p.run r.networks q.before [] q.raw_hosts r.hosts (unfold nics_of in tt)
        q.hosts_built)
      (validate_unique-Distinct _ _ q.macs_unique)
