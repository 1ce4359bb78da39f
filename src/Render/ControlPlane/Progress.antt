-- ===== src/Render/ControlPlane/Progress.antt =====
-- `resolve_control_plane` of scripts/render-topology.py raises nothing on what
-- `validate_control_plane` returns.
use Prim.Native.String.{String}
use pulsaros_testbed.Prelude.{
  List, [], ◌∷◌, true, ◌||◌, ◌==◌, eq_iff, ◌≡◌, refl, sym, ◌∙◌, subst, arith, Bool-cases, inl, inr,
  any, Outcome, ok, die, raise, Exception, Dict, put, has, keys, has-get, each, loop, All, map,
  >>=-elim, ok-injective, ◌>>=◌, die_if,
}
use pulsaros_testbed.Number.{pos, ltℤ}
use pulsaros_testbed.Order.{in_texts, sorted_set, in_texts-sorted_set}
use pulsaros_testbed.Value.{
  Value, null, bool, int, float, str, list, nil, dict, Fields, get_or, is_str, to_int,
}
use pulsaros_testbed.Render.Unique.{validate_unique}
use pulsaros_testbed.Render.Hosts.{Hosts}
use pulsaros_testbed.Render.Segments.{Vtep, Segments}
use pulsaros_testbed.Render.Segments.Progress.{Returns, each-Returns}
use pulsaros_testbed.Render.ControlPlane.Peers.{in_texts-others}
use pulsaros_testbed.Render.ControlPlane.Defs.{
  Peering, full_mesh, route_reflector, Evpn, Requested, static, evpn, Underlay, underlay_of,
  add_underlay, vtep_underlays, vteps_of, segment_vtep_hosts, spokes, peer_hosts, peer_of,
  host_control, control_hosts, subscript, validate_control_plane, validate_evpn,
  resolve_control_plane, empty, read_peering, check_vtep_ref, read_reflectors, check_reflectors,
  check_reflector,
}

has-put : {V : Type 0} (k j : String) (v : V) (d : Dict V) → has k (put j v d) ≡ (j == k || has k d)
unfolding has put
has-put k j v [] = ground arith
has-put k j v ((i, w) ∷ d) = ground (arith, has-put k j v d, eq_iff i j, eq_iff i k, eq_iff j k)

module _ (k : String) where
  loop-has :
      (d r : Dict Underlay) (vs : List Vtep)
      → loop add_underlay d vs ≡ ok r
      → has k r ≡ (has k d || in_texts k (map (λ (v : Vtep). v.host) vs))
  unfolding loop in_texts any
  loop-has d r [] h = ground arith
  loop-has d r (v ∷ vs) h = >>=-elim (add_underlay d v) _ h λ d' q rest.
      let step : has k d' ≡ (v.host == k || has k d) =
        unfold add_underlay in ground (arith, has-put k v.host (underlay_of v) d) in
      let later = loop-has d' r vs rest in ground arith

loop-raise :
    (d : Dict Underlay) (vs : List Vtep) (e : Exception) → loop add_underlay d vs ≡ raise e → ⊥
unfolding loop add_underlay
loop-raise d [] e h = cc
loop-raise d (v ∷ vs) e h = ground (arith, loop-raise (put v.host (underlay_of v) d) vs e)

has-keys : {V : Type 0} (d : Dict V) (k : String) → in_texts k (keys d) ≡ has k d
unfolding has keys in_texts any
has-keys [] k = refl
has-keys ((j, v) ∷ d) k = ground (arith, has-keys d k)

-- Every member of a list has a property that decides membership.
All-in_texts :
    (P : String → Type 0) (ts : List String)
    → ((k : String) → in_texts k ts ≡ true → P k)
    → All P ts
unfolding in_texts any
All-in_texts P [] h = tt
All-in_texts P (t ∷ ts) h =
    (h t (ground (arith, eq_iff t t)), All-in_texts P ts (λ k m. h k (ground arith)))

check_reflector-lem :
    (vteps rrs : List String) {u : Unit {0}}
    → loop (check_reflector vteps) tt rrs ≡ ok u
    → (k : String) → in_texts k rrs ≡ true
    → in_texts k vteps ≡ true
unfolding loop in_texts any check_reflector
check_reflector-lem vteps [] h k m = ground arith
check_reflector-lem vteps (r ∷ rrs) h k m =
    >>=-elim (check_reflector vteps tt r) _ h λ _ passed rest. elim (Bool-cases (r == k)) [
      | inl same ↦ ground (arith, eq_iff r k)
      | inr apart ↦ check_reflector-lem vteps rrs rest k (ground arith)
    ]

-- The route reflectors that validation passes are VTEP hosts.
abbrev KnownReflectors : Segments → Requested → Type 0
KnownReflectors segments static = Unit
KnownReflectors segments (evpn c) =
    (k : String)
    → in_texts k c.route_reflectors ≡ true
    → in_texts k (segment_vtep_hosts segments) ≡ true

module _ (hosts : Hosts) (segments : Segments) where
  validate_evpn-KnownReflectors :
      (fs : Fields) (asked : Requested)
      → validate_evpn hosts segments fs ≡ ok asked
      → KnownReflectors segments asked
  unfolding validate_evpn
  validate_evpn-KnownReflectors fs asked e0 = >>=-elim (die_if (empty segments) _) _ e0 λ _ _ e1.
      >>=-elim (to_int (get_or "asn" (int (pos 65000)) fs)) _ e1 λ asn _ e2.
        >>=-elim (die_if (ltℤ asn (pos 1) || ltℤ (pos 4294967295) asn) _) _ e2 λ _ _ e3.
          >>=-elim (read_peering (get_or "peering" (str "full_mesh") fs)) _ e3 λ peering _ e4.
            >>=-elim (loop (check_vtep_ref hosts) tt (segment_vtep_hosts segments)) _ e4 λ _ _ e5.
              >>=-elim (read_reflectors (get_or "route_reflectors" (list nil) fs)) _ e5 λ rrs _ e6.
                >>=-elim (check_reflectors peering rrs) _ e6 λ _ _ e7.
                  >>=-elim (loop (check_reflector (segment_vtep_hosts segments)) tt rrs) _ e7
                    λ _ known e8.
                      >>=-elim (validate_unique (map str rrs) "control_plane route_reflector") _ e8
                        λ _ _ done.
                          subst (KnownReflectors segments) (ok-injective done)
                            (check_reflector-lem (segment_vtep_hosts segments) rrs known)

  static-Known : (asked : Requested) → asked ≡ static → KnownReflectors segments asked
  static-Known asked e = subst (KnownReflectors segments) (sym e) tt

  validate_control_plane-KnownReflectors :
      (v : Value) (asked : Requested)
      → validate_control_plane hosts segments v ≡ ok asked
      → KnownReflectors segments asked
  unfolding validate_control_plane
  validate_control_plane-KnownReflectors (dict fs) asked h =
      let kind = get_or "type" (str "static") fs in
      elim (Bool-cases (is_str "static" kind)) [
        | inl same ↦ static-Known asked (ground arith)
        | inr other ↦ elim (Bool-cases (is_str "evpn" kind)) [
          | inl same ↦ validate_evpn-KnownReflectors fs asked (ground arith)
          | inr neither ↦ absurd (ground arith)
        ]
      ]
  validate_control_plane-KnownReflectors null asked h = static-Known asked (ground arith)
  validate_control_plane-KnownReflectors (str s) asked h = static-Known asked (ground arith)
  validate_control_plane-KnownReflectors (bool b) asked h = static-Known asked (ground arith)
  validate_control_plane-KnownReflectors (int z) asked h = static-Known asked (ground arith)
  validate_control_plane-KnownReflectors (float z k) asked h = static-Known asked (ground arith)
  validate_control_plane-KnownReflectors (list vs) asked h = static-Known asked (ground arith)

bind-Returns {ℓ κ} :
    {A : Type ℓ} {B : Type κ} (m : Outcome A) (f : A → Outcome B)
    → Returns m
    → ((a : A) → Returns (f a))
    → Returns (m >>= f)
bind-Returns m f (a, e) k = subst (λ x. Returns (x >>= f)) (sym e) (k a)

module _ (c : Evpn) (segments : Segments) (underlays : Dict Underlay) where
  subscript-Returns : (k : String) → has k underlays ≡ true → Returns (subscript underlays k)
  subscript-Returns k h = let (u, e) = has-get k underlays h in (u, rw (e, subscript) refl)

  peer_of-Returns :
      (host k : String) → has k underlays ≡ true → Returns (peer_of c underlays host k)
  unfolding peer_of
  peer_of-Returns host k h =
      bind-Returns (subscript underlays k) _ (subscript-Returns k h) (λ u. (_, refl))

  module _ (vteps : List String)
      (known : (k : String) → in_texts k vteps ≡ true → has k underlays ≡ true)
      (reflectors : (k : String)
        → in_texts k c.route_reflectors ≡ true
        → has k underlays ≡ true) where
    spokes-known :
        (p : Peering) (host k : String)
        → in_texts k (spokes p c.route_reflectors vteps host) ≡ true
        → has k underlays ≡ true
    unfolding spokes
    spokes-known full_mesh host k m = known k (ground (arith, in_texts-others k host vteps))
    spokes-known route_reflector host k m = elim (Bool-cases (in_texts host c.route_reflectors)) [
      | inl inside ↦ known k (ground (arith, in_texts-others k host vteps))
      | inr outside ↦ reflectors k (ground (arith, in_texts-sorted_set k c.route_reflectors))
    ]

    host_control-Returns :
        (host : String)
        → in_texts host vteps ≡ true
        → Returns (host_control c segments underlays vteps host)
    unfolding host_control peer_hosts
    host_control-Returns host m =
        let hosts_known =
          All-in_texts (λ k. Returns (peer_of c underlays host k)) (peer_hosts c vteps host)
            (λ k q. peer_of-Returns host k (spokes-known c.peering host k q)) in
        bind-Returns (each (peer_of c underlays host) (peer_hosts c vteps host)) _
          (each-Returns (peer_of c underlays host) (peer_hosts c vteps host) hosts_known)
          λ ps.
            bind-Returns (subscript underlays host) _ (subscript-Returns host (known host m))
              λ u. (_, refl)

    control_hosts-Returns :
        (hs : List String)
        → All (λ k. in_texts k vteps ≡ true) hs
        → Returns (control_hosts c segments underlays vteps hs)
    unfolding control_hosts
    control_hosts-Returns [] m = ([], refl)
    control_hosts-Returns (h ∷ hs) m =
        bind-Returns (host_control c segments underlays vteps h) _ (host_control-Returns h m.0) λ x.
          bind-Returns (control_hosts c segments underlays vteps hs) _
            (control_hosts-Returns hs m.1) λ rest. (_, refl)

ok-raise {ℓ} : {A : Type ℓ} (a : A) (e : Exception) → ok a ≡ raise e → ⊥
ok-raise a e h = cc

die-raise {ℓ} :
    {A : Type ℓ} (m : String) (e : Exception) → ◌≡◌ {A = Outcome A} (die m) (raise e) → ⊥
die-raise m e h = cc

module _ (c : Evpn) (segments : Segments) where
  resolved-Returns :
      KnownReflectors segments (evpn c)
      → (underlays : Dict Underlay) → vtep_underlays segments ≡ ok underlays
      → Returns (
          control_hosts c segments underlays
            (sorted_set (keys underlays))
            (sorted_set (keys underlays)))
  resolved-Returns reflectors underlays q =
      let vteps = sorted_set (keys underlays) in
      let all_there : (k : String) → has k underlays ≡ in_texts k (segment_vtep_hosts segments) =
        λ k.
          loop-has k [] underlays (vteps_of segments) (unfold vtep_underlays in q)
          ∙ unfold segment_vtep_hosts has in
            sym (in_texts-sorted_set k (map (λ (v : Vtep). v.host) (vteps_of segments))) in
      let known : (k : String) → in_texts k vteps ≡ true → has k underlays ≡ true =
        λ k m. sym (has-keys underlays k) ∙ sym (in_texts-sorted_set k (keys underlays)) ∙ m in
      control_hosts-Returns c segments underlays vteps known (λ k m. all_there k ∙ reflectors k m)
        vteps (All-in_texts (λ k. in_texts k vteps ≡ true) vteps (λ k m. m))

  evpn-raise :
      KnownReflectors segments (evpn c)
      → (m : Outcome (Dict Underlay)) → vtep_underlays segments ≡ m
      → (e : Exception) → resolve_control_plane (evpn c) segments ≡ raise e
      → ⊥
  unfolding resolve_control_plane
  evpn-raise reflectors (ok underlays) q e h =
      let (d, r) = resolved-Returns reflectors underlays q in ground arith
  evpn-raise reflectors (die text) q e h = ground arith
  evpn-raise reflectors (raise x) q e h =
      loop-raise [] (vteps_of segments) x (unfold vtep_underlays in q)

-- `resolve_control_plane` raises nothing on what `validate_control_plane` returns for the same
-- segments: every peer and every host that it looks up has an underlay.
pub resolve_control_plane_never_raises :
    (hosts : Hosts) (segments : Segments) (v : Value) (asked : Requested) (e : Exception)
    → validate_control_plane hosts segments v ≡ ok asked
    → ¬ (resolve_control_plane asked segments ≡ raise e)
unfolding resolve_control_plane
resolve_control_plane_never_raises hosts segments v static e h r = ok-raise static e r
resolve_control_plane_never_raises hosts segments v (evpn c) e h r =
    evpn-raise c segments (validate_control_plane-KnownReflectors hosts segments v (evpn c) h)
      (vtep_underlays segments) refl e (unfold resolve_control_plane in r)
