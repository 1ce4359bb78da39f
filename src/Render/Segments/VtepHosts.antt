-- ===== src/Render/Segments/VtepHosts.antt =====
-- The hosts that `validate_segments` collects from the VTEPs of a segment.
use Prim.Native.String.{String}
use mathlib.Core.List.{append-nil, append_assoc}
use pulsaros_testbed.Prelude.{
  ℕ, suc, List, [], ◌∷◌, ◌++◌, ◌≡◌, sym, ap, ◌∙◌, arith, ok, map, >>=-elim, enumerate, snoc,
}
use pulsaros_testbed.Value.{Value, null, dict, get_field}
use pulsaros_testbed.Render.Hosts.{Hosts}
use pulsaros_testbed.Render.Segments.Validate.{validate_vtep, VtepState}
use pulsaros_testbed.Render.Segments.Good.{validate_vtep-GoodVtep}

-- The host that a VTEP names.
abbrev pub host_of : Value → Value
host_of (dict fs) = get_field "host" fs
host_of _ = null

pub vtep_hosts-lem :
    (hosts : Hosts) (label : String) (index : ℕ) (s t : VtepState) (vs : List Value)
    → enumerate (validate_vtep hosts label) index s vs ≡ ok t
    → t.vtep_hosts ≡ s.vtep_hosts ++ map host_of vs
unfolding enumerate
vtep_hosts-lem hosts label index s t [] h = ground (arith, append-nil s.vtep_hosts)
vtep_hosts-lem hosts label index s t (v ∷ vs) h =
    >>=-elim (validate_vtep hosts label index s v) _ h λ s' q rest.
      let (g, snocced) = validate_vtep-GoodVtep hosts label index s s' v q in
      let shown : get_field "host" g.fs ≡ host_of v = ap host_of (sym g.shape) in
      vtep_hosts-lem hosts label (suc index) s' t vs rest
      ∙ ap (λ l. l ++ map host_of vs) (snocced ∙ ap (snoc s.vtep_hosts) shown)
      ∙ append_assoc s.vtep_hosts (host_of v ∷ []) (map host_of vs)
