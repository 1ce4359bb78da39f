-- ===== src/Render/Faults.antt =====
-- `validate_faults` of scripts/render-topology.py.
pub mod Names
pub mod Vlans
use Prim.Native.String.{String, ◌++◌}
use pulsaros_testbed.Prelude.{
  ℕ, List, [], ◌∷◌, ◌&&◌, ◌||◌, not, ◌==◌, Option, none, some, Outcome, ok, die, raise, type_error,
  if◌then◌else◌, die_if, enumerate, any, get, snoc, ◌>>=◌, ◌>>◌,
}
use pulsaros_testbed.Number.{eqℤ}
use pulsaros_testbed.Text.{show_ℕ}
use pulsaros_testbed.Value.{
  Value, null, str, list, dict, nil, cons, Fields, elems, is_blank, is_str, get_field, get_or,
  to_int, py_str,
}
use pulsaros_testbed.Render.Unique.{validate_unique}
use pulsaros_testbed.Render.Segments.{Member, Segment, Segments, validate_vlan}
use pulsaros_testbed.Render.ControlPlane.{ControlPlane}
use pulsaros_testbed.Render.Checks.{
  is_evpn, valid_name, at_least_one, segment_members, named_segment,
  validate_segment_ping_matrix_check,
}

abbrev pub fault_types : List String
fault_types =
    "remove_fdb_peer" ∷ "mtu_mismatch" ∷ "vlan_mismatch" ∷ "bounce_vtep_underlay"
    ∷ "bgp_peer_shutdown" ∷ "frr_restart" ∷ []

abbrev pub impacts : List String
impacts = "outage" ∷ "no_outage" ∷ []

-- v not in names, for a set of names; the text that `v` is
unfoldable pub one_of : List String → String → Value → Outcome String
one_of names message (str s) = if any (λ n. n == s) names then ok s else die (message ++ s)
one_of names message (list vs) = raise type_error
one_of names message (dict fs) = raise type_error
one_of names message v = die (message ++ py_str v)

-- The one pair, behind `not fault.get("pairs") or len(fault["pairs"]) != 1`.
unfoldable pub one_pair : String → Value → Outcome Value
one_pair message (list (cons pair nil)) = ok pair
one_pair message _ = die message

unfoldable pub source_of : Value → Value
source_of (dict fs) = get_field "source" fs
source_of _ = null

-- segment_members.get(source_ref)
unfoldable pub member_of : Segment → Value → Option Member
member_of segment (str s) = get s (segment_members segment)
member_of segment _ = none

unfoldable pub trunk_member : String → Option Member → Outcome Member
trunk_member message none = die message
trunk_member message (some m) = if is_str "trunk" m.mode then ok m else die message

-- The tests on a `vlan_mismatch` fault.
unfoldable pub validate_vlan_mismatch : Segment → Fields → Value → String → Outcome (Unit {0})
validate_vlan_mismatch segment fault pair label = do
  member ←
      trunk_member (label ++ " source must be a trunk segment member")
        (member_of segment (source_of pair))
  if is_blank (get_field "fault_vlan" fault) then ok tt else do
    fault_vlan ← validate_vlan (get_field "fault_vlan" fault) (label ++ " fault_vlan")
    member_vlan ← to_int member.vlan
    die_if (eqℤ fault_vlan member_vlan) (label ++ " fault_vlan must differ from source VLAN")

abbrev pub expect_dict : String → Value → Outcome Fields
expect_dict message (dict fs) = ok fs
expect_dict message _ = die message

-- The tests behind the name and the type.
unfoldable pub validate_fault_body :
    Segments → ControlPlane → String → Fields → String → Outcome (Unit {0})
unfolding one_pair
validate_fault_body segments control_plane fault_type fault label = do
  one_of impacts (label ++ " has unsupported expected_impact ")
        (get_or "expected_impact" (str "outage") fault)
      >>= λ _. ok tt
  die_if
      ((fault_type == "bgp_peer_shutdown" || fault_type == "frr_restart")
        && not (is_evpn control_plane))
      (label ++ " requires control_plane type evpn")
  segment ← named_segment segments (get_field "segment" fault) label
  validate_segment_ping_matrix_check segments fault label
  pair ← one_pair (label ++ " must define exactly one pair") (get_field "pairs" fault)
  if fault_type == "vlan_mismatch" then validate_vlan_mismatch segment fault pair label else ok tt
  die_if (fault_type == "remove_fdb_peer" && is_evpn control_plane)
      (label ++ " is only valid for static VXLAN control plane")
  at_least_one "recover_timeout" fault (label ++ " recover_timeout must be at least 1")

-- One round of the loop; it carries `names`.
unfoldable pub validate_fault :
    Segments → ControlPlane → ℕ → List Value → Value → Outcome (List Value)
validate_fault segments control_plane index names fault = do
  let label = "fault " ++ show_ℕ index
  fs ← expect_dict (label ++ " must be a mapping") fault
  name ← valid_name label (get_field "name" fs)
  fault_type ←
      one_of fault_types ("fault " ++ (name ++ " has unsupported type ")) (get_field "type" fs)
  validate_fault_body segments control_plane fault_type fs ("fault " ++ name)
  ok (snoc names (str name))

unfoldable pub validate_faults : Value → Segments → ControlPlane → Outcome (List Value)
validate_faults null segments control_plane = ok []
validate_faults (list faults) segments control_plane = do
  names ← enumerate (validate_fault segments control_plane) 0 [] (elems faults)
  validate_unique names "fault name"
  ok (elems faults)
validate_faults _ segments control_plane = die "faults must be a list"
