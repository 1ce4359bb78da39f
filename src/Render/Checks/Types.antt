-- ===== src/Render/Checks/Types.antt =====
-- `validate_evpn_control_plane_check` and `validate_checks`.
use Prim.Native.String.{String, ◌++◌}
use pulsaros_testbed.Prelude.{
  ℕ, List, [], Bool, true, false, not, Outcome, ok, die, if◌then◌else◌, die_if, enumerate, snoc,
  ◌>>=◌, ◌>>◌,
}
use pulsaros_testbed.Text.{show_ℕ, is_name}
use pulsaros_testbed.Value.{Value, null, str, list, dict, Fields, elems, is_str, get_field, py_str}
use pulsaros_testbed.Render.Unique.{validate_unique}
use pulsaros_testbed.Render.Hosts.{Hosts}
use pulsaros_testbed.Render.Segments.{Segments}
use pulsaros_testbed.Render.ControlPlane.{ControlPlane, static, evpn}
use pulsaros_testbed.Render.Checks.Captures.{
  validate_ping_check, validate_packet_capture_check, validate_pktgen_dpdk_check, at_least_one,
}
use pulsaros_testbed.Render.Checks.Matrix.{
  validate_segment_ping_matrix_check, validate_segment_bidirectional_capture_check,
  validate_segment_perf_probe_check,
}

unfoldable pub is_evpn : ControlPlane → Bool
is_evpn static = false
is_evpn (evpn c hosts) = true

unfoldable pub validate_evpn_control_plane_check :
    ControlPlane → Fields → String → Outcome (Unit {0})
validate_evpn_control_plane_check control_plane check label = do
  die_if (not (is_evpn control_plane)) (label ++ " requires control_plane type evpn")
  at_least_one "timeout" check (label ++ " timeout must be at least 1")

-- The name of a check or a fault: a text in the pattern.
unfoldable pub valid_name : String → Value → Outcome String
valid_name label (str s) = if is_name s then ok s else die (label ++ " must define a valid name")
valid_name label _ = die (label ++ " must define a valid name")

-- The ladder on `check_type`.
unfoldable pub validate_by_type :
    Hosts → Segments → ControlPlane → Value → Fields → String → Outcome (Unit {0})
validate_by_type hosts segments control_plane check_type check label =
    if is_str "ping" check_type
    then validate_ping_check hosts check label
    else if is_str "packet_capture" check_type
    then validate_packet_capture_check hosts check label
    else if is_str "pktgen_dpdk" check_type
    then validate_pktgen_dpdk_check hosts check label
    else if is_str "segment_ping_matrix" check_type
    then validate_segment_ping_matrix_check segments check label
    else if is_str "segment_bidirectional_capture" check_type
    then validate_segment_bidirectional_capture_check hosts segments check label
    else if is_str "segment_perf_probe" check_type
    then validate_segment_perf_probe_check segments check label
    else if is_str "evpn_control_plane" check_type
    then validate_evpn_control_plane_check control_plane check label
    else die (label ++ (" has unsupported type " ++ py_str check_type))

abbrev pub expect_dict : String → Value → Outcome Fields
expect_dict message (dict fs) = ok fs
expect_dict message _ = die message

-- One round of the loop; it carries `names`.
unfoldable pub validate_check :
    Hosts → Segments → ControlPlane → ℕ → List Value → Value → Outcome (List Value)
validate_check hosts segments control_plane index names check = do
  let label = "check " ++ show_ℕ index
  fs ← expect_dict (label ++ " must be a mapping") check
  name ← valid_name label (get_field "name" fs)
  validate_by_type hosts segments control_plane (get_field "type" fs) fs ("check " ++ name)
  ok (snoc names (str name))

unfoldable pub validate_checks : Hosts → Value → Segments → ControlPlane → Outcome (List Value)
validate_checks hosts null segments control_plane = ok []
validate_checks hosts (list checks) segments control_plane = do
  names ← enumerate (validate_check hosts segments control_plane) 0 [] (elems checks)
  validate_unique names "check name"
  ok (elems checks)
validate_checks hosts _ segments control_plane = die "checks must be a list"
