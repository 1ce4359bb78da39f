-- ===== src/Render/Segments/Validate.antt =====
-- `validate_segments`: the loops over segments, their VTEPs and their members. A loop carries the
-- variables that the source's loop assigns.
use Prim.Native.String.{String, ◌++◌}
use pulsaros_testbed.Prelude.{
  ℕ, List, [], ◌∷◌, Bool, false, ◌&&◌, ◌||◌, not, ◌==◌, Option, none, some, Outcome, ok, die,
  if◌then◌else◌, die_if, enumerate, loop, ltb, length, snoc, ◌>>=◌, ◌>>◌,
}
use pulsaros_testbed.Text.{show_ℕ, is_name}
use pulsaros_testbed.Value.{
  Value, null, int, str, list, dict, nil, Fields, end, field, elems, truthy, is_blank, is_str,
  get_field, get_or, has_field, value_eq, py_str,
}
use pulsaros_testbed.Render.Unique.{validate_unique}
use pulsaros_testbed.Render.Hosts.{Hosts, validate_host_nic_ref}
use pulsaros_testbed.Render.Segments.Limits.{optional_vlan, validate_vni}

-- `underlay_ips`: the address that each pair of a host and a NIC was given.
pub record Underlay : Type 0 where
  pub host : Value
  pub nic : Value
  pub ip : String

abbrev pub Underlays : Type 0
Underlays = List Underlay

same_key : Value → Value → Underlay → Bool
same_key host nic u = value_eq u.host host && value_eq u.nic nic

-- underlay_ips.get((host, nic))
unfoldable pub underlay_of : Value → Value → Underlays → Option String
unfolding same_key
underlay_of host nic [] = none
underlay_of host nic (u ∷ us) = if same_key host nic u then some u.ip else underlay_of host nic us

-- underlay_ips[(host, nic)] = ip
unfoldable pub set_underlay : Value → Value → String → Underlays → Underlays
unfolding same_key
set_underlay host nic ip [] = record { host = host; nic = nic; ip = ip } ∷ []
set_underlay host nic ip (u ∷ us) =
    if same_key host nic u then record u { ip = ip } ∷ us else u ∷ set_underlay host nic ip us

conflicts : String → Option String → Bool
conflicts ip none = false
conflicts ip (some old) = not (old == ip)

abbrev or_empty : Option String → String
or_empty none = ""
or_empty (some s) = s

-- if not isinstance(v, dict): die(message)
abbrev pub expect_dict : String → Value → Outcome Fields
expect_dict message (dict fs) = ok fs
expect_dict message _ = die message

-- if v is None: v = [], and then: if not isinstance(v, list): die(message)
abbrev pub optional_list : String → Value → Outcome (List Value)
optional_list message null = ok []
optional_list message (list vs) = ok (elems vs)
optional_list message _ = die message

unfoldable pub validate_local_nic :
    Hosts → String → Value → Value → Unit {0} → Value → Outcome (Unit {0})
validate_local_nic hosts vtep_label host underlay_nic _ nic = do
  die_if (value_eq nic underlay_nic) (vtep_label ++ " local_nics cannot include underlay_nic")
  validate_host_nic_ref hosts host nic (vtep_label ++ " local_nics")

-- The variables of the loop over VTEPs.
pub record VtepState : Type 0 where
  pub underlay_ips : Underlays
  pub vtep_hosts : List Value

unfoldable pub validate_vtep : Hosts → String → ℕ → VtepState → Value → Outcome VtepState
unfolding conflicts show_ℕ loop
validate_vtep hosts label index s vtep = do
  let vtep_label = label ++ (" vtep " ++ show_ℕ index)
  fs ← expect_dict (vtep_label ++ " must be a mapping") vtep
  let host = get_field "host" fs
  let underlay_nic = get_field "underlay_nic" fs
  die_if (not (truthy host)) (vtep_label ++ " must define host")
  die_if (not (truthy underlay_nic)) (vtep_label ++ " must define underlay_nic")
  die_if (not (truthy (get_field "underlay_ip" fs))) (vtep_label ++ " must define underlay_ip")
  validate_host_nic_ref hosts host underlay_nic vtep_label
  let underlay_ip = py_str (get_field "underlay_ip" fs)
  let previous = underlay_of host underlay_nic s.underlay_ips
  die_if (conflicts underlay_ip previous) (
      vtep_label
      ++ (" underlay_ip conflicts with previous "
          ++ (py_str host
              ++ ("." ++ (py_str underlay_nic ++ (" underlay_ip " ++ or_empty previous))))))
  local_nics ←
      optional_list (vtep_label ++ " local_nics must be a list") (get_or "local_nics" (list nil) fs)
  loop (validate_local_nic hosts vtep_label host underlay_nic) tt local_nics
  ok (record {
    underlay_ips = set_underlay host underlay_nic underlay_ip s.underlay_ips;
    vtep_hosts = snoc s.vtep_hosts host;
  })

unfoldable pub validate_member : Hosts → String → Value → ℕ → Unit {0} → Value → Outcome (Unit {0})
validate_member hosts label segment_vlan index _ member = do
  let member_label = label ++ (" member " ++ show_ℕ index)
  fs ← expect_dict (member_label ++ " must be a mapping") member
  let host = get_field "host" fs
  let nic = get_field "nic" fs
  die_if (not (truthy host)) (member_label ++ " must define host")
  die_if (not (truthy nic)) (member_label ++ " must define nic")
  die_if (not (truthy (get_field "ip" fs))) (member_label ++ " must define ip")
  validate_host_nic_ref hosts host nic member_label
  let mode = get_or "mode" (str "access") fs
  die_if (not (is_str "access" mode || is_str "trunk" mode))
      (member_label ++ " mode must be access or trunk")
  let vlan = get_field "vlan" fs
  optional_vlan vlan (member_label ++ " vlan")
  die_if (is_str "access" mode && not (is_blank vlan))
      (member_label ++ " vlan is only valid when mode is trunk")
  die_if (is_str "trunk" mode && (is_blank vlan && is_blank segment_vlan))
      (member_label ++ " trunk mode requires member vlan or segment vlan")

-- The variables of the loop over segments.
pub record SegmentState : Type 0 where
  pub names : List Value
  pub vnis : List Value
  pub underlay_ips : Underlays

abbrev pub vtep_list : String → Value → Outcome (List Value)
vtep_list message (list vs) = die_if (ltb (length (elems vs)) 2) message >> ok (elems vs)
vtep_list message _ = die message

unfoldable pub validate_segment : Hosts → SegmentState → String → Value → Outcome SegmentState
validate_segment hosts s name segment = do
  let label = "segment " ++ name
  die_if (not (is_name name)) ("invalid segment name: " ++ name)
  fs ← expect_dict (label ++ " must be a mapping") segment
  die_if (not (has_field "vni" fs)) (label ++ " must define vni")
  vni ← validate_vni (get_field "vni" fs) (label ++ " vni")
  let vlan = get_field "vlan" fs
  optional_vlan vlan (label ++ " vlan")
  vteps ← vtep_list (label ++ " must define at least two vteps") (get_field "vteps" fs)
  t ←
      enumerate (validate_vtep hosts label) 0
        (record { underlay_ips = s.underlay_ips; vtep_hosts = [] }) vteps
  validate_unique t.vtep_hosts (label ++ " vtep host")
  members ← optional_list (label ++ " members must be a list") (get_or "members" (list nil) fs)
  enumerate (validate_member hosts label vlan) 0 tt members
  ok (record {
    names = snoc s.names (str name);
    vnis = snoc s.vnis (int vni);
    underlay_ips = t.underlay_ips;
  })

unfoldable pub segments_from : Hosts → SegmentState → Fields → Outcome SegmentState
segments_from hosts s end = ok s
segments_from hosts s (field name segment rest) =
    validate_segment hosts s name segment >>= λ s'. segments_from hosts s' rest

abbrev pub no_segments : SegmentState
no_segments = record { names = []; vnis = []; underlay_ips = [] }

unfoldable pub validate_segments : Hosts → Value → Outcome Fields
validate_segments hosts null = ok end
validate_segments hosts (dict end) = ok end
validate_segments hosts (dict (field name segment rest)) = do
  s ← segments_from hosts no_segments (field name segment rest)
  validate_unique s.names "segment name"
  validate_unique s.vnis "segment vni"
  ok (field name segment rest)
validate_segments hosts _ = die "segments must be a mapping"
