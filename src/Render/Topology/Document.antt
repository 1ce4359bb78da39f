-- ===== src/Render/Topology/Document.antt =====
-- `render`, with the test of `load_yaml`, and the resolved document. `source` is the value that
-- `yaml.safe_load` gave for the file.
use Prim.Native.String.{String, ◌++◌}
use pulsaros_testbed.Prelude.{
  ℕ, ◌+◌, ◌%◌, List, [], ◌∷◌, not, ◌==◌, ◌||◌, Option, none, some, Outcome, ok, die, raise,
  key_error, if◌then◌else◌, die_if, each, eqb, Dict, ◌>>=◌, ◌>>◌,
}
use pulsaros_testbed.Number.{pos}
use pulsaros_testbed.Value.{
  Value, int, str, list, dict, nil, Fields, end, field, items, get_field, get_or, field?, as_dict,
  value_eq, truthy,
}
use pulsaros_testbed.Render.Env.{Environ, env_int, env_str}
use pulsaros_testbed.Render.Unique.{validate_unique}
use pulsaros_testbed.Render.Dataplane.{resolve_dataplane, filter_for_dataplane}
use pulsaros_testbed.Render.Hosts.{Network, Hosts}
use pulsaros_testbed.Render.Segments.{Segments, validate_segments, resolve_segments}
use pulsaros_testbed.Render.ControlPlane.{
  ControlPlane, validate_control_plane, resolve_control_plane,
}
use pulsaros_testbed.Render.Checks.{validate_checks}
use pulsaros_testbed.Render.Faults.{validate_faults}
use pulsaros_testbed.Render.Tokens.{Scope, resolve_tokens}
use pulsaros_testbed.Render.Topology.Build.{
  Run, run_suffix, base, build_networks, build_hosts, all_mac_offsets,
}

pub record Qinq : Type 0 where
  pub sdn_bridge : String
  pub zone : String
  pub service_vlan : ℕ
  pub mtu : ℕ
  pub ipam : String

pub record Resolved : Type 0 where
  pub name : Value
  pub description : Value
  pub run_id : ℕ
  pub run_suffix : String
  pub base : ℕ
  pub network_mode : String
  pub networks : Dict Network
  pub hosts : Hosts
  pub segments : Segments
  pub dataplane : String
  pub control_plane : ControlPlane
  pub plays : Value
  pub compat : Value
  pub qinq : Option Qinq
  pub checks : List Value
  pub faults : List Value

-- if not isinstance(v, dict) or not v: die(message)
abbrev pub nonempty_dict : String → Value → Outcome Fields
nonempty_dict message (dict (field k v fs)) = ok (field k v fs)
nonempty_dict message _ = die message

-- [v.get(k) for v in fields.values()]
unfoldable pub pluck : String → Fields → Outcome (List Value)
pluck k end = ok []
pluck k (field name v rest) = do fs ← as_dict v; vs ← pluck k rest; ok (get_field k fs ∷ vs)

-- previous_hosts: those of an earlier document of the same run
unfoldable pub previous_hosts : Option Value → ℕ → Outcome Value
previous_hosts none run_id = ok (dict end)
previous_hosts (some v) run_id =
    if truthy v
    then (as_dict v >>= λ fs. ok (
        if value_eq (get_field "run_id" fs) (int (pos run_id))
        then get_or "hosts" (dict end) fs
        else dict end))
    else ok (dict end)

-- The control plane that is asked for: only the Linux dataplane has any but the static one.
unfoldable pub requested_control_plane : String → Fields → Value
requested_control_plane dataplane source =
    if dataplane == "linux-vxlan"
    then get_field "control_plane" source
    else dict (field "type" (str "static") end)

unfoldable pub render_qinq : Run → ℕ → ℕ → Outcome (Option Qinq)
render_qinq run vlan_base vlan_count =
    if run.qinq
    then (do
      test_bridge ← env_str run.environ "TEST_BRIDGE" (some "vmbr-test")
      sdn_bridge ← env_str run.environ "SDN_BRIDGE" (some test_bridge)
      mtu ← env_int run.environ "QINQ_MTU" (some 1496)
      ipam ← env_str run.environ "QINQ_IPAM" (some "pve")
      ok (
          some (record {
            sdn_bridge = sdn_bridge;
            zone = "pq" ++ run_suffix run;
            service_vlan = vlan_base + run.run_id % vlan_count;
            mtu = mtu;
            ipam = ipam;
          })))
    else ok none

-- source[k]
abbrev pub found : Option Value → Outcome Value
found none = raise key_error
found (some v) = ok v

-- The networks and the hosts.
pub record Base : Type 0 where
  pub networks : Dict Network
  pub hosts : Hosts

unfoldable pub render_base : Run → Option Value → Fields → Outcome Base
render_base run previous source = do
  raw_networks ← nonempty_dict "topology must define networks" (get_field "networks" source)
  raw_hosts ← nonempty_dict "topology must define hosts" (get_field "hosts" source)
  prefixes ← pluck "vnet_prefix" raw_networks
  validate_unique prefixes "network vnet_prefix"
  offsets ← pluck "vmid_offset" raw_hosts
  validate_unique offsets "host vmid_offset"
  networks ← build_networks run [] raw_networks
  before ← previous_hosts previous run.run_id
  hosts ← build_hosts run networks before [] raw_hosts
  validate_unique (all_mac_offsets hosts) "mac_offset"
  ok (record { networks = networks; hosts = hosts })

-- The segments and the control plane; `source["name"]` is read between them.
pub record Overlay : Type 0 where
  pub name : Value
  pub segments : Segments
  pub control_plane : ControlPlane

unfoldable pub render_overlay : Hosts → String → Fields → Outcome Overlay
render_overlay hosts dataplane source = do
  segments ← validate_segments hosts (get_or "segments" (dict end) source)
  resolved_segments ← resolve_segments hosts segments
  control_plane ←
      validate_control_plane hosts resolved_segments (requested_control_plane dataplane source)
  name ← found (field? "name" source)
  resolved_control_plane ← resolve_control_plane control_plane resolved_segments
  ok (record { name = name; segments = resolved_segments; control_plane = resolved_control_plane })

-- The checks and the faults, with their references resolved.
pub record Intent : Type 0 where
  pub checks : List Value
  pub faults : List Value

unfoldable pub render_intent : Base → Overlay → String → Fields → Outcome Intent
render_intent b o dataplane source = do
  let scope : Scope = record { hosts = b.hosts; networks = b.networks }
  raw_checks ← filter_for_dataplane (get_or "checks" (list nil) source) dataplane "check"
  checks ← validate_checks b.hosts (list (items raw_checks)) o.segments o.control_plane
  resolved_checks ← each (resolve_tokens scope none) checks
  raw_faults ← filter_for_dataplane (get_or "faults" (list nil) source) dataplane "fault"
  faults ← validate_faults (list (items raw_faults)) o.segments o.control_plane
  resolved_faults ← each (resolve_tokens scope none) faults
  ok (record { checks = resolved_checks; faults = resolved_faults })

-- The body behind the tests on the environment.
unfoldable pub render_run : Run → String → String → ℕ → ℕ → Option Value → Fields → Outcome Resolved
render_run run network_mode dataplane vlan_base vlan_count previous source = do
  b ← render_base run previous source
  o ← render_overlay b.hosts dataplane source
  qinq ← render_qinq run vlan_base vlan_count
  i ← render_intent b o dataplane source
  ok (record {
    name = o.name;
    description = get_or "description" (str "") source;
    run_id = run.run_id;
    run_suffix = run_suffix run;
    base = base run;
    network_mode = network_mode;
    networks = b.networks;
    hosts = b.hosts;
    segments = o.segments;
    dataplane = dataplane;
    control_plane = o.control_plane;
    plays = get_or "plays" (list nil) source;
    compat = get_or "compat" (dict end) source;
    qinq = qinq;
    checks = i.checks;
    faults = i.faults;
  })

unfoldable pub render : Environ → String → Option Value → Option String → Value → Outcome Resolved
render environ path previous dataplane_option (dict source) = do
  die_if (not (value_eq (get_field "schema_version" source) (int (pos 1))))
      "only topology schema_version 1 is supported"
  dataplane ← resolve_dataplane environ dataplane_option
  run_id ← env_int environ "RUN_ID" none
  network_mode ← env_str environ "NETWORK_MODE" (some "qinq")
  die_if (not (network_mode == "qinq" || network_mode == "bridge"))
      ("NETWORK_MODE must be qinq or bridge, got: " ++ network_mode)
  vlan_base ← env_int environ "QINQ_SERVICE_VLAN_BASE" (some 3000)
  vlan_count ← env_int environ "QINQ_SERVICE_VLAN_COUNT" (some 500)
  die_if (eqb vlan_count 0) "QINQ_SERVICE_VLAN_COUNT must be greater than zero"
  render_run (record { environ = environ; run_id = run_id; qinq = network_mode == "qinq" })
      network_mode dataplane vlan_base vlan_count previous source
render environ path previous dataplane_option _ = die (path ++ " must contain a YAML mapping")
