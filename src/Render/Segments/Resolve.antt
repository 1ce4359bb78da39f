-- ===== src/Render/Segments/Resolve.antt =====
-- `resolve_segments`.
use Prim.Native.String.{String, ◌++◌}
use pulsaros_testbed.Prelude.{
  List, [], none, some, Outcome, ok, raise, key_error, if◌then◌else◌, each, Dict, put, ◌>>=◌,
}
use pulsaros_testbed.Number.{ℤ}
use pulsaros_testbed.Text.{before, show_ℤ}
use pulsaros_testbed.Value.{
  Value, null, int, str, list, nil, Fields, end, field, truthy, is_blank, is_str, field?, get_or,
  get_field, to_int, as_dict, iterate, py_str,
}
use pulsaros_testbed.Render.Hosts.{Host, Hosts, lookup, nic_by_name}

pub record LocalNic : Type 0 where
  pub name : Value
  pub mac : String
  pub network : Value

pub record Vtep : Type 0 where
  pub host : String
  pub underlay_nic : Value
  pub underlay_mac : String
  pub underlay_ip : String
  pub underlay_address : String
  pub local_nics : List LocalNic

-- `vlan` is `None`, the number, or what stands in the file where it is blank.
pub record Member : Type 0 where
  pub host : String
  pub nic : Value
  pub mac : String
  pub mode : Value
  pub vlan : Value
  pub ip : String

pub record Segment : Type 0 where
  pub name : String
  pub vni : ℤ
  pub vlan : Value
  pub bridge : String
  pub vxlan : String
  pub vteps : List Vtep
  pub members : List Member

abbrev pub Segments : Type 0
Segments = Dict Segment

-- fields[k]
unfoldable pub subscript : String → Fields → Outcome Value
subscript k fs = elim (field? k fs) [ none ↦ raise key_error | some v ↦ ok v ]

-- The key with which a host was found.
abbrev pub key_text : Value → String
key_text (str s) = s
key_text _ = ""

-- v or []
unfoldable pub or_nil : Value → Value
or_nil v = if truthy v then v else list nil

-- if v not in (None, ""): v = int(v)
unfoldable pub int_unless_blank : Value → Outcome Value
int_unless_blank v = if is_blank v then ok v else (to_int v >>= λ z. ok (int z))

unfoldable pub resolve_local_nic : Host → Value → Outcome LocalNic
resolve_local_nic host nic_name = do
  nic ← nic_by_name host nic_name
  ok (record { name = nic_name; mac = nic.mac; network = nic.network })

unfoldable pub resolve_vtep : Hosts → Value → Outcome Vtep
resolve_vtep hosts vtep = do
  fs ← as_dict vtep
  host_name ← subscript "host" fs
  host ← lookup hosts host_name
  nic_name ← subscript "underlay_nic" fs
  underlay_nic ← nic_by_name host nic_name
  names ← iterate (or_nil (get_or "local_nics" (list nil) fs))
  local_nics ← each (resolve_local_nic host) names
  underlay_ip ← subscript "underlay_ip" fs
  ok (record {
    host = key_text host_name;
    underlay_nic = nic_name;
    underlay_mac = underlay_nic.mac;
    underlay_ip = py_str underlay_ip;
    underlay_address = before b'/' (py_str underlay_ip);
    local_nics = local_nics;
  })

-- member.get("vlan", vlan) if member.get("mode", "access") == "trunk" else None
unfoldable pub member_vlan : Value → Fields → Value
member_vlan vlan fs =
    if is_str "trunk" (get_or "mode" (str "access") fs) then get_or "vlan" vlan fs else null

unfoldable pub resolve_member : Hosts → Value → Value → Outcome Member
resolve_member hosts vlan member = do
  fs ← as_dict member
  host_name ← subscript "host" fs
  host ← lookup hosts host_name
  nic_name ← subscript "nic" fs
  nic ← nic_by_name host nic_name
  resolved ← int_unless_blank (member_vlan vlan fs)
  ip ← subscript "ip" fs
  ok (record {
    host = key_text host_name;
    nic = nic_name;
    mac = nic.mac;
    mode = get_or "mode" (str "access") fs;
    vlan = resolved;
    ip = py_str ip;
  })

unfoldable pub resolve_segment : Hosts → String → Value → Outcome Segment
resolve_segment hosts name segment = do
  fs ← as_dict segment
  vlan ← int_unless_blank (get_field "vlan" fs)
  raw_vni ← subscript "vni" fs
  vni ← to_int raw_vni
  raw_vteps ← iterate (get_or "vteps" (list nil) fs)
  vteps ← each (resolve_vtep hosts) raw_vteps
  raw_members ← iterate (or_nil (get_or "members" (list nil) fs))
  members ← each (resolve_member hosts vlan) raw_members
  ok (record {
    name = name;
    vni = vni;
    vlan = vlan;
    bridge = "br-" ++ show_ℤ vni;
    vxlan = "vx-" ++ show_ℤ vni;
    vteps = vteps;
    members = members;
  })

-- The loop, with the dictionary so far.
unfoldable pub resolve_from : Hosts → Segments → Fields → Outcome Segments
resolve_from hosts resolved end = ok resolved
resolve_from hosts resolved (field name segment rest) =
    resolve_segment hosts name segment >>= λ s. resolve_from hosts (put name s resolved) rest

unfoldable pub resolve_segments : Hosts → Fields → Outcome Segments
resolve_segments hosts segments = resolve_from hosts [] segments
