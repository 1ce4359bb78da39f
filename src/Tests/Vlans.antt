-- ===== src/Tests/Vlans.antt =====
-- A trunk member, and a fault that gives it another VLAN.
use pulsaros_testbed.Prelude.{◌≡◌, refl, true, false, some, [], ◌∷◌, get, put}
use pulsaros_testbed.Number.{pos}
use pulsaros_testbed.Value.{
  Value, str, null, Fields, fields, field?, get_or, get_field, is_blank, is_str, to_int,
}
use pulsaros_testbed.Render.Segments.{Member, Segment, validate_vlan}
use pulsaros_testbed.Render.Checks.{endpoint, segment_members, members_by_endpoint}
use pulsaros_testbed.Render.Faults.{source_of, member_of, trunk_member, validate_vlan_mismatch}
use pulsaros_testbed.Render.Faults.Vlans.{OtherVlan, validate_vlan_mismatch-OtherVlan}
use pulsaros_testbed.Value.{py_str}
use pulsaros_testbed.Tests.Sample.{mapping, number}

abbrev member : Member
member = record {
  host = "a";
  nic = str "lan";
  mac = "52:54:00:01:11:11";
  mode = str "trunk";
  vlan = number 10;
  ip = "10.1.0.1/24";
}

abbrev segment : Segment
segment = record {
  name = "red";
  vni = pos 5000;
  vlan = null;
  bridge = "br-5000";
  vxlan = "vx-5000";
  vteps = [];
  members = member ∷ [];
}

abbrev fault : Fields
fault = fields (("fault_vlan", number 20) ∷ [])

abbrev pair : Value
pair = mapping (("source", str "a.lan") ∷ [])

validate_vlan_mismatch-OtherVlan_example :
    (m : Member) × (member_of segment (source_of pair) ≡ some m)
    × (is_str "trunk" m.mode ≡ true)
    × (is_blank (get_field "fault_vlan" fault) ≡ false → OtherVlan fault m)
unfolding validate_vlan_mismatch validate_vlan source_of member_of trunk_member endpoint
    segment_members members_by_endpoint get put field? get_or get_field is_blank is_str to_int
    py_str
validate_vlan_mismatch-OtherVlan_example =
    validate_vlan_mismatch-OtherVlan segment fault pair "fault" refl
