-- ===== src/Render/Faults/Vlans.antt =====
-- What a `vlan_mismatch` fault that `validate_faults` of scripts/render-topology.py passes asks for.
use pulsaros_testbed.Prelude.{
  true, false, ◌≡◌, ◌≢◌, arith, Option, none, some, ok, die_if, die_if-ok, >>=-elim, ◌>>=◌,
}
use Prim.Native.String.{String, ◌++◌}
use pulsaros_testbed.Number.{ℤ, eqℤ, eqℤ_iff_false}
use pulsaros_testbed.Value.{Value, Fields, is_blank, is_str, get_field, to_int}
use pulsaros_testbed.Render.Segments.{Member, Segment, validate_vlan}
use pulsaros_testbed.Render.Segments.Good.{IsVlan, validate_vlan-IsVlan}
use pulsaros_testbed.Render.Faults.{source_of, member_of, trunk_member, validate_vlan_mismatch}

-- The VLAN of the fault and that of the member, where the fault names one.
pub record OtherVlan (fault : Fields) (m : Member) : Type 0 where
  pub fault_vlan : ℤ
  pub member_vlan : ℤ
  pub fault_read : to_int (get_field "fault_vlan" fault) ≡ ok fault_vlan
  pub fault_limits : IsVlan fault_vlan
  pub member_read : to_int m.vlan ≡ ok member_vlan
  pub differ : fault_vlan ≢ member_vlan

trunk_member-lem :
    (message : String) (o : Option Member) (m : Member)
    → trunk_member message o ≡ ok m
    → (o ≡ some m) × (is_str "trunk" m.mode ≡ true)
unfolding trunk_member
trunk_member-lem message none m h = ground arith
trunk_member-lem message (some n) m h = ground arith

compared :
    (fault : Fields) (m : Member) (label message : String)
    → (validate_vlan (get_field "fault_vlan" fault) label >>= λ fault_vlan.
        to_int m.vlan >>= λ member_vlan. die_if (eqℤ fault_vlan member_vlan) message)
      ≡ ok tt
    → OtherVlan fault m
compared fault m label message h =
    >>=-elim (validate_vlan (get_field "fault_vlan" fault) label) _ h λ a q rest.
      >>=-elim (to_int m.vlan) _ rest λ b q' done.
        let (read, limits) = validate_vlan-IsVlan (get_field "fault_vlan" fault) label a q in
        record {
          fault_vlan = a;
          member_vlan = b;
          fault_read = read;
          fault_limits = limits;
          member_read = q';
          differ = eqℤ_iff_false a b (die_if-ok (eqℤ a b) message done);
        }

-- When the tests on a `vlan_mismatch` fault pass, the source of its pair is a member of the
-- segment in trunk mode; where the fault names a VLAN, that is a number from 1 to 4094 and differs
-- from the VLAN of the member.
pub validate_vlan_mismatch-OtherVlan :
    (segment : Segment) (fault : Fields) (pair : Value) (label : String)
    → validate_vlan_mismatch segment fault pair label ≡ ok tt
    → (m : Member) × (member_of segment (source_of pair) ≡ some m)
      × (is_str "trunk" m.mode ≡ true)
      × (is_blank (get_field "fault_vlan" fault) ≡ false → OtherVlan fault m)
unfolding validate_vlan_mismatch
validate_vlan_mismatch-OtherVlan segment fault pair label h =
    >>=-elim (trunk_member _ (member_of segment (source_of pair))) _ h λ m q rest.
      let (there, trunk) = trunk_member-lem _ (member_of segment (source_of pair)) m q in
      (
        m,
        there,
        trunk,
        λ given.
            compared fault m (label ++ " fault_vlan")
              (label ++ " fault_vlan must differ from source VLAN") (ground arith),
      )
