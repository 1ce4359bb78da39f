-- ===== src/Analysis/Topology.antt =====
-- `topology_summary` of scripts/analyze-artifacts-gemini.py.
use Prim.Native.String.{String, compare}
use Prim.Native.Nat.{Ordering}
use pulsaros_testbed.Prelude.{
  Bool, false, List, [], ◌∷◌, any, Outcome, ok, raise, type_error, ◌>>=◌, each, if◌then◌else◌,
}
use pulsaros_testbed.Text.{has_text}
use pulsaros_testbed.Value.{
  Value, bool, str, list, dict, nil, Fields, end, field, elems, items, truthy, is_str, get_or,
  get_field, has_field, put_field, as_dict, iterate,
}

-- sorted(fields.items()): the keys are distinct, so no two values are compared
unfoldable pub insert_field : String → Value → Fields → Fields
insert_field k v end = field k v end
insert_field k v (field j w fs) =
    let rest = insert_field k v fs in
    elim (compare k j) [
      | Ordering.lt ↦ field k v (field j w fs)
      | Ordering.eq ↦ field k v (field j w fs)
      | Ordering.gt ↦ field j w rest
    ]

unfoldable pub sorted_fields : Fields → Fields
unfolding insert_field
sorted_fields end = end
sorted_fields (field k v fs) = insert_field k v (sorted_fields fs)

-- key in v
unfoldable pub contains : String → Value → Outcome Bool
unfolding has_field is_str has_text any
contains key (dict fs) = ok (has_field key fs)
contains key (list vs) = ok (any (is_str key) (elems vs))
contains key (str s) = ok (has_text key s)
contains key v = raise type_error

-- {key: v.get(key) for key in keys if key in v}
unfoldable pub pick : List String → Value → Outcome Fields
unfolding contains as_dict get_field
pick [] v = ok end
pick (key ∷ keys) v = contains key v >>= λ present.
    if present
    then (as_dict v >>= λ fs. pick keys v >>= λ rest. ok (field key (get_field key fs) rest))
    else pick keys v

-- v[key], for a key that is in v
unfoldable pub index_key : String → Value → Outcome Value
unfolding get_field
index_key key (dict fs) = ok (get_field key fs)
index_key key v = raise type_error

-- [f x for x in v]
unfoldable pub listed : (Value → Outcome Value) → Value → Outcome Value
unfolding iterate each
listed f v = iterate v >>= λ vs. each f vs >>= λ ws. ok (list (items ws))

unfoldable pub nic_summary : Value → Outcome Value
unfolding as_dict get_or truthy
nic_summary v = as_dict v >>= λ nic. ok (
    dict (
      field "name" (get_or "name" (str "") nic) (
        field "network" (get_or "network" (str "") nic) (
          field "bridge" (get_or "bridge" (str "") nic)
            (field "management" (bool (truthy (get_or "management" (bool false) nic))) end)))))

unfoldable pub host_summary : String → Value → Outcome Value
unfolding as_dict get_or listed nic_summary
host_summary name v = as_dict v >>= λ host.
    listed nic_summary (get_or "nics" (list nil) host) >>= λ nics. ok (
      dict (
        field "name" (str name) (
          field "groups" (get_or "groups" (list nil) host) (
            field "management_ip" (get_or "management_ip" (str "") host) (field "nics" nics end)))))

unfoldable pub host_summaries : Fields → Outcome (List Value)
unfolding host_summary
host_summaries end = ok []
host_summaries (field name host rest) =
    host_summary name host >>= λ v. host_summaries rest >>= λ more. ok (v ∷ more)

unfoldable pub network_summaries : Fields → Outcome Fields
unfolding pick
network_summaries end = ok end
network_summaries (field name network rest) =
    pick ("mode" ∷ "vnet" ∷ "inner_vlan" ∷ "bridge" ∷ []) network >>= λ picked.
    network_summaries rest >>= λ more. ok (field name (dict picked) more)

unfoldable pub vtep_summary : Value → Outcome Value
unfolding as_dict get_or
vtep_summary v = as_dict v >>= λ vtep. ok (
    dict (
      field "host" (get_or "host" (str "") vtep) (
        field "underlay_nic" (get_or "underlay_nic" (str "") vtep) (
          field "underlay_ip" (get_or "underlay_ip" (str "") vtep)
            (field "local_nics" (get_or "local_nics" (list nil) vtep) end)))))

unfoldable pub picked_value : List String → Value → Outcome Value
unfolding pick
picked_value keys v = pick keys v >>= λ fs. ok (dict fs)

unfoldable pub segment_summary : Value → Outcome Fields
unfolding pick as_dict get_or listed vtep_summary picked_value put_field
segment_summary v = do
  item ← pick ("vni" ∷ "vlan" ∷ []) v
  segment ← as_dict v
  vteps ← listed vtep_summary (get_or "vteps" (list nil) segment)
  members ←
      listed (picked_value ("host" ∷ "nic" ∷ "mode" ∷ "vlan" ∷ "ip" ∷ []))
        (get_or "members" (list nil) segment)
  ok (put_field "members" members (put_field "vteps" vteps item))

unfoldable pub segment_summaries : Fields → Outcome Fields
unfolding segment_summary
segment_summaries end = ok end
segment_summaries (field name segment rest) = segment_summary segment >>= λ item.
    segment_summaries rest >>= λ more. ok (field name (dict item) more)

-- if key in v: item[key] = f (v[key])
unfoldable pub add_part : String → (Value → Outcome Value) → Value → Fields → Outcome Fields
unfolding contains index_key put_field
add_part key f v item = contains key v >>= λ present.
    if present
    then (index_key key v >>= λ inner. f inner >>= λ part. ok (put_field key part item))
    else ok item

unfoldable pub check_summary : Value → Outcome Value
unfolding pick add_part listed picked_value
check_summary v = do
  item ← pick ("name" ∷ "type" ∷ "segment" ∷ "source" ∷ "destination" ∷ []) v
  triggered ← add_part "trigger" (picked_value ("type" ∷ "source" ∷ "destination" ∷ [])) v item
  captured ←
      add_part "captures" (listed (picked_value ("host" ∷ "nic" ∷ "filter" ∷ []))) v triggered
  ok (dict captured)

unfoldable pub summary_of : Fields → Outcome Fields
unfolding as_dict get_or sorted_fields host_summaries network_summaries segment_summaries listed
    check_summary picked_value
summary_of topology = do
  host_fields ← as_dict (get_or "hosts" (dict end) topology)
  hosts ← host_summaries (sorted_fields host_fields)
  network_fields ← as_dict (get_or "networks" (dict end) topology)
  networks ← network_summaries (sorted_fields network_fields)
  segment_fields ← as_dict (get_or "segments" (dict end) topology)
  segments ← segment_summaries (sorted_fields segment_fields)
  checks ← listed check_summary (get_or "checks" (list nil) topology)
  faults ←
      listed (picked_value ("name" ∷ "type" ∷ "segment" ∷ "recover_timeout" ∷ []))
        (get_or "faults" (list nil) topology)
  ok (
      field "name" (get_or "name" (str "") topology) (
        field "description" (get_or "description" (str "") topology) (
          field "network_mode" (get_or "network_mode" (str "") topology) (
            field "hosts" (list (items hosts)) (
              field "networks" (dict networks) (
                field "segments" (dict segments)
                  (field "checks" checks (field "faults" faults end))))))))

unfoldable pub topology_summary : Value → Outcome Fields
unfolding truthy as_dict summary_of
topology_summary v = if truthy v then (as_dict v >>= summary_of) else ok end
