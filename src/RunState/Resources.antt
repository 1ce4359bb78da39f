-- ===== src/RunState/Resources.antt =====
-- `topology_resources` of scripts/run-state.py.
use pulsaros_testbed.Prelude.{if◌then◌else◌, Outcome, ok, raise, type_error, ◌>>=◌}
use pulsaros_testbed.Value.{
  Value, str, dict, Fields, end, field, truthy, is_str, get_or, get_field, put_field, as_dict,
}

-- The entry of one host.
unfoldable pub declared_vm : Fields → Fields
declared_vm host = field "vmid" (get_field "vmid" host) (
    field "name" (get_or "vm_name" (str "") host) (
      field "management_ip" (get_or "management_ip" (str "") host)
        (field "status" (str "declared") end)))

-- The loop over the hosts, in their order.
unfoldable pub declared_vms : Fields → Outcome Fields
declared_vms end = ok end
declared_vms (field name host rest) =
    as_dict host >>= λ h. declared_vms rest >>= λ more. ok (field name (dict (declared_vm h)) more)

unfoldable pub declared_vnet : Fields → Fields
declared_vnet network =
    field "network" (get_or "name" (str "") network)
      (field "inner_vlan" (get_field "inner_vlan" network) (field "status" (str "declared") end))

-- vnets[vnet] = …: a VNet that is no text has no place among the text keys of the state.
unfoldable pub add_vnet : Value → Fields → Fields → Outcome Fields
add_vnet (str s) network vnets =
    ok (if truthy (str s) then put_field s (dict (declared_vnet network)) vnets else vnets)
add_vnet v network vnets = if truthy v then raise type_error else ok vnets

-- The loop over the networks.
unfoldable pub declared_vnets : Fields → Fields → Outcome Fields
declared_vnets vnets end = ok vnets
declared_vnets vnets (field name network rest) = as_dict network >>= λ n.
    add_vnet (get_or "vnet" (str "") n) n vnets >>= λ grown. declared_vnets grown rest

unfoldable pub declared_sdn : Fields → Outcome Fields
declared_sdn topology =
    if is_str "qinq" (get_field "network_mode" topology)
    then (as_dict (get_or "qinq" (dict end) topology) >>= λ qinq.
        as_dict (get_or "networks" (dict end) topology) >>= λ networks.
        declared_vnets end networks >>= λ vnets.
        ok (field "zone" (get_or "zone" (str "") qinq) (field "vnets" (dict vnets) end)))
    else ok (field "zone" (str "") (field "vnets" (dict end) end))

unfoldable pub topology_resources : Fields → Outcome Fields
topology_resources topology = as_dict (get_or "hosts" (dict end) topology) >>= λ hosts.
    declared_vms hosts >>= λ vms.
    declared_sdn topology >>= λ sdn. ok (field "vms" (dict vms) (field "sdn" (dict sdn) end))
