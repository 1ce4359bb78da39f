-- ===== src/Render/Output/Shape.antt =====
-- The value that a resolved document is: the mapping that `render` of scripts/render-topology.py
-- returns, which `write_json` writes.
use Prim.Native.String.{String}
use pulsaros_testbed.Prelude.{List, [], ◌∷◌, map, Option, none, some, Dict}
use pulsaros_testbed.Number.{pos}
use pulsaros_testbed.Value.{Value, bool, int, str, list, dict, Fields, end, field, items}
use pulsaros_testbed.Render.Hosts.{Network, Host}
use pulsaros_testbed.Render.Segments.{Vtep, Member, Segment}
use pulsaros_testbed.Render.ControlPlane.{
  Peering, full_mesh, route_reflector, HostControl, ControlPlane, static, evpn,
}
use pulsaros_testbed.Render.Tokens.{nic_fields}
use pulsaros_testbed.Render.Topology.{Qinq, Resolved}

abbrev list_of {ℓ} : {A : Type ℓ} → (A → Value) → List A → Value
list_of f xs = list (items (map f xs))

-- A dictionary of mappings.
unfoldable pub dict_of {ℓ} : {A : Type ℓ} → (A → Fields) → Dict A → Fields
dict_of f [] = end
dict_of f ((k, a) ∷ d) = field k (dict (f a)) (dict_of f d)

unfoldable pub network_value : Network → Fields
network_value n = field "name" (str n.name) (
    field "mode" (str n.mode) (
      field "vnet_prefix" (str n.vnet_prefix) (
        field "vnet" (str n.vnet) (
          field "inner_vlan" (int n.inner_vlan) (
            field "legacy_vlan_offset" (int n.legacy_vlan_offset)
              (field "vlan" (int n.vlan) (field "bridge" (str n.bridge) end)))))))

unfoldable pub host_value : Host → Fields
host_value h = field "name" (str h.name) (
    field "vmid" (int h.vmid) (
      field "vm_name" (str h.vm_name) (
        field "groups" h.groups (
          field "nics" (list_of (λ n. dict (nic_fields n)) h.nics)
            (field "ansible_vars" h.ansible_vars (field "management_ip" h.management_ip end))))))

unfoldable pub vtep_value : Vtep → Value
vtep_value v = dict (
    field "host" (str v.host) (
      field "underlay_nic" v.underlay_nic (
        field "underlay_mac" (str v.underlay_mac) (
          field "underlay_ip" (str v.underlay_ip) (
            field "underlay_address" (str v.underlay_address) (
              field "local_nics"
                (list_of
                  (λ n.
                    dict (
                      field "name" n.name
                        (field "mac" (str n.mac) (field "network" n.network end))))
                  v.local_nics)
                end))))))

unfoldable pub member_value : Member → Value
member_value m = dict (
    field "host" (str m.host) (
      field "nic" m.nic (
        field "mac" (str m.mac)
          (field "mode" m.mode (field "vlan" m.vlan (field "ip" (str m.ip) end))))))

unfoldable pub segment_value : Segment → Fields
unfolding vtep_value member_value
segment_value s = field "name" (str s.name) (
    field "vni" (int s.vni) (
      field "vlan" s.vlan (
        field "bridge" (str s.bridge) (
          field "vxlan" (str s.vxlan) (
            field "vteps" (list_of vtep_value s.vteps)
              (field "members" (list_of member_value s.members) end))))))

unfoldable pub host_control_value : HostControl → Fields
host_control_value c = field "host" (str c.underlay.host) (
    field "underlay_nic" c.underlay.underlay_nic (
      field "underlay_mac" (str c.underlay.underlay_mac) (
        field "underlay_ip" (str c.underlay.underlay_ip) (
          field "underlay_address" (str c.underlay.underlay_address) (
            field "router_id" (str c.router_id) (
              field "route_reflector" (bool c.route_reflector) (
                field "peers"
                  (list_of
                    (λ p. dict (
                      field "host" (str p.host) (
                        field "address" (str p.address)
                          (field "route_reflector_client" (bool p.route_reflector_client) end))))
                    c.peers)
                  (field "vnis" (list_of int c.vnis) end))))))))

abbrev peering_name : Peering → String
peering_name full_mesh = "full_mesh"
peering_name route_reflector = "route_reflector"

abbrev pub control_plane_type : ControlPlane → String
control_plane_type static = "static"
control_plane_type (evpn c hosts) = "evpn"

unfoldable pub control_plane_value : ControlPlane → Fields
unfolding host_control_value dict_of
control_plane_value static = field "type" (str "static") end
control_plane_value (evpn c hosts) = field "type" (str "evpn") (
    field "asn" (int c.asn) (
      field "peering" (str (peering_name c.peering)) (
        field "route_reflectors" (list_of str c.route_reflectors)
          (field "hosts" (dict (dict_of host_control_value hosts)) end))))

unfoldable pub qinq_field : Option Qinq → Fields → Fields
qinq_field none rest = rest
qinq_field (some q) rest =
    field "qinq"
      (dict (
        field "sdn_bridge" (str q.sdn_bridge) (
          field "zone" (str q.zone) (
            field "service_vlan" (int (pos q.service_vlan))
              (field "mtu" (int (pos q.mtu)) (field "ipam" (str q.ipam) end))))))
      rest

unfoldable pub document_fields : Resolved → Fields
unfolding dict_of network_value host_value segment_value control_plane_value qinq_field
document_fields d = field "schema_version" (int (pos 1)) (
    field "name" d.name (
      field "description" d.description (
        field "run_id" (int (pos d.run_id)) (
          field "run_suffix" (str d.run_suffix) (
            field "base" (int (pos d.base)) (
              field "network_mode" (str d.network_mode) (
                field "networks" (dict (dict_of network_value d.networks)) (
                  field "hosts" (dict (dict_of host_value d.hosts)) (
                    field "segments" (dict (dict_of segment_value d.segments)) (
                      field "dataplane" (dict (field "type" (str d.dataplane) end)) (
                        field "control_plane" (dict (control_plane_value d.control_plane)) (
                          field "plays" d.plays (
                            field "compat" d.compat (
                              qinq_field d.qinq (
                                field "checks" (list (items d.checks))
                                  (field "faults" (list (items d.faults)) end))))))))))))))))
