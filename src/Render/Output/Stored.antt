-- ===== src/Render/Output/Stored.antt =====
-- What topology.json of scripts/render-topology.py holds of a document: `json.dumps` of `write_json`
-- sorts the keys of every mapping, and `json.loads` of `load_resolved` gives them in that order.
use pulsaros_testbed.Prelude.{[], ◌∷◌, map, Dict}
use pulsaros_testbed.Order.{insert_entry}
use pulsaros_testbed.Value.{
  Value, null, bool, int, float, str, list, dict, Items, nil, cons, Fields, end, field, entries,
  fields,
}
use pulsaros_testbed.Render.Hosts.{Nic, Host}
use pulsaros_testbed.Render.Segments.{LocalNic, Vtep, Member, Segment}
use pulsaros_testbed.Render.ControlPlane.{HostControl, ControlPlane, static, evpn}
use pulsaros_testbed.Render.Topology.{Resolved}

-- A dictionary in the order of its keys, with its values changed.
unfoldable pub sort_dict {ℓ} : {A : Type ℓ} → (A → A) → Dict A → Dict A
unfolding insert_entry
sort_dict f [] = []
sort_dict f ((k, a) ∷ d) = insert_entry k (f a) (sort_dict f d)

unfoldable mutual
  unfolding insert_entry

  pub sort_value : Value → Value
  sort_value null = null
  sort_value (bool b) = bool b
  sort_value (int z) = int z
  sort_value (float z k) = float z k
  sort_value (str s) = str s
  sort_value (list vs) = list (sort_items vs)
  sort_value (dict fs) = dict (sort_fields fs)

  sort_items : Items → Items
  sort_items nil = nil
  sort_items (cons v vs) = cons (sort_value v) (sort_items vs)

  sort_fields : Fields → Fields
  sort_fields end = end
  sort_fields (field k v fs) = fields (insert_entry k (sort_value v) (entries (sort_fields fs)))

unfoldable pub stored_nic : Nic → Nic
unfolding sort_value
stored_nic n = record {
  name = sort_value n.name;
  network = sort_value n.network;
  mac_offset = n.mac_offset;
  mac = n.mac;
  management = n.management;
  bridge = n.bridge;
}

unfoldable pub stored_host : Host → Host
unfolding sort_value stored_nic
stored_host h = record {
  name = h.name;
  vmid = h.vmid;
  vm_name = h.vm_name;
  groups = sort_value h.groups;
  nics = map stored_nic h.nics;
  ansible_vars = sort_value h.ansible_vars;
  management_ip = sort_value h.management_ip;
}

unfoldable pub stored_local : LocalNic → LocalNic
unfolding sort_value
stored_local n = record { name = sort_value n.name; mac = n.mac; network = sort_value n.network }

unfoldable pub stored_vtep : Vtep → Vtep
unfolding sort_value stored_local
stored_vtep v = record {
  host = v.host;
  underlay_nic = sort_value v.underlay_nic;
  underlay_mac = v.underlay_mac;
  underlay_ip = v.underlay_ip;
  underlay_address = v.underlay_address;
  local_nics = map stored_local v.local_nics;
}

unfoldable pub stored_member : Member → Member
unfolding sort_value
stored_member m = record {
  host = m.host;
  nic = sort_value m.nic;
  mac = m.mac;
  mode = sort_value m.mode;
  vlan = sort_value m.vlan;
  ip = m.ip;
}

unfoldable pub stored_segment : Segment → Segment
unfolding sort_value stored_vtep stored_member
stored_segment s = record {
  name = s.name;
  vni = s.vni;
  vlan = sort_value s.vlan;
  bridge = s.bridge;
  vxlan = s.vxlan;
  vteps = map stored_vtep s.vteps;
  members = map stored_member s.members;
}

unfoldable pub stored_control : HostControl → HostControl
unfolding sort_value
stored_control c = record {
  underlay = record {
    host = c.underlay.host;
    underlay_nic = sort_value c.underlay.underlay_nic;
    underlay_mac = c.underlay.underlay_mac;
    underlay_ip = c.underlay.underlay_ip;
    underlay_address = c.underlay.underlay_address;
  };
  router_id = c.router_id;
  route_reflector = c.route_reflector;
  peers = c.peers;
  vnis = c.vnis;
}

unfoldable pub stored_plane : ControlPlane → ControlPlane
unfolding sort_dict stored_control
stored_plane static = static
stored_plane (evpn c hosts) = evpn c (sort_dict stored_control hosts)

-- The document that topology.json holds, read again.
unfoldable pub stored : Resolved → Resolved
unfolding sort_dict sort_value stored_host stored_segment stored_plane
stored d = record {
  name = sort_value d.name;
  description = sort_value d.description;
  run_id = d.run_id;
  run_suffix = d.run_suffix;
  base = d.base;
  network_mode = d.network_mode;
  networks = sort_dict (λ n. n) d.networks;
  hosts = sort_dict stored_host d.hosts;
  segments = sort_dict stored_segment d.segments;
  dataplane = d.dataplane;
  control_plane = stored_plane d.control_plane;
  plays = sort_value d.plays;
  compat = sort_value d.compat;
  qinq = d.qinq;
  checks = map sort_value d.checks;
  faults = map sort_value d.faults;
}
