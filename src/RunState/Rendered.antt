-- ===== src/RunState/Rendered.antt =====
-- `cmd_init` of scripts/run-state.py on a document of scripts/render-topology.py.
use Prim.Native.String.{String}
use pulsaros_testbed.Prelude.{
  [], ◌∷◌, true, Dict, get, ◌==◌, Option, none, some, ok, ◌≡◌, refl, ap, ◌∙◌, arith, Bool-cases,
  inl, inr,
}
use pulsaros_testbed.Value.{
  Value, int, str, items, list, dict, nil, cons, Fields, end, field, field?, get_or, get_field,
  put_field, has_field, as_dict, truthy, is_str,
}
use pulsaros_testbed.Render.Hosts.{Network, Host, Hosts}
use pulsaros_testbed.Render.Topology.{Qinq, Resolved}
use pulsaros_testbed.Render.Output.{dict_of, network_value, host_value, qinq_field, document_fields}
use pulsaros_testbed.RunState.Nested.{vm_of, mapping, mapping_at}
use pulsaros_testbed.RunState.{
  World, Clock, declared_vm, declared_vms, add_vnet, declared_vnets, declared_sdn,
  topology_resources, carried, carry_vms, previous_state, previous_vms, new_state, add_phase,
  appended, append_item, phase_entry, save_state, cmd_init,
}

-- The entries of the VMs of a document.
unfoldable pub vms_of : Hosts → Fields
unfolding dict_of
vms_of hosts = dict_of (λ h. declared_vm (host_value h)) hosts

declared_vms-document :
    (hosts : Hosts) → declared_vms (dict_of host_value hosts) ≡ ok (vms_of hosts)
unfolding declared_vms dict_of vms_of as_dict
declared_vms-document [] = refl
declared_vms-document ((name, h) ∷ hosts) = rw (declared_vms-document hosts) refl

-- The name of a VNet is a text, so it has a place in the state.
declared_vnets-document :
    (networks : Dict Network) (vnets : Fields)
    → (r : Fields) × (declared_vnets vnets (dict_of network_value networks) ≡ ok r)
unfolding declared_vnets dict_of network_value as_dict add_vnet get_or field?
declared_vnets-document [] vnets = (vnets, refl)
declared_vnets-document ((name, n) ∷ networks) vnets = declared_vnets-document networks _

qinq_from :
    (o : Option Qinq) (checks faults : Value)
    → (q : Fields) × (as_dict (
          get_or "qinq"
            (dict end)
            (qinq_field o (field "checks" checks (field "faults" faults end))))
        ≡ ok q)
unfolding as_dict get_or field? qinq_field
qinq_from none checks faults = (end, refl)
qinq_from (some q) checks faults = (_, refl)

qinq_at :
    (d : Resolved) → (q : Fields) × (as_dict (get_or "qinq" (dict end) (document_fields d)) ≡ ok q)
unfolding document_fields get_or field?
qinq_at d = qinq_from d.qinq (list (items d.checks)) (list (items d.faults))

networks_at :
    (d : Resolved)
    → as_dict (get_or "networks" (dict end) (document_fields d))
      ≡ ok (dict_of network_value d.networks)
unfolding document_fields get_or field? as_dict
networks_at d = refl

hosts_at :
    (d : Resolved)
    → as_dict (get_or "hosts" (dict end) (document_fields d)) ≡ ok (dict_of host_value d.hosts)
unfolding document_fields get_or field? as_dict
hosts_at d = refl

declared_sdn-document : (d : Resolved) → (r : Fields) × (declared_sdn (document_fields d) ≡ ok r)
unfolding declared_sdn
declared_sdn-document d =
    let (q, h) = qinq_at d in
    let (vnets, k) = declared_vnets-document d.networks end in
    elim (Bool-cases (is_str "qinq" (get_field "network_mode" (document_fields d)))) [
      | inl qinq ↦ (
        field "zone" (get_or "zone" (str "") q) (field "vnets" (dict vnets) end),
        rw (declared_sdn, qinq, h, networks_at d, k) refl,
      )
      | inr bridge ↦
          (field "zone" (str "") (field "vnets" (dict end) end), rw (declared_sdn, bridge) refl)
    ]

topology_resources-document :
    (d : Resolved)
    → (sdn : Fields) × (topology_resources (document_fields d)
        ≡ ok (field "vms" (dict (vms_of d.hosts)) (field "sdn" (dict sdn) end)))
unfolding topology_resources
topology_resources-document d =
    let (sdn, h) = declared_sdn-document d in
    (sdn, rw (topology_resources, hosts_at d, declared_vms-document d.hosts, h) refl)

-- Nothing is carried over from no state.
carry_vms-fresh : (hosts : Hosts) → carry_vms (dict end) (vms_of hosts) ≡ ok (vms_of hosts)
unfolding carry_vms vms_of dict_of carried has_field field? as_dict
carry_vms-fresh [] = refl
carry_vms-fresh ((name, h) ∷ hosts) = rw (carry_vms-fresh hosts) refl

vms_of-get :
    (name : String) (hosts : Hosts) (h : Host)
    → get name hosts ≡ some h
    → field? name (vms_of hosts) ≡ some (dict (declared_vm (host_value h)))
unfolding vms_of dict_of get field?
vms_of-get name [] h e = ground arith
vms_of-get name ((k, v) ∷ hosts) h e = elim (Bool-cases (k == name)) [
  | inl here ↦ let mine : v ≡ h = ground arith in rw (here, mine) refl
  | inr apart' ↦ rw apart' (vms_of-get name hosts h (ground arith))
]

-- The state of a run that has begun.
unfoldable begun : Clock → String → Resolved → Fields → Fields
begun clock phase d sdn = put_field "updated_at" (str clock.saved) (
    put_field "phases" (list (cons (dict (phase_entry phase "started" clock.appended_at "")) nil)) (
      new_state clock phase (document_fields d) end
        (field "vms" (dict (vms_of d.hosts)) (field "sdn" (dict sdn) end))))

not_empty : (d : Resolved) → truthy (dict (document_fields d)) ≡ true
unfolding truthy document_fields
not_empty d = refl

no_previous :
    (topology : Fields)
    → previous_vms (previous_state (record { topology = topology; state = end })) ≡ ok (dict end)
unfolding previous_vms previous_state truthy get_or field? as_dict
no_previous topology = refl

starts_anew :
    (topology : Fields) → previous_state (record { topology = topology; state = end }) ≡ end
unfolding previous_state truthy
starts_anew topology = refl

vms_at : (vms rest : Fields) → as_dict (get_field "vms" (field "vms" (dict vms) rest)) ≡ ok vms
unfolding as_dict get_field get_or field?
vms_at vms rest = refl

add_phase-begun :
    (clock : Clock) (phase : String) (d : Resolved) (sdn : Fields)
    → add_phase phase "started" clock.appended_at "" (
        new_state clock phase (document_fields d) end (
          put_field "vms"
            (dict (vms_of d.hosts))
            (field "vms" (dict (vms_of d.hosts)) (field "sdn" (dict sdn) end))))
      ≡ ok (
          put_field "phases"
            (list (cons (dict (phase_entry phase "started" clock.appended_at "")) nil))
            (new_state clock phase
              (document_fields d)
              end
              (field "vms" (dict (vms_of d.hosts)) (field "sdn" (dict sdn) end))))
unfolding add_phase new_state get_or field? appended append_item put_field
add_phase-begun clock phase d sdn = refl

cmd_init-begun :
    (clock : Clock) (phase : String) (d : Resolved) (sdn : Fields)
    → topology_resources (document_fields d)
      ≡ ok (field "vms" (dict (vms_of d.hosts)) (field "sdn" (dict sdn) end))
    → cmd_init clock phase (record { topology = document_fields d; state = end })
      ≡ ok record { topology = document_fields d; state = begun clock phase d sdn }
unfolding cmd_init save_state begun
cmd_init-begun clock phase d sdn h =
    let vms = vms_of d.hosts in
    rw
      (
        cmd_init,
        not_empty d,
        no_previous (document_fields d),
        h,
        vms_at vms (field "sdn" (dict sdn) end),
        carry_vms-fresh d.hosts,
        starts_anew (document_fields d),
        add_phase-begun clock phase d sdn,
      )
      refl

vm_of-begun :
    (clock : Clock) (phase : String) (d : Resolved) (sdn : Fields) (name : String)
    → vm_of name (begun clock phase d sdn) ≡ mapping_at name (vms_of d.hosts)
unfolding begun new_state put_field mapping_at field?
vm_of-begun clock phase d sdn name = refl

-- A document of `render` has the shape that `cmd_init` needs: without a state `cmd_init` succeeds
-- on it, and the new state declares each host of the document, with its VM id, VM name and address
-- as the fields "vmid", "name" and "management_ip", and the status "declared", and no other field.
pub cmd_init-document :
    (clock : Clock) (phase : String) (d : Resolved)
    → (w : World) × (cmd_init clock phase (record { topology = document_fields d; state = end })
        ≡ ok w)
      × ((name : String) (h : Host)
          → get name d.hosts ≡ some h
          → vm_of name w.state
            ≡ field "vmid" (int h.vmid) (
                field "name"
                  (str h.vm_name)
                  (field "management_ip" h.management_ip (field "status" (str "declared") end))))
unfolding mapping_at declared_vm host_value get_field get_or field?
cmd_init-document clock phase d =
    let (sdn, resources) = topology_resources-document d in
    (
      record { topology = document_fields d; state = begun clock phase d sdn },
      cmd_init-begun clock phase d sdn resources,
      λ name h found.
          vm_of-begun clock phase d sdn name ∙ ap mapping (vms_of-get name d.hosts h found),
    )
