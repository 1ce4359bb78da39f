-- ===== src/Render/Output/Defs.antt =====
-- `write_env`, `cmd_validate`, `cmd_update_ips` and the test of `cmd_ansible` of
-- scripts/render-topology.py, on the document as it was rendered or loaded again.
use Prim.Native.String.{String, ◌++◌}
use pulsaros_testbed.Prelude.{
  ◌==◌, Option, none, some, Outcome, ok, die, raise, key_error, if◌then◌else◌, get, put, values,
  loop, ◌>>=◌,
}
use mathlib.Core.List.{List, ◌∷◌}
use pulsaros_testbed.Number.{pos}
use pulsaros_testbed.Text.{before, after}
use pulsaros_testbed.Order.{join}
use pulsaros_testbed.Value.{
  Value, int, str, Fields, end, field, truthy, is_blank, put_field, as_dict, py_str,
}
use pulsaros_testbed.Render.Env.{Environ}
use pulsaros_testbed.Render.Hosts.{Host, Hosts}
use pulsaros_testbed.Render.Tokens.{Scope, resolve_token}
use pulsaros_testbed.Render.Topology.{Qinq, Resolved, render}

-- The entries of `write_env` that every document has.
unfoldable pub run_entries : Resolved → Fields
run_entries document = field "RUN_ID" (int (pos document.run_id)) (
    field "TOPOLOGY" document.name (
      field "NETWORK_MODE" (str document.network_mode)
        (field "DATAPLANE" (str document.dataplane) (field "BASE" (int (pos document.base)) end))))

-- compat.update(…), for the QinQ entries
unfoldable pub add_qinq : Qinq → Fields → Fields
add_qinq q compat = put_field "QINQ_MTU" (int (pos q.mtu)) (
    put_field "QINQ_SERVICE_VLAN" (int (pos q.service_vlan))
      (put_field "QINQ_ZONE" (str q.zone) (put_field "SDN_BRIDGE" (str q.sdn_bridge) compat)))

unfoldable pub qinq_entries : Resolved → Outcome Fields
qinq_entries document =
    if document.network_mode == "qinq"
    then elim document.qinq [
      | none ↦ raise key_error
      | some q ↦ ok (add_qinq q (run_entries document))
    ]
    else ok (run_entries document)

-- The loop over `data["compat"]`.
unfoldable pub compat_entries : Scope → Fields → Fields → Outcome Fields
compat_entries scope compat end = ok compat
compat_entries scope compat (field key value rest) =
    resolve_token scope none value >>= λ v. compat_entries scope (put_field key v compat) rest

-- The lines of topology.env.
unfoldable pub env_lines : Fields → List String
env_lines end = List.[]
env_lines (field key value rest) =
    let more = env_lines rest in
    if is_blank value then more else (key ++ ("=" ++ py_str value)) ∷ more

unfoldable pub write_env : Resolved → Outcome (List String)
write_env document = do
  entries ← qinq_entries document
  extra ← as_dict document.compat
  compat ←
      compat_entries (record { hosts = document.hosts; networks = document.networks }) entries extra
  ok (env_lines compat)

-- The text of topology.env.
unfoldable pub env_text : List String → String
unfolding join
env_text lines = join "\n" lines ++ "\n"

-- os.environ.setdefault(name, value)
unfoldable pub set_default : String → String → Environ → Environ
set_default name value environ = elim (get name environ) [
  | none ↦ put name value environ
  | some _ ↦ environ
]

unfoldable pub validation_environ : Environ → Environ
validation_environ environ = set_default "QINQ_SERVICE_VLAN_COUNT" "500" (
    set_default "QINQ_SERVICE_VLAN_BASE" "3000" (
      set_default "TEST_BRIDGE" "vmbr-test" (
        set_default "SDN_BRIDGE" "vmbr-test" (
          set_default "MGMT_BRIDGE" "vmbr0"
            (set_default "NETWORK_MODE" "qinq" (set_default "RUN_ID" "1" environ))))))

unfoldable pub cmd_validate : Environ → String → Option String → Value → Outcome (Unit {0})
cmd_validate environ path dataplane source =
    render (validation_environ environ) path none dataplane source >>= λ _. ok tt

-- data["hosts"][host]["management_ip"] = ip
unfoldable pub set_address : String → Host → Host
set_address ip h = record {
  name = h.name;
  vmid = h.vmid;
  vm_name = h.vm_name;
  groups = h.groups;
  nics = h.nics;
  ansible_vars = h.ansible_vars;
  management_ip = str ip;
}

-- One `host=ip`.
unfoldable pub update_ip : Hosts → String → Outcome Hosts
update_ip hosts item = elim (after b'=' item) [
  | none ↦ die ("expected host=ip, got " ++ item)
  | some ip ↦ elim (get (before b'=' item) hosts) [
    | none ↦ die ("unknown host for IP update: " ++ before b'=' item)
    | some h ↦ ok (put (before b'=' item) (set_address ip h) hosts)
  ]
]

unfoldable pub update_ips : Hosts → List String → Outcome Hosts
update_ips hosts host_ip = loop update_ip hosts host_ip

-- The names of the hosts without an address.
unfoldable pub missing_from : List Host → List String
missing_from List.[] = List.[]
missing_from (h ∷ hs) =
    let more = missing_from hs in if truthy h.management_ip then more else h.name ∷ more

-- The test of `cmd_ansible` on the addresses.
unfoldable pub require_ips : Hosts → Outcome (Unit {0})
require_ips hosts =
    let missing = missing_from (values hosts) in
    elim missing [
      | List.[] ↦ ok tt
      | ◌∷◌ n ns ↦ die ("missing management IPs: " ++ join ", " (n ∷ ns))
    ]
