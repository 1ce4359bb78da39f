-- ===== src/Render/Output/Inventory.antt =====
-- `write_inventory` of scripts/render-topology.py: the hosts of each group, as lines.
use Prim.Native.String.{String, ◌++◌}
use pulsaros_testbed.Prelude.{
  Bool, List, [], ◌∷◌, extend, snoc, values, none, some, get, Outcome, ok, raise, type_error,
  if◌then◌else◌, each, ◌>>=◌,
}
use pulsaros_testbed.Order.{join}
use pulsaros_testbed.Value.{
  Value, str, Fields, end, field, number_of, number_lt, value_eq, put_field, as_dict, iterate,
  hashable, py_str, text_lt,
}
use pulsaros_testbed.Render.Env.{Environ}
use pulsaros_testbed.Render.Hosts.{Host}
use pulsaros_testbed.Render.Tokens.{Scope, resolve_token}
use pulsaros_testbed.Render.Topology.{Resolved}
use pulsaros_testbed.Render.Output.Shape.{control_plane_type}

-- The hosts under each group. The names of groups are values: a topology may have numbers there.
abbrev pub Grouped : Type 0
Grouped = List (Value × List Host)

-- groups.setdefault(group, []).append(host), for a group with a hash
unfoldable pub add_member : Value → Host → Grouped → Grouped
unfolding value_eq
add_member group host [] = (group, host ∷ []) ∷ []
add_member group host ((g, hs) ∷ groups) =
    if value_eq g group then (g, snoc hs host) ∷ groups else (g, hs) ∷ add_member group host groups

-- The loop over the groups of one host.
unfoldable pub add_host : Host → List Value → Grouped → Outcome Grouped
unfolding hashable add_member
add_host host [] groups = ok groups
add_host host (group ∷ rest) groups =
    if hashable group then add_host host rest (add_member group host groups) else raise type_error

unfoldable pub group_hosts : List Host → Grouped → Outcome Grouped
unfolding iterate add_host
group_hosts [] groups = ok groups
group_hosts (host ∷ hosts) groups =
    iterate host.groups >>= λ names. add_host host names groups >>= λ grown. group_hosts hosts grown

-- a < b
unfoldable pub key_lt : Value → Value → Outcome Bool
unfolding number_lt text_lt number_of
key_lt (str s) (str t) = ok (text_lt s t)
key_lt (str s) w = raise type_error
key_lt v w = elim (number_lt (number_of v) (number_of w)) [
  | none ↦ raise type_error
  | some below ↦ ok below
]

-- The groups in the order of their names; names that cannot be compared are a TypeError.
unfoldable pub insert_group : Value → List Host → Grouped → Outcome Grouped
unfolding key_lt
insert_group group hosts [] = ok ((group, hosts) ∷ [])
insert_group group hosts ((g, hs) ∷ groups) = key_lt g group >>= λ behind.
    if behind
    then (insert_group group hosts groups >>= λ rest. ok ((g, hs) ∷ rest))
    else ok ((group, hosts) ∷ (g, hs) ∷ groups)

unfoldable pub sorted_groups : Grouped → Outcome Grouped
unfolding insert_group
sorted_groups [] = ok []
sorted_groups ((group, hosts) ∷ groups) =
    sorted_groups groups >>= λ rest. insert_group group hosts rest

-- The loop over the variables of a host.
unfoldable pub host_vars : Scope → Host → Fields → Fields → Outcome Fields
unfolding resolve_token put_field
host_vars scope host vars_out end = ok vars_out
host_vars scope host vars_out (field key value rest) =
    resolve_token scope (some host) value >>= λ v.
    host_vars scope host (put_field key v vars_out) rest

unfoldable pub rendered : Fields → List String
unfolding py_str
rendered end = []
rendered (field name value rest) = (name ++ ("=" ++ py_str value)) ∷ rendered rest

unfoldable pub host_line : Scope → Host → Outcome String
unfolding as_dict host_vars rendered join
host_line scope host = as_dict host.ansible_vars >>= λ vars.
    host_vars scope host (field "ansible_host" host.management_ip end) vars >>= λ vars_out.
    ok (host.name ++ (" " ++ join " " (rendered vars_out)))

unfoldable pub group_lines : Scope → Grouped → Outcome (List String)
unfolding each host_line py_str
group_lines scope [] = ok []
group_lines scope ((group, hosts) ∷ groups) = each (host_line scope) hosts >>= λ lines.
    group_lines scope groups >>= λ rest.
    ok (extend (("[" ++ (py_str group ++ "]")) ∷ lines) ("" ∷ rest))

-- os.environ.get(name, default)
unfoldable pub environ_or : Environ → String → String → String
unfolding get
environ_or environ name default = elim (get name environ) [ none ↦ default | some s ↦ s ]

unfoldable pub all_vars : Environ → Resolved → List String
unfolding environ_or
all_vars environ document =
    "[all:vars]"
    ∷ ("ansible_user=" ++ environ_or environ "ANSIBLE_USER" "pulsar")
    ∷ ("ansible_ssh_private_key_file="
        ++ environ_or environ "ANSIBLE_SSH_PRIVATE_KEY_FILE" "~/.ssh/pulsaros-testbed")
    ∷ "ansible_ssh_common_args='-o StrictHostKeyChecking=no'"
    ∷ ("vxlan_dataplane=" ++ document.dataplane)
    ∷ ("vxlan_control_plane_type=" ++ control_plane_type document.control_plane)
    ∷ ""
    ∷ []

unfoldable pub write_inventory : Environ → Resolved → Outcome (List String)
unfolding group_hosts values sorted_groups group_lines all_vars
write_inventory environ document = do
  groups ← group_hosts (values document.hosts) []
  sorted ← sorted_groups groups
  lines ← group_lines (record { hosts = document.hosts; networks = document.networks }) sorted
  ok (extend lines (all_vars environ document))
