-- ===== src/Tests/Session.antt =====
-- A session of the commands of scripts/render-topology.py, and the groups of an inventory.
use Prim.Native.String.{String}
use pulsaros_testbed.Prelude.{true, List, [], ◌∷◌, none, Outcome, ok, ◌≡◌, refl}
use pulsaros_testbed.Number.{pos}
use pulsaros_testbed.Order.{join, insert_entry}
use pulsaros_testbed.Value.{
  Value, str, list, dict, end, items, number_lt, text_lt, py_str, is_blank,
}
use pulsaros_testbed.Render.Hosts.{Host}
use pulsaros_testbed.Render.Output.{
  run_entries, add_qinq, qinq_entries, compat_entries, env_lines, write_env, set_address, update_ip,
  update_ips, missing_from, require_ips, add_member, add_host, group_hosts, key_lt, insert_group,
  sorted_groups, host_vars, rendered, host_line, group_lines, environ_or, all_vars, write_inventory,
  write_playbook, Artifacts, then_files, done, set_topology, write_both, load_resolved,
  previous_document, cmd_render, cmd_update_ips, cmd_ansible, Grouped, sort_dict, sort_value,
  stored_nic, stored_host, stored_local, stored_vtep, stored_member, stored_segment, stored_control,
  stored_plane, stored,
}
use pulsaros_testbed.Render.Output.Agreement.{
  Command, render_file, update, ansible, issue, issue_all, Agrees, session-Agrees,
}
use pulsaros_testbed.Render.Output.Groups.{members, times, naming, sorted_groups-naming}
use pulsaros_testbed.Tests.Sample.{mapping, environ, topology, succeeds, value, value-ok}
use pulsaros_testbed.Tests.Program.{program}

-- A theorem that unfolds this one computes with all definitions of the commands.
unfoldable commands : Unit {0}
unfolding program number_lt text_lt py_str is_blank run_entries add_qinq qinq_entries compat_entries
    env_lines write_env set_address update_ip update_ips missing_from require_ips add_member
    add_host group_hosts key_lt insert_group sorted_groups host_vars rendered host_line group_lines
    environ_or all_vars write_inventory write_playbook then_files done set_topology write_both
    load_resolved previous_document cmd_render cmd_update_ips cmd_ansible issue issue_all members
    times naming join insert_entry sort_dict sort_value stored_nic stored_host stored_local
    stored_vtep stored_member stored_segment stored_control stored_plane stored
commands = tt

sorts_keys :
    sort_value
      (mapping (("b", mapping (("z", str "1") ∷ ("y", str "2") ∷ [])) ∷ ("a", str "3") ∷ []))
    ≡ mapping (("a", str "3") ∷ ("b", mapping (("y", str "2") ∷ ("z", str "1") ∷ [])) ∷ [])
unfolding commands
sorts_keys = refl

abbrev nothing : Artifacts
nothing = record { topology = none; env = none; inventory = none; playbook = none }

abbrev session : List Command
session =
    render_file "pair.yml" none topology
    ∷ update ("a=192.0.2.1" ∷ "b=192.0.2.2" ∷ [])
    ∷ ansible
    ∷ []

finishes : (issue_all environ session nothing).result ≡ ok tt
unfolding commands
finishes = refl

session-Agrees_example : Agrees (issue_all environ session nothing).files
session-Agrees_example =
    session-Agrees environ "pair.yml" none topology
      (update ("a=192.0.2.1" ∷ "b=192.0.2.2" ∷ []) ∷ ansible ∷ []) nothing finishes

abbrev host : String → List Value → Host
host name groups = record {
  name = name;
  vmid = pos 200001;
  vm_name = name;
  groups = list (items groups);
  nics = [];
  ansible_vars = dict end;
  management_ip = str "192.0.2.1";
}

abbrev hosts : List Host
hosts = host "a" (str "vteps" ∷ str "clients" ∷ []) ∷ host "b" (str "vteps" ∷ []) ∷ []

abbrev grouped : Outcome Grouped
grouped = group_hosts hosts []

groups : succeeds grouped ≡ true
unfolding commands
groups = refl

abbrev sorted : Outcome Grouped
sorted = sorted_groups (value grouped groups)

sorts : succeeds sorted ≡ true
unfolding commands
sorts = refl

sorted_groups-naming_example : members "vteps" (value sorted sorts) ≡ naming "vteps" hosts
sorted_groups-naming_example =
    sorted_groups-naming "vteps" hosts (value grouped groups) (value sorted sorts)
      (value-ok grouped groups) (value-ok sorted sorts)
