-- ===== src/Render/Topology/Build.antt =====
-- The loops of `render` over the networks and over the hosts.
use Prim.Native.String.{String, ◌++◌}
use pulsaros_testbed.Prelude.{
  ℕ, ◌+◌, ◌%◌, List, [], ◌∷◌, Bool, false, not, ◌==◌, ◌||◌, none, Outcome, ok, die, if◌then◌else◌,
  die_if, Dict, put, map, ◌>>=◌, ◌>>◌,
}
use pulsaros_testbed.Number.{ℤ, pos, ◌+ℤ◌}
use pulsaros_testbed.Text.{show_ℕ, show_ℤ, pad, is_name, is_vnet_prefix}
use pulsaros_testbed.Value.{
  Value, bool, int, str, list, dict, nil, Fields, end, field, truthy, is_str, get_field, get_or,
  to_int, as_dict, iterate, in_keys, py_str,
}
use pulsaros_testbed.Render.Env.{Environ, env_str, mac_for}
use pulsaros_testbed.Render.Unique.{validate_unique}
use pulsaros_testbed.Render.Hosts.{Network, Nic, Host, Hosts, lookup}

-- The local variables of `render` that both loops read.
pub record Run : Type 0 where
  pub environ : Environ
  pub run_id : ℕ
  pub qinq : Bool

abbrev pub run_suffix : Run → String
run_suffix run = pad 6 (show_ℕ (run.run_id % 1000000))

abbrev pub base : Run → ℕ
base run = 200000 + run.run_id % 50000

abbrev pub legacy_vlan_base : Run → ℕ
legacy_vlan_base run = 3000 + run.run_id % 500

-- network.get("mode", "access") behind its test
unfoldable pub read_mode : String → Value → Outcome String
read_mode name (str s) =
    if s == "access" || s == "trunk"
    then ok s
    else die ("network " ++ (name ++ " mode must be access or trunk"))
read_mode name _ = die ("network " ++ (name ++ " mode must be access or trunk"))

unfoldable pub read_prefix : String → Value → Outcome String
read_prefix name (str s) =
    if is_vnet_prefix s
    then ok s
    else die ("network " ++ (name ++ " must define a one or two character vnet_prefix"))
read_prefix name _ = die ("network " ++ (name ++ " must define a one or two character vnet_prefix"))

network_vlan : Run → ℤ → ℤ → ℤ
network_vlan run inner_vlan legacy_offset =
    if run.qinq then inner_vlan else pos (legacy_vlan_base run) +ℤ legacy_offset

network_bridge : Run → String → ℤ → Outcome String
network_bridge run vnet vlan =
    if run.qinq
    then ok vnet
    else (env_str run.environ "TEST_BRIDGE" none >>= λ b. ok (b ++ (",tag=" ++ show_ℤ vlan)))

unfoldable pub build_network : Run → String → Value → Outcome Network
unfolding network_vlan network_bridge
build_network run name network = do
  die_if (not (is_name name)) ("invalid network name: " ++ name)
  fs ← as_dict network
  mode ← read_mode name (get_or "mode" (str "access") fs)
  prefix ← read_prefix name (get_field "vnet_prefix" fs)
  inner_vlan ← to_int (get_field "inner_vlan" fs)
  legacy_offset ← to_int (get_or "legacy_vlan_offset" (int inner_vlan) fs)
  let vlan = network_vlan run inner_vlan legacy_offset
  let vnet = if run.qinq then prefix ++ run_suffix run else ""
  bridge ← network_bridge run vnet vlan
  ok (record {
    name = name;
    mode = mode;
    vnet_prefix = prefix;
    vnet = vnet;
    inner_vlan = inner_vlan;
    legacy_vlan_offset = legacy_offset;
    vlan = vlan;
    bridge = bridge;
  })

unfoldable pub build_networks : Run → Dict Network → Fields → Outcome (Dict Network)
build_networks run networks end = ok networks
build_networks run networks (field name network rest) =
    build_network run name network >>= λ n. build_networks run (put name n networks) rest

-- if network_name != "management" and network_name not in networks: die(…)
check_network : Dict Network → Value → String → Outcome (Unit {0})
check_network networks network_name message =
    if is_str "management" network_name
    then ok tt
    else (in_keys network_name networks >>= λ known. die_if (not known) message)

nic_bridge : Run → Dict Network → Value → Fields → Outcome String
nic_bridge run networks network_name fs =
    if truthy (get_field "management" fs)
    then env_str run.environ "MGMT_BRIDGE" none
    else (lookup networks network_name >>= λ n. ok n.bridge)

unfoldable pub build_nic : Run → Dict Network → String → Value → Outcome Nic
unfolding check_network nic_bridge
build_nic run networks host_name nic = do
  fs ← as_dict nic
  let nic_name = get_field "name" fs
  let network_name = get_field "network" fs
  check_network networks network_name (
      "host "
      ++ (host_name
          ++ (" nic "
              ++ (py_str nic_name ++ (" references unknown network " ++ py_str network_name)))))
  mac_offset ← to_int (get_field "mac_offset" fs)
  bridge ← nic_bridge run networks network_name fs
  ok (record {
    name = nic_name;
    network = network_name;
    mac_offset = mac_offset;
    mac = mac_for run.run_id mac_offset;
    management = truthy (get_or "management" (bool false) fs);
    bridge = bridge;
  })

-- for nic in host.get("nics", []): the NICs in order
unfoldable pub build_nics : Run → Dict Network → String → List Value → Outcome (List Nic)
build_nics run networks host_name [] = ok []
build_nics run networks host_name (nic ∷ rest) = build_nic run networks host_name nic >>= λ n.
    build_nics run networks host_name rest >>= λ ns. ok (n ∷ ns)

-- previous_hosts.get(name, {}).get("management_ip", "")
unfoldable pub previous_ip : Value → String → Outcome Value
previous_ip previous_hosts name = do
  hs ← as_dict previous_hosts
  h ← as_dict (get_or name (dict end) hs)
  ok (get_or "management_ip" (str "") h)

unfoldable pub build_host : Run → Dict Network → Value → String → Value → Outcome Host
build_host run networks previous_hosts name host = do
  die_if (not (is_name name)) ("invalid host name: " ++ name)
  fs ← as_dict host
  vmid_offset ← to_int (get_field "vmid_offset" fs)
  raw_nics ← iterate (get_or "nics" (list nil) fs)
  nics ← build_nics run networks name raw_nics
  validate_unique (map (λ n. n.name) nics) (name ++ " nic name")
  ip ← previous_ip previous_hosts name
  ok (record {
    name = name;
    vmid = pos (base run) +ℤ vmid_offset;
    vm_name = "pulsar-" ++ (show_ℕ run.run_id ++ ("-" ++ name));
    groups = get_or "groups" (list nil) fs;
    nics = nics;
    ansible_vars = get_or "ansible_vars" (dict end) fs;
    management_ip = ip;
  })

unfoldable pub build_hosts : Run → Dict Network → Value → Hosts → Fields → Outcome Hosts
build_hosts run networks previous_hosts hosts end = ok hosts
build_hosts run networks previous_hosts hosts (field name host rest) =
    build_host run networks previous_hosts name host >>= λ h.
    build_hosts run networks previous_hosts (put name h hosts) rest

-- The NICs of all hosts, in the order of the two loops. The keys of a mapping differ, so no host
-- is replaced by a later one.
unfoldable pub nics_before : List Nic → List Nic → List Nic
nics_before [] rest = rest
nics_before (n ∷ ns) rest = n ∷ nics_before ns rest

unfoldable pub nics_of : Hosts → List Nic
nics_of [] = []
nics_of ((name, host) ∷ rest) = nics_before host.nics (nics_of rest)

unfoldable pub all_mac_offsets : Hosts → List Value
all_mac_offsets hosts = map (λ n. int n.mac_offset) (nics_of hosts)
