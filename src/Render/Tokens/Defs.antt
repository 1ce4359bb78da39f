-- ===== src/Render/Tokens/Defs.antt =====
-- `@nic:`, `@host:` and `@network:` references, in texts at any depth of a value.
use Prim.Native.String.{String, [], ◌∷◌, ◌++◌}
use pulsaros_testbed.Prelude.{
  Bool, false, ◌==◌, Option, none, some, Outcome, ok, die, raise, value_error, key_error,
  if◌then◌else◌, Dict, get, map, ◌>>=◌, code, eqb,
}
use pulsaros_testbed.Text.{before, after, strip_prefix}
use pulsaros_testbed.Value.{
  Value, bool, int, str, list, dict, Items, nil, cons, Fields, end, field, items,
}
use pulsaros_testbed.Render.Hosts.{Network, Nic, Host, Hosts, nic_by_name}

-- The names that a reference can mean: `data["hosts"]` and `data["networks"]`.
pub record Scope : Type 0 where
  pub hosts : Hosts
  pub networks : Dict Network

-- The mapping that a NIC is in the document.
abbrev pub nic_fields : Nic → Fields
nic_fields n = field "name" n.name (
    field "network" n.network (
      field "mac_offset" (int n.mac_offset) (
        field "mac" (str n.mac)
          (field "management" (bool n.management) (field "bridge" (str n.bridge) end)))))

unfoldable pub nic_field : Nic → String → Option Value
nic_field n k =
    if k == "name"
    then some n.name
    else if k == "network"
    then some n.network
    else if k == "mac_offset"
    then some (int n.mac_offset)
    else if k == "mac"
    then some (str n.mac)
    else if k == "management"
    then some (bool n.management)
    else if k == "bridge"
    then some (str n.bridge)
    else none

unfoldable pub host_field : Host → String → Option Value
host_field h k =
    if k == "name"
    then some (str h.name)
    else if k == "vmid"
    then some (int h.vmid)
    else if k == "vm_name"
    then some (str h.vm_name)
    else if k == "groups"
    then some h.groups
    else if k == "nics"
    then some (list (items (map (λ n. dict (nic_fields n)) h.nics)))
    else if k == "ansible_vars"
    then some h.ansible_vars
    else if k == "management_ip"
    then some h.management_ip
    else none

unfoldable pub network_field : Network → String → Option Value
network_field n k =
    if k == "name"
    then some (str n.name)
    else if k == "mode"
    then some (str n.mode)
    else if k == "vnet_prefix"
    then some (str n.vnet_prefix)
    else if k == "vnet"
    then some (str n.vnet)
    else if k == "inner_vlan"
    then some (int n.inner_vlan)
    else if k == "legacy_vlan_offset"
    then some (int n.legacy_vlan_offset)
    else if k == "vlan"
    then some (int n.vlan)
    else if k == "bridge"
    then some (str n.bridge)
    else none

-- a, b = s.split(c, 1)
split_two : String → Outcome (String × String)
split_two s = elim (after b'.' s) [ none ↦ raise value_error | some t ↦ ok (before b'.' s, t) ]

-- d[k]
abbrev found {ℓ} : {A : Type ℓ} → Option A → Outcome A
found none = raise key_error
found (some a) = ok a

-- d.get(k, "")
abbrev or_empty : Option Value → Outcome Value
or_empty none = ok (str "")
or_empty (some v) = ok v

-- nic_by_name(host, nic_name)[field], for a reference "nic.field". `current_host` is missing where
-- the code passes `{}`, which has no "nics".
nic_token : Option Host → String → Outcome Value
unfolding split_two
nic_token none rest = split_two rest >>= λ _. raise key_error
nic_token (some host) rest = split_two rest >>= λ (nic_name, k).
    nic_by_name host (str nic_name) >>= λ n. found (nic_field n k)

host_token : Scope → String → Outcome Value
unfolding split_two nic_token
host_token scope rest = split_two rest >>= λ (host_name, k).
    found (get host_name scope.hosts) >>= λ host. elim (strip_prefix "nic:" k) [
      | some nic_rest ↦ nic_token (some host) nic_rest
      | none ↦ or_empty (host_field host k)
    ]

network_token : Scope → String → Outcome Value
unfolding split_two
network_token scope rest = split_two rest >>= λ (network_name, k).
    found (get network_name scope.networks) >>= λ n. or_empty (network_field n k)

-- A text that starts with `@`.
reference : Scope → Option Host → String → Outcome Value
unfolding nic_token host_token network_token
reference scope current_host value = elim (strip_prefix "@nic:" value) [
  | some rest ↦ nic_token current_host rest
  | none ↦ elim (strip_prefix "@host:" value) [
    | some rest ↦ host_token scope rest
    | none ↦ elim (strip_prefix "@network:" value) [
      | some rest ↦ network_token scope rest
      | none ↦ die ("unknown topology reference: " ++ value)
    ]
  ]
]

-- value.startswith("@")
unfoldable pub is_reference : String → Bool
is_reference [] = false
is_reference (c ∷ s) = eqb (code c) b'@'

unfoldable pub resolve_token : Scope → Option Host → Value → Outcome Value
unfolding reference
resolve_token scope current_host (str s) =
    if is_reference s then reference scope current_host s else ok (str s)
resolve_token scope current_host v = ok v

unfoldable mutual
  pub resolve_tokens : Scope → Option Host → Value → Outcome Value
  resolve_tokens scope host (dict fs) = resolve_fields scope host fs >>= λ gs. ok (dict gs)
  resolve_tokens scope host (list vs) = resolve_items scope host vs >>= λ ws. ok (list ws)
  resolve_tokens scope host (str s) = resolve_token scope host (str s)
  resolve_tokens scope host v = ok v

  pub resolve_items : Scope → Option Host → Items → Outcome Items
  resolve_items scope host nil = ok nil
  resolve_items scope host (cons v vs) =
      resolve_tokens scope host v >>= λ w. resolve_items scope host vs >>= λ ws. ok (cons w ws)

  pub resolve_fields : Scope → Option Host → Fields → Outcome Fields
  resolve_fields scope host end = ok end
  resolve_fields scope host (field k v fs) =
      resolve_tokens scope host v >>= λ w. resolve_fields scope host fs >>= λ gs. ok (field k w gs)
