-- ===== src/Render/Hosts.antt =====
-- The resolved networks and hosts, and the references to them: `validate_host_ref`,
-- `validate_host_nic_ref` and `nic_by_name` of scripts/render-topology.py.
pub mod Refs
use Prim.Native.String.{String, ◌++◌}
use pulsaros_testbed.Prelude.{
  List, [], ◌∷◌, Bool, Option, none, some, Outcome, ok, die, raise, key_error, type_error,
  if◌then◌else◌, any, Dict, get, ◌>>=◌, ◌>>◌, not, die_if,
}
use pulsaros_testbed.Number.{ℤ}
use pulsaros_testbed.Value.{Value, str, list, dict, value_eq, py_str, in_keys}

pub record Network : Type 0 where
  pub name : String
  pub mode : String
  pub vnet_prefix : String
  pub vnet : String
  pub inner_vlan : ℤ
  pub legacy_vlan_offset : ℤ
  pub vlan : ℤ
  pub bridge : String

-- `name` and `network` are as the topology file has them.
pub record Nic : Type 0 where
  pub name : Value
  pub network : Value
  pub mac_offset : ℤ
  pub mac : String
  pub management : Bool
  pub bridge : String

pub record Host : Type 0 where
  pub name : String
  pub vmid : ℤ
  pub vm_name : String
  pub groups : Value
  pub nics : List Nic
  pub ansible_vars : Value
  pub management_ip : Value

abbrev pub Hosts : Type 0
Hosts = Dict Host

-- d[key], for a dictionary with text keys
unfoldable pub lookup {ℓ} : {A : Type ℓ} → Dict A → Value → Outcome A
lookup d (str s) = elim (get s d) [ none ↦ raise key_error | some a ↦ ok a ]
lookup d (list vs) = raise type_error
lookup d (dict fs) = raise type_error
lookup d _ = raise key_error

unfoldable pub validate_host_ref : Hosts → Value → String → Outcome (Unit {0})
validate_host_ref hosts host_name label = do
  known ← in_keys host_name hosts
  die_if (not known) (label ++ (" references unknown host " ++ py_str host_name))

unfoldable pub has_nic : Value → List Nic → Bool
has_nic nic_name nics = any (λ nic. value_eq nic.name nic_name) nics

unfoldable pub validate_host_nic_ref : Hosts → Value → Value → String → Outcome (Unit {0})
validate_host_nic_ref hosts host_name nic_name label = do
  validate_host_ref hosts host_name label
  host ← lookup hosts host_name
  die_if (not (has_nic nic_name host.nics))
      (label ++ (" references unknown nic " ++ (py_str host_name ++ ("." ++ py_str nic_name))))

unfoldable pub find_nic : Value → List Nic → Option Nic
find_nic nic_name [] = none
find_nic nic_name (nic ∷ nics) =
    if value_eq nic.name nic_name then some nic else find_nic nic_name nics

unfoldable pub nic_by_name : Host → Value → Outcome Nic
nic_by_name host nic_name = elim (find_nic nic_name host.nics) [
  | none ↦ die ("host " ++ (host.name ++ (" has no nic " ++ py_str nic_name)))
  | some nic ↦ ok nic
]
