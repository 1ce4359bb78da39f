-- ===== src/Render/Hosts/Refs.antt =====
-- What the tests on references give: the host and the NIC are there.
use Prim.Native.String.{String}
use pulsaros_testbed.Prelude.{
  List, [], ◌∷◌, true, Option, none, some, ◌≡◌, refl, arith, ok, get, inl, inr, Bool-cases, any,
}
use pulsaros_testbed.Value.{Value, null, bool, int, float, str, list, dict, value_eq, in_keys}
use pulsaros_testbed.Render.Hosts.{
  Nic, Host, Hosts, lookup, validate_host_ref, validate_host_nic_ref, has_nic, find_nic,
  nic_by_name,
}

-- `v` is the name of a host, and that host has a NIC of the name.
pub record KnownNic (hosts : Hosts) (v nic : Value) : Type 0 where
  pub key : String
  pub host : Host
  pub named : v ≡ str key
  pub found : get key hosts ≡ some host
  pub listed : has_nic nic host.nics ≡ true

module _ (hosts : Hosts) (nic : Value) (label : String) {u : Unit {0}} where
  known_str :
      (s : String) (o : Option Host)
      → get s hosts ≡ o
      → validate_host_nic_ref hosts (str s) nic label ≡ ok u
      → KnownNic hosts (str s) nic
  unfolding validate_host_nic_ref validate_host_ref lookup in_keys
  known_str s none g h = ground arith
  known_str s (some host) g h = record {
    key = s;
    host = host;
    named = refl;
    found = g;
    listed = ground arith;
  }

  -- The test passes known references only.
  pub validate_host_nic_ref-KnownNic :
      (v : Value) → validate_host_nic_ref hosts v nic label ≡ ok u → KnownNic hosts v nic
  unfolding validate_host_nic_ref validate_host_ref lookup in_keys
  validate_host_nic_ref-KnownNic (str s) h = known_str s (get s hosts) refl h
  validate_host_nic_ref-KnownNic null h = ground arith
  validate_host_nic_ref-KnownNic (bool b) h = ground arith
  validate_host_nic_ref-KnownNic (int z) h = ground arith
  validate_host_nic_ref-KnownNic (float z k) h = ground arith
  validate_host_nic_ref-KnownNic (list vs) h = ground arith
  validate_host_nic_ref-KnownNic (dict fs) h = ground arith

  pub validate_host_nic_ref-has_nic :
      (s : String) (host : Host)
      → get s hosts ≡ some host
      → validate_host_nic_ref hosts (str s) nic label ≡ ok u
      → has_nic nic host.nics ≡ true
  unfolding validate_host_nic_ref validate_host_ref lookup in_keys
  validate_host_nic_ref-has_nic s host g h = ground arith

find_nic-has_nic :
    (nic : Value) (nics : List Nic)
    → has_nic nic nics ≡ true
    → (n : Nic) × (find_nic nic nics ≡ some n)
unfolding has_nic find_nic any
find_nic-has_nic nic [] h = ground arith
find_nic-has_nic nic (m ∷ ms) h = elim (Bool-cases (value_eq m.name nic)) [
  | inl e ↦ (m, rw e)
  | inr e ↦ let (n, f) = find_nic-has_nic nic ms (ground arith) in (n, ground arith)
]

-- A NIC that the test found is found again.
pub nic_by_name-has_nic :
    (host : Host) (nic : Value)
    → has_nic nic host.nics ≡ true
    → (n : Nic) × (nic_by_name host nic ≡ ok n)
unfolding nic_by_name
nic_by_name-has_nic host nic h =
    let (n, f) = find_nic-has_nic nic host.nics h in (n, rw (f, nic_by_name))

pub lookup-found :
    (hosts : Hosts) (s : String) (host : Host)
    → get s hosts ≡ some host
    → lookup hosts (str s) ≡ ok host
unfolding lookup
lookup-found hosts s host g = rw (g, lookup)
