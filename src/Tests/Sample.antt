-- ===== src/Tests/Sample.antt =====
-- Two hosts with one segment between them, and the environment of a run.
use Prim.Native.String.{String}
use pulsaros_testbed.Prelude.{
  ℕ, Bool, true, false, ◌≡◌, refl, Option, none, some, Outcome, ok, die, raise, List, [], ◌∷◌, Dict,
}
use pulsaros_testbed.Number.{pos}
use pulsaros_testbed.Value.{Value, int, str, list, dict, items, fields}
use pulsaros_testbed.Render.Env.{Environ}

-- Whether a call returned a value, and the value.
abbrev pub succeeds {ℓ} : {A : Type ℓ} → Outcome A → Bool
succeeds (ok a) = true
succeeds (die m) = false
succeeds (raise e) = false

pub false-true : false ≡ true → ⊥
false-true h = cc

module _ {ℓ} {A : Type ℓ} where
  abbrev pub value : (m : Outcome A) → succeeds m ≡ true → A
  value (ok a) h = a
  value (die m) h = absurd (false-true h)
  value (raise e) h = absurd (false-true h)

  pub value-ok : (m : Outcome A) (h : succeeds m ≡ true) → m ≡ ok (value m h)
  value-ok (ok a) h = refl
  value-ok (die m) h = absurd (false-true h)
  value-ok (raise e) h = absurd (false-true h)

module _ {ℓ} {A : Type ℓ} where
  abbrev pub is_some : Option A → Bool
  is_some none = false
  is_some (some a) = true

  abbrev pub content : (o : Option A) → is_some o ≡ true → A
  content (some a) h = a
  content none h = absurd (false-true h)

  pub content-some : (o : Option A) (h : is_some o ≡ true) → o ≡ some (content o h)
  content-some (some a) h = refl
  content-some none h = absurd (false-true h)

abbrev pub mapping : Dict Value → Value
mapping d = dict (fields d)

abbrev pub number : ℕ → Value
number n = int (pos n)

abbrev nic : String → String → ℕ → Value
nic name network offset =
    mapping (("name", str name) ∷ ("network", str network) ∷ ("mac_offset", number offset) ∷ [])

abbrev host : ℕ → List Value → Value
host offset nics = mapping (("vmid_offset", number offset) ∷ ("nics", list (items nics)) ∷ [])

abbrev network : String → ℕ → Value
network prefix vlan = mapping (("vnet_prefix", str prefix) ∷ ("inner_vlan", number vlan) ∷ [])

abbrev vtep : String → String → Value
vtep host_name ip = mapping (
    ("host", str host_name)
    ∷ ("underlay_nic", str "up")
    ∷ ("underlay_ip", str ip)
    ∷ ("local_nics", list (items (str "lan" ∷ [])))
    ∷ [])

abbrev member : String → String → Value
member host_name ip = mapping (("host", str host_name) ∷ ("nic", str "lan") ∷ ("ip", str ip) ∷ [])

abbrev segment : ℕ → Value
segment vni = mapping (
    ("vni", number vni)
    ∷ ("vteps", list (items (vtep "a" "10.0.0.1/24" ∷ vtep "b" "10.0.0.2/24" ∷ [])))
    ∷ ("members", list (items (member "a" "10.1.0.1/24" ∷ member "b" "10.1.0.2/24" ∷ [])))
    ∷ [])

abbrev pub check : Value
check = mapping (("name", str "wait") ∷ ("type", str "evpn_control_plane") ∷ [])

abbrev pub fault : Value
fault = mapping (
    ("name", str "bounce")
    ∷ ("type", str "frr_restart")
    ∷ ("segment", str "red")
    ∷ ("pairs", list (items (pair ∷ [])))
    ∷ [])
  where
    pair : Value
    pair = mapping (("source", str "a.lan") ∷ ("destination", str "b.lan") ∷ [])

abbrev pub segments : Value
segments = mapping (("red", segment 5000) ∷ ("blue", segment 5001) ∷ [])

abbrev pub topology : Value
topology = mapping (
    ("schema_version", number 1)
    ∷ ("name", str "pair")
    ∷ ("networks", mapping (("under", network "u" 100) ∷ ("lan", network "l" 200) ∷ []))
    ∷ (
      "hosts",
      mapping (
          ("a", host 1 (nic "up" "under" 16 ∷ nic "lan" "lan" 17 ∷ []))
          ∷ ("b", host 2 (nic "up" "under" 32 ∷ nic "lan" "lan" 33 ∷ []))
          ∷ []),
    )
    ∷ ("segments", segments)
    ∷ ("control_plane", mapping (("type", str "evpn") ∷ []))
    ∷ ("checks", list (items (check ∷ [])))
    ∷ ("faults", list (items (fault ∷ [])))
    ∷ [])

abbrev pub environ : Environ
environ = ("RUN_ID", "70001") ∷ []
