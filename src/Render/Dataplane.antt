-- ===== src/Render/Dataplane.antt =====
-- `resolve_dataplane` and `filter_for_dataplane` of scripts/render-topology.py.
pub mod Filtered
use Prim.Native.String.{String, ◌++◌}
use pulsaros_testbed.Prelude.{
  ℕ, suc, Bool, true, false, not, ◌==◌, Option, none, some, Outcome, ok, die, raise, type_error,
  if◌then◌else◌, any, all, get, ◌>>=◌, select, ◌∷◌,
}
use mathlib.Core.List.{List}
use pulsaros_testbed.Text.{show_ℕ}
use pulsaros_testbed.Order.{sorted_set, join}
use pulsaros_testbed.Value.{
  Value, null, str, list, dict, cons, elems, truthy, is_str, field?, hashable, iterate,
  without_field,
}
use pulsaros_testbed.Render.Env.{Environ}

abbrev pub dataplanes : List String
dataplanes = "linux-vxlan" ∷ "pulsaros-dpdk" ∷ "pulsaros-netstack" ∷ List.[]

unfoldable pub is_dataplane : String → Bool
is_dataplane s = any (λ d. d == s) dataplanes

-- os.environ.get("DATAPLANE", "linux-vxlan")
environ_dataplane : Environ → String
environ_dataplane env = elim (get "DATAPLANE" env) [ none ↦ "linux-vxlan" | some d ↦ d ]

-- value or …
chosen : Environ → Option String → String
unfolding environ_dataplane
chosen env none = environ_dataplane env
chosen env (some value) = if value == "" then environ_dataplane env else value

unfoldable pub resolve_dataplane : Environ → Option String → Outcome String
unfolding chosen
resolve_dataplane env value =
    let dataplane = chosen env value in
    if is_dataplane dataplane
    then ok dataplane
    else die ("dataplane must be one of " ++ (join ", " dataplanes ++ (", got: " ++ dataplane)))

is_text : Value → Bool
is_text (str s) = true
is_text _ = false

texts : List Value → List String
texts List.[] = List.[]
texts (str s ∷ vs) = s ∷ texts vs
texts (_ ∷ vs) = texts vs

known_value : Value → Bool
known_value (str s) = is_dataplane s
known_value _ = false

-- The test on `set(supported) - set(DATAPLANES)`. What has no hash raises in `set`, and a value
-- that is no text raises in `sorted` or in `join`.
unfoldable pub supports : String → String → List Value → Outcome Bool
unfolding is_text texts known_value
supports label dataplane supported =
    let unknown = select (λ v. not (known_value v)) supported in
    if all hashable supported
    then elim unknown [
      | List.[] ↦ ok (any (is_str dataplane) supported)
      | ◌∷◌ u us ↦
          if all is_text (u ∷ us)
          then die (
              label ++ (" has unsupported dataplanes: " ++ join ", " (sorted_set (texts (u ∷ us)))))
          else raise type_error
    ]
    else raise type_error

abbrev nonempty_list : String → Value → Outcome (List Value)
nonempty_list label (list (cons v vs)) = ok (v ∷ elems vs)
nonempty_list label _ = die (label ++ " dataplanes must be a non-empty list")

-- The test on the field `dataplanes`: a missing field and `null` are supported everywhere.
unfoldable pub selects : String → String → Option Value → Outcome Bool
selects label dataplane none = ok true
selects label dataplane (some null) = ok true
selects label dataplane (some v) = nonempty_list label v >>= supports label dataplane

-- One item: what it adds to `selected`.
unfoldable pub filter_item : String → String → Value → Outcome (List Value)
filter_item label dataplane (dict fs) = selects label dataplane (field? "dataplanes" fs) >>= λ kept.
    ok (if kept then dict (without_field "dataplanes" fs) ∷ List.[] else List.[])
filter_item label dataplane v = ok (v ∷ List.[])

abbrev pub append : List Value → List Value → List Value
append List.[] ys = ys
append (x ∷ xs) ys = x ∷ append xs ys

unfoldable pub filter_from : ℕ → List Value → String → String → Outcome (List Value)
filter_from index List.[] dataplane label = ok List.[]
filter_from index (item ∷ rest) dataplane label =
    filter_item (label ++ (" " ++ show_ℕ index)) dataplane item >>= λ kept.
    filter_from (suc index) rest dataplane label >>= λ more. ok (append kept more)

unfoldable pub filter_for_dataplane : Value → String → String → Outcome (List Value)
filter_for_dataplane items dataplane label =
    if truthy items then (iterate items >>= λ vs. filter_from 0 vs dataplane label) else ok List.[]
