-- ===== src/Render/Unique.antt =====
-- `validate_unique` of scripts/render-topology.py.
pub mod Exact
use Prim.Native.String.{String, ◌++◌}
use pulsaros_testbed.Prelude.{
  List, [], ◌∷◌, Outcome, ok, die, raise, type_error, if◌then◌else◌, any,
}
use pulsaros_testbed.Value.{Value, value_eq, hashable, py_str}

-- The loop, with the values seen so far. A value with no hash raises at `value in seen`.
unfoldable pub unique_from : List Value → List Value → String → Outcome (Unit {0})
unique_from seen [] label = ok tt
unique_from seen (value ∷ rest) label =
    let next = unique_from (value ∷ seen) rest label in
    if hashable value
    then if any (λ s. value_eq s value) seen
      then die ("duplicate " ++ (label ++ (": " ++ py_str value)))
      else next
    else raise type_error

unfoldable pub validate_unique : List Value → String → Outcome (Unit {0})
validate_unique values label = unique_from [] values label
