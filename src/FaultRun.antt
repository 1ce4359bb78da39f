-- ===== src/FaultRun.antt =====
-- tests/test_fault_injection.py: the members that a fault is about, and the verdict on its impact.
use Prim.Native.String.{String, ◌++◌, count}
use pulsaros_testbed.Prelude.{
  ℕ, Bool, ◌==◌, not, ◌&&◌, ◌||◌, Option, none, some, Outcome, ok, die, raise, key_error,
  type_error, attribute_error, if◌then◌else◌, die_if, eqb, snoc, ◌>>=◌, ◌>>◌, List, [],
}
use pulsaros_testbed.Number.{ℤ, pos, eqℤ}
use pulsaros_testbed.Value.{
  Value, null, str, list, dict, nil, cons, Fields, field?, get_field, get_or, is_str, truthy,
  py_str, size,
}
use pulsaros_testbed.Render.Hosts.{lookup}
use pulsaros_testbed.Render.Segments.{Member, Segment, Segments}
use pulsaros_testbed.Render.Checks.{segment_members}
use pulsaros_testbed.CheckRun.{pair_of}
pub mod Passed
pub mod Impact

-- pytest.fail, which ends a test with a message, is `die`.
unfoldable pub not_one_pair : Fields → Outcome Value
not_one_pair fault = elim (field? "name" fault) [
  | none ↦ raise key_error
  | some name ↦ die (py_str name ++ ": fault must define exactly one pair")
]

-- pairs[0], behind the test on len(pairs). The keys of a mapping are texts, and none is 0.
unfoldable pub first_pair : Fields → Value → Outcome Value
first_pair fault (list (cons pair nil)) = ok pair
first_pair fault (list pairs) = not_one_pair fault
first_pair fault (str s) = if eqb (count s) 1 then ok (str s) else not_one_pair fault
first_pair fault (dict fs) = if eqb (size fs) 1 then raise key_error else not_one_pair fault
first_pair fault v = raise type_error

-- fault.get("pairs") or []
unfoldable pub pairs_or_none : Fields → Value
pairs_or_none fault = if truthy (get_field "pairs" fault) then get_field "pairs" fault else list nil

unfoldable pub fault_pair : Segment → Fields → Outcome (Member × Member)
fault_pair segment fault =
    first_pair fault (pairs_or_none fault) >>= pair_of (segment_members segment)

-- The members that `test_fault_injection` works on.
unfoldable pub fault_members : Segments → Fields → Outcome (Member × Member)
fault_members segments fault = elim (field? "segment" fault) [
  | none ↦ raise key_error
  | some name ↦ lookup segments name >>= λ segment. fault_pair segment fault
]

unfoldable pub expected_impact : Fields → Value
expected_impact fault = get_or "expected_impact" (str "outage") fault

-- How a remote command ended.
pub record Completed : Type 0 where
  pub returncode : ℤ
  pub stdout : String
  pub stderr : String

unfoldable pub has_code : ℕ → Completed → Bool
has_code n result = eqℤ result.returncode (pos n)

unfoldable pub dropped_text : String → Completed → String
dropped_text name result =
    name
    ++ (": traffic dropped during no-outage fault\nstdout:\n"
        ++ (result.stdout ++ ("\nstderr:\n" ++ result.stderr)))

unfoldable pub assert_fault_impact : Completed → String → Value → Outcome (Unit {0})
assert_fault_impact result name impact = do
  die_if (has_code 255 result) (
      name
      ++ (": ssh failed while checking expected " ++ (py_str impact ++ (":\n" ++ result.stderr))))
  die_if (is_str "outage" impact && has_code 0 result)
      (name ++ ": traffic stayed reachable during injected fault")
  die_if (is_str "no_outage" impact && not (has_code 0 result)) (dropped_text name result)
  die_if (not (is_str "outage" impact || is_str "no_outage" impact))
      (name ++ (": unsupported expected_impact " ++ py_str impact))
