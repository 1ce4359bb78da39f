-- ===== src/Tests/Faults.antt =====
-- The fault of the small topology, as the test run reads it.
use pulsaros_testbed.Prelude.{
  ◌≡◌, ◌≢◌, ◌↔◌, ◌⊎◌, refl, true, Outcome, ok, raise, key_error, List, [], ◌∷◌, All,
}
use pulsaros_testbed.Number.{pos}
use pulsaros_testbed.Value.{Value, str, list, end, items}
use pulsaros_testbed.Render.Faults.{validate_faults}
use pulsaros_testbed.FaultRun.{Completed, fault_members, assert_fault_impact}
use pulsaros_testbed.FaultRun.Passed.{IsRunnable, validate_faults-IsRunnable}
use pulsaros_testbed.FaultRun.Impact.{assert_fault_impact_iff}
use pulsaros_testbed.Tests.Sample.{succeeds, value, value-ok, fault}
use pulsaros_testbed.Tests.Program.{program}
use pulsaros_testbed.Tests.Renders.{document}

abbrev checked : Outcome (List Value)
checked = validate_faults (list (items (fault ∷ []))) document.segments document.control_plane

checked_passes : succeeds checked ≡ true
unfolding program
checked_passes = refl

validate_faults-IsRunnable_example :
    All (IsRunnable document.segments) (value checked checked_passes)
validate_faults-IsRunnable_example =
    validate_faults-IsRunnable document.segments document.control_plane (list (items (fault ∷ [])))
      (value checked checked_passes) (value-ok checked checked_passes)

lacks_segment : fault_members document.segments end ≡ raise key_error
unfolding program fault_members
lacks_segment = refl

abbrev lost : Completed
lost = record { returncode = pos 1; stdout = ""; stderr = "" }

assert_fault_impact_iff_example : (assert_fault_impact lost "cut" (str "outage") ≡ ok tt) ↔ (
    ((str "outage" ≡ str "outage") × (pos 1 ≢ pos 0) × (pos 1 ≢ pos 255))
    ⊎ ((str "outage" ≡ str "no_outage") × (pos 1 ≡ pos 0)))
assert_fault_impact_iff_example = assert_fault_impact_iff lost "cut" (str "outage")
