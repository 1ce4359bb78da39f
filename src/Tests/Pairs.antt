-- ===== src/Tests/Pairs.antt =====
-- A check with one pair of members, and the pairs that its run pings.
use pulsaros_testbed.Prelude.{◌≡◌, refl, true, Outcome, ok, List, [], ◌∷◌}
use pulsaros_testbed.Value.{str, list, Fields, fields, items}
use pulsaros_testbed.Render.Segments.{Member, Segment}
use pulsaros_testbed.Render.Checks.{segment_of, validate_segment_ping_matrix_check}
use pulsaros_testbed.CheckRun.{check_pairs}
use pulsaros_testbed.CheckRun.Pairs.{check_pairs-Returns}
use pulsaros_testbed.Tests.Sample.{succeeds, value, value-ok, mapping}
use pulsaros_testbed.Tests.Program.{program}
use pulsaros_testbed.Tests.Renders.{document}

abbrev check : Fields
check = fields (
    ("segment", str "red")
    ∷ (
      "pairs",
      list (items (mapping (("source", str "a.lan") ∷ ("destination", str "b.lan") ∷ []) ∷ [])),
    )
    ∷ [])

abbrev chosen : Outcome Segment
chosen = segment_of document.segments check "check"

chosen_found : succeeds chosen ≡ true
unfolding program
chosen_found = refl

passed : validate_segment_ping_matrix_check document.segments check "check" ≡ ok tt
unfolding program
passed = refl

check_pairs-Returns_example :
    (pairs : List (Member × Member)) × (check_pairs (value chosen chosen_found) check ≡ ok pairs)
check_pairs-Returns_example =
    check_pairs-Returns document.segments (value chosen chosen_found) check "check"
      (value-ok chosen chosen_found) passed
