-- ===== src/Analysis/JunitLine.antt =====
-- The JUnit line in the text of `local_summary` of scripts/analyze-artifacts-gemini.py.
use Prim.Native.String.{String, ◌++◌}
use text.Mathlib.TextLemmas.{append_assoc, append-nil}
use pulsaros_testbed.Prelude.{
  List, [], ◌∷◌, extend, ok, ◌≡◌, refl, sym, ap, ◌∙◌, subst, >>=-elim, ok-injective,
}
use pulsaros_testbed.Number.{ℤ}
use pulsaros_testbed.Order.{join}
use pulsaros_testbed.Text.{show_ℤ}
use pulsaros_testbed.Analysis.Junit.{Element, Counts, no_counts, attrib, attrib_int, suite_counts}
use pulsaros_testbed.Analysis.Inputs.{Collected, Files, Environ, collect_inputs, glob}
use pulsaros_testbed.Analysis.Summary.{
  totals, all_failed, counts_line, failure_lines, local_summary,
}
use pulsaros_testbed.Analysis.Failures.{parse_files-totals, collect_inputs-junit}
use pulsaros_testbed.Analysis.Closing.{join-append, local_summary-Parts}
use pulsaros_testbed.Analysis.Totals.{Number, FileSum, attrib_int-Number, FileSum-loop}

-- The four numbers of a suite are those of its attributes.
suite-Numbers :
    (e : Element) (c : Counts)
    → suite_counts e ≡ ok c
    → Number "tests" (attrib e) c.tests
      × Number "failures" (attrib e) c.failures
      × Number "errors" (attrib e) c.errors
      × Number "skipped" (attrib e) c.skipped
unfolding suite_counts
suite-Numbers e c h = >>=-elim (attrib_int "tests" e) _ h λ tests q1 h1.
    >>=-elim (attrib_int "failures" e) _ h1 λ failures q2 h2.
      >>=-elim (attrib_int "errors" e) _ h2 λ errors q3 h3.
        >>=-elim (attrib_int "skipped" e) _ h3 λ skipped q4 done.
          subst
            (λ c.
              Number "tests" (attrib e) c.tests
              × Number "failures" (attrib e) c.failures
              × Number "errors" (attrib e) c.errors
              × Number "skipped" (attrib e) c.skipped)
            (ok-injective done)
            (
              attrib_int-Number "tests" e tests q1,
              attrib_int-Number "failures" e failures q2,
              attrib_int-Number "errors" e errors q3,
              attrib_int-Number "skipped" e skipped q4,
            )

join-first : (sep x : String) (ls : List String) → (r : String) × (join sep (x ∷ ls) ≡ x ++ r)
unfolding join
join-first sep x [] = ("", sym (append-nil x))
join-first sep x (l ∷ ls) = (sep ++ join sep (l ∷ ls), refl)

-- When `collect_inputs` and `local_summary` succeed, the summary has a line with four numbers,
-- which are the sums, over the files that could be parsed, of the attributes "tests", "failures",
-- "errors" and "skipped" of the suites: of the root if that is a suite, else of the suites among
-- its children. A missing attribute counts as 0.
pub local_summary-totals :
    (env : Environ) (files : Files) (data' : Collected) (s : String)
    → collect_inputs env files ≡ ok data'
    → local_summary data' ≡ ok s
    → (tests : ℤ) × (failures : ℤ) × (errors : ℤ) × (skipped : ℤ) × FileSum "tests"
        (glob ".xml" files.junit)
        tests
      × FileSum "failures" (glob ".xml" files.junit) failures
      × FileSum "errors" (glob ".xml" files.junit) errors
      × FileSum "skipped" (glob ".xml" files.junit) skipped
      × (head : String) × (rest : String) × (s
          ≡ head
            ++ ("\n"
                ++ (("- JUnit: "
                      ++ (show_ℤ tests
                          ++ (" tests, "
                              ++ (show_ℤ failures
                                  ++ (" failures, "
                                      ++ (show_ℤ errors
                                          ++ (" errors, " ++ (show_ℤ skipped ++ " skipped"))))))))
                    ++ rest)))
unfolding counts_line
local_summary-totals env files data' s collected h =
    let xml = glob ".xml" files.junit in
    let sum = totals no_counts data'.junit in
    let read =
      parse_files-totals xml data'.junit no_counts
        (collect_inputs-junit env files data' collected) in
    let p = local_summary-Parts data' s h in
    let line = counts_line sum in
    let more = extend p.middle (failure_lines (all_failed data'.junit)) in
    let head = join "\n" (p.first ∷ p.front) in
    let (r, split) = join-first "\n" line more in
    (
      sum.tests,
      sum.failures,
      sum.errors,
      sum.skipped,
      FileSum-loop "tests" (λ c. c.tests) (λ a b. refl) (λ e c q. (suite-Numbers e c q).0) xml sum
          refl read,
      FileSum-loop "failures" (λ c. c.failures) (λ a b. refl) (λ e c q. (suite-Numbers e c q).1) xml
          sum refl read,
      FileSum-loop "errors" (λ c. c.errors) (λ a b. refl) (λ e c q. (suite-Numbers e c q).2) xml sum
          refl read,
      FileSum-loop "skipped" (λ c. c.skipped) (λ a b. refl) (λ e c q. (suite-Numbers e c q).3) xml
          sum refl read,
      head,
      r ++ "\n",
      p.whole
          ∙ ap (λ t. t ++ "\n")
              (join-append "\n" p.first p.front line more ∙ ap (λ t. head ++ ("\n" ++ t)) split)
          ∙ append_assoc head ("\n" ++ (line ++ r)) "\n"
          ∙ ap (λ t. head ++ t)
              (append_assoc "\n" (line ++ r) "\n" ∙ ap (λ t. "\n" ++ t) (append_assoc line r "\n")),
    )
