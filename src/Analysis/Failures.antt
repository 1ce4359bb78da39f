-- ===== src/Analysis/Failures.antt =====
-- The suites and the failed cases of all JUnit files that scripts/analyze-artifacts-gemini.py reads.
use pulsaros_testbed.Prelude.{
  none, some, List, [], ◌∷◌, ◌++◌, All, Dict, concat, ok, ◌≡◌, ◌↔◌, refl, sym, ap, ◌∙◌, arith,
  >>=-elim, ok-injective, loop, Option-cases, inl, inr,
}
use pulsaros_testbed.Number.{ℤ, pos, negsuc, ◌+ℤ◌}
use pulsaros_testbed.Analysis.Junit.{
  Element, Xml, parsed, malformed, Counts, JunitResult, no_counts, add_counts, suite_counts,
  add_suite, suites, test_cases, failure_of, failed_case, failed_from, parse_junit_file,
}
use pulsaros_testbed.Analysis.Inputs.{parse_files, Collected, Files, Environ, collect_inputs, glob}
use pulsaros_testbed.Analysis.Summary.{totals, all_failed}

pub +ℤ_assoc : (a b c : ℤ) → (a +ℤ b) +ℤ c ≡ a +ℤ (b +ℤ c)
+ℤ_assoc (pos a) (pos b) (pos c) = ground arith
+ℤ_assoc (pos a) (pos b) (negsuc c) = ground arith
+ℤ_assoc (pos a) (negsuc b) (pos c) = ground arith
+ℤ_assoc (pos a) (negsuc b) (negsuc c) = ground arith
+ℤ_assoc (negsuc a) (pos b) (pos c) = ground arith
+ℤ_assoc (negsuc a) (pos b) (negsuc c) = ground arith
+ℤ_assoc (negsuc a) (negsuc b) (pos c) = ground arith
+ℤ_assoc (negsuc a) (negsuc b) (negsuc c) = ground arith

pub +ℤ_zero : (a : ℤ) → a +ℤ pos 0 ≡ a
+ℤ_zero (pos a) = ground arith
+ℤ_zero (negsuc a) = ground arith

add_counts_assoc : (a b c : Counts) → add_counts (add_counts a b) c ≡ add_counts a (add_counts b c)
add_counts_assoc a b c =
    rw
      (
        +ℤ_assoc a.tests b.tests c.tests,
        +ℤ_assoc a.failures b.failures c.failures,
        +ℤ_assoc a.errors b.errors c.errors,
        +ℤ_assoc a.skipped b.skipped c.skipped,
      )
      refl

add_counts_zero : (a : Counts) → add_counts a no_counts ≡ a
add_counts_zero a =
    rw (+ℤ_zero a.tests, +ℤ_zero a.failures, +ℤ_zero a.errors, +ℤ_zero a.skipped) refl

-- A loop over suites that starts from a sum adds to it what the loop from another start adds.
loop-add_suite :
    (es rest : List Element) (a b c : Counts)
    → loop add_suite b es ≡ ok c
    → loop add_suite (add_counts a b) (es ++ rest) ≡ loop add_suite (add_counts a c) rest
unfolding loop add_suite
loop-add_suite [] rest a b c h = ap (λ c. loop add_suite (add_counts a c) rest) (ok-injective h)
loop-add_suite (e ∷ es) rest a b c h = >>=-elim (add_suite b e) _ h λ b' added later.
    >>=-elim (suite_counts e) _ added λ counts read done.
      let step : add_suite (add_counts a b) e ≡ ok (add_counts a b') =
        rw (add_suite, read)
          (ap ok (add_counts_assoc a b counts ∙ ap (add_counts a) (ok-injective done))) in
      rw step (loop-add_suite es rest a b' c later)

-- The suites of all files that could be parsed, in their order.
unfoldable pub all_suites : Dict Xml → List Element
all_suites [] = []
all_suites ((name, parsed root) ∷ files) = suites root ++ all_suites files
all_suites ((name, malformed message) ∷ files) = all_suites files

-- Their test cases.
unfoldable pub all_cases : Dict Xml → List Element
all_cases [] = []
all_cases ((name, parsed root) ∷ files) = test_cases root ++ all_cases files
all_cases ((name, malformed message) ∷ files) = all_cases files

failed_from-append :
    (as' bs : List Element) → failed_from (as' ++ bs) ≡ failed_from as' ++ failed_from bs
unfolding failed_from
failed_from-append [] bs = refl
failed_from-append (e ∷ es) bs = elim (Option-cases (failure_of e)) [
  | inl passed ↦ rw (failed_from, passed) (failed_from-append es bs)
  | inr failed ↦
      rw (failed_from, failed.1)
        (ap (λ cases. failed_case e failed.0 ∷ cases) (failed_from-append es bs))
]

-- The totals of the files, from any start, by one loop over all suites.
pub parse_files-totals :
    (files : Dict Xml) (js : List JunitResult) (start : Counts)
    → parse_files files ≡ ok js
    → loop add_suite start (all_suites files) ≡ ok (totals start js)
unfolding parse_files all_suites totals loop parse_junit_file
parse_files-totals [] js start h = ap (λ js. ok (totals start js)) (ok-injective h)
parse_files-totals ((name, parsed root) ∷ files) js start h =
    >>=-elim (parse_junit_file _ (parsed root)) _ h λ j read later.
      >>=-elim (parse_files files) _ later λ rest more done.
        >>=-elim (loop add_suite no_counts (suites root)) _ read λ counts added made.
          ap (λ a. loop add_suite a (suites root ++ all_suites files)) (sym (add_counts_zero start))
          ∙ loop-add_suite (suites root) (all_suites files) start no_counts counts added
          ∙ parse_files-totals files rest (add_counts start counts) more
          ∙ ap (λ js. ok (totals start js))
              (ap (λ j. j ∷ rest) (ok-injective made) ∙ ok-injective done)
parse_files-totals ((name, malformed message) ∷ files) js start h =
    >>=-elim (parse_files files) _ h λ rest more done.
      parse_files-totals files rest start more
      ∙ ap (λ a. ok (totals a rest)) (sym (add_counts_zero start))
      ∙ ap (λ js. ok (totals start js)) (ok-injective done)

pub parse_files-failed :
    (files : Dict Xml) (js : List JunitResult)
    → parse_files files ≡ ok js
    → all_failed js ≡ failed_from (all_cases files)
unfolding parse_files all_cases all_failed concat parse_junit_file failed_from
parse_files-failed [] js h = ap all_failed (sym (ok-injective h))
parse_files-failed ((name, parsed root) ∷ files) js h =
    >>=-elim (parse_junit_file _ (parsed root)) _ h λ j read later.
      >>=-elim (parse_files files) _ later λ rest more done.
        >>=-elim (loop add_suite no_counts (suites root)) _ read λ counts added made.
          ap all_failed (sym (ap (λ j. j ∷ rest) (ok-injective made) ∙ ok-injective done))
          ∙ ap (λ cases. failed_from (test_cases root) ++ cases)
              (parse_files-failed files rest more)
          ∙ sym (failed_from-append (test_cases root) (all_cases files))
parse_files-failed ((name, malformed message) ∷ files) js h =
    >>=-elim (parse_files files) _ h
      λ rest more done. ap all_failed (sym (ok-injective done)) ∙ parse_files-failed files rest more

nonempty {ℓ} : {A : Type ℓ} (x : A) (xs : List A) → (x ∷ xs) ≡ [] → ⊥
nonempty x xs h = cc

missing {ℓ} : {A : Type ℓ} (x : A) → some x ≡ none → ⊥
missing x h = cc

pub failed_from-empty :
    (cases : List Element) → (failed_from cases ≡ []) ↔ All (λ e. failure_of e ≡ none) cases
unfolding failed_from
failed_from-empty [] = (λ h. tt, λ h. refl)
failed_from-empty (e ∷ es) = elim (Option-cases (failure_of e)) [
  | inl passed ↦ (
    λ h. (passed, (failed_from-empty es).0 (rw (failed_from, passed) at h)),
    λ h. rw (failed_from, passed) ((failed_from-empty es).1 h.1),
  )
  | inr failed ↦ (
    λ h. absurd (nonempty _ _ (rw (failed_from, failed.1) at h)),
    λ h. absurd (missing _ (sym failed.1 ∙ h.0)),
  )
]

pub collect_inputs-junit :
    (env : Environ) (files : Files) (data' : Collected)
    → collect_inputs env files ≡ ok data'
    → parse_files (glob ".xml" files.junit) ≡ ok data'.junit
unfolding collect_inputs
collect_inputs-junit env files data' h = ground arith
