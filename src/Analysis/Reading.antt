-- ===== src/Analysis/Reading.antt =====
-- What `collect_inputs` of scripts/analyze-artifacts-gemini.py takes from the texts of a run.
use Prim.Native.String.{String, ◌++◌, count}
use text.Mathlib.TextLemmas.{append_cancel_left, length-nil}
use pulsaros_testbed.Prelude.{
  ℕ, ◌≤◌, ◌<◌, Option, none, some, List, [], ◌∷◌, All, Dict, get, ok, ◌≡◌, ◌∙◌, refl, sym, subst,
  ok-injective, Option-cases, ◌>>=◌, loop, arith, Bool-cases, inl, inr, >>=-elim, ◌==◌, ◌||◌, not,
  false, eq_iff, leb,
}
use pulsaros_testbed.Text.{last, last-lem}
use pulsaros_testbed.Analysis.Entries.{Entry, file, directory, read_text}
use pulsaros_testbed.Analysis.Redact.{redact}
use pulsaros_testbed.Analysis.Junit.{
  Element, Xml, parsed, malformed, JunitResult, failed_case, failed_from, node_text, failure_of,
  parse_junit_file, add_suite, no_counts, suites, test_cases,
}
use pulsaros_testbed.Analysis.Topology.{topology_summary}
use mathlib.Core.Bool.{true≢false}
use pulsaros_testbed.Analysis.Inputs.{
  read_redacted, sample_logs, is_sample, artifact_texts, is_report, is_file, is_text_file,
  parse_files, collect_inputs, read_json, Collected, Files, Environ, glob, sorted_entries,
}

-- A text that was cut to a number of characters and then redacted.
unfoldable pub Masked : ℕ → String → Type 0
Masked limit t = (s : String) × (count s ≤ limit) × (t ≡ redact s)

read_redacted-Masked :
    (limit : ℕ) (entry : Option Entry) (t : String)
    → 0 < limit
    → read_redacted limit entry ≡ ok t
    → Masked limit t
unfolding read_redacted read_text Masked
read_redacted-Masked limit none t h e = ("", omega (arith, length-nil), ground arith)
read_redacted-Masked limit (some (directory bytes)) t h e = ground arith
read_redacted-Masked limit (some (file text bytes)) t h e =
    elim (Bool-cases (leb (count text) limit)) [
      | inl short ↦ (text, ground arith, ground arith)
      | inr long ↦ (last limit text, (last-lem limit text h).0, ground arith)
    ]

sample_logs-Masked :
    (logs : Dict Entry) (ts : Dict String)
    → sample_logs logs ≡ ok ts
    → All (λ e. Masked 4000 e.1) ts
unfolding sample_logs
sample_logs-Masked [] ts h = subst (All (λ e. Masked 4000 e.1)) (ok-injective h) tt
sample_logs-Masked ((name, entry) ∷ logs) ts h = elim (Bool-cases (is_sample name)) [
  | inl sampled ↦
      let h' : (read_redacted 4000 (some entry) >>= λ text.
      sample_logs logs >>= λ rest. ok (("logs/" ++ name, text) ∷ rest))
          ≡ ok ts =
        rw sampled at h in
      >>=-elim (read_redacted 4000 (some entry)) _ h' λ text read later.
        >>=-elim (sample_logs logs) _ later λ rest sampled' done.
          subst (All (λ e. Masked 4000 e.1)) (ok-injective done) (
            read_redacted-Masked 4000 (some entry) text (omega arith) read,
            sample_logs-Masked logs rest sampled',
          )
  | inr other ↦ sample_logs-Masked logs ts (rw other at h)
]

module _ (name : String) (entry : Entry) (entries : Dict Entry) where
  -- What the loop does to an artifact whose text it takes.
  taken :
      (ts : Dict String)
      → (read_redacted 12000 (some entry) >>= λ text.
          artifact_texts entries >>= λ rest. ok (("artifacts/" ++ name, text) ∷ rest))
        ≡ ok ts
      → (text : String) × (rest : Dict String) × (ts ≡ ("artifacts/" ++ name, text) ∷ rest)
        × Masked 12000 text
        × (artifact_texts entries ≡ ok rest)
  taken ts h = >>=-elim (read_redacted 12000 (some entry)) _ h λ text read later.
      >>=-elim (artifact_texts entries) _ later λ rest more done. (
        text,
        rest,
        sym (ok-injective done),
        read_redacted-Masked 12000 (some entry) text (omega arith) read,
        more,
      )

-- Two names in one directory.
apart_path :
    (name other : String)
    → (name == other) ≡ false
    → (("artifacts/" ++ name) == ("artifacts/" ++ other)) ≡ false
apart_path name other h = elim (Bool-cases (("artifacts/" ++ name) == ("artifacts/" ++ other))) [
  | inr apart' ↦ apart'
  | inl same ↦ absurd (
      true≢false (
        sym
          ((eq_iff name other).1 (append_cancel_left "artifacts/" name other ((eq_iff _ _).0 same)))
        ∙ h))
]

artifact_texts-lem :
    (entries : Dict Entry) (ts : Dict String)
    → artifact_texts entries ≡ ok ts
    → All (λ e. Masked 12000 e.1) ts
      × (get "artifacts/ai-analysis.md" ts ≡ none)
      × (get "artifacts/ai-analysis-input.json" ts ≡ none)
unfolding artifact_texts get is_report
artifact_texts-lem [] ts h =
    subst
      (λ ts.
        All (λ e. Masked 12000 e.1) ts
        × (get "artifacts/ai-analysis.md" ts ≡ none)
        × (get "artifacts/ai-analysis-input.json" ts ≡ none))
      (ok-injective h) (tt, refl, refl)
artifact_texts-lem ((name, entry) ∷ entries) ts h =
    elim (Bool-cases (is_report name || not (is_file entry))) [
      | inl skipped ↦ artifact_texts-lem entries ts (rw skipped at h)
      | inr kept ↦ elim (Bool-cases (is_text_file name)) [
        | inr other ↦ artifact_texts-lem entries ts (rw (kept, other) at h)
        | inl wanted ↦
            let (text, rest, same, masked, more) =
              taken name entry entries ts (rw (kept, wanted) at h) in
            let later = artifact_texts-lem entries rest more in
            rw
              (
                same,
                apart_path name "ai-analysis.md" (ground arith),
                apart_path name "ai-analysis-input.json" (ground arith),
              )
              ((masked, later.0), later.1, later.2)
      ]
    ]

failed_from-Masked : (cases : List Element) → All (λ c. Masked 2000 c.text) (failed_from cases)
unfolding failed_from failed_case Masked
failed_from-Masked [] = tt
failed_from-Masked (case' ∷ cases) = elim (Option-cases (failure_of case')) [
  | inl passed ↦ rw (failed_from, passed) (failed_from-Masked cases)
  | inr failed ↦
      rw (failed_from, failed.1)
        (
          (
            last 2000 (node_text failed.0),
            (last-lem 2000 (node_text failed.0) (omega arith)).0,
            refl,
          ),
          failed_from-Masked cases,
        )
]

parse_junit_file-Masked :
    (path : String) (xml : Xml) (j : JunitResult)
    → parse_junit_file path xml ≡ ok j
    → All (λ c. Masked 2000 c.text) j.failed_cases
unfolding parse_junit_file
parse_junit_file-Masked path (malformed message) j h =
    subst (λ j. All (λ c. Masked 2000 c.text) j.failed_cases) (ok-injective h) tt
parse_junit_file-Masked path (parsed root) j h =
    >>=-elim (loop add_suite no_counts (suites root)) _ h λ counts added done.
      subst (λ j. All (λ c. Masked 2000 c.text) j.failed_cases) (ok-injective done)
        (failed_from-Masked (test_cases root))

parse_files-Masked :
    (files : Dict Xml) (js : List JunitResult)
    → parse_files files ≡ ok js
    → All (λ j. All (λ c. Masked 2000 c.text) j.failed_cases) js
unfolding parse_files
parse_files-Masked [] js h =
    subst (All (λ j. All (λ c. Masked 2000 c.text) j.failed_cases)) (ok-injective h) tt
parse_files-Masked ((name, xml) ∷ files) js h =
    >>=-elim (parse_junit_file ("junit/" ++ name) xml) _ h λ j read later.
      >>=-elim (parse_files files) _ later λ rest more done.
        subst (All (λ j. All (λ c. Masked 2000 c.text) j.failed_cases)) (ok-injective done) (
          parse_junit_file-Masked ("junit/" ++ name) xml j read,
          parse_files-Masked files rest more,
        )

-- When `collect_inputs` succeeds, what it holds as `topology_env`, as `artifact_text`, as
-- `log_samples` and as the `text` of each failed case is what `redact` makes of texts of at most
-- 12000, 12000, 4000 and 2000 characters, and neither report of an earlier run is in
-- `artifact_text`.
pub collect_inputs-Masked :
    (env : Environ) (files : Files) (data' : Collected)
    → collect_inputs env files ≡ ok data'
    → Masked 12000 data'.topology_env
      × All (λ e. Masked 12000 e.1) data'.artifact_text
      × All (λ e. Masked 4000 e.1) data'.log_samples
      × All (λ j. All (λ c. Masked 2000 c.text) j.failed_cases) data'.junit
      × (get "artifacts/ai-analysis.md" data'.artifact_text ≡ none)
      × (get "artifacts/ai-analysis-input.json" data'.artifact_text ≡ none)
unfolding collect_inputs
collect_inputs-Masked env files data' h =
    >>=-elim (read_json files.topology) _ h λ document h1 later.
      >>=-elim (topology_summary document) _ later λ topology h2 later.
        >>=-elim (read_json files.run_state) _ later λ run_state h3 later.
          >>=-elim (read_json files.perf_metrics) _ later λ perf_metrics h4 later.
            >>=-elim (read_json files.fault_results) _ later λ fault_results h5 later.
              >>=-elim (parse_files (glob ".xml" files.junit)) _ later λ junit h6 later.
                >>=-elim (sample_logs (glob ".log" files.logs)) _ later λ samples h7 later.
                  >>=-elim (artifact_texts (sorted_entries files.artifacts)) _ later
                    λ texts h8 later.
                      >>=-elim (read_redacted 12000 (get "topology.env" files.artifacts)) _ later
                        λ topology_env h9 done.
                          let kept = artifact_texts-lem (sorted_entries files.artifacts) texts h8 in
                          rw (sym (ok-injective done)) (
                            read_redacted-Masked 12000 (get "topology.env" files.artifacts)
                                topology_env (omega arith) h9,
                            kept.0,
                            sample_logs-Masked (glob ".log" files.logs) samples h7,
                            parse_files-Masked (glob ".xml" files.junit) junit h6,
                            kept.1,
                            kept.2,
                          )
