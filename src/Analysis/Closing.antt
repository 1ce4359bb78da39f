-- ===== src/Analysis/Closing.antt =====
-- The text of `local_summary` of scripts/analyze-artifacts-gemini.py: its line on JUnit and its last
-- part.
use Prim.Native.String.{String, ◌++◌}
use mathlib.Core.List.{append-nil, append_assoc as list_append_assoc}
use text.Mathlib.TextLemmas.{append_assoc}
use pulsaros_testbed.Prelude.{
  List, [], ◌∷◌, extend, concat, ok, ◌≡◌, ◌⊎◌, refl, sym, ap, ◌∙◌, length, >>=-elim, ok-injective,
  inl, inr,
}
use pulsaros_testbed.Order.{join}
use pulsaros_testbed.Text.{show_ℕ}
use pulsaros_testbed.Analysis.Junit.{Case, no_counts, failed_from}
use pulsaros_testbed.Analysis.Inputs.{Collected, Files, Environ, collect_inputs, glob}
use pulsaros_testbed.Analysis.Summary.{
  or_else, topology_lines, pcap_lines, state_lines, probe_lines, fault_lines, totals, all_failed,
  counts_line, case_lines, failure_lines, local_summary,
}
use pulsaros_testbed.Analysis.Failures.{
  all_cases, parse_files-failed, failed_from-empty, collect_inputs-junit,
}
use pulsaros_testbed.Analysis.Verdict.{FilesPass, all_cases-FilesPass}

pub join-append :
    (sep x : String) (xs : List String) (y : String) (ys : List String)
    → join sep (extend (x ∷ xs) (y ∷ ys)) ≡ join sep (x ∷ xs) ++ (sep ++ join sep (y ∷ ys))
unfolding join
join-append sep x [] y ys = refl
join-append sep x (z ∷ xs) y ys =
    ap (λ t. x ++ (sep ++ t)) (join-append sep z xs y ys)
    ∙ sym (
        append_assoc x (sep ++ join sep (z ∷ xs)) (sep ++ join sep (y ∷ ys))
        ∙ ap (λ t. x ++ t) (append_assoc sep (join sep (z ∷ xs)) (sep ++ join sep (y ∷ ys))))

join-front :
    (sep x y : String) (ls : List String) → (r : String) × (join sep ((x ++ y) ∷ ls) ≡ x ++ r)
unfolding join
join-front sep x y [] = (y, refl)
join-front sep x y (l ∷ ls) = (y ++ (sep ++ join sep (l ∷ ls)), append_assoc x y _)

nonempty {ℓ} : {A : Type ℓ} (x : A) (xs : List A) → (x ∷ xs) ≡ [] → ⊥
nonempty x xs h = cc

-- The summary: lines, the line on JUnit, more lines, and the last part.
pub record Parts (data' : Collected) (s : String) : Type 0 where
  pub first : String
  pub front : List String
  pub middle : List String
  pub whole :
      s
      ≡ join "\n" (
          extend (first ∷ front) (
            counts_line (totals no_counts data'.junit)
            ∷ extend middle (failure_lines (all_failed data'.junit))))
        ++ "\n"

-- The lists that `local_summary` puts together, by the line on JUnit and the last part.
regrouped :
    (a b pcaps c d last' : List String) (line : String)
    → extend a (extend b (line ∷ extend pcaps (extend c (extend d (extend last' [])))))
      ≡ extend (extend a b) (line ∷ extend (extend pcaps (extend c d)) last')
regrouped a b pcaps c d last' line =
    ap (λ l. extend a (extend b (line ∷ extend pcaps (extend c (extend d l))))) (append-nil last')
    ∙ ap (λ l. extend a (extend b (line ∷ l)))
        (sym (
          list_append_assoc pcaps (extend c d) last'
          ∙ ap (extend pcaps) (list_append_assoc c d last')))
    ∙ sym (list_append_assoc a b (line ∷ extend (extend pcaps (extend c d)) last'))

pub local_summary-Parts :
    (data' : Collected) (s : String) → local_summary data' ≡ ok s → Parts data' s
unfolding local_summary concat
local_summary-Parts data' s h = >>=-elim (state_lines data'.run_state) _ h λ lifecycle _ h1.
    >>=-elim (probe_lines data'.perf_metrics) _ h1 λ probes _ h2.
      >>=-elim (fault_lines data'.fault_results) _ h2 λ faults _ done.
        let scenario = "- Scenario: `" ++ (or_else data'.run.scenario "unknown" ++ "`") in
        let run = "- GitHub run: `" ++ (or_else data'.run.github_run_id "local" ++ "`") in
        let topology = topology_lines data'.topology in
        let pcaps = ("- PCAP files: " ++ show_ℕ (length data'.pcaps)) ∷ pcap_lines data'.pcaps in
        record {
          first = "# AI Artifact Analysis";
          front = "" ∷ "## Local Summary" ∷ "" ∷ scenario ∷ run ∷ extend topology lifecycle;
          middle = extend pcaps (extend probes faults);
          whole =
              sym (ok-injective done)
              ∙ ap
                  (λ ls.
                    join "\n" (
                      "# AI Artifact Analysis" ∷ "" ∷ "## Local Summary" ∷ "" ∷ scenario ∷ run ∷ ls)
                    ++ "\n")
                  (regrouped topology lifecycle pcaps probes faults
                    (failure_lines (all_failed data'.junit))
                    (counts_line (totals no_counts data'.junit)));
        }

-- The last part at the end of the summary.
ends :
    (data' : Collected) (s line : String) (more : List String)
    → local_summary data' ≡ ok s
    → failure_lines (all_failed data'.junit) ≡ line ∷ more
    → (head : String) × (s ≡ head ++ ("\n" ++ (join "\n" (line ∷ more) ++ "\n")))
ends data' s line more h e =
    let p = local_summary-Parts data' s h in
    let counts = counts_line (totals no_counts data'.junit) in
    let front = extend p.front (counts ∷ p.middle) in
    let head = join "\n" (p.first ∷ front) in
    (
      head,
      p.whole
          ∙ ap (λ ls. join "\n" (p.first ∷ ls) ++ "\n")
              (ap (λ ls. extend p.front (counts ∷ extend p.middle ls)) e
                ∙ sym (list_append_assoc p.front (counts ∷ p.middle) (line ∷ more)))
          ∙ ap (λ t. t ++ "\n") (join-append "\n" p.first front line more)
          ∙ append_assoc head ("\n" ++ join "\n" (line ∷ more)) "\n"
          ∙ ap (λ t. head ++ t) (append_assoc "\n" (join "\n" (line ∷ more)) "\n"),
    )

-- The two forms of the last part.
closing :
    (data' : Collected) (s : String) (cases : List Case)
    → local_summary data' ≡ ok s
    → all_failed data'.junit ≡ cases
    → ((cases ≡ []) × (head : String) × (s ≡ head ++ "\n\nNo JUnit failures were found.\n"))
      ⊎ ((cases ≡ [] → ⊥)
          × (head : String) × (rest : String) × (s
              ≡ head ++ ("\n\n## Failed Cases\n\n- `" ++ rest)))
unfolding failure_lines case_lines join
closing data' s [] h e =
    let (head, is) =
      ends data' s "" ("No JUnit failures were found." ∷ []) h (ap failure_lines e) in
    inl (refl, head, is)
closing data' s (c ∷ cs) h e =
    let entry = c.classname ++ ("::" ++ (c.name ++ ("`: " ++ c.message))) in
    let line = "- `" ++ entry in
    let (head, is) =
      ends data' s "" ("## Failed Cases" ∷ "" ∷ line ∷ case_lines cs) h (ap failure_lines e) in
    let (r, first') = join-front "\n" "- `" entry (case_lines cs) in
    let title : String = "\n## Failed Cases\n\n- `" in
    let text : join "\n" ("" ∷ "## Failed Cases" ∷ "" ∷ line ∷ case_lines cs) ≡ title ++ r =
      join-append "\n" "" ("## Failed Cases" ∷ "" ∷ []) line (case_lines cs)
      ∙ ap (λ t. "\n## Failed Cases\n" ++ ("\n" ++ t)) first'
      ∙ sym (append_assoc "\n## Failed Cases\n" "\n" ("- `" ++ r))
      ∙ sym (append_assoc "\n## Failed Cases\n\n" "- `" r) in
    inr (
      nonempty c cs,
      head,
      r ++ "\n",
      is
          ∙ ap (λ t. head ++ ("\n" ++ (t ++ "\n"))) text
          ∙ ap (λ t. head ++ ("\n" ++ t)) (append_assoc title r "\n")
          ∙ ap (λ t. head ++ t) (sym (append_assoc "\n" title (r ++ "\n"))),
    )

-- When `collect_inputs` and `local_summary` succeed: if no test case, at any depth of the files
-- that could be parsed, has a failure or an error as a child, the summary ends with "No JUnit
-- failures were found."; else it has the heading "## Failed Cases" and a list behind it.
pub local_summary-verdict :
    (env : Environ) (files : Files) (data' : Collected) (s : String)
    → collect_inputs env files ≡ ok data'
    → local_summary data' ≡ ok s
    → (FilesPass (glob ".xml" files.junit)
        × (head : String) × (s ≡ head ++ "\n\nNo JUnit failures were found.\n"))
      ⊎ ((FilesPass (glob ".xml" files.junit) → ⊥)
          × (head : String) × (rest : String) × (s
              ≡ head ++ ("\n\n## Failed Cases\n\n- `" ++ rest)))
local_summary-verdict env files data' s collected h =
    let xml = glob ".xml" files.junit in
    let same =
      parse_files-failed xml data'.junit (collect_inputs-junit env files data' collected) in
    let passes = all_cases-FilesPass xml in
    let none' = failed_from-empty (all_cases xml) in
    elim (closing data' s (failed_from (all_cases xml)) h same) [
      | inl (empty, head, is) ↦ inl (passes.0 (none'.0 empty), head, is)
      | inr (full, head, rest, is) ↦ inr (λ p. full (none'.1 (passes.1 p)), head, rest, is)
    ]
