-- ===== src/Analysis/Report.antt =====
-- `write_step_summary` and `main` of scripts/analyze-artifacts-gemini.py: the writes that they do.
use Prim.Native.String.{String, ◌++◌}
use pulsaros_testbed.Prelude.{
  none, some, List, [], ◌∷◌, extend, Outcome, ok, die, raise, get, if◌then◌else◌, ◌==◌,
}
use pulsaros_testbed.Value.{dumps_indented}
use pulsaros_testbed.Text.{ends_with}
use pulsaros_testbed.Analysis.Inputs.{Environ, Files, Collected, collect_inputs, inputs_value}
use pulsaros_testbed.Analysis.Summary.{local_summary}
use pulsaros_testbed.Analysis.Gemini.{Request, Reply, call_gemini}

-- A file that is replaced, and a file that grows at its end.
pub data Write : Type 0 where
  write_text append_text : String → String → Write

unfoldable pub write_step_summary : Environ → String → List Write
unfolding get ends_with
write_step_summary env report = elim (get "GITHUB_STEP_SUMMARY" env) [
  | none ↦ []
  | some path ↦
      if path == ""
      then []
      else if ends_with "\n" report
      then append_text path report ∷ []
      else append_text path report ∷ append_text path "\n" ∷ []
]

-- The writes of a run that was cut short by a failure are those in front of it.
pub record Finished : Type 0 where
  pub writes : List Write
  pub result : Outcome (Unit {0})

-- A step that writes nothing itself.
unfoldable pub after_step {ℓ} : {A : Type ℓ} → List Write → Outcome A → (A → Finished) → Finished
after_step writes (ok a) f = f a
after_step writes (die message) f = record { writes = writes; result = die message }
after_step writes (raise e) f = record { writes = writes; result = raise e }

unfoldable pub input_write : Collected → Write
unfolding dumps_indented inputs_value
input_write data' =
    write_text "artifacts/ai-analysis-input.json" (dumps_indented (inputs_value data'))

unfoldable pub whole_report : String → String → String
whole_report summary answer = summary ++ ("\n## Gemini Analysis\n\n" ++ answer)

-- The part of `main` behind `call_gemini`.
unfoldable pub finish : Environ → Collected → String → Finished
unfolding input_write write_step_summary
finish env data' report = record {
  writes =
      extend (input_write data' ∷ write_text "artifacts/ai-analysis.md" report ∷ [])
        (write_step_summary env report);
  result = ok tt;
}

unfoldable pub main : (Request → Reply) → Environ → Files → Finished
unfolding after_step collect_inputs local_summary call_gemini finish input_write whole_report
main post env files = after_step [] (collect_inputs env files) λ data'.
    after_step (input_write data' ∷ []) (local_summary data') λ summary.
      after_step (input_write data' ∷ []) (call_gemini post env data')
        λ answer. finish env data' (whole_report summary answer)
