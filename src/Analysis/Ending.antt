-- ===== src/Analysis/Ending.antt =====
-- How the report of scripts/analyze-artifacts-gemini.py ends, and what a run of it writes.
use Prim.Native.String.{String, [], ◌∷◌, ◌++◌, count}
use text.Mathlib.TextLemmas.{nil-append, cons-append, append_assoc, length-cons, length-append}
use pulsaros_testbed.Prelude.{
  ◌-◌, true, none, some, get, Outcome, ok, die, raise, ◌≡◌, refl, sym, ap, ◌∙◌, subst, arith,
  >>=-elim, ok-injective, Bool-cases, Option-cases, inl, inr, if◌then◌else◌, ◌==◌,
}
use mathlib.Core.List.{List}
use pulsaros_testbed.Number.{ℤ}
use pulsaros_testbed.Order.{join}
use pulsaros_testbed.Text.{show_ℤ}
use pulsaros_testbed.Value.{Value, str, list, dict, nil, cons, end, get_or, as_dict, iterate}
use pulsaros_testbed.Text.{drop, take, strip, ends_with}
use pulsaros_testbed.Analysis.Inputs.{Environ, env_or, Files, Collected, collect_inputs}
use pulsaros_testbed.Analysis.Summary.{local_summary}
use pulsaros_testbed.Analysis.Gemini.{
  Request, Reply, payload, http_error, failure, request, max_output_tokens, first, part_texts,
  all_texts, warning, answer, read_payload, read_reply, call_gemini,
}
use pulsaros_testbed.Analysis.Report.{
  Write, write_text, append_text, write_step_summary, Finished, after_step, main, finish,
  input_write, whole_report,
}

-- The text is a line, or ends with one.
unfoldable pub EndsLine : String → Type 0
EndsLine s = (front : String) × (s ≡ front ++ "\n")

EndsLine-append : (a s : String) → EndsLine s → EndsLine (a ++ s)
unfolding EndsLine
EndsLine-append a s (front, h) = (a ++ front, ap (λ t. a ++ t) h ∙ sym (append_assoc a front "\n"))

drop-append : (a b : String) → drop (count a) (a ++ b) ≡ b
unfolding drop
drop-append [] b = nil-append b
drop-append (c ∷ a) b = rw (length-cons, cons-append) (drop-append a b)

-- Such a text passes the test of `write_step_summary`.
ends_with-EndsLine : (s : String) → EndsLine s → ends_with "\n" s ≡ true
unfolding EndsLine ends_with
ends_with-EndsLine s (front, h) =
    let long = length-append front "\n" in
    let tail : drop (count (front ++ "\n") - count "\n") (front ++ "\n") ≡ "\n" =
      ap (λ n. drop n (front ++ "\n")) (omega (arith, long)) ∙ drop-append front "\n" in
    rw (h, tail) (ground (arith, long))

single : EndsLine "\n"
unfolding EndsLine
single = ("", refl)

fence : EndsLine "\n```\n"
unfolding EndsLine
fence = ("\n```", refl)

skipped : EndsLine "Gemini analysis skipped: `GEMINI_API_KEY` is not set.\n"
unfolding EndsLine
skipped = ("Gemini analysis skipped: `GEMINI_API_KEY` is not set.", refl)

answer-EndsLine : (joined : String) (finish : Value) (n : ℤ) → EndsLine (answer joined finish n)
unfolding answer EndsLine
answer-EndsLine joined finish n = elim (Bool-cases (strip joined == "")) [
  | inl blank ↦ rw (answer, blank) ("Gemini analysis returned no text.", refl)
  | inr text ↦ rw (answer, text) (strip (joined ++ warning finish n), refl)
]

read_reply-EndsLine :
    (max_tokens : ℤ) (reply : Reply) (text : String)
    → read_reply max_tokens reply ≡ ok text
    → EndsLine text
unfolding read_reply read_payload
read_reply-EndsLine n (payload v) text h = >>=-elim (as_dict v) _ h λ reply h1 later.
    >>=-elim (first (get_or "candidates" (list (cons (dict end) nil)) reply)) _ later
      λ chosen h2 later. >>=-elim (as_dict chosen) _ later λ candidate h3 later.
        >>=-elim (as_dict (get_or "content" (dict end) candidate)) _ later λ content h4 later.
          >>=-elim (iterate (get_or "parts" (list nil) content)) _ later λ parts h5 later.
            >>=-elim (part_texts parts) _ later λ wanted h6 later.
              >>=-elim (all_texts wanted) _ later λ texts h7 done.
                subst EndsLine (ok-injective done)
                  (answer-EndsLine (join "\n" texts) (get_or "finishReason" (str "") candidate) n)
read_reply-EndsLine n (http_error code detail) text h = subst EndsLine (ok-injective h) (
    EndsLine-append "Gemini analysis failed: HTTP " _ (
      EndsLine-append (show_ℤ code) _
        (EndsLine-append "\n\n```json\n" _ (EndsLine-append (take 4000 detail) "\n```\n" fence))))
read_reply-EndsLine n (failure name message) text h = subst EndsLine (ok-injective h) (
    EndsLine-append "Gemini analysis failed: " _
      (EndsLine-append name _ (EndsLine-append ": " _ (EndsLine-append message "\n" single))))

call_gemini-EndsLine :
    (post : Request → Reply) (env : Environ) (data' : Collected) (text : String)
    → call_gemini post env data' ≡ ok text
    → EndsLine text
unfolding call_gemini
call_gemini-EndsLine post env data' text h =
    elim (Bool-cases (env_or env "GEMINI_API_KEY" "" == "")) [
      | inl unset ↦ subst EndsLine (ok-injective (rw unset at h)) skipped
      | inr set ↦ >>=-elim (max_output_tokens env) _ (rw set at h) λ n read later.
          read_reply-EndsLine n (post (request env (env_or env "GEMINI_API_KEY" "") n data')) text
            later
    ]

-- What is appended to the summary of the workflow's step: a report that ends its last line.
unfoldable pub step_writes : Environ → String → List Write
unfolding get
step_writes env report = elim (get "GITHUB_STEP_SUMMARY" env) [
  | none ↦ List.[]
  | some path ↦ if path == "" then List.[] else List.◌∷◌ (append_text path report) List.[]
]

write_step_summary-EndsLine :
    (env : Environ) (report : String)
    → EndsLine report
    → write_step_summary env report ≡ step_writes env report
unfolding write_step_summary step_writes
write_step_summary-EndsLine env report h =
    let end = ends_with-EndsLine report h in
    elim (Option-cases (get "GITHUB_STEP_SUMMARY" env)) [
      | inl absent ↦ rw (write_step_summary, step_writes, absent) refl
      | inr present ↦ rw (write_step_summary, step_writes, present.1, end) refl
    ]

after_step-ok {ℓ} :
    {A : Type ℓ} (writes : List Write) (m : Outcome A) (f : A → Finished)
    → (after_step writes m f).result ≡ ok tt
    → (a : A) × (m ≡ ok a) × (after_step writes m f ≡ f a)
unfolding after_step
after_step-ok writes (ok a) f h = (a, refl, refl)
after_step-ok writes (die message) f h = absurd (cc)
after_step-ok writes (raise e) f h = absurd (cc)

finish-EndsLine :
    (env : Environ) (data' : Collected) (report : String)
    → EndsLine report
    → (finish env data' report).writes
      ≡ List.◌∷◌
          (input_write data')
          (List.◌∷◌ (write_text "artifacts/ai-analysis.md" report) (step_writes env report))
unfolding finish
finish-EndsLine env data' report h =
    ap
      (λ writes.
        List.◌∷◌ (input_write data')
          (List.◌∷◌ (write_text "artifacts/ai-analysis.md" report) writes))
      (write_step_summary-EndsLine env report h)

whole_report-EndsLine :
    (summary text : String) → EndsLine text → EndsLine (whole_report summary text)
unfolding whole_report
whole_report-EndsLine summary text h =
    EndsLine-append summary _ (EndsLine-append "\n## Gemini Analysis\n\n" text h)

-- When `main` finishes, it wrote the collected inputs and the report, which is the local summary
-- and the answer of `call_gemini`, and it appended the report, and nothing behind it, to the step
-- summary if the environment names one.
pub main-lem :
    (post : Request → Reply) (env : Environ) (files : Files)
    → (main post env files).result ≡ ok tt
    → (data' : Collected) × (summary : String) × (text : String) × (collect_inputs env files
        ≡ ok data')
      × (local_summary data' ≡ ok summary)
      × (call_gemini post env data' ≡ ok text)
      × ((main post env files).writes
          ≡ List.◌∷◌ (input_write data') (
              List.◌∷◌
                (write_text "artifacts/ai-analysis.md" (whole_report summary text))
                (step_writes env (whole_report summary text))))
unfolding main
main-lem post env files h =
    let (data', collected, first') = after_step-ok List.[] (collect_inputs env files) _ h in
    let saved = List.◌∷◌ (input_write data') List.[] in
    let (summary, summed, second') =
      after_step-ok saved (local_summary data') _ (ap (λ f. f.result) (sym first') ∙ h) in
    let (text, answered, third) =
      after_step-ok saved (call_gemini post env data') _
        (ap (λ f. f.result) (sym (first' ∙ second')) ∙ h) in
    (
      data',
      summary,
      text,
      collected,
      summed,
      answered,
      ap (λ f. f.writes) (first' ∙ second' ∙ third)
          ∙ finish-EndsLine env data' (whole_report summary text) (
              whole_report-EndsLine summary text
                (call_gemini-EndsLine post env data' text answered)),
    )
