-- ===== src/Analysis/Service.antt =====
-- When `call_gemini` and `main` of scripts/analyze-artifacts-gemini.py finish.
use Prim.Native.String.{String}
use pulsaros_testbed.Prelude.{
  List, [], ◌∷◌, All, Outcome, ok, die, raise, ◌≡◌, refl, ap, ◌∙◌, Bool-cases, inl, inr, ◌==◌,
}
use pulsaros_testbed.Number.{ℤ}
use pulsaros_testbed.Order.{join}
use pulsaros_testbed.Value.{
  Value, str, list, dict, nil, cons, Items, Fields, end, elems, get_or, as_dict, truthy, iterate,
}
use pulsaros_testbed.Analysis.Inputs.{Environ, env_or, Files, Collected, collect_inputs}
use pulsaros_testbed.Analysis.Summary.{local_summary}
use pulsaros_testbed.Analysis.Gemini.{
  Request, Reply, payload, http_error, failure, request, max_output_tokens, first, part_texts,
  all_texts, answer, read_payload, read_reply, call_gemini,
}
use pulsaros_testbed.Analysis.Report.{
  Write, write_text, write_step_summary, Finished, after_step, main, finish, input_write,
  whole_report,
}

-- A part of a reply: a mapping whose text, if it has one, is a text.
pub record IsPart (v : Value) : Type 0 where
  pub part : Fields
  pub text : String
  pub is_part : v ≡ dict part
  pub is_text : get_or "text" (str "") part ≡ str text

-- A payload with a candidate, whose content, if it has one, is a mapping with a list of parts.
pub record IsServed (v : Value) : Type 0 where
  pub reply : Fields
  pub candidate : Fields
  pub content : Fields
  pub parts : Items
  pub others : Items
  pub is_reply : v ≡ dict reply
  pub has_candidate :
      get_or "candidates" (list (cons (dict end) nil)) reply ≡ list (cons (dict candidate) others)
  pub has_content : get_or "content" (dict end) candidate ≡ dict content
  pub has_parts : get_or "parts" (list nil) content ≡ list parts
  pub all_parts : All IsPart (elems parts)

-- The request failed, or brought such a payload.
unfoldable pub IsAnswered : Reply → Type 0
IsAnswered (payload v) = IsServed v
IsAnswered (http_error code detail) = Unit
IsAnswered (failure name message) = Unit

part_texts-returns :
    (vs : List Value)
    → All IsPart vs
    → (ts : List Value) × (ss : List String) × (part_texts vs ≡ ok ts) × (all_texts ts ≡ ok ss)
unfolding part_texts all_texts truthy as_dict
part_texts-returns [] h = ([], [], refl, refl)
part_texts-returns (v ∷ vs) h =
    let (ts, ss, h1, h2) = part_texts-returns vs h.1 in
    elim (Bool-cases (h.0.text == "")) [
      | inl blank ↦ (ts, ss, rw (part_texts, h.0.is_part, h1, h.0.is_text, blank) refl, h2)
      | inr text ↦ (
        str h.0.text ∷ ts,
        h.0.text ∷ ss,
        rw (part_texts, h.0.is_part, h1, h.0.is_text, text) refl,
        rw (all_texts, h2) refl,
      )
    ]

read_payload-returns :
    (n : ℤ) (v : Value) → IsServed v → (text : String) × (read_payload n v ≡ ok text)
unfolding read_payload as_dict first iterate
read_payload-returns n v h =
    let (ts, ss, h1, h2) = part_texts-returns (elems h.parts) h.all_parts in
    (
      answer (join "\n" ss) (get_or "finishReason" (str "") h.candidate) n,
      rw (read_payload, h.is_reply, h.has_candidate, h.has_content, h.has_parts, h1, h2) refl,
    )

read_reply-returns :
    (n : ℤ) (reply : Reply) → IsAnswered reply → (text : String) × (read_reply n reply ≡ ok text)
unfolding read_reply IsAnswered
read_reply-returns n (payload v) h = read_payload-returns n v h
read_reply-returns n (http_error code detail) h = (_, refl)
read_reply-returns n (failure name message) h = (_, refl)

call_gemini-returns :
    (post : Request → Reply) (env : Environ) (data' : Collected) (n : ℤ)
    → max_output_tokens env ≡ ok n
    → ((r : Request) → IsAnswered (post r))
    → (text : String) × (call_gemini post env data' ≡ ok text)
unfolding call_gemini
call_gemini-returns post env data' n h served =
    elim (Bool-cases (env_or env "GEMINI_API_KEY" "" == "")) [
      | inl unset ↦
          ("Gemini analysis skipped: `GEMINI_API_KEY` is not set.\n", rw (call_gemini, unset) refl)
      | inr set ↦
          let (text, read) =
            read_reply-returns n (post (request env (env_or env "GEMINI_API_KEY" "") n data'))
              (served (request env (env_or env "GEMINI_API_KEY" "") n data')) in
          (text, rw (call_gemini, set, h) read)
    ]

goes_on {ℓ} :
    {A : Type ℓ} (writes : List Write) (m : Outcome A) (a : A) (f : A → Finished)
    → m ≡ ok a
    → after_step writes m f ≡ f a
unfolding after_step
goes_on writes m a f h = ap (λ m. after_step writes m f) h

finish-result :
    (env : Environ) (data' : Collected) (report : String) → (finish env data' report).result ≡ ok tt
unfolding finish
finish-result env data' report = refl

-- The first write is the given one.
abbrev Saves : Write → Finished → Type 0
Saves w f = (later : List Write) × (f.writes ≡ w ∷ later)

after_step-Saves {ℓ} :
    {A : Type ℓ} (w : Write) (m : Outcome A) (f : A → Finished)
    → ((a : A) → Saves w (f a))
    → Saves w (after_step (w ∷ []) m f)
unfolding after_step
after_step-Saves w (ok a) f h = h a
after_step-Saves w (die message) f h = ([], refl)
after_step-Saves w (raise e) f h = ([], refl)

finish-Saves :
    (env : Environ) (data' : Collected) (report : String)
    → Saves (input_write data') (finish env data' report)
unfolding finish
finish-Saves env data' report =
    (write_text "artifacts/ai-analysis.md" report ∷ write_step_summary env report, refl)

-- When the inputs can be collected and summarised, the token limit is an integer, and the service
-- fails each request or answers it with a payload of the documented form, `main` finishes.
pub main-returns :
    (post : Request → Reply) (env : Environ) (files : Files) (data' : Collected) (summary : String)
    (n : ℤ)
    → collect_inputs env files ≡ ok data'
    → local_summary data' ≡ ok summary
    → max_output_tokens env ≡ ok n
    → ((r : Request) → IsAnswered (post r))
    → (main post env files).result ≡ ok tt
unfolding main
main-returns post env files data' summary n h1 h2 h3 served =
    let saved = input_write data' ∷ [] in
    let (text, h4) = call_gemini-returns post env data' n h3 served in
    ap (λ f. f.result)
      (goes_on [] (collect_inputs env files) data' _ h1
        ∙ goes_on saved (local_summary data') summary _ h2
        ∙ goes_on saved (call_gemini post env data') text _ h4)
    ∙ finish-result env data' (whole_report summary text)

-- When the inputs can be collected, the first write of `main` is that of the inputs, whatever
-- fails later.
pub main-saves :
    (post : Request → Reply) (env : Environ) (files : Files) (data' : Collected)
    → collect_inputs env files ≡ ok data'
    → (later : List Write) × ((main post env files).writes ≡ input_write data' ∷ later)
unfolding main
main-saves post env files data' h =
    let saves = after_step-Saves (input_write data') (local_summary data') _ λ summary.
      after_step-Saves (input_write data') (call_gemini post env data') _
        λ text. finish-Saves env data' (whole_report summary text) in
    (saves.0, ap (λ f. f.writes) (goes_on [] (collect_inputs env files) data' _ h) ∙ saves.1)
