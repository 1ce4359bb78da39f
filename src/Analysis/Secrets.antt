-- ===== src/Analysis/Secrets.antt =====
-- The values of secrets in what `redact` of scripts/analyze-artifacts-gemini.py gives.
use Prim.Native.String.{String, [], ◌∷◌, ◌++◌, count}
use text.Mathlib.TextLemmas.{nil-append, cons-append, length-cons}
use pulsaros_testbed.Prelude.{
  ℕ, zero, suc, ◌≤◌, Char, true, false, not, eqb, none, some, ◌≡◌, refl, sym, ap, ◌∙◌, subst, arith,
  inl, inr,
}
use pulsaros_testbed.Text.{before, after, all_chars}
use pulsaros_testbed.Analysis.Redact.{
  substitute, fold_case, strip_word, one_of, strip_api, strip_key, solid, private_key, redact,
}
use pulsaros_testbed.EnvFile.Roundtrip.{no_equals, before-equals, after-equals}
use pulsaros_testbed.Analysis.Matches.{blank, assigned, IsSecret, assignment-cases}
use pulsaros_testbed.Analysis.Keys.{
  missing, no_truth, some-injective, key-no_equals, before-no_equals,
}
use pulsaros_testbed.Analysis.Pass.{
  pass, nothing, IsAlike-cons, unmatched, no_match-alike, replaced, replaced-equals, pass-none,
  pass-secret, replaced-cons, pass-IsAlike,
}

-- The value behind the first `=` of a text is the mask, and nothing solid behind it.
IsMasked : String → Type 0
IsMasked s = (w : String) × (after b'=' s ≡ some ("[REDACTED]" ++ w)) × (blank w ≡ true)

-- Wherever the pattern matches in a text.
unfoldable IsSafe : String → Type 0
IsSafe [] = Unit
IsSafe (c ∷ s) = (IsSecret (c ∷ s) → IsMasked (c ∷ s)) × IsSafe s

IsSafe-keyless :
    (c : Char) (s : String) → strip_key (before b'=' (c ∷ s)) ≡ none → IsSafe s → IsSafe (c ∷ s)
unfolding IsSafe
IsSafe-keyless c s h safe = (λ secret. absurd (missing (sym h ∙ secret.is_key)), safe)

IsSafe-step :
    (c : Char) (a t : String)
    → strip_key (before b'=' (c ∷ (a ++ t))) ≡ none
    → IsSafe (a ++ t)
    → IsSafe ((c ∷ a) ++ t)
IsSafe-step c a t h safe = subst IsSafe (sym (cons-append c a t)) (IsSafe-keyless c (a ++ t) h safe)

-- In the mask starts no key.
mask-IsSafe : (t : String) → IsSafe t → IsSafe ("=[REDACTED]" ++ t)
unfolding before strip_key one_of strip_word strip_api fold_case
mask-IsSafe t safe =
    let s0 = subst IsSafe (sym (nil-append t)) safe in
    let s1 = IsSafe-step "]" "" t refl s0 in
    let s2 = IsSafe-step "D" "]" t refl s1 in
    let s3 = IsSafe-step "E" "D]" t refl s2 in
    let s4 = IsSafe-step "T" "ED]" t (rw (cons-append "E" "D]" t) refl) s3 in
    let s5 = IsSafe-step "C" "TED]" t refl s4 in
    let s6 = IsSafe-step "A" "CTED]" t (rw (cons-append "C" "TED]" t) refl) s5 in
    let s7 = IsSafe-step "D" "ACTED]" t refl s6 in
    let s8 = IsSafe-step "E" "DACTED]" t refl s7 in
    let s9 = IsSafe-step "R" "EDACTED]" t refl s8 in
    let s10 = IsSafe-step "[" "REDACTED]" t refl s9 in IsSafe-step "=" "[REDACTED]" t refl s10

replaced-IsSafe :
    (b t : String)
    → all_chars no_equals b ≡ true
    → blank t ≡ true
    → IsSafe t
    → IsSafe (replaced b t)
unfolding replaced IsSafe all_chars IsMasked
replaced-IsSafe [] t h end safe = rw (nil-append "=[REDACTED]") (mask-IsSafe t safe)
replaced-IsSafe (c ∷ b) t h end safe = subst IsSafe (sym (replaced-cons c b t)) (
  λ secret. (
    t,
    ap (after b'=') (sym (replaced-cons c b t) ∙ replaced-equals (c ∷ b) t)
        ∙ after-equals (c ∷ b) ("[REDACTED]" ++ t) h,
    end,
  ),
  replaced-IsSafe b t (ground arith) end safe,
)

pass-IsSafe-fuel : (fuel : ℕ) (s : String) → count s ≤ fuel → IsSafe (pass s)
unfolding substitute IsSafe
pass-IsSafe-fuel fuel [] h = tt
pass-IsSafe-fuel zero (c ∷ s) h = absurd (omega (arith, length-cons c s))
pass-IsSafe-fuel (suc fuel) (c ∷ s) h = elim (assignment-cases (c ∷ s)) [
  | inl none' ↦
      let still =
        no_match-alike (c ∷ pass s) (c ∷ s) (IsAlike-cons c (pass s) s (pass-IsAlike s)) none' in
      subst IsSafe (sym (pass-none c s none')) (
        λ secret. absurd (unmatched (c ∷ pass s) still secret),
        pass-IsSafe-fuel fuel s (omega (arith, length-cons c s)),
      )
  | inr secret ↦
      let (w, made, end, less) = pass-secret (c ∷ s) secret in
      subst IsSafe (sym made) (
        replaced-IsSafe (before b'=' (c ∷ s)) (pass w) (before-no_equals (c ∷ s))
          ((pass-IsAlike w).front ∙ end) (pass-IsSafe-fuel fuel w (omega arith)))
]

suffix-IsSafe : (x u : String) → IsSafe (x ++ u) → IsSafe u
unfolding IsSafe
suffix-IsSafe [] u h = subst IsSafe (nil-append u) h
suffix-IsSafe (c ∷ x) u h = suffix-IsSafe x u (subst IsSafe (cons-append c x u) h).1

IsSafe-front : (u : String) → IsSafe u → IsSecret u → IsMasked u
unfolding IsSafe assigned after
IsSafe-front [] h secret = absurd (no_truth secret.is_assigned)
IsSafe-front (c ∷ s) h secret = h.0 secret

-- Wherever a text that `redact` gives has a key (token, password, secret, api_key and its
-- spellings, in any letters) with an `=` and a value that is not blank behind it, the value starts
-- with `[REDACTED]`, and what follows the mask is nothing or starts with white space.
pub redact-values :
    (s x b v : String)
    → redact s ≡ x ++ (b ++ ("=" ++ v))
    → strip_key b ≡ some ""
    → eqb (solid v) 0 ≡ false
    → (w : String) × (v ≡ "[REDACTED]" ++ w) × (solid w ≡ 0)
unfolding redact assigned IsMasked
redact-values s x b v h key full =
    let t = substitute private_key 0 s in
    let u = b ++ ("=" ++ v) in
    let bare = key-no_equals b key in
    let secret : IsSecret u = record {
      is_key = ap strip_key (before-equals b v bare) ∙ key;
      is_assigned = rw (assigned, after-equals b v bare) (ap not full);
    } in
    let (w, is, end) =
      IsSafe-front u
        (suffix-IsSafe x u (subst IsSafe h (pass-IsSafe-fuel (count t) t (omega arith)))) secret in
    (w, some-injective (sym (after-equals b v bare) ∙ is), nothing w end)
