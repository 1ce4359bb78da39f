-- ===== src/Analysis/Matches.antt =====
-- Where the pattern for the values of secrets of `redact` in scripts/analyze-artifacts-gemini.py
-- matches.
use Prim.Native.String.{String, [], ◌∷◌, ◌++◌, count}
use text.Mathlib.TextLemmas.{length-append}
use pulsaros_testbed.Prelude.{
  ◌+◌, ◌-◌, code, Bool, true, false, not, eqb, Option, none, some, ◌⊎◌, ◌≡◌, refl, sym, ap, ◌∙◌,
  arith, Bool-cases, Option-cases, inl, inr,
}
use pulsaros_testbed.Text.{strip_prefix, before, after, take, all_chars}
use pulsaros_testbed.Analysis.Redact.{strip_key, solid, assignment}
use pulsaros_testbed.EnvFile.Roundtrip.{no_equals}
use pulsaros_testbed.Analysis.Keys.{
  whole, before-no_equals, behind, behind-empty, missing, no_truth, negated, strip_key-equals,
  strip_key-no_equals, no_prefix, no_prefix-cons, prefix-equals, take-append,
}

-- A key, an `=` and a value that is not blank are a match.
pub assignment-match :
    (b v : String)
    → strip_key b ≡ some ""
    → eqb (solid v) 0 ≡ false
    → assignment (b ++ ("=" ++ v)) ≡ some (count b + 1 + solid v, b ++ "=[REDACTED]")
unfolding assignment
assignment-match b v h k =
    let found : strip_key (b ++ ("=" ++ v)) ≡ some ("=" ++ v) =
      strip_key-equals b v ∙ ap (behind v) h ∙ behind-empty v in
    let long = length-append b ("=" ++ v) in
    let more = length-append "=" v in
    let words : take (count (b ++ ("=" ++ v)) - count ("=" ++ v)) (b ++ ("=" ++ v)) ≡ b =
      ap (λ n. take n (b ++ ("=" ++ v))) (omega (arith, long)) ∙ take-append b ("=" ++ v) in
    rw (assignment, found, prefix-equals v, k, words)
      (ap (λ n. some (n, b ++ "=[REDACTED]")) (omega (arith, long, more)))

-- No value at the front of a text.
abbrev pub blank : String → Bool
blank s = eqb (solid s) 0

-- Behind the first `=` of a text stands a value.
unfoldable pub assigned : String → Bool
unfolding after
assigned s = elim (after b'=' s) [ none ↦ false | some v ↦ not (eqb (solid v) 0) ]

-- Such a match.
pub record IsSecret (s : String) : Type 0 where
  pub is_key : strip_key (before b'=' s) ≡ some ""
  pub is_assigned : assigned s ≡ true

no_match-key : (s : String) → strip_key s ≡ none → assignment s ≡ none
unfolding assignment
no_match-key s h = rw (assignment, h) refl

no_match-prefix :
    (s r : String) → strip_key s ≡ some r → strip_prefix "=" r ≡ none → assignment s ≡ none
unfolding assignment
no_match-prefix s r h k = rw (assignment, h, k) refl

no_match-solid :
    (s r v : String)
    → strip_key s ≡ some r
    → strip_prefix "=" r ≡ some v
    → eqb (solid v) 0 ≡ true
    → assignment s ≡ none
unfolding assignment
no_match-solid s r v h k m = rw (assignment, h, k, m) refl

after-none : (s : String) → after b'=' s ≡ none → all_chars no_equals s ≡ true
unfolding after all_chars
after-none [] h = refl
after-none (c ∷ s) h = elim (Bool-cases (eqb (code c) b'=')) [
  | inl here ↦ absurd (missing (sym (rw (after, here) at h)))
  | inr later ↦ ground (arith, after-none s (rw (after, later) at h))
]

assigned-value :
    (s : String)
    → assigned s ≡ true
    → (v : String) × (after b'=' s ≡ some v) × (eqb (solid v) 0 ≡ false)
unfolding assigned
assigned-value s h = elim (Option-cases (after b'=' s)) [
  | inl lone ↦ absurd (no_truth (rw (assigned, lone) at h))
  | inr (v, has) ↦ (v, has, negated (rw (assigned, has) at h))
]

pub IsSecret-match :
    (s : String)
    → IsSecret s
    → (v : String) × (s ≡ before b'=' s ++ ("=" ++ v))
      × (eqb (solid v) 0 ≡ false)
      × (assignment s ≡ some (count (before b'=' s) + 1 + solid v, before b'=' s ++ "=[REDACTED]"))
IsSecret-match s secret =
    let (v, has, full) = assigned-value s secret.is_assigned in
    (
      v,
      whole s v has,
      full,
      ap assignment (whole s v has) ∙ assignment-match (before b'=' s) v secret.is_key full,
    )

no_match-word :
    (s v : String) (o : Option String)
    → s ≡ before b'=' s ++ ("=" ++ v)
    → assigned s ≡ not (eqb (solid v) 0)
    → strip_key (before b'=' s) ≡ o
    → (assignment s ≡ none) ⊎ IsSecret s
unfolding behind
no_match-word s v none split full key =
    inl
      (no_match-key s (ap strip_key split ∙ strip_key-equals (before b'=' s) v ∙ ap (behind v) key))
no_match-word s v (some []) split full key = elim (Bool-cases (eqb (solid v) 0)) [
  | inl none' ↦ inl (
      no_match-solid s ("=" ++ v) v
        (ap strip_key split
          ∙ strip_key-equals (before b'=' s) v
          ∙ ap (behind v) key
          ∙ behind-empty v)
        (prefix-equals v) none')
  | inr full' ↦ inr record { is_key = key; is_assigned = full ∙ ap not full' }
]
no_match-word s v (some (c ∷ r)) split full key = inl (
    no_match-prefix s ((c ∷ r) ++ ("=" ++ v))
      (ap strip_key split ∙ strip_key-equals (before b'=' s) v ∙ ap (behind v) key)
      (no_prefix-cons c r v
        (sym (strip_key-no_equals (before b'=' s) (c ∷ r) key) ∙ before-no_equals s)))

pub assignment-cases : (s : String) → (assignment s ≡ none) ⊎ IsSecret s
unfolding assigned
assignment-cases s = elim (Option-cases (after b'=' s)) [
  | inl lone ↦ elim (Option-cases (strip_key s)) [
    | inl no_key ↦ inl (no_match-key s no_key)
    | inr (r, key) ↦ inl (
        no_match-prefix s r key
          (no_prefix r (sym (strip_key-no_equals s r key) ∙ after-none s lone)))
  ]
  | inr (v, has) ↦
      no_match-word s v (strip_key (before b'=' s)) (whole s v has) (rw (assigned, has) refl) refl
]
