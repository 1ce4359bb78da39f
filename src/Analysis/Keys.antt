-- ===== src/Analysis/Keys.antt =====
-- What the words of keys of `redact` in scripts/analyze-artifacts-gemini.py leave of a text.
use Prim.Native.String.{String, [], ◌∷◌, ◌++◌, count}
use text.Mathlib.TextLemmas.{nil-append, cons-append, length-cons}
use text.Mathlib.TextEquality.{Char-path}
use pulsaros_testbed.Prelude.{
  ℕ, Char, code, Bool, true, false, ◌||◌, not, eqb, Option, none, some, ◌⊎◌, ◌≡◌, refl, sym, ap,
  ◌∙◌, arith, Bool-cases, Option-cases, inl, inr,
}
use pulsaros_testbed.Text.{strip_prefix, before, after, take, all_chars}
use pulsaros_testbed.Analysis.Redact.{
  fold_case, strip_word, strip_dash, one_of, strip_api, strip_key,
}
use pulsaros_testbed.EnvFile.Roundtrip.{no_equals}

pub equals-cons : (v : String) → "=" ++ v ≡ "=" ∷ v
equals-cons v = cons-append "=" "" v ∙ ap (λ t. "=" ∷ t) (nil-append v)

is_equals : (c : Char) → eqb (code c) b'=' ≡ true → c ≡ "="
is_equals c h = Char-path c "=" (ground arith)

-- A text with an `=` is what stands in front of the first one, and what stands behind it.
pub whole : (s v : String) → after b'=' s ≡ some v → s ≡ before b'=' s ++ ("=" ++ v)
unfolding before after
whole [] v h = absurd (cc)
whole (c ∷ s) v h = elim (Bool-cases (eqb (code c) b'=')) [
  | inl here ↦
      let rest : s ≡ v = ground arith in
      rw (before, here)
        (sym (
          nil-append ("=" ++ v)
          ∙ equals-cons v
          ∙ ap (λ d. d ∷ v) (sym (is_equals c here))
          ∙ ap (λ t. c ∷ t) (sym rest)))
  | inr later ↦
      rw (before, later)
        (ap (λ t. c ∷ t) (whole s v (ground arith))
          ∙ sym (cons-append c (before b'=' s) ("=" ++ v)))
]

pub before-no_equals : (s : String) → all_chars no_equals (before b'=' s) ≡ true
unfolding before all_chars
before-no_equals [] = refl
before-no_equals (c ∷ s) = elim (Bool-cases (eqb (code c) b'=')) [
  | inl here ↦ rw (before, here) refl
  | inr later ↦ rw (before, later) (ground (arith, before-no_equals s))
]

-- A text in front of `=` and more.
unfoldable pub behind : String → Option String → Option String
behind v none = none
behind v (some r) = some (r ++ ("=" ++ v))

pub behind-empty : (v : String) → behind v (some "") ≡ some ("=" ++ v)
unfolding behind
behind-empty v = ap some (nil-append ("=" ++ v))

pub some-injective {ℓ} : {A : Type ℓ} {a b : A} → some a ≡ some b → a ≡ b
some-injective h = cc

pub missing {ℓ} : {A : Type ℓ} {a : A} → none ≡ some a → ⊥
missing h = cc

pub no_truth : false ≡ true → ⊥
no_truth h = cc

pub negated : {b : Bool} → not b ≡ true → b ≡ false
negated h = ground arith

-- A word without `=` is found in front of an `=`, or not at all.
strip_word-equals :
    (w b v : String)
    → all_chars no_equals w ≡ true
    → strip_word w (b ++ ("=" ++ v)) ≡ behind v (strip_word w b)
unfolding strip_word all_chars behind
strip_word-equals [] b v h = refl
strip_word-equals (c ∷ w) [] v h =
    rw (nil-append ("=" ++ v), equals-cons v) (unfold fold_case in ground arith)
strip_word-equals (c ∷ w) (d ∷ b) v h =
    let rest = strip_word-equals w b v (ground arith) in
    rw (cons-append d b ("=" ++ v)) (elim (Bool-cases (eqb (code c) (fold_case (code d)))) [
      | inl same ↦ rw (strip_word, same) rest
      | inr other ↦ rw (strip_word, other) refl
    ])

strip_dash-equals : (b v : String) → strip_dash (b ++ ("=" ++ v)) ≡ strip_dash b ++ ("=" ++ v)
unfolding strip_dash
strip_dash-equals [] v = rw (nil-append ("=" ++ v), equals-cons v) refl
strip_dash-equals (c ∷ b) v =
    rw (cons-append c b ("=" ++ v)) (elim (Bool-cases (eqb (code c) b'_' || eqb (code c) b'-')) [
      | inl dash ↦ rw (strip_dash, dash) refl
      | inr other ↦ rw (strip_dash, other) (sym (cons-append c b ("=" ++ v)))
    ])

one_of-behind :
    (v : String) (o p : Option String) → one_of (behind v o) (behind v p) ≡ behind v (one_of o p)
unfolding one_of behind
one_of-behind v none p = refl
one_of-behind v (some r) p = refl

strip_api-equals : (b v : String) → strip_api (b ++ ("=" ++ v)) ≡ behind v (strip_api b)
unfolding strip_api behind all_chars
strip_api-equals b v = elim (Option-cases (strip_word "api" b)) [
  | inl none' ↦ rw (strip_api, strip_word-equals "api" b v refl, none') refl
  | inr (r, found) ↦
      rw (strip_api, strip_word-equals "api" b v refl, found, strip_dash-equals r v)
        (strip_word-equals "key" (strip_dash r) v refl)
]

pub strip_key-equals : (b v : String) → strip_key (b ++ ("=" ++ v)) ≡ behind v (strip_key b)
unfolding strip_key all_chars
strip_key-equals b v =
    rw
      (
        strip_key,
        strip_word-equals "token" b v refl,
        strip_word-equals "password" b v refl,
        strip_word-equals "secret" b v refl,
        strip_api-equals b v,
        one_of-behind v (strip_word "secret" b) (strip_api b),
        one_of-behind v (strip_word "password" b) (one_of (strip_word "secret" b) (strip_api b)),
      )
      (one_of-behind v (strip_word "token" b) _)

no_equals-fold : (d : ℕ) → no_equals (fold_case d) ≡ true → no_equals d ≡ true
unfolding fold_case
no_equals-fold d h = ground arith

cons-no_equals :
    (d : Char) (s : String)
    → no_equals (code d) ≡ true
    → all_chars no_equals (d ∷ s) ≡ all_chars no_equals s
unfolding all_chars
cons-no_equals d s h = rw (all_chars, h) refl

-- A text has an `=` where what a word leaves of it has one.
strip_word-no_equals :
    (w s r : String)
    → all_chars no_equals w ≡ true
    → strip_word w s ≡ some r
    → all_chars no_equals s ≡ all_chars no_equals r
unfolding strip_word all_chars
strip_word-no_equals [] s r k h = ap (all_chars no_equals) (some-injective h)
strip_word-no_equals (c ∷ w) [] r k h = absurd (cc)
strip_word-no_equals (c ∷ w) (d ∷ s) r k h = elim (Bool-cases (eqb (code c) (fold_case (code d)))) [
  | inl same ↦
      let bare : no_equals (code d) ≡ true = no_equals-fold (code d) (ground arith) in
      cons-no_equals d s bare
      ∙ strip_word-no_equals w s r (ground arith) (rw (strip_word, same) at h)
  | inr other ↦ absurd (missing (rw (strip_word, other) at h))
]

strip_dash-no_equals : (s : String) → all_chars no_equals s ≡ all_chars no_equals (strip_dash s)
unfolding strip_dash
strip_dash-no_equals [] = refl
strip_dash-no_equals (c ∷ s) = elim (Bool-cases (eqb (code c) b'_' || eqb (code c) b'-')) [
  | inl dash ↦ rw (strip_dash, dash) (cons-no_equals c s (ground arith))
  | inr other ↦ rw (strip_dash, other) refl
]

strip_api-no_equals :
    (s r : String) → strip_api s ≡ some r → all_chars no_equals s ≡ all_chars no_equals r
unfolding strip_api all_chars
strip_api-no_equals s r h = elim (Option-cases (strip_word "api" s)) [
  | inl none' ↦ absurd (missing (rw (strip_api, none') at h))
  | inr (t, found) ↦
      strip_word-no_equals "api" s t refl found
      ∙ strip_dash-no_equals t
      ∙ strip_word-no_equals "key" (strip_dash t) r refl (rw (strip_api, found) at h)
]

-- What one of two alternatives finds.
one_of-some : (o p : Option String) (r : String) → one_of o p ≡ some r → (o ≡ some r) ⊎ (p ≡ some r)
unfolding one_of
one_of-some none p r h = inr h
one_of-some (some t) p r h = inl h

pub strip_key-no_equals :
    (s r : String) → strip_key s ≡ some r → all_chars no_equals s ≡ all_chars no_equals r
unfolding strip_key all_chars
strip_key-no_equals s r h = elim (one_of-some (strip_word "token" s) _ r h) [
  | inl token ↦ strip_word-no_equals "token" s r refl token
  | inr more ↦ elim (one_of-some (strip_word "password" s) _ r more) [
    | inl password ↦ strip_word-no_equals "password" s r refl password
    | inr more' ↦ elim (one_of-some (strip_word "secret" s) _ r more') [
      | inl secret ↦ strip_word-no_equals "secret" s r refl secret
      | inr api ↦ strip_api-no_equals s r api
    ]
  ]
]

-- A key has no `=`.
pub key-no_equals : (b : String) → strip_key b ≡ some "" → all_chars no_equals b ≡ true
unfolding all_chars
key-no_equals b h = strip_key-no_equals b "" h

pub no_prefix : (r : String) → all_chars no_equals r ≡ true → strip_prefix "=" r ≡ none
unfolding strip_prefix all_chars
no_prefix [] h = refl
no_prefix (c ∷ r) h = ground arith

pub no_prefix-cons :
    (c : Char) (r v : String)
    → all_chars no_equals (c ∷ r) ≡ true
    → strip_prefix "=" ((c ∷ r) ++ ("=" ++ v)) ≡ none
unfolding strip_prefix all_chars
no_prefix-cons c r v h = rw (cons-append c r ("=" ++ v)) (ground arith)

pub prefix-equals : (v : String) → strip_prefix "=" ("=" ++ v) ≡ some v
unfolding strip_prefix
prefix-equals v = rw (equals-cons v) refl

pub take-append : (a b : String) → take (count a) (a ++ b) ≡ a
unfolding take
take-append [] b = refl
take-append (c ∷ a) b = rw (length-cons c a, cons-append c a b) (ap (λ t. c ∷ t) (take-append a b))
