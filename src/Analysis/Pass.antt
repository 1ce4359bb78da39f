-- ===== src/Analysis/Pass.antt =====
-- The pass of `redact` of scripts/analyze-artifacts-gemini.py over the values of secrets.
use Prim.Native.String.{String, [], ◌∷◌, ◌++◌, count}
use text.Mathlib.TextLemmas.{
  nil-append, cons-append, append_assoc, length-nil, length-cons, length-append,
}
use pulsaros_testbed.Prelude.{
  ℕ, zero, suc, ◌+◌, ◌<◌, ◌≤◌, Char, code, Bool, true, false, not, eqb, none, some, ◌≡◌, refl, sym,
  ap, ◌∙◌, subst, arith, Bool-cases, inl, inr,
}
use pulsaros_testbed.Text.{before, after, is_white, all_chars}
use pulsaros_testbed.Analysis.Redact.{
  substitute, strip_word, one_of, strip_api, strip_key, solid, assignment, private_key, redact,
}
use pulsaros_testbed.Analysis.KeyBlock.{substitute-front}
use pulsaros_testbed.EnvFile.Roundtrip.{before-equals, after-equals}
use pulsaros_testbed.Analysis.Matches.{
  assignment-match, blank, assigned, IsSecret, IsSecret-match, assignment-cases,
}
use pulsaros_testbed.Analysis.Keys.{missing, no_truth, before-no_equals}

-- The pass over the assignments.
abbrev pub pass : String → String
pass = substitute assignment 0

-- Two texts that the pattern reads alike in front of the values.
pub record IsAlike (t s : String) : Type 0 where
  pub keys : before b'=' t ≡ before b'=' s
  pub values : assigned t ≡ assigned s
  pub front : blank t ≡ blank s

blank-white : (c : Char) (s : String) → is_white (code c) ≡ true → blank (c ∷ s) ≡ true
unfolding solid
blank-white c s h = rw (solid, h) refl

blank-ink : (c : Char) (s : String) → is_white (code c) ≡ false → blank (c ∷ s) ≡ false
unfolding solid
blank-ink c s h = rw (solid, h) (ground arith)

pub nothing : (t : String) → blank t ≡ true → solid t ≡ 0
nothing t h = ground arith

blank-cons : (c : Char) (t s : String) → blank (c ∷ t) ≡ blank (c ∷ s)
unfolding solid
blank-cons c t s = elim (Bool-cases (is_white (code c))) [
  | inl white ↦ blank-white c t white ∙ sym (blank-white c s white)
  | inr ink' ↦ blank-ink c t ink' ∙ sym (blank-ink c s ink')
]

IsAlike-refl : (s : String) → IsAlike s s
IsAlike-refl s = record { keys = refl; values = refl; front = refl }

pub IsAlike-cons : (c : Char) (t s : String) → IsAlike t s → IsAlike (c ∷ t) (c ∷ s)
unfolding before after assigned
IsAlike-cons c t s alike = elim (Bool-cases (eqb (code c) b'=')) [
  | inl here ↦ record {
    keys = rw (before, here) refl;
    values = rw (assigned, after, here) (ap not alike.front);
    front = blank-cons c t s;
  }
  | inr later ↦ record {
    keys = rw (before, later) (ap (λ r. c ∷ r) alike.keys);
    values = rw (assigned, after, later) alike.values;
    front = blank-cons c t s;
  }
]

IsSecret-alike : (t s : String) → IsAlike t s → IsSecret t → IsSecret s
IsSecret-alike t s alike secret = record {
  is_key = ap strip_key (sym alike.keys) ∙ secret.is_key;
  is_assigned = sym alike.values ∙ secret.is_assigned;
}

pub unmatched : (s : String) → assignment s ≡ none → IsSecret s → ⊥
unmatched s h secret =
    let (v, split, full, found) = IsSecret-match s secret in missing (sym h ∙ found)

-- Where nothing is replaced nothing is in a text that is alike.
pub no_match-alike : (t s : String) → IsAlike t s → assignment s ≡ none → assignment t ≡ none
no_match-alike t s alike h = elim (assignment-cases t) [
  | inl none' ↦ none'
  | inr secret ↦ absurd (unmatched s h (IsSecret-alike t s alike secret))
]

-- A replaced value at the front of a text.
unfoldable pub replaced : String → String → String
replaced b t = (b ++ "=[REDACTED]") ++ t

pub replaced-equals : (b t : String) → replaced b t ≡ b ++ ("=" ++ ("[REDACTED]" ++ t))
unfolding replaced
replaced-equals b t =
    append_assoc b "=[REDACTED]" t ∙ ap (λ r. b ++ r) (append_assoc "=" "[REDACTED]" t)

abbrev ink : ℕ → Bool
ink c = not (is_white c)

solid-append : (a b : String) → all_chars ink a ≡ true → solid (a ++ b) ≡ count a + solid b
unfolding solid all_chars
solid-append [] b h = rw (nil-append b, length-nil) (omega arith)
solid-append (c ∷ a) b h = elim (Bool-cases (is_white (code c))) [
  | inl white ↦ absurd (no_truth (rw (all_chars, white) at h))
  | inr solid' ↦
      let rest = solid-append a b (ground arith) in
      rw (cons-append c a b, length-cons c a, solid, solid') (omega (arith, rest))
]

redacted-solid : (t : String) → solid ("[REDACTED]" ++ t) ≡ 10 + solid t
unfolding all_chars is_white
redacted-solid t = solid-append "[REDACTED]" t refl

redacted-not_blank : (t : String) → eqb (solid ("[REDACTED]" ++ t)) 0 ≡ false
redacted-not_blank t = rw (redacted-solid t) (ground arith)

-- A value in a text is its run of solid characters and what does not go on with one.
split-solid : (v : String) → (a w : String) × (v ≡ a ++ w) × (count a ≡ solid v) × (blank w ≡ true)
unfolding solid
split-solid [] = ("", "", sym (nil-append ""), length-nil, refl)
split-solid (c ∷ v) = elim (Bool-cases (is_white (code c))) [
  | inl white ↦
      ("", c ∷ v, sym (nil-append (c ∷ v)), rw (solid, white) length-nil, rw (solid, white) refl)
  | inr ink' ↦
      let (a, w, whole, size, end) = split-solid v in
      (
        c ∷ a,
        w,
        ap (λ t. c ∷ t) whole ∙ sym (cons-append c a w),
        rw (solid, ink') (length-cons c a ∙ ap suc size),
        end,
      )
]

pub pass-none : (c : Char) (s : String) → assignment (c ∷ s) ≡ none → pass (c ∷ s) ≡ c ∷ pass s
unfolding substitute
pass-none c s h = rw (substitute, h) refl

-- What the pass makes of a match at the front of a text.
pub pass-secret :
    (s : String)
    → IsSecret s
    → (w : String) × (pass s ≡ replaced (before b'=' s) (pass w))
      × (blank w ≡ true)
      × (count w < count s)
unfolding replaced
pass-secret s secret =
    let b = before b'=' s in
    let (v, split, full, found) = IsSecret-match s secret in
    let (a, w, whole, size, end) = split-solid v in
    let front = b ++ ("=" ++ a) in
    let parts : s ≡ front ++ w =
      split
      ∙ ap (λ t. b ++ ("=" ++ t)) whole
      ∙ sym (append_assoc b ("=" ++ a) w ∙ ap (λ t. b ++ t) (append_assoc "=" a w)) in
    let long : count front ≡ count b + 1 + count a =
      omega (arith, length-append b ("=" ++ a), length-append "=" a) in
    let match : assignment (front ++ w) ≡ some (count front, b ++ "=[REDACTED]") =
      ap assignment (sym parts)
      ∙ found
      ∙ ap (λ n. some (n, b ++ "=[REDACTED]")) (omega (arith, long, size)) in
    (
      w,
      ap pass parts
          ∙ substitute-front assignment front w (b ++ "=[REDACTED]") (omega (arith, long)) match,
      end,
      omega (arith, long, ap count parts, length-append front w),
    )

no_key : strip_key "" ≡ none
unfolding strip_key one_of strip_word strip_api
no_key = refl

pub replaced-cons : (c : Char) (b t : String) → replaced (c ∷ b) t ≡ c ∷ replaced b t
unfolding replaced
replaced-cons c b t =
    ap (λ r. r ++ t) (cons-append c b "=[REDACTED]") ∙ cons-append c (b ++ "=[REDACTED]") t

the_front : (c : Char) (s : String) → eqb (code c) b'=' ≡ true → before b'=' (c ∷ s) ≡ ""
unfolding before
the_front c s h = rw (before, h) refl

replaced-front : (s t : String) → IsSecret s → blank (replaced (before b'=' s) t) ≡ blank s
unfolding before assigned after
replaced-front [] t secret = absurd (no_truth secret.is_assigned)
replaced-front (c ∷ s) t secret = elim (Bool-cases (eqb (code c) b'=')) [
  | inl here ↦
      absurd (missing (sym no_key ∙ ap strip_key (sym (the_front c s here)) ∙ secret.is_key))
  | inr later ↦
      rw (before, later)
        (ap blank (replaced-cons c (before b'=' s) t) ∙ blank-cons c (replaced (before b'=' s) t) s)
]

replaced-IsAlike : (s t : String) → IsSecret s → IsAlike (replaced (before b'=' s) t) s
unfolding assigned
replaced-IsAlike s t secret =
    let b = before b'=' s in
    let tail = "[REDACTED]" ++ t in
    let behind' =
      ap (after b'=') (replaced-equals b t) ∙ after-equals b tail (before-no_equals s) in
    record {
      keys = ap (before b'=') (replaced-equals b t) ∙ before-equals b tail (before-no_equals s);
      values = rw (assigned, behind') (ap not (redacted-not_blank t)) ∙ sym secret.is_assigned;
      front = replaced-front s t secret;
    }

pub pass-IsAlike : (s : String) → IsAlike (pass s) s
unfolding substitute
pass-IsAlike [] = IsAlike-refl ""
pass-IsAlike (c ∷ s) = elim (assignment-cases (c ∷ s)) [
  | inl none' ↦
      subst (λ t. IsAlike t (c ∷ s)) (sym (pass-none c s none'))
        (IsAlike-cons c (pass s) s (pass-IsAlike s))
  | inr secret ↦
      let (w, made, end, less) = pass-secret (c ∷ s) secret in
      subst (λ t. IsAlike t (c ∷ s)) (sym made) (replaced-IsAlike (c ∷ s) (pass w) secret)
]

-- The pass at a value that is replaced already.
pass-replaced :
    (b t : String)
    → strip_key b ≡ some ""
    → blank t ≡ true
    → pass (replaced b t) ≡ replaced b (pass t)
unfolding replaced
pass-replaced b t key end =
    let size : count b + 1 + solid ("[REDACTED]" ++ t) ≡ count (b ++ "=[REDACTED]") =
      omega (arith, redacted-solid t, nothing t end, length-append b "=[REDACTED]") in
    substitute-front assignment (b ++ "=[REDACTED]") t (b ++ "=[REDACTED]") (omega (arith, size)) (
      ap assignment (replaced-equals b t)
      ∙ assignment-match b ("[REDACTED]" ++ t) key (redacted-not_blank t)
      ∙ ap (λ n. some (n, b ++ "=[REDACTED]")) size)

pass-pass-fuel : (fuel : ℕ) (s : String) → count s ≤ fuel → pass (pass s) ≡ pass s
unfolding substitute
pass-pass-fuel fuel [] h = refl
pass-pass-fuel zero (c ∷ s) h = absurd (omega (arith, length-cons c s))
pass-pass-fuel (suc fuel) (c ∷ s) h = elim (assignment-cases (c ∷ s)) [
  | inl none' ↦
      let still =
        no_match-alike (c ∷ pass s) (c ∷ s) (IsAlike-cons c (pass s) s (pass-IsAlike s)) none' in
      ap pass (pass-none c s none')
      ∙ pass-none c (pass s) still
      ∙ ap (λ t. c ∷ t) (pass-pass-fuel fuel s (omega (arith, length-cons c s)))
      ∙ sym (pass-none c s none')
  | inr secret ↦
      let (w, made, end, less) = pass-secret (c ∷ s) secret in
      ap pass made
      ∙ pass-replaced (before b'=' (c ∷ s)) (pass w) secret.is_key ((pass-IsAlike w).front ∙ end)
      ∙ ap (replaced (before b'=' (c ∷ s))) (pass-pass-fuel fuel w (omega arith))
      ∙ sym made
]

-- A second pass over the values of secrets changes nothing in what `redact` gives.
pub redact-pass : (s : String) → substitute assignment 0 (redact s) ≡ redact s
unfolding redact
redact-pass s = let t = substitute private_key 0 s in pass-pass-fuel (count t) t (omega arith)
