-- ===== src/EnvFile/Numbers.antt =====
-- Numbers that `write_env` of scripts/render-topology.py prints, as `env_int` reads them.
use Prim.Native.String.{String, ◌∷◌}
use text.Mathlib.TextLemmas.{cons≢nil}
use mathlib.Core.List.{[]}
use pulsaros_testbed.Prelude.{
  ℕ, zero, suc, ◌+◌, ◌*◌, ◌-◌, ◌/◌, ◌%◌, ◌<◌, code, Char, Bool, true, false, ◌&&◌, eqb, ltb, Option,
  none, some, get, put, get-put, eq_refl, ok, ◌==◌, ◌≡◌, refl, sym, ap, ◌∙◌, arith, Bool-cases, inl,
  inr, eq_iff,
}
use pulsaros_testbed.Number.{pos}
use pulsaros_testbed.Text.{digit, spell, show_in, show_ℕ, show_ℤ, is_digit, digits_only, numeric}
use pulsaros_testbed.Text.Spelling.{holds_under, holds_under_lem, div-lt}
use pulsaros_testbed.Value.{int, py_str, repr, is_blank, Fields, end, field, field?}
use pulsaros_testbed.Render.Output.{env_lines, env_text}
use pulsaros_testbed.EnvFile.{load_env_file}
use pulsaros_testbed.EnvFile.Roundtrip.{printed, plain_entries, env_file-roundtrip}
use pulsaros_testbed.Render.Env.{Environ, env_int}

decimal_digit : ℕ → Bool
decimal_digit n = is_digit (code (digit n)) && eqb (code (digit n) - 48) n

digit_table : holds_under decimal_digit 10 ≡ true
unfolding holds_under decimal_digit digit is_digit
digit_table = refl

decimal_digit_lem :
    (n : ℕ) → n < 10 → (is_digit (code (digit n)) ≡ true) × (code (digit n) - 48 ≡ n)
unfolding decimal_digit
decimal_digit_lem n h = ground (arith, holds_under_lem decimal_digit 10 digit_table n h)

digits_only-digit :
    (k n : ℕ) (acc : String) → n < 10 → digits_only k (digit n ∷ acc) ≡ digits_only (k * 10 + n) acc
unfolding digits_only
digits_only-digit k n acc h =
    let (is, value) = decimal_digit_lem n h in rw (digits_only, is, value) refl

digits_only-spell :
    (fuel n : ℕ) (acc : String) → n < fuel → digits_only 0 (spell fuel 10 n acc) ≡ digits_only n acc
unfolding spell
digits_only-spell zero n acc h = absurd (omega arith)
digits_only-spell (suc fuel) n acc h = elim (Bool-cases (ltb n 10)) [
  | inl small ↦
      rw small
        (digits_only-digit 0 n acc (ground arith) ∙ ap (λ k. digits_only k acc) (omega arith))
  | inr large ↦ rw large (
      digits_only-spell fuel (n / 10) (digit (n % 10) ∷ acc)
        (div-lt fuel 10 n h (omega arith) (ground arith))
      ∙ digits_only-digit (n / 10) (n % 10) acc (grind arith)
      ∙ ap (λ k. digits_only k acc) (grind arith))
]

spell-cons :
    (fuel n : ℕ) (c : Char) (s : String)
    → (d : Char) × (t : String) × (spell fuel 10 n (c ∷ s) ≡ d ∷ t)
unfolding spell
spell-cons zero n c s = (c, s, refl)
spell-cons (suc fuel) n c s = elim (Bool-cases (ltb n 10)) [
  | inl small ↦ (digit n, c ∷ s, rw small refl)
  | inr large ↦
      let (d, t, h) = spell-cons fuel (n / 10) (digit (n % 10)) (c ∷ s) in (d, t, rw large h)
]

show-cons : (n : ℕ) → (d : Char) × (t : String) × (show_ℕ n ≡ d ∷ t)
unfolding show_ℕ show_in spell
show-cons n = elim (Bool-cases (ltb n 10)) [
  | inl small ↦ (digit n, "", rw (show_ℕ, small) refl)
  | inr large ↦
      let (d, t, h) = spell-cons n (n / 10) (digit (n % 10)) "" in (d, t, rw (show_ℕ, large) h)
]

digits_only-show : (n : ℕ) → digits_only 0 (show_ℕ n) ≡ some n
unfolding show_ℕ show_in digits_only
digits_only-show n = digits_only-spell (suc n) n "" (omega arith)

numeric-cons : (d : Char) (t : String) → numeric (d ∷ t) ≡ digits_only 0 (d ∷ t)
unfolding numeric
numeric-cons d t = refl

numeric-show : (n : ℕ) → numeric (show_ℕ n) ≡ some n
numeric-show n =
    let (d, t, shape) = show-cons n in
    ap numeric shape ∙ numeric-cons d t ∙ ap (digits_only 0) (sym shape) ∙ digits_only-show n

not_empty : (n : ℕ) → (show_ℕ n == "") ≡ false
not_empty n =
    let (d, t, shape) = show-cons n in
    elim (Bool-cases (show_ℕ n == "")) [
      | inr text ↦ text
      | inl empty ↦ absurd (cons≢nil (sym shape ∙ (eq_iff (show_ℕ n) "").0 empty))
    ]

env_int-show :
    (environ : Environ) (name : String) (default : Option ℕ) (n : ℕ)
    → get name environ ≡ some (show_ℕ n)
    → env_int environ name default ≡ ok n
unfolding env_int
env_int-show environ name default n h = rw (env_int, h, not_empty n, numeric-show n) refl

-- Entries of other names leave a name as it is.
get-printed :
    (name : String) (fs : Fields) (data' : Environ)
    → field? name fs ≡ none
    → get name (printed data' fs) ≡ get name data'
unfolding printed field?
get-printed name end data' h = refl
get-printed name (field key value fs) data' h =
    let other : (key == name) ≡ false = ground arith in
    let later : field? name fs ≡ none = rw other at h in
    elim (Bool-cases (is_blank value)) [
      | inl blank ↦ rw (printed, blank) (get-printed name fs data' later)
      | inr text ↦
          rw (printed, text)
            (get-printed name fs (put key (py_str value) data') later
              ∙ get-put key name (py_str value) data'
              ∙ rw other refl)
    ]

number_text : (n : ℕ) → (py_str (int (pos n)) ≡ show_ℕ n) × (is_blank (int (pos n)) ≡ false)
unfolding py_str repr show_ℤ is_blank
number_text n = (refl, refl)

-- A number that is the first entry of topology.env, as RUN_ID is, is read back by `env_int` from
-- the environment that tests/conftest.py loads, where the lines are as for the dictionary and no
-- other entry has the name.
pub env_int-roundtrip :
    (name : String) (n : ℕ) (rest : Fields) (default : Option ℕ)
    → plain_entries (field name (int (pos n)) rest) ≡ true
    → field? name rest ≡ none
    → env_int
        (load_env_file (some (env_text (env_lines (field name (int (pos n)) rest)))))
        name
        default
      ≡ ok n
unfolding printed
env_int-roundtrip name n rest default plain other =
    let entries = field name (int (pos n)) rest in
    let first : get name (printed [] entries) ≡ some (show_ℕ n) =
      rw (printed, (number_text n).1, (number_text n).0)
        (get-printed name rest (put name (show_ℕ n) []) other
          ∙ get-put name name (show_ℕ n) []
          ∙ rw (eq_refl name) refl) in
    env_int-show (load_env_file (some (env_text (env_lines entries)))) name default n
      (ap (get name) (env_file-roundtrip entries plain) ∙ first)
