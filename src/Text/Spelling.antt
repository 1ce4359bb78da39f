-- ===== src/Text/Spelling.antt =====
-- Reading a printed number gives the number back, so different numbers print differently.
use Prim.Native.String.{String, [], ◌∷◌, ◌++◌, count}
use text.Mathlib.TextLemmas.{nil-append, cons-append}
use pulsaros_testbed.Prelude.{
  &&-true, ℕ, zero, suc, ◌+◌, ◌-◌, ◌*◌, ◌/◌, ◌%◌, ◌<◌, ◌≤◌, Char, code, Bool, true, false, ◌||◌,
  ◌&&◌, ltb, eqb, leb, if◌then◌else◌, ◌≡◌, refl, sym, ap, ◌∙◌, arith, Bool-cases, inl, inr,
}
use mathlib.Core.Bool.{false≢true}
use pulsaros_testbed.Number.{ℤ, pos, negsuc}
use pulsaros_testbed.Text.Digits.{digit, spell, show_in, show_ℕ, zeros, pad, show_hex2}

-- The value of a digit; a sign counts as 0.
digit_value : Char → ℕ
digit_value c =
    if eqb (code c) b'-' then 0 else if leb (code c) b'9' then code c - b'0' else code c - 87

-- The digits of a text, behind a number that was read before.
read : ℕ → ℕ → String → ℕ
unfolding digit_value
read base n [] = n
read base n (c ∷ s) = read base (n * base + digit_value c) s

has_minus : String → Bool
has_minus [] = false
has_minus (c ∷ s) = eqb (code c) b'-' || has_minus s

good_digit : ℕ → Bool
good_digit n = eqb (digit_value (digit n)) n && (if eqb (code (digit n)) b'-' then false else true)

-- The test holds at every number under the bound.
unfoldable pub holds_under : (ℕ → Bool) → ℕ → Bool
holds_under test zero = true
holds_under test (suc bound) = holds_under test bound && test bound

pub holds_under_lem :
    (test : ℕ → Bool) (bound : ℕ)
    → holds_under test bound ≡ true
    → (i : ℕ) → i < bound
    → test i ≡ true
unfolding holds_under
holds_under_lem test zero h i below = absurd (omega arith)
holds_under_lem test (suc bound) h i below =
    let split = &&-true (holds_under test bound) (test bound) h in
    ground (arith, holds_under_lem test bound split.0 i)

digit_table : holds_under good_digit 16 ≡ true
unfolding holds_under good_digit digit digit_value
digit_table = refl

digit_lem : (n : ℕ) → n < 16 → (digit_value (digit n) ≡ n) × (eqb (code (digit n)) b'-' ≡ false)
unfolding good_digit
digit_lem n h = ground (arith, holds_under_lem good_digit 16 digit_table n h)

pub div-lt : (fuel base n : ℕ) → n < suc fuel → 1 < base → base ≤ n → n / base < fuel
div-lt fuel base n h b c = grind arith

read-digit :
    (base k n : ℕ) (acc : String)
    → n < 16
    → read base k (digit n ∷ acc) ≡ read base (k * base + n) acc
unfolding read
read-digit base k n acc h = ap (λ d. read base (k * base + d) acc) (digit_lem n h).0

-- With fuel above the number, what is printed reads back.
read-spell :
    (fuel base n : ℕ) (acc : String)
    → n < fuel
    → 1 < base
    → base ≤ 16
    → read base 0 (spell fuel base n acc) ≡ read base n acc
unfolding spell
read-spell zero base n acc h b c = absurd (omega arith)
read-spell (suc fuel) base n acc h b c = elim (Bool-cases (ltb n base)) [
  | inl small ↦
      rw small (read-digit base 0 n acc (ground arith) ∙ ap (λ k. read base k acc) (omega arith))
  | inr large ↦ rw large (
      read-spell fuel base (n / base) (digit (n % base) ∷ acc)
        (div-lt fuel base n h b (ground arith)) b c
      ∙ read-digit base (n / base) (n % base) acc (grind arith)
      ∙ ap (λ k. read base k acc) (grind arith))
]

has_minus-spell :
    (fuel base n : ℕ) (acc : String)
    → 1 < base
    → base ≤ 16
    → has_minus acc ≡ false
    → has_minus (spell fuel base n acc) ≡ false
unfolding spell has_minus
has_minus-spell zero base n acc b c h = h
has_minus-spell (suc fuel) base n acc b c h = elim (Bool-cases (ltb n base)) [
  | inl small ↦ rw small (rw (digit_lem n (ground arith)).1 h)
  | inr large ↦ rw large (
      has_minus-spell fuel base (n / base) (digit (n % base) ∷ acc) b c
        (rw (digit_lem (n % base) (grind arith)).1 h))
]

read-zeros : (base n : ℕ) (s : String) → read base 0 (zeros n ++ s) ≡ read base 0 s
unfolding zeros read digit_value
read-zeros base zero s = rw nil-append
read-zeros base (suc n) s =
    rw cons-append (ap (λ (k : ℕ). read base k (zeros n ++ s)) (omega arith) ∙ read-zeros base n s)

has_minus-zeros : (n : ℕ) (s : String) → has_minus (zeros n ++ s) ≡ has_minus s
unfolding zeros has_minus
has_minus-zeros zero s = rw nil-append
has_minus-zeros (suc n) s = rw cons-append (has_minus-zeros n s)

module _ (base : ℕ) (low : 1 < base) (high : base ≤ 16) (width n : ℕ) where
  read-pad : read base 0 (pad width (show_in base n)) ≡ n
  unfolding pad show_in read
  read-pad =
      read-zeros base (width - count (show_in base n)) (show_in base n)
      ∙ read-spell (suc n) base n [] (omega arith) low high

  has_minus-pad : has_minus (pad width (show_in base n)) ≡ false
  unfolding pad show_in has_minus
  has_minus-pad =
      has_minus-zeros (width - count (show_in base n)) (show_in base n)
      ∙ has_minus-spell (suc n) base n [] low high refl

has_minus-sign : (s : String) → has_minus ("-" ++ s) ≡ true
unfolding has_minus
has_minus-sign s = rw cons-append refl

read-sign : (s : String) → read 16 0 ("-" ++ s) ≡ read 16 0 s
unfolding read digit_value
read-sign s = rw cons-append (ap (read 16 0) (nil-append s))

-- `%02x` keeps integers apart, at any size and with a sign.
pub show_hex2_injective : (a b : ℤ) → show_hex2 a ≡ show_hex2 b → a ≡ b
unfolding show_hex2
show_hex2_injective (pos a) (pos b) h = ap pos (
    sym (read-pad 16 (omega arith) (omega arith) 2 a)
    ∙ ap (read 16 0) h
    ∙ read-pad 16 (omega arith) (omega arith) 2 b)
show_hex2_injective (pos a) (negsuc b) h = absurd (
    false≢true
      (sym (has_minus-pad 16 (omega arith) (omega arith) 2 a) ∙ ap has_minus h ∙ has_minus-sign _))
show_hex2_injective (negsuc a) (pos b) h = absurd (
    false≢true (
      sym (has_minus-pad 16 (omega arith) (omega arith) 2 b)
      ∙ ap has_minus (sym h)
      ∙ has_minus-sign _))
show_hex2_injective (negsuc a) (negsuc b) h =
    let same : suc a ≡ suc b =
      sym (read-pad 16 (omega arith) (omega arith) 1 (suc a))
      ∙ sym (read-sign _)
      ∙ ap (read 16 0) h
      ∙ read-sign _
      ∙ read-pad 16 (omega arith) (omega arith) 1 (suc b) in
    ground arith

read-show : (n : ℕ) → read 10 0 (show_ℕ n) ≡ n
unfolding show_ℕ show_in read
read-show n = read-spell (suc n) 10 n [] (omega arith) (omega arith) (omega arith)

-- Decimal texts keep numbers apart.
pub show_ℕ_injective : (a b : ℕ) → show_ℕ a ≡ show_ℕ b → a ≡ b
show_ℕ_injective a b h = sym (read-show a) ∙ ap (read 10 0) h ∙ read-show b
