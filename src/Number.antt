-- ===== src/Number.antt =====
-- The integers of Python: `int` has no bound, so nothing wraps.
use pulsaros_testbed.Prelude.{
  ℕ, suc, ◌+◌, ◌-◌, Bool, false, ltb, leb, eqb, if◌then◌else◌, ◌≡◌, arith,
}

-- `negsuc n` is -(n + 1).
pub data ℤ : Type 0 where
  pos : ℕ → ℤ
  negsuc : ℕ → ℤ

abbrev pub pos_part : ℤ → ℕ
pos_part (pos n) = n
pos_part (negsuc n) = 0

abbrev pub neg_part : ℤ → ℕ
neg_part (pos n) = 0
neg_part (negsuc n) = suc n

abbrev pub sub_ℕ : ℕ → ℕ → ℤ
sub_ℕ a b = if leb b a then pos (a - b) else negsuc (b - a - 1)

infixl 65 ◌+ℤ◌
abbrev pub ◌+ℤ◌ : ℤ → ℤ → ℤ
a +ℤ b = sub_ℕ (pos_part a + pos_part b) (neg_part a + neg_part b)

abbrev pub neg : ℤ → ℤ
neg z = sub_ℕ (neg_part z) (pos_part z)

abbrev pub ltℤ : ℤ → ℤ → Bool
ltℤ a b = ltb (pos_part a + neg_part b) (pos_part b + neg_part a)

abbrev pub eqℤ : ℤ → ℤ → Bool
eqℤ a b = eqb (pos_part a + neg_part b) (pos_part b + neg_part a)

-- Adding a fixed number keeps integers apart.
pub +ℤ_cancel_left : (a b c : ℤ) → a +ℤ b ≡ a +ℤ c → b ≡ c
+ℤ_cancel_left (pos a) (pos b) (pos c) h = ground arith
+ℤ_cancel_left (pos a) (pos b) (negsuc c) h = ground arith
+ℤ_cancel_left (pos a) (negsuc b) (pos c) h = ground arith
+ℤ_cancel_left (pos a) (negsuc b) (negsuc c) h = ground arith
+ℤ_cancel_left (negsuc a) (pos b) (pos c) h = ground arith
+ℤ_cancel_left (negsuc a) (pos b) (negsuc c) h = ground arith
+ℤ_cancel_left (negsuc a) (negsuc b) (pos c) h = ground arith
+ℤ_cancel_left (negsuc a) (negsuc b) (negsuc c) h = ground arith

pub eqℤ_iff_false : (a b : ℤ) → eqℤ a b ≡ false → a ≡ b → ⊥
eqℤ_iff_false (pos a) (pos b) h e = ground arith
eqℤ_iff_false (pos a) (negsuc b) h e = ground arith
eqℤ_iff_false (negsuc a) (pos b) h e = ground arith
eqℤ_iff_false (negsuc a) (negsuc b) h e = ground arith
