-- ===== src/Text/Digits.antt =====
-- Numbers as text, as `%d`, `%x` and the formats with a width print them.
use Prim.Native.String.{String, [], ◌∷◌, ◌++◌, count}
use pulsaros_testbed.Prelude.{ℕ, zero, suc, ◌-◌, ◌/◌, ◌%◌, Char, ltb, eqb, if◌then◌else◌}
use pulsaros_testbed.Number.{ℤ, pos, negsuc}

-- A digit below 16, in lower case.
unfoldable pub digit : ℕ → Char
digit n =
    if eqb n 0
    then "0"
    else if eqb n 1
    then "1"
    else if eqb n 2
    then "2"
    else if eqb n 3
    then "3"
    else if eqb n 4
    then "4"
    else if eqb n 5
    then "5"
    else if eqb n 6
    then "6"
    else if eqb n 7
    then "7"
    else if eqb n 8
    then "8"
    else if eqb n 9
    then "9"
    else if eqb n 10
    then "a"
    else if eqb n 11
    then "b"
    else if eqb n 12
    then "c"
    else if eqb n 13
    then "d"
    else if eqb n 14
    then "e"
    else "f"

-- The digits of `n` in front of `acc`. `n` halves at least in each round, so fuel above `n` is
-- enough.
unfoldable pub spell : ℕ → ℕ → ℕ → String → String
spell zero base n acc = acc
spell (suc fuel) base n acc =
    let rest = spell fuel base (n / base) (digit (n % base) ∷ acc) in
    if ltb n base then digit n ∷ acc else rest

-- `%x` and `%d` of a natural number
unfoldable pub show_in : ℕ → ℕ → String
unfolding spell digit
show_in base n = spell (suc n) base n []

unfoldable pub show_ℕ : ℕ → String
unfolding show_in
show_ℕ n = show_in 10 n

unfoldable pub show_ℤ : ℤ → String
unfolding show_ℕ
show_ℤ (pos n) = show_ℕ n
show_ℤ (negsuc n) = "-" ++ show_ℕ (suc n)

unfoldable pub zeros : ℕ → String
zeros zero = []
zeros (suc n) = "0" ∷ zeros n

-- A width with a leading 0: zeros up to `width` characters, none if the text is longer.
unfoldable pub pad : ℕ → String → String
unfolding zeros
pad width s = zeros (width - count s) ++ s

-- `%02x` of an integer; the sign stands before the zeros and takes one place.
unfoldable pub show_hex2 : ℤ → String
unfolding show_in pad
show_hex2 (pos n) = pad 2 (show_in 16 n)
show_hex2 (negsuc n) = "-" ++ pad 1 (show_in 16 (suc n))
