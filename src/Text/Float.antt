-- ===== src/Text/Float.antt =====
-- `float` of a text, as far as `< 0` reads it. A number too small for a float is not told apart from
-- other numbers of its sign.
use Prim.Native.String.{String, [], ◌∷◌}
use pulsaros_testbed.Prelude.{
  ℕ, ◌+◌, Bool, true, false, ◌&&◌, ◌||◌, not, Option, none, some, if◌then◌else◌, eqb, leb, code,
}
use pulsaros_testbed.Text.Scan.{is_digit, is_space, all_space}

-- How far a decimal literal has been read. The names with `_gap` follow an underscore.
pub data Place : Type 0 where
  start whole whole_gap point lone_point fraction fraction_gap mark mark_sign power power_gap :
      Place

-- The place behind one character, and whether it is a digit of the number itself.
after_digit : Place → Place
after_digit start = whole
after_digit whole = whole
after_digit whole_gap = whole
after_digit point = fraction
after_digit lone_point = fraction
after_digit fraction = fraction
after_digit fraction_gap = fraction
after_digit _ = power

in_mantissa : Place → Bool
in_mantissa mark = false
in_mantissa mark_sign = false
in_mantissa power = false
in_mantissa power_gap = false
in_mantissa _ = true

after_underscore : Place → Option Place
after_underscore whole = some whole_gap
after_underscore fraction = some fraction_gap
after_underscore power = some power_gap
after_underscore _ = none

after_point : Place → Option Place
after_point start = some lone_point
after_point whole = some point
after_point _ = none

after_mark : Place → Option Place
after_mark whole = some mark
after_mark point = some mark
after_mark fraction = some mark
after_mark _ = none

after_sign : Place → Option Place
after_sign mark = some mark_sign
after_sign _ = none

unfoldable pub next_place : Place → ℕ → Option Place
unfolding after_digit after_underscore after_point after_mark after_sign
next_place p c =
    if is_digit c
    then some (after_digit p)
    else if eqb c b'_'
    then after_underscore p
    else if eqb c b'.'
    then after_point p
    else if eqb c b'e' || eqb c b'E'
    then after_mark p
    else if eqb c b'+' || eqb c b'-'
    then after_sign p
    else none

is_end : Place → Bool
is_end whole = true
is_end point = true
is_end fraction = true
is_end power = true
is_end _ = false

-- The rest of a literal, and white space: `none` where it is none, else whether a digit of the number
-- is not zero.
unfoldable pub decimal : Place → Bool → String → Option Bool
unfolding next_place is_end in_mantissa
decimal p nonzero [] = if is_end p then some nonzero else none
decimal p nonzero (c ∷ s) =
    let counts = in_mantissa p && (is_digit (code c) && not (eqb (code c) b'0')) in
    elim (next_place p (code c)) [
      | some q ↦ decimal q (nonzero || counts) s
      | none ↦ if is_end p && all_space (c ∷ s) then some nonzero else none
    ]

-- One letter, small or capital.
lower : ℕ → ℕ
lower c = if leb 65 c && leb c 90 then c + 32 else c

-- The word, in any letters, and white space.
unfoldable pub is_word : String → String → Bool
unfolding lower
is_word [] s = all_space s
is_word (w ∷ ws) [] = false
is_word (w ∷ ws) (c ∷ s) = let rest = is_word ws s in eqb (code w) (lower (code c)) && rest

unfoldable pub magnitude : String → Option Bool
magnitude s =
    if is_word "inf" s || is_word "infinity" s
    then some true
    else if is_word "nan" s
    then some false
    else decimal start false s

signed : Bool → Option Bool → Option Bool
signed negative none = none
signed negative (some nonzero) = some (negative && nonzero)

-- float(s) < 0; `none` is the ValueError
unfoldable pub float_below_zero : String → Option Bool
unfolding signed
float_below_zero [] = none
float_below_zero (c ∷ s) =
    let rest = float_below_zero s in
    if is_space (code c)
    then rest
    else if eqb (code c) b'-'
    then signed true (magnitude s)
    else if eqb (code c) b'+'
    then signed false (magnitude s)
    else signed false (magnitude (c ∷ s))
