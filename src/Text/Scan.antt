-- ===== src/Text/Scan.antt =====
-- `split`, `startswith`, the patterns of names, and `int` of a text.
use Prim.Native.String.{String, [], ◌∷◌}
use pulsaros_testbed.Prelude.{
  ℕ, ◌+◌, ◌-◌, ◌*◌, code, Bool, true, false, ◌&&◌, ◌||◌, leb, eqb, if◌then◌else◌, Option, none,
  some,
}
use pulsaros_testbed.Number.{ℤ, pos, neg}

unfoldable pub is_digit : ℕ → Bool
is_digit c = leb b'0' c && leb c b'9'

unfoldable pub is_lower : ℕ → Bool
is_lower c = leb b'a' c && leb c b'z'

-- [a-z0-9-]*
unfoldable pub is_name_tail : String → Bool
unfolding is_lower is_digit
is_name_tail [] = true
is_name_tail (c ∷ s) =
    (is_lower (code c) || is_digit (code c) || eqb (code c) b'-') && is_name_tail s

-- re.fullmatch(r"[a-z0-9][a-z0-9-]*", s)
unfoldable pub is_name : String → Bool
unfolding is_name_tail
is_name [] = false
is_name (c ∷ s) = (is_lower (code c) || is_digit (code c)) && is_name_tail s

-- [a-z0-9]?
unfoldable pub is_prefix_tail : String → Bool
unfolding is_lower is_digit
is_prefix_tail [] = true
is_prefix_tail (c ∷ []) = is_lower (code c) || is_digit (code c)
is_prefix_tail (c ∷ d ∷ s) = false

-- re.fullmatch(r"[a-z][a-z0-9]?", s)
unfoldable pub is_vnet_prefix : String → Bool
unfolding is_prefix_tail
is_vnet_prefix [] = false
is_vnet_prefix (c ∷ s) = is_lower (code c) && is_prefix_tail s

-- The part of a text before the first `c`, and the part after it if there is one.
unfoldable pub before : ℕ → String → String
before c [] = []
before c (d ∷ s) = let rest = before c s in if eqb (code d) c then [] else d ∷ rest

unfoldable pub after : ℕ → String → Option String
after c [] = none
after c (d ∷ s) = let rest = after c s in if eqb (code d) c then some s else rest

unfoldable pub has_char : ℕ → String → Bool
has_char c [] = false
has_char c (d ∷ s) = eqb (code d) c || has_char c s

-- The text behind a prefix.
unfoldable pub strip_prefix : String → String → Option String
strip_prefix [] s = some s
strip_prefix (p ∷ ps) [] = none
strip_prefix (p ∷ ps) (c ∷ s) =
    let rest = strip_prefix ps s in if eqb (code p) (code c) then rest else none

-- p in s
unfoldable pub has_text : String → String → Bool
has_text p [] = elim p [ [] ↦ true | ◌∷◌ c rest ↦ false ]
has_text p (c ∷ s) = elim (strip_prefix p (c ∷ s)) [ some _ ↦ true | none ↦ has_text p s ]

-- re.fullmatch(r"[0-9]+", s), with the number that `int` reads
unfoldable pub digits_only : ℕ → String → Option ℕ
unfolding is_digit
digits_only n [] = some n
digits_only n (c ∷ s) =
    let rest = digits_only (n * 10 + (code c - 48)) s in if is_digit (code c) then rest else none

unfoldable pub numeric : String → Option ℕ
unfolding digits_only
numeric [] = none
numeric (c ∷ s) = digits_only 0 (c ∷ s)

unfoldable pub is_space : ℕ → Bool
is_space c = (leb 9 c && leb c 13) || (leb 28 c && leb c 32)

unfoldable pub all_space : String → Bool
unfolding is_space
all_space [] = true
all_space (c ∷ s) = is_space (code c) && all_space s

-- The rest of a literal behind at least one digit: digits, one `_` between two of them, and then
-- white space.
unfoldable pub digits_tail : ℕ → String → Option ℕ
unfolding is_digit all_space
digits_tail n [] = some n
digits_tail n (c ∷ []) =
    if is_digit (code c)
    then some (n * 10 + (code c - 48))
    else if is_space (code c)
    then some n
    else none
digits_tail n (c ∷ d ∷ s) =
    let next = digits_tail (n * 10 + (code c - 48)) (d ∷ s) in
    let skip = digits_tail n (d ∷ s) in
    if is_digit (code c)
    then next
    else if eqb (code c) b'_' && is_digit (code d)
    then skip
    else if all_space (c ∷ d ∷ s)
    then some n
    else none

unfoldable pub unsigned : String → Option ℕ
unfolding digits_tail
unsigned [] = none
unsigned (c ∷ s) = if is_digit (code c) then digits_tail (code c - 48) s else none

unfoldable pub negated : Option ℕ → Option ℤ
negated none = none
negated (some n) = some (neg (pos n))

unfoldable pub positive : Option ℕ → Option ℤ
positive none = none
positive (some n) = some (pos n)

-- int(s): white space round a signed literal in base 10; `none` is the ValueError
unfoldable pub parse_int : String → Option ℤ
unfolding unsigned negated positive
parse_int [] = none
parse_int (c ∷ s) =
    let rest = parse_int s in
    if is_space (code c)
    then rest
    else if eqb (code c) b'-'
    then negated (unsigned s)
    else if eqb (code c) b'+'
    then positive (unsigned s)
    else positive (unsigned (c ∷ s))
