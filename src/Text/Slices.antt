-- ===== src/Text/Slices.antt =====
-- Slices, suffixes and `strip` of texts.
use Prim.Native.String.{String, [], ◌∷◌, ◌++◌, count}
use text.Mathlib.TextLemmas.{nil-append, cons-append, length-nil, length-cons}
use pulsaros_testbed.Prelude.{
  true, ℕ, zero, suc, ◌-◌, ◌≤◌, ◌<◌, code, Bool, ◌&&◌, ◌||◌, leb, eqb, if◌then◌else◌, Option, none,
  some, ◌==◌, ◌≡◌, refl, arith,
}

-- s[n:]
unfoldable pub drop : ℕ → String → String
drop zero s = s
drop (suc n) [] = []
drop (suc n) (c ∷ s) = drop n s

-- s[:n]
unfoldable pub take : ℕ → String → String
take zero s = []
take (suc n) [] = []
take (suc n) (c ∷ s) = c ∷ take n s

-- s[-n:]; `-0` is 0
unfoldable pub last : ℕ → String → String
unfolding drop
last zero s = s
last (suc n) s = drop (count s - suc n) s

-- s.endswith(p)
unfoldable pub ends_with : String → String → Bool
unfolding drop
ends_with p s = leb (count p) (count s) && drop (count s - count p) s == p

-- str.isspace of one character
unfoldable pub is_white : ℕ → Bool
is_white c =
    (leb 9 c && leb c 13)
    || ((leb 28 c && leb c 32)
        || (eqb c 133
            || (eqb c 160
                || (eqb c 5760
                    || ((leb 8192 c && leb c 8202)
                        || (eqb c 8232
                            || (eqb c 8233 || (eqb c 8239 || (eqb c 8287 || eqb c 12288)))))))))

unfoldable pub strip_left : String → String
unfolding is_white
strip_left [] = []
strip_left (c ∷ s) = let rest = strip_left s in if is_white (code c) then rest else c ∷ s

unfoldable pub strip_right : String → String
unfolding is_white
strip_right [] = []
strip_right (c ∷ s) =
    let rest = strip_right s in if is_white (code c) && rest == "" then [] else c ∷ rest

-- s.strip()
unfoldable pub strip : String → String
unfolding strip_left strip_right
strip s = strip_right (strip_left s)

-- The suffix of a name: from its last `.`, which is neither its first nor its last character.
suffix_from : String → Option String
suffix_from [] = none
suffix_from (c ∷ s) = elim (suffix_from s) [
  | some t ↦ some t
  | none ↦ if eqb (code c) b'.' then some (c ∷ s) else none
]

-- path.suffix of a file name
unfoldable pub suffix : String → String
unfolding suffix_from
suffix [] = ""
suffix (c ∷ s) = elim (suffix_from s) [ none ↦ "" | some t ↦ if t == "." then "" else t ]

-- Every character has the property.
unfoldable pub all_chars : (ℕ → Bool) → String → Bool
all_chars p [] = true
all_chars p (c ∷ s) = p (code c) && all_chars p s

count-drop : (n : ℕ) (s : String) → count (drop n s) ≡ count s - n
unfolding drop
count-drop zero s = omega arith
count-drop (suc n) [] = omega (arith, length-nil)
count-drop (suc n) (c ∷ s) = omega (arith, length-cons c s, count-drop n s)

take-drop : (n : ℕ) (s : String) → take n s ++ drop n s ≡ s
unfolding take drop
take-drop zero s = nil-append s
take-drop (suc n) [] = nil-append []
take-drop (suc n) (c ∷ s) = rw (cons-append, take-drop n s) refl

-- What `s[-n:]` keeps is the end of the text, of at most n characters.
pub last-lem :
    (n : ℕ) (s : String)
    → 0 < n
    → (count (last n s) ≤ n) × (front : String) × (front ++ last n s ≡ s)
unfolding last
last-lem zero s h = absurd (omega arith)
last-lem (suc n) s h =
    (omega (arith, count-drop (count s - suc n) s), take (count s - suc n) s, take-drop _ s)

pub all_chars-append :
    (p : ℕ → Bool) (a b : String)
    → all_chars p a ≡ true
    → all_chars p b ≡ true
    → all_chars p (a ++ b) ≡ true
unfolding all_chars
all_chars-append p [] b h k = rw nil-append k
all_chars-append p (c ∷ a) b h k =
    let tail = all_chars-append p a b (ground arith) k in rw cons-append (ground arith)
