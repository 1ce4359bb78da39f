-- ===== src/Analysis/Redact.antt =====
-- `redact` of scripts/analyze-artifacts-gemini.py: two substitutions by regular expressions.
use Prim.Native.String.{String, [], ◌∷◌, ◌++◌, count}
use pulsaros_testbed.Prelude.{
  ℕ, zero, suc, ◌+◌, ◌-◌, code, Bool, ◌&&◌, ◌||◌, leb, eqb, if◌then◌else◌, Option, none, some,
}
use pulsaros_testbed.Text.{strip_prefix}
use pulsaros_testbed.Text.{take, is_white}

-- re.sub: `match` gives the length of a match at the start of a text, at least 1, and what replaces
-- it. The characters of a match are skipped.
unfoldable pub substitute : (String → Option (ℕ × String)) → ℕ → String → String
substitute match skip [] = []
substitute match (suc skip) (c ∷ s) = substitute match skip s
substitute match zero (c ∷ s) = elim (match (c ∷ s)) [
  | none ↦ c ∷ substitute match zero s
  | some (n, replacement) ↦ replacement ++ substitute match (n - 1) s
]

-- [A-Z ]
unfoldable pub is_label : ℕ → Bool
is_label c = (leb b'A' c && leb c b'Z') || eqb c b' '

-- The text behind `[A-Z ]*PRIVATE KEY-----`.
unfoldable pub key_label : String → Option String
unfolding strip_prefix is_label
key_label [] = none
key_label (c ∷ s) =
    let rest = key_label s in
    elim (strip_prefix "PRIVATE KEY-----" (c ∷ s)) [
      | some behind ↦ some behind
      | none ↦ if is_label (code c) then rest else none
    ]

-- The text behind `-----` and a word, and the label that follows.
unfoldable pub key_mark : String → String → Option String
unfolding strip_prefix key_label
key_mark mark s = elim (strip_prefix mark s) [ none ↦ none | some label ↦ key_label label ]

-- The text behind `.*?-----END [A-Z ]*PRIVATE KEY-----`.
unfoldable pub key_end : String → Option String
unfolding key_mark
key_end [] = none
key_end (c ∷ s) = elim (key_mark "-----END " (c ∷ s)) [
  | some behind ↦ some behind
  | none ↦ key_end s
]

unfoldable pub private_key : String → Option (ℕ × String)
unfolding key_mark key_end
private_key s = elim (key_mark "-----BEGIN " s) [
  | none ↦ none
  | some body ↦ elim (key_end body) [
    | none ↦ none
    | some rest ↦ some (count s - count rest, "[REDACTED PRIVATE KEY]")
  ]
]

-- A letter as `(?i)` compares it with a small one.
unfoldable pub fold_case : ℕ → ℕ
fold_case c =
    if leb 65 c && leb c 90
    then c + 32
    else if eqb c 304 || eqb c 305
    then b'i'
    else if eqb c 383
    then b's'
    else if eqb c 8490
    then b'k'
    else c

-- The text behind a word in any letters.
unfoldable pub strip_word : String → String → Option String
unfolding fold_case
strip_word [] s = some s
strip_word (w ∷ ws) [] = none
strip_word (w ∷ ws) (c ∷ s) =
    let rest = strip_word ws s in if eqb (code w) (fold_case (code c)) then rest else none

-- [_-]?
unfoldable pub strip_dash : String → String
strip_dash [] = []
strip_dash (c ∷ s) = if eqb (code c) b'_' || eqb (code c) b'-' then s else c ∷ s

-- The first of two alternatives that matches.
unfoldable pub one_of : Option String → Option String → Option String
one_of none second = second
one_of (some rest) second = some rest

-- The text behind `api[_-]?key`.
unfoldable pub strip_api : String → Option String
unfolding strip_word strip_dash
strip_api s = elim (strip_word "api" s) [
  | none ↦ none
  | some rest ↦ strip_word "key" (strip_dash rest)
]

-- The text behind `token|password|secret|api[_-]?key`.
unfoldable pub strip_key : String → Option String
unfolding one_of strip_word strip_api
strip_key s =
    one_of (strip_word "token" s)
      (one_of (strip_word "password" s) (one_of (strip_word "secret" s) (strip_api s)))

-- The length of `\S*`.
unfoldable pub solid : String → ℕ
unfolding is_white
solid [] = 0
solid (c ∷ s) = let rest = solid s in if is_white (code c) then 0 else suc rest

unfoldable pub assignment : String → Option (ℕ × String)
unfolding strip_key strip_prefix solid take
assignment s = elim (strip_key s) [
  | none ↦ none
  | some rest ↦ elim (strip_prefix "=" rest) [
    | none ↦ none
    | some value ↦
        let n = solid value in
        if eqb n 0
        then none
        else some (count s - count value + n, take (count s - count rest) s ++ "=[REDACTED]")
  ]
]

unfoldable pub redact : String → String
unfolding substitute private_key assignment
redact s = substitute assignment 0 (substitute private_key 0 s)
