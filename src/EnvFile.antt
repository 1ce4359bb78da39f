-- ===== src/EnvFile.antt =====
-- `_load_env_file` of tests/conftest.py, which reads topology.env.
pub mod Roundtrip
pub mod Numbers
use Prim.Native.String.{String, [], ◌∷◌}
use pulsaros_testbed.Prelude.{
  ℕ, Char, code, Bool, true, false, ◌&&◌, ◌||◌, not, leb, eqb, Option, none, some, if◌then◌else◌,
  Dict, put,
}
use mathlib.Core.List.{List}
use pulsaros_testbed.Text.{before, after, strip}

-- The ends of lines of `str.splitlines`.
unfoldable pub is_break : ℕ → Bool
is_break c =
    (leb 10 c && leb c 13) || ((leb 28 c && leb c 30) || (eqb c 133 || (eqb c 8232 || eqb c 8233)))

unfoldable pub starts_with : ℕ → String → Bool
starts_with c [] = false
starts_with c (d ∷ s) = eqb (code d) c

-- A character in front of the first line.
unfoldable pub prepend : Char → List String → List String
prepend c List.[] = List.◌∷◌ (c ∷ []) List.[]
prepend c (List.◌∷◌ l ls) = List.◌∷◌ (c ∷ l) ls

-- s.splitlines(); `\r\n` is one end of a line
unfoldable pub splitlines : String → List String
unfolding is_break starts_with prepend
splitlines [] = List.[]
splitlines (c ∷ s) =
    let rest = splitlines s in
    if eqb (code c) 13 && starts_with 10 s
    then rest
    else if is_break (code c)
    then List.◌∷◌ "" rest
    else prepend c rest

-- The body of the loop, for a line that was stripped.
unfoldable pub load_entry : Dict String → String → Dict String
unfolding starts_with after before put
load_entry data' line = elim (after b'=' line) [
  | none ↦ data'
  | some value ↦ if starts_with b'#' line then data' else put (before b'=' line) value data'
]

unfoldable pub load_lines : Dict String → List String → Dict String
unfolding load_entry strip
load_lines data' List.[] = data'
load_lines data' (List.◌∷◌ line lines) = load_lines (load_entry data' (strip line)) lines

-- The text of the file, if it exists.
unfoldable pub load_env_file : Option String → Dict String
unfolding load_lines splitlines
load_env_file none = List.[]
load_env_file (some text) = load_lines List.[] (splitlines text)
