-- ===== src/EnvFile/Roundtrip.antt =====
-- What tests/conftest.py reads is what `write_env` of scripts/render-topology.py wrote.
use Prim.Native.String.{String, [], ◌∷◌, ◌++◌}
use text.Mathlib.TextLemmas.{nil-append, cons-append, append_assoc, append-nil}
use pulsaros_testbed.Prelude.{
  ℕ, code, Bool, true, false, ◌&&◌, ◌||◌, not, eqb, some, if◌then◌else◌, Dict, put, ◌==◌, ◌≡◌, refl,
  sym, ap, ◌∙◌, arith, All, eq_iff, &&-true, Bool-cases, inl, inr,
}
use mathlib.Core.List.{List}
use pulsaros_testbed.Text.{before, after, strip, all_chars}
use pulsaros_testbed.Order.{join}
use pulsaros_testbed.Value.{Value, Fields, end, field, is_blank, py_str}
use pulsaros_testbed.Render.Output.{env_lines, env_text}
use pulsaros_testbed.EnvFile.{
  is_break, starts_with, prepend, splitlines, load_entry, load_lines, load_env_file,
}

abbrev no_break : ℕ → Bool
no_break c = not (is_break c)

abbrev pub no_equals : ℕ → Bool
no_equals c = not (eqb c b'=')

no_break-return : (c : ℕ) → no_break c ≡ true → eqb c 13 ≡ false
unfolding is_break
no_break-return c h = ground arith

newline : (rest : String) → splitlines ("\n" ++ rest) ≡ List.◌∷◌ "" (splitlines rest)
unfolding splitlines is_break
newline rest = rw (cons-append, nil-append) refl

splitlines-line :
    (l rest : String)
    → all_chars no_break l ≡ true
    → splitlines (l ++ ("\n" ++ rest)) ≡ List.◌∷◌ l (splitlines rest)
unfolding all_chars splitlines prepend
splitlines-line [] rest h = rw nil-append (newline rest)
splitlines-line (c ∷ l) rest h =
    let split = &&-true (no_break (code c)) (all_chars no_break l) h in
    let later = splitlines-line l rest split.1 in
    let inside : is_break (code c) ≡ false = ground arith in
    rw (cons-append c l ("\n" ++ rest), splitlines, no_break-return (code c) split.0, inside, later)
      refl

no_lines : splitlines [] ≡ List.[]
unfolding splitlines
no_lines = refl

-- The lines of a text that was written from lines without breaks.
splitlines-env_text :
    (l : String) (ls : List String)
    → All (λ l. all_chars no_break l ≡ true) (List.◌∷◌ l ls)
    → splitlines (env_text (List.◌∷◌ l ls)) ≡ List.◌∷◌ l ls
unfolding env_text join
splitlines-env_text l List.[] h =
    ap (λ t. splitlines (l ++ t)) (sym (append-nil "\n"))
    ∙ splitlines-line l [] h.0
    ∙ ap (List.◌∷◌ l) no_lines
splitlines-env_text l (List.◌∷◌ m ls) h =
    ap splitlines (
      append_assoc l ("\n" ++ join "\n" (List.◌∷◌ m ls)) "\n"
      ∙ ap (λ t. l ++ t) (append_assoc "\n" (join "\n" (List.◌∷◌ m ls)) "\n"))
    ∙ splitlines-line l _ h.0
    ∙ ap (List.◌∷◌ l) (splitlines-env_text m ls h.1)

-- The dictionary of the entries that are not blank.
unfoldable pub printed : Dict String → Fields → Dict String
printed data' end = data'
printed data' (field key value fs) =
    printed (if is_blank value then data' else put key (py_str value) data') fs

-- The line of an entry has no break, no white space at its ends and no `#` at its start; its key
-- has no `=`.
abbrev pub plain_line : String → String → Bool
plain_line key line =
    all_chars no_break line
    && ((strip line == line) && (not (starts_with b'#' line) && all_chars no_equals key))

unfoldable pub plain_entries : Fields → Bool
unfolding is_blank all_chars strip starts_with is_break
plain_entries end = true
plain_entries (field key value fs) =
    (is_blank value || plain_line key (key ++ ("=" ++ py_str value))) && plain_entries fs

pub before-equals :
    (a b : String) → all_chars no_equals a ≡ true → before b'=' (a ++ ("=" ++ b)) ≡ a
unfolding before all_chars
before-equals [] b h = rw (nil-append, cons-append) refl
before-equals (c ∷ a) b h =
    let tail = before-equals a b (ground arith) in rw cons-append (rw tail (ground arith))

pub after-equals :
    (a b : String) → all_chars no_equals a ≡ true → after b'=' (a ++ ("=" ++ b)) ≡ some b
unfolding after all_chars
after-equals [] b h = rw (nil-append, cons-append, nil-append) refl
after-equals (c ∷ a) b h =
    let tail = after-equals a b (ground arith) in rw cons-append (rw tail (ground arith))

load_entry-line :
    (data' : Dict String) (key value : String)
    → starts_with b'#' (key ++ ("=" ++ value)) ≡ false
    → all_chars no_equals key ≡ true
    → load_entry data' (key ++ ("=" ++ value)) ≡ put key value data'
unfolding load_entry
load_entry-line data' key value h k =
    rw (load_entry, after-equals key value k, h, before-equals key value k) refl

module _ (key : String) (value : Value) (fs : Fields)
    (plain : plain_entries (field key value fs) ≡ true) where
  abbrev entry : String
  entry = key ++ ("=" ++ py_str value)

  later_plain : plain_entries fs ≡ true
  unfolding plain_entries
  later_plain = (&&-true (is_blank value || plain_line key entry) (plain_entries fs) plain).1

  plain_text : is_blank value ≡ false → plain_line key entry ≡ true
  unfolding plain_entries
  plain_text text =
      let first = (&&-true (is_blank value || plain_line key entry) (plain_entries fs) plain).0 in
      rw text at first

plain_line-parts :
    (key line : String)
    → plain_line key line ≡ true
    → (all_chars no_break line ≡ true)
      × (strip line ≡ line)
      × (starts_with b'#' line ≡ false)
      × (all_chars no_equals key ≡ true)
plain_line-parts key line h = ground (arith, eq_iff (strip line) line)

load_lines-env_lines :
    (fs : Fields) (data' : Dict String)
    → plain_entries fs ≡ true
    → load_lines data' (env_lines fs) ≡ printed data' fs
unfolding load_lines env_lines printed
load_lines-env_lines end data' h = refl
load_lines-env_lines (field key value fs) data' h =
    let later = later_plain key value fs h in
    elim (Bool-cases (is_blank value)) [
      | inl blank ↦ rw (env_lines, printed, blank) (load_lines-env_lines fs data' later)
      | inr text ↦
          let (whole, bare, unhashed, no_eq) =
            plain_line-parts key (key ++ ("=" ++ py_str value)) (plain_text key value fs h text) in
          rw
            (
              env_lines,
              printed,
              text,
              load_lines,
              bare,
              load_entry-line data' key (py_str value) unhashed no_eq,
            )
            (load_lines-env_lines fs (put key (py_str value) data') later)
    ]

env_lines-All :
    (fs : Fields) → plain_entries fs ≡ true → All (λ l. all_chars no_break l ≡ true) (env_lines fs)
unfolding env_lines
env_lines-All end h = tt
env_lines-All (field key value fs) h =
    let later = env_lines-All fs (later_plain key value fs h) in
    elim (Bool-cases (is_blank value)) [
      | inl blank ↦ rw (env_lines, blank) later
      | inr text ↦
          let parts =
            plain_line-parts key (key ++ ("=" ++ py_str value)) (plain_text key value fs h text) in
          rw (env_lines, text) (parts.0, later)
    ]

empty_file : load_env_file (some (env_text List.[])) ≡ List.[]
unfolding load_env_file env_text join splitlines load_lines load_entry is_break strip after
empty_file = refl

load_lines-text :
    (ls : List String)
    → All (λ l. all_chars no_break l ≡ true) ls
    → load_env_file (some (env_text ls)) ≡ load_lines List.[] ls
unfolding load_env_file env_text join
load_lines-text List.[] h = empty_file
load_lines-text (List.◌∷◌ l ls) h = ap (load_lines List.[]) (splitlines-env_text l ls h)

-- What `_load_env_file` of tests/conftest.py reads from the text that `write_env` makes of its
-- entries is the dictionary of the entries that are not blank, where no line has a break, white
-- space at its ends or `#` at its start, and no key has `=`.
pub env_file-roundtrip :
    (entries : Fields)
    → plain_entries entries ≡ true
    → load_env_file (some (env_text (env_lines entries))) ≡ printed List.[] entries
env_file-roundtrip entries h =
    load_lines-text (env_lines entries) (env_lines-All entries h)
    ∙ load_lines-env_lines entries List.[] h
