-- ===== src/Analysis/Entries.antt =====
-- The entries of a directory, and `read_text` of scripts/analyze-artifacts-gemini.py.
use Prim.Native.String.{String, [], ◌++◌, count}
use text.Mathlib.TextLemmas.{nil-append}
use pulsaros_testbed.Prelude.{
  ℕ, ◌≤◌, ◌<◌, leb, if◌then◌else◌, Option, none, some, Outcome, ok, raise, os_error, ◌≡◌, arith,
  Bool-cases, inl, inr,
}
use pulsaros_testbed.Text.{last, last-lem}

-- What stands under a name in a directory: a file with its text and its bytes, or no file.
pub data Entry : Type 0 where
  file : String → ℕ → Entry
  directory : ℕ → Entry

-- read_text(path, limit); an absent file has no entry
unfoldable pub read_text : ℕ → Option Entry → Outcome String
unfolding last
read_text limit none = ok ""
read_text limit (some (directory bytes)) = raise os_error
read_text limit (some (file data' bytes)) =
    if leb (count data') limit then ok data' else ok (last limit data')

-- `read_text` of a file with a limit above 0 returns the end of its text, of at most that many
-- characters.
pub read_text-lem :
    (limit : ℕ) (data' : String) (bytes : ℕ)
    → 0 < limit
    → (t : String) × (read_text limit (some (file data' bytes)) ≡ ok t)
      × (count t ≤ limit)
      × (front : String) × (front ++ t ≡ data')
unfolding read_text
read_text-lem limit data' bytes h =
    let (low, front, whole) = last-lem limit data' h in
    elim (Bool-cases (leb (count data') limit)) [
      | inl short ↦ (data', ground arith, ground arith, [], nil-append data')
      | inr long ↦ (last limit data', ground arith, low, front, whole)
    ]
