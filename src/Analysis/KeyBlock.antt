-- ===== src/Analysis/KeyBlock.antt =====
-- What `redact` of scripts/analyze-artifacts-gemini.py does to a private key.
use Prim.Native.String.{String, [], ◌∷◌, ◌++◌, count}
use text.Mathlib.TextLemmas.{
  nil-append, cons-append, append_assoc, length-nil, length-cons, length-append,
}
use text.Mathlib.TextEquality.{Char-path}
use pulsaros_testbed.Prelude.{
  ℕ, suc, ◌<◌, Char, code, Bool, true, not, eqb, Option, none, some, ◌≡◌, refl, sym, ap, ◌∙◌, arith,
  &&-true, Bool-cases, Option-cases, inl, inr,
}
use pulsaros_testbed.Text.{all_chars, all_chars-append, strip_prefix, before}
use pulsaros_testbed.Analysis.Redact.{
  is_label, substitute, key_label, key_mark, key_end, private_key, assignment, redact,
}

abbrev pub no_dash : ℕ → Bool
no_dash c = not (eqb c b'-')

strip_prefix-append : (p s : String) → strip_prefix p (p ++ s) ≡ some s
unfolding strip_prefix
strip_prefix-append [] s = rw nil-append refl
strip_prefix-append (c ∷ p) s = rw cons-append (rw (strip_prefix-append p s) (ground arith))

-- A text with a prefix stripped is that prefix and the rest.
strip_prefix_sound : (p s r : String) → strip_prefix p s ≡ some r → s ≡ p ++ r
unfolding strip_prefix
strip_prefix_sound [] s r h = rw nil-append (ground arith)
strip_prefix_sound (c ∷ p) [] r h = ground arith
strip_prefix_sound (c ∷ p) (d ∷ s) r h = elim (Bool-cases (eqb (code c) (code d))) [
  | inl same ↦
      let head : c ≡ d = Char-path c d (ground arith) in
      let rest : s ≡ p ++ r = strip_prefix_sound p s r (ground arith) in
      rw (cons-append, rest, head) refl
  | inr other ↦ absurd (ground arith)
]

-- The part in front of the first dash.
before-append : (a b : String) → all_chars no_dash a ≡ true → before b'-' (a ++ ("-" ++ b)) ≡ a
unfolding before all_chars
before-append [] b h = rw (nil-append, cons-append) refl
before-append (c ∷ a) b h =
    let tail = before-append a b (ground arith) in rw cons-append (rw tail (ground arith))

label-no_dash : (l : String) → all_chars is_label l ≡ true → all_chars no_dash l ≡ true
unfolding all_chars is_label
label-no_dash [] h = refl
label-no_dash (c ∷ l) h = let tail = label-no_dash l (ground arith) in ground arith

abbrev mark_end : String
mark_end = "PRIVATE KEY-----"

mark_end-append : (s : String) → mark_end ++ s ≡ "PRIVATE KEY" ++ ("-" ++ ("----" ++ s))
mark_end-append s =
    append_assoc "PRIVATE KEY" "-----" s ∙ ap (λ t. "PRIVATE KEY" ++ t) (append_assoc "-" "----" s)

-- In front of the last words of a mark stands no other copy of them.
one_end :
    (c : Char) (l post r : String)
    → all_chars is_label (c ∷ l) ≡ true
    → strip_prefix mark_end (c ∷ (l ++ (mark_end ++ post))) ≡ some r
    → ⊥
unfolding all_chars is_label
one_end c l post r h e =
    let whole : (c ∷ l) ++ (mark_end ++ post) ≡ mark_end ++ r =
      cons-append c l (mark_end ++ post) ∙ strip_prefix_sound mark_end _ r e in
    let in_front : (c ∷ l) ++ "PRIVATE KEY" ≡ "PRIVATE KEY" =
      sym (
        before-append ((c ∷ l) ++ "PRIVATE KEY") ("----" ++ post)
          (all_chars-append no_dash (c ∷ l) "PRIVATE KEY" (label-no_dash (c ∷ l) h) refl))
      ∙ ap (before b'-') (
          append_assoc (c ∷ l) "PRIVATE KEY" ("-" ++ ("----" ++ post))
          ∙ ap (λ t. (c ∷ l) ++ t) (sym (mark_end-append post))
          ∙ whole
          ∙ mark_end-append r)
      ∙ before-append "PRIVATE KEY" ("----" ++ r) refl in
    omega (arith, ap count in_front, length-append (c ∷ l) "PRIVATE KEY", length-cons c l)

key_label-hit : (s r : String) → strip_prefix mark_end s ≡ some r → key_label s ≡ some r
unfolding key_label strip_prefix
key_label-hit [] r h = ground arith
key_label-hit (c ∷ s) r h = rw (key_label, h) refl

label-behind :
    (l post : String)
    → all_chars is_label l ≡ true
    → key_label (l ++ (mark_end ++ post)) ≡ some post
unfolding key_label all_chars
label-behind [] post h =
    rw (nil-append (mark_end ++ post))
      (key_label-hit (mark_end ++ post) post (strip_prefix-append mark_end post))
label-behind (c ∷ l) post h =
    rw (cons-append c l (mark_end ++ post))
      (elim (Option-cases (strip_prefix mark_end (c ∷ (l ++ (mark_end ++ post))))) [
        | inl missing ↦
            rw
              (
                key_label,
                missing,
                label-behind l post (ground arith),
                (&&-true (is_label (code c)) _ h).0,
              )
              refl
        | inr found ↦ absurd (one_end c l post found.0 h found.1)
      ])

-- A mark: its word, a label, and its last words.
abbrev pub mark : String → String → String → String
mark word label rest = word ++ (label ++ (mark_end ++ rest))

mark-behind :
    (word l post : String)
    → all_chars is_label l ≡ true
    → key_mark word (mark word l post) ≡ some post
unfolding key_mark
mark-behind word l post h =
    rw (key_mark, strip_prefix-append word (l ++ (mark_end ++ post))) (label-behind l post h)

key_end-hit : (s r : String) → key_mark "-----END " s ≡ some r → key_end s ≡ some r
unfolding key_end key_mark strip_prefix
key_end-hit [] r h = ground arith
key_end-hit (c ∷ s) r h = rw (key_end, h) refl

no_mark :
    (c : Char) (word s : String) → no_dash (code c) ≡ true → key_mark ("-" ∷ word) (c ∷ s) ≡ none
unfolding key_mark strip_prefix
no_mark c word s h = ground arith

body-behind :
    (body l post : String)
    → all_chars no_dash body ≡ true
    → all_chars is_label l ≡ true
    → key_end (body ++ mark "-----END " l post) ≡ some post
unfolding key_end all_chars
body-behind [] l post h k =
    rw (nil-append (mark "-----END " l post))
      (key_end-hit (mark "-----END " l post) post (mark-behind "-----END " l post k))
body-behind (c ∷ body) l post h k =
    rw
      (
        cons-append c body (mark "-----END " l post),
        key_end,
        no_mark c "----END " (body ++ mark "-----END " l post) (ground arith),
      )
      (body-behind body l post (ground arith) k)

module _ (match : String → Option (ℕ × String)) where
  substitute-skip : (a b : String) → substitute match (count a) (a ++ b) ≡ substitute match 0 b
  unfolding substitute
  substitute-skip [] b = rw (nil-append, length-nil) refl
  substitute-skip (c ∷ a) b = rw (cons-append, length-cons) (substitute-skip a b)

  -- A match at the front is replaced whole.
  pub substitute-front :
      (a b r : String)
      → 0 < count a
      → match (a ++ b) ≡ some (count a, r)
      → substitute match 0 (a ++ b) ≡ r ++ substitute match 0 b
  unfolding substitute
  substitute-front [] b r h m = absurd (omega (arith, length-nil))
  substitute-front (c ∷ a) b r h m =
      let m' : match (c ∷ (a ++ b)) ≡ some (suc (count a), r) =
        ap match (sym (cons-append c a b)) ∙ m ∙ ap (λ n. some (n, r)) (length-cons c a) in
      rw (cons-append c a b, substitute, m')
        (ap (λ t. r ++ t)
          (ap (λ n. substitute match n (a ++ b)) (omega arith) ∙ substitute-skip a b))

-- A key in PEM form.
unfoldable pub key_block : String → String → String → String
key_block l body l' =
    "-----BEGIN " ++ (l ++ (mark_end ++ (body ++ ("-----END " ++ (l' ++ mark_end)))))

key_block-append :
    (l body l' post : String)
    → key_block l body l' ++ post ≡ mark "-----BEGIN " l (body ++ mark "-----END " l' post)
unfolding key_block
key_block-append l body l' post =
    append_assoc "-----BEGIN " (l ++ (mark_end ++ (body ++ ("-----END " ++ (l' ++ mark_end))))) post
    ∙ ap (λ t. "-----BEGIN " ++ t)
        (append_assoc l (mark_end ++ (body ++ ("-----END " ++ (l' ++ mark_end)))) post
          ∙ ap (λ t. l ++ t)
              (append_assoc mark_end (body ++ ("-----END " ++ (l' ++ mark_end))) post
                ∙ ap (λ t. mark_end ++ t)
                    (append_assoc body ("-----END " ++ (l' ++ mark_end)) post
                      ∙ ap (λ t. body ++ t)
                          (append_assoc "-----END " (l' ++ mark_end) post
                            ∙ ap (λ t. "-----END " ++ t) (append_assoc l' mark_end post)))))

module _ (l body l' : String) (head : all_chars is_label l ≡ true)
    (inner : all_chars no_dash body ≡ true) (foot : all_chars is_label l' ≡ true) where
  private_key-block :
      (post : String)
      → private_key (key_block l body l' ++ post)
        ≡ some (count (key_block l body l'), "[REDACTED PRIVATE KEY]")
  unfolding private_key
  private_key-block post =
      let open' =
        ap (key_mark "-----BEGIN ") (key_block-append l body l' post)
        ∙ mark-behind "-----BEGIN " l (body ++ mark "-----END " l' post) head in
      rw (private_key, open', body-behind body l' post inner foot)
        (ap (λ n. some (n, "[REDACTED PRIVATE KEY]"))
          (omega (arith, length-append (key_block l body l') post)))

  substitute-key :
      (pre post : String)
      → all_chars no_dash pre ≡ true
      → substitute private_key 0 (pre ++ (key_block l body l' ++ post))
        ≡ pre ++ ("[REDACTED PRIVATE KEY]" ++ substitute private_key 0 post)
  unfolding all_chars key_block private_key substitute
  substitute-key [] post h =
      rw
        (
          nil-append (key_block l body l' ++ post),
          nil-append ("[REDACTED PRIVATE KEY]" ++ substitute private_key 0 post),
        )
        (substitute-front private_key (key_block l body l') post "[REDACTED PRIVATE KEY]"
          (omega (
            arith,
            length-append "-----BEGIN "
                (l ++ (mark_end ++ (body ++ ("-----END " ++ (l' ++ mark_end))))),
          ))
          (private_key-block post))
  substitute-key (c ∷ pre) post h =
      let text = pre ++ (key_block l body l' ++ post) in
      let none' : private_key (c ∷ text) ≡ none =
        rw (private_key, no_mark c "----BEGIN " text (ground arith)) refl in
      rw
        (
          cons-append c pre (key_block l body l' ++ post),
          cons-append c pre ("[REDACTED PRIVATE KEY]" ++ substitute private_key 0 post),
          substitute,
          none',
        )
        (ap (λ t. c ∷ t) (substitute-key pre post (ground arith)))

  -- `redact` replaces a PEM private key whole: labels of capital letters and spaces, a body
  -- without dashes, behind a text without dashes.
  pub redact-key :
      (pre post : String)
      → all_chars no_dash pre ≡ true
      → redact (pre ++ (key_block l body l' ++ post))
        ≡ substitute assignment 0
            (pre ++ ("[REDACTED PRIVATE KEY]" ++ substitute private_key 0 post))
  unfolding redact
  redact-key pre post h = ap (substitute assignment 0) (substitute-key pre post h)
