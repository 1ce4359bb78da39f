-- ===== src/CheckRun/Pairs.antt =====
-- The pairs of a check that scripts/render-topology.py passed.
use Prim.Native.String.{String}
use pulsaros_testbed.Prelude.{
  ℕ, suc, true, ◌≡◌, refl, sym, ◌∙◌, subst, arith, Option, none, some, ok, die_if-ok, Dict, has,
  keys, has-get, loop, enumerate, List, [], ◌∷◌, All, any, >>=-elim, ok-injective, Bool-cases, inl,
  inr, not, ◌==◌,
}
use pulsaros_testbed.Value.{
  Value, null, bool, int, float, str, list, dict, elems, Fields, field?, get_field, get_or,
  or_default, truthy, is_blank, iterate, in_keys,
}
use pulsaros_testbed.Render.Hosts.{lookup}
use pulsaros_testbed.Render.Segments.{Member, Segment, Segments}
use pulsaros_testbed.Render.Segments.Progress.{Returns, each-Returns}
use pulsaros_testbed.Render.Checks.{
  segment_of, validate_segment_ping_matrix_check, segment_members, validate_endpoint, validate_pair,
  validate_pairs,
}
use pulsaros_testbed.CheckRun.{member_at, pair_of, check_pairs, all_pairs}

any-keys : {V : Type 0} (s : String) (d : Dict V) → any (λ k. k == s) (keys d) ≡ has s d
unfolding any keys has
any-keys s [] = refl
any-keys s ((k, v) ∷ d) = ground (arith, any-keys s d)

module _ (members : Dict Member) where
  lookup-Returns : (v : Value) → in_keys v members ≡ ok true → Returns (lookup members v)
  unfolding in_keys lookup
  lookup-Returns (str s) h =
      let (m, e) = has-get s members (sym (any-keys s members) ∙ ok-injective h) in
      (m, rw (e, lookup) refl)
  lookup-Returns null h = ground arith
  lookup-Returns (bool b) h = ground arith
  lookup-Returns (int z) h = ground arith
  lookup-Returns (float z k) h = ground arith
  lookup-Returns (list vs) h = ground arith
  lookup-Returns (dict fs) h = ground arith

  member_at-present :
      (pair : Fields) (k : String) (o : Option Value)
      → field? k pair ≡ o
      → in_keys (or_default o null) members ≡ ok true
      → Returns (member_at members pair k)
  unfolding member_at
  member_at-present pair k none f h = unfold in_keys in ground arith
  member_at-present pair k (some v) f h =
      let (m, e) = lookup-Returns v h in (m, rw (f, member_at) e)

  member_at-Returns :
      (pair : Fields) (label : String) (k : String) {u : Unit {0}}
      → validate_endpoint members pair label tt k ≡ ok u
      → Returns (member_at members pair k)
  unfolding validate_endpoint
  member_at-Returns pair label k h =
      >>=-elim (in_keys (get_field k pair) members) _ h λ known q rest.
        let yes_known : known ≡ true = ground (arith, die_if-ok (not known) _ rest) in
        member_at-present pair k (field? k pair) refl (
          unfold get_field get_or in
          subst (λ b. in_keys (get_field k pair) members ≡ ok b) yes_known q)

  pair_of-Returns :
      (label : String) (i : ℕ) (v : Value) {u : Unit {0}}
      → validate_pair members label i tt v ≡ ok u
      → Returns (pair_of members v)
  unfolding validate_pair pair_of loop
  pair_of-Returns label i (dict pair) h =
      >>=-elim (validate_endpoint members pair _ tt "source") _ h λ _ q rest.
        >>=-elim (validate_endpoint members pair _ tt "destination") _ rest λ _ q' _.
          let (source, e) = member_at-Returns pair _ "source" q in
          let (destination, f) = member_at-Returns pair _ "destination" q' in
          ((source, destination), rw (e, f) refl)
  pair_of-Returns label i null h = ground arith
  pair_of-Returns label i (bool b) h = ground arith
  pair_of-Returns label i (int z) h = ground arith
  pair_of-Returns label i (float z k) h = ground arith
  pair_of-Returns label i (str s) h = ground arith
  pair_of-Returns label i (list vs) h = ground arith

  pub pairs-Returns :
      (label : String) (i : ℕ) (vs : List Value) {u : Unit {0}}
      → enumerate (validate_pair members label) i tt vs ≡ ok u
      → All (λ v. Returns (pair_of members v)) vs
  unfolding enumerate
  pairs-Returns label i [] h = tt
  pairs-Returns label i (v ∷ vs) h =
      >>=-elim (validate_pair members label i tt v) _ h
        λ _ q rest. (pair_of-Returns label i v q, pairs-Returns label (suc i) vs rest)

module _ (segment : Segment) (check : Fields) (label : String) where
  listed-Returns :
      (v : Value) {u : Unit {0}}
      → validate_pairs segment v label ≡ ok u
      → truthy v ≡ true
      → (vs : List Value) × (iterate v ≡ ok vs)
        × All (λ x. Returns (pair_of (segment_members segment) x)) vs
  unfolding validate_pairs truthy is_blank iterate
  listed-Returns (list vs) h t =
      (elems vs, refl, pairs-Returns (segment_members segment) label 0 (elems vs) h)
  listed-Returns (str s) h t = absurd (ground arith)
  listed-Returns null h t = ground arith
  listed-Returns (bool b) h t = ground arith
  listed-Returns (int z) h t = ground arith
  listed-Returns (float z k) h t = ground arith
  listed-Returns (dict fs) h t = ground arith

  passed-Returns :
      {u : Unit {0}}
      → validate_pairs segment (get_field "pairs" check) label ≡ ok u
      → Returns (check_pairs segment check)
  unfolding check_pairs
  passed-Returns h = elim (Bool-cases (truthy (get_field "pairs" check))) [
    | inl given ↦
        let (vs, e, good) = listed-Returns (get_field "pairs" check) h given in
        let (pairs, f) = each-Returns (pair_of (segment_members segment)) vs good in
        (pairs, rw (given, e) f)
    | inr lacking ↦ (all_pairs segment.members segment.members, ground arith)
  ]

-- On a check that `validate_segment_ping_matrix_check` of the renderer passes, the function
-- `_check_pairs` of the test run, called with the segment that the check names, returns: it raises
-- no KeyError and no other exception.
pub check_pairs-Returns :
    (segments : Segments) (segment : Segment) (check : Fields) (label : String)
    → segment_of segments check label ≡ ok segment
    → validate_segment_ping_matrix_check segments check label ≡ ok tt
    → (pairs : List (Member × Member)) × (check_pairs segment check ≡ ok pairs)
unfolding validate_segment_ping_matrix_check
check_pairs-Returns segments segment check label named h =
    >>=-elim (segment_of segments check label) _ h λ s q passed.
      let same : s ≡ segment = ok-injective (sym q ∙ named) in
      passed-Returns segment check label
        (subst (λ x. validate_pairs x (get_field "pairs" check) label ≡ ok tt) same passed)
