-- ===== src/Render/Checks/Names.antt =====
-- The names of the checks that `validate_checks` of scripts/render-topology.py passes.
use Prim.Native.String.{String}
use mathlib.Core.List.{append-nil, append_assoc}
use pulsaros_testbed.Prelude.{
  ℕ, suc, true, ◌≡◌, sym, ◌∙◌, ap, subst, arith, Outcome, ok, >>=-elim, ok-injective, enumerate,
  All, List, [], ◌∷◌, ◌++◌, snoc,
}
use pulsaros_testbed.Text.{is_name}
use pulsaros_testbed.Value.{
  Value, null, bool, int, float, str, list, dict, Items, Fields, elems, get_field,
}
use pulsaros_testbed.Render.Unique.{validate_unique}
use pulsaros_testbed.Render.Unique.Exact.{Distinct, validate_unique-Distinct}
use pulsaros_testbed.Render.Hosts.{Hosts}
use pulsaros_testbed.Render.Segments.{Segments}
use pulsaros_testbed.Render.ControlPlane.{ControlPlane}
use pulsaros_testbed.Render.Checks.{
  valid_name, validate_by_type, validate_check, validate_checks, expect_dict,
}

-- The value is a mapping with a name of the pattern.
pub record IsNamed (v : Value) : Type 0 where
  pub name : String
  pub entry : Fields
  pub shape : v ≡ dict entry
  pub named : get_field "name" entry ≡ str name
  pub pattern : is_name name ≡ true

abbrev pub AllNamed : List Value → Type 0
AllNamed vs = All IsNamed vs

-- The names, in the order of the list.
abbrev pub names : (vs : List Value) → AllNamed vs → List Value
names [] a = []
names (v ∷ vs) a = str a.0.name ∷ names vs a.1

pub valid_name-lem :
    (label s : String) (v : Value) → valid_name label v ≡ ok s → (v ≡ str s) × (is_name s ≡ true)
unfolding valid_name
valid_name-lem label s null h = ground arith
valid_name-lem label s (bool b) h = ground arith
valid_name-lem label s (int z) h = ground arith
valid_name-lem label s (float z k) h = ground arith
valid_name-lem label s (str t) h = ground arith
valid_name-lem label s (list vs) h = ground arith
valid_name-lem label s (dict fs) h = ground arith

pub expect_dict-lem :
    (message : String) (v : Value) (fs : Fields) → expect_dict message v ≡ ok fs → v ≡ dict fs
expect_dict-lem message (dict gs) fs h = ap dict (ok-injective h)
expect_dict-lem message null fs h = ground arith
expect_dict-lem message (bool b) fs h = ground arith
expect_dict-lem message (int z) fs h = ground arith
expect_dict-lem message (float z k) fs h = ground arith
expect_dict-lem message (str t) fs h = ground arith
expect_dict-lem message (list vs) fs h = ground arith

-- What a loop has collected that adds the name of each item.
pub collected :
    (round : ℕ → List Value → Value → Outcome (List Value))
    → ((i : ℕ) (acc out : List Value) (v : Value)
        → round i acc v ≡ ok out
        → (n : IsNamed v) × (out ≡ snoc acc (str n.name)))
    → (i : ℕ) (acc out vs : List Value) → enumerate round i acc vs ≡ ok out
    → (a : AllNamed vs) × (out ≡ acc ++ names vs a)
unfolding enumerate
collected round step i acc out [] h = (tt, sym (ok-injective h) ∙ sym (append-nil acc))
collected round step i acc out (v ∷ vs) h = >>=-elim (round i acc v) _ h λ next q rest.
    let (n, grown) = step i acc next v q in
    let (a, more) = collected round step (suc i) next out vs rest in
    (
      (n, a),
      more ∙ ap (λ l. l ++ names vs a) grown ∙ append_assoc acc (str n.name ∷ []) (names vs a),
    )

module _ (hosts : Hosts) (segments : Segments) (plane : ControlPlane) where
  validate_check-lem :
      (i : ℕ) (acc out : List Value) (v : Value)
      → validate_check hosts segments plane i acc v ≡ ok out
      → (n : IsNamed v) × (out ≡ snoc acc (str n.name))
  unfolding validate_check
  validate_check-lem i acc out v e0 = >>=-elim (expect_dict _ v) _ e0 λ fs q1 e1.
      >>=-elim (valid_name _ (get_field "name" fs)) _ e1 λ name q2 e2.
        >>=-elim (validate_by_type hosts segments plane (get_field "type" fs) fs _) _ e2 λ _ _ done.
          let (same, pattern) = valid_name-lem _ name (get_field "name" fs) q2 in
          (
            record {
              name = name;
              entry = fs;
              shape = expect_dict-lem _ v fs q1;
              named = same;
              pattern = pattern;
            },
            sym (ok-injective done),
          )

  -- The checks that `validate_checks` passes are those of the list; each is a mapping with a name
  -- of the pattern; no two have one name.
  pub validate_checks-names :
      (vs : Items) (out : List Value)
      → validate_checks hosts (list vs) segments plane ≡ ok out
      → (out ≡ elems vs) × ((a : AllNamed out) × Distinct (names out a))
  unfolding validate_checks
  validate_checks-names vs out e0 =
      >>=-elim (enumerate (validate_check hosts segments plane) 0 [] (elems vs)) _ e0 λ found q e1.
        >>=-elim (validate_unique found "check name") _ e1 λ _ unique done.
          let same : elems vs ≡ out = ok-injective done in
          let (a, all) =
            collected (validate_check hosts segments plane) validate_check-lem 0 [] found (elems vs)
              q in
          (
            sym same,
            subst (λ l. (a : AllNamed l) × Distinct (names l a)) same
                (a, subst Distinct all (validate_unique-Distinct found _ unique)),
          )
