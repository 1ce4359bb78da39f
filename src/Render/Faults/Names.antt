-- ===== src/Render/Faults/Names.antt =====
-- The names and the types of the faults that `validate_faults` of scripts/render-topology.py passes.
use Prim.Native.String.{String}
use pulsaros_testbed.Prelude.{
  ℕ, suc, true, ◌≡◌, sym, ap, subst, arith, ok, >>=-elim, ok-injective, enumerate, List, [], ◌∷◌,
  snoc, All,
}
use pulsaros_testbed.Order.{in_texts}
use pulsaros_testbed.Value.{
  Value, null, bool, int, float, str, list, dict, Items, Fields, elems, get_field,
}
use pulsaros_testbed.Render.Unique.{validate_unique}
use pulsaros_testbed.Render.Unique.Exact.{Distinct, validate_unique-Distinct}
use pulsaros_testbed.Render.Segments.{Segments}
use pulsaros_testbed.Render.ControlPlane.{ControlPlane}
use pulsaros_testbed.Render.Checks.{valid_name}
use pulsaros_testbed.Render.Checks.Names.{IsNamed, AllNamed, names, valid_name-lem, collected}
use pulsaros_testbed.Render.Faults.{
  fault_types, one_of, expect_dict, validate_fault_body, validate_fault, validate_faults,
}

pub one_of-lem :
    (known : List String) (message s : String) (v : Value)
    → one_of known message v ≡ ok s
    → (v ≡ str s) × (in_texts s known ≡ true)
unfolding one_of in_texts
one_of-lem known message s (str t) h = ground arith
one_of-lem known message s null h = ground arith
one_of-lem known message s (bool b) h = ground arith
one_of-lem known message s (int z) h = ground arith
one_of-lem known message s (float z k) h = ground arith
one_of-lem known message s (list vs) h = ground arith
one_of-lem known message s (dict fs) h = ground arith

-- A mapping whose type is one of the fault types.
pub record IsTyped (v : Value) : Type 0 where
  pub type : String
  pub entry : Fields
  pub shape : v ≡ dict entry
  pub typed : get_field "type" entry ≡ str type
  pub known : in_texts type fault_types ≡ true

pub expect_dict-lem :
    (message : String) (v : Value) (fs : Fields) → expect_dict message v ≡ ok fs → v ≡ dict fs
expect_dict-lem message (dict gs) fs h = ap dict (ok-injective h)
expect_dict-lem message null fs h = ground arith
expect_dict-lem message (bool b) fs h = ground arith
expect_dict-lem message (int z) fs h = ground arith
expect_dict-lem message (float z k) fs h = ground arith
expect_dict-lem message (str t) fs h = ground arith
expect_dict-lem message (list vs) fs h = ground arith

module _ (segments : Segments) (plane : ControlPlane) where
  validate_fault-lem :
      (i : ℕ) (acc out : List Value) (v : Value)
      → validate_fault segments plane i acc v ≡ ok out
      → ((n : IsNamed v) × (out ≡ snoc acc (str n.name))) × IsTyped v
  unfolding validate_fault
  validate_fault-lem i acc out v e0 = >>=-elim (expect_dict _ v) _ e0 λ fs q1 e1.
      >>=-elim (valid_name _ (get_field "name" fs)) _ e1 λ name q2 e2.
        >>=-elim (one_of fault_types _ (get_field "type" fs)) _ e2 λ fault_type q3 e3.
          >>=-elim (validate_fault_body segments plane fault_type fs _) _ e3 λ _ _ done.
            let (same, pattern) = valid_name-lem _ name (get_field "name" fs) q2 in
            let (typed, known) = one_of-lem fault_types _ fault_type (get_field "type" fs) q3 in
            let shape = expect_dict-lem _ v fs q1 in
            (
              (
                record { name = name; entry = fs; shape = shape; named = same; pattern = pattern },
                sym (ok-injective done),
              ),
              record { type = fault_type; entry = fs; shape = shape; typed = typed; known = known },
            )

  All-IsTyped :
      (i : ℕ) (acc out vs : List Value)
      → enumerate (validate_fault segments plane) i acc vs ≡ ok out
      → All IsTyped vs
  unfolding enumerate
  All-IsTyped i acc out [] h = tt
  All-IsTyped i acc out (v ∷ vs) h =
      >>=-elim (validate_fault segments plane i acc v) _ h
        λ next q rest. ((validate_fault-lem i acc next v q).1, All-IsTyped (suc i) next out vs rest)

  -- The faults that `validate_faults` passes are those of the list; each is a mapping with a name
  -- of the pattern and one of the fault types; no two have one name.
  pub validate_faults-names :
      (vs : Items) (out : List Value)
      → validate_faults (list vs) segments plane ≡ ok out
      → (out ≡ elems vs) × (All IsTyped out × ((a : AllNamed out) × Distinct (names out a)))
  unfolding validate_faults
  validate_faults-names vs out e0 =
      >>=-elim (enumerate (validate_fault segments plane) 0 [] (elems vs)) _ e0 λ found q e1.
        >>=-elim (validate_unique found "fault name") _ e1 λ _ unique done.
          let same : elems vs ≡ out = ok-injective done in
          let (a, all) =
            collected (validate_fault segments plane)
              (λ i acc next v p. (validate_fault-lem i acc next v p).0) 0 [] found (elems vs) q in
          (
            sym same,
            subst (λ l. All IsTyped l × ((a : AllNamed l) × Distinct (names l a))) same
                (
                  All-IsTyped 0 [] found (elems vs) q,
                  (a, subst Distinct all (validate_unique-Distinct found _ unique)),
                ),
          )
