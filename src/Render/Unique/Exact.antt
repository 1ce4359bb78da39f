-- ===== src/Render/Unique/Exact.antt =====
-- `validate_unique` accepts exactly the lists of hashable values that differ pairwise.
use Prim.Native.String.{String}
use pulsaros_testbed.Prelude.{
  List, [], ◌∷◌, true, false, ◌≡◌, refl, arith, ok, All, AllPairs, any, ◌↔◌,
}
use pulsaros_testbed.Value.{Value, value_eq, hashable}
use pulsaros_testbed.Render.Unique.{unique_from, validate_unique}

-- Each value differs from the later ones.
abbrev pub Distinct : List Value → Type 0
Distinct = AllPairs (λ v w. value_eq v w ≡ false)

abbrev pub AllHashable : List Value → Type 0
AllHashable = All (λ v. hashable v ≡ true)

-- No value of `seen` is equal to one of the list.
abbrev Apart : List Value → List Value → Type 0
Apart seen vs = All (λ w. any (λ s. value_eq s w) seen ≡ false) vs

Apart-cons :
    (seen : List Value) (v : Value) (vs : List Value)
    → Apart seen vs
    → All (λ w. value_eq v w ≡ false) vs
    → Apart (v ∷ seen) vs
unfolding any
Apart-cons seen v [] h k = tt
Apart-cons seen v (w ∷ vs) h k = (ground arith, Apart-cons seen v vs h.1 k.1)

Apart-split :
    (seen : List Value) (v : Value) (vs : List Value)
    → Apart (v ∷ seen) vs
    → Apart seen vs × All (λ w. value_eq v w ≡ false) vs
unfolding any
Apart-split seen v [] h = (tt, tt)
Apart-split seen v (w ∷ vs) h =
    let (a, b) = Apart-split seen v vs h.1 in ((ground arith, a), (ground arith, b))

unique_from-accepts :
    (seen vs : List Value) (label : String)
    → AllHashable vs
    → Apart seen vs
    → Distinct vs
    → unique_from seen vs label ≡ ok tt
unfolding unique_from
unique_from-accepts seen [] label h a d = refl
unique_from-accepts seen (v ∷ vs) label h a d =
    rw (h.0, a.0) (unique_from-accepts (v ∷ seen) vs label h.1 (Apart-cons seen v vs a.1 d.0) d.1)

abbrev Accepted : List Value → List Value → Type 0
Accepted seen vs = AllHashable vs × Apart seen vs × Distinct vs

unique_from_sound :
    (seen vs : List Value) (label : String) → unique_from seen vs label ≡ ok tt → Accepted seen vs
unfolding unique_from
unique_from_sound seen [] label h = (tt, tt, tt)
unique_from_sound seen (v ∷ vs) label h =
    let e : (hashable v ≡ true)
        × (any (λ s. value_eq s v) seen ≡ false)
        × (unique_from (v ∷ seen) vs label ≡ ok tt) =
      (ground arith, ground arith, ground arith) in
    let (hs, apart, distinct) = unique_from_sound (v ∷ seen) vs label e.2 in
    let (a, b) = Apart-split seen v vs apart in ((e.0, hs), (e.1, a), (b, distinct))

Apart-nil : (vs : List Value) → Apart [] vs
unfolding any
Apart-nil [] = tt
Apart-nil (v ∷ vs) = (refl, Apart-nil vs)

-- `validate_unique` passes a list exactly when all of its values have a hash and no two of them
-- are equal.
pub validate_unique_iff :
    (values : List Value) (label : String)
    → (validate_unique values label ≡ ok tt) ↔ (AllHashable values × Distinct values)
unfolding validate_unique
validate_unique_iff values label = (
  λ h. let (a, b, c) = unique_from_sound [] values label h in (a, c),
  λ (a, c). unique_from-accepts [] values label a (Apart-nil values) c,
)

-- The value of an accepting call is `tt` in any case.
pub validate_unique-Distinct :
    (values : List Value) (label : String) {u : Unit {0}}
    → validate_unique values label ≡ ok u
    → Distinct values
validate_unique-Distinct values label h = ((validate_unique_iff values label).0 h).1
