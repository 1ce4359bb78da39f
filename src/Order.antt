-- ===== src/Order.antt =====
-- `sorted` of texts, of sets of texts and of numbers, and `join`.
use Prim.Native.Nat.{Ordering}
use Prim.Native.String.{String, ◌++◌, compare}
use pulsaros_testbed.Prelude.{
  List, [], ◌∷◌, Dict, Bool, if◌then◌else◌, ◌==◌, any, ◌||◌, ◌≡◌, refl, arith, eq_iff,
}
use pulsaros_testbed.Number.{ℤ, ltℤ}

-- Puts a text into a sorted list that does not hold it, at its place.
unfoldable pub insert_text : String → List String → List String
insert_text s [] = s ∷ []
insert_text s (t ∷ ts) =
    let rest = insert_text s ts in
    elim (compare s t) [ Ordering.lt ↦ s ∷ t ∷ ts | Ordering.eq ↦ t ∷ ts | Ordering.gt ↦ t ∷ rest ]

-- sorted(set(ts))
unfoldable pub sorted_set : List String → List String
unfolding insert_text
sorted_set [] = []
sorted_set (t ∷ ts) = insert_text t (sorted_set ts)

unfoldable pub insert_number : ℤ → List ℤ → List ℤ
insert_number a [] = a ∷ []
insert_number a (b ∷ bs) = let rest = insert_number a bs in if ltℤ b a then b ∷ rest else a ∷ b ∷ bs

-- sorted(numbers)
unfoldable pub sorted_numbers : List ℤ → List ℤ
unfolding insert_number
sorted_numbers [] = []
sorted_numbers (a ∷ as') = insert_number a (sorted_numbers as')

-- Puts an entry into a sorted dictionary that does not hold its key, at its place.
module _ {ℓ} {V : Type ℓ} where
  unfoldable pub insert_entry : String → V → Dict V → Dict V
  insert_entry k v [] = (k, v) ∷ []
  insert_entry k v ((j, w) ∷ d) =
      let rest = insert_entry k v d in
      elim (compare k j) [
        | Ordering.lt ↦ (k, v) ∷ (j, w) ∷ d
        | Ordering.eq ↦ (k, v) ∷ (j, w) ∷ d
        | Ordering.gt ↦ (j, w) ∷ rest
      ]

  -- sorted(d.items()), for different keys
  unfoldable pub sorted_entries : Dict V → Dict V
  unfolding insert_entry
  sorted_entries [] = []
  sorted_entries ((k, v) ∷ d) = insert_entry k v (sorted_entries d)

unfoldable pub join : String → List String → String
join sep [] = ""
join sep (t ∷ []) = t
join sep (t ∷ u ∷ ts) = t ++ (sep ++ join sep (u ∷ ts))

-- t in ts
unfoldable pub in_texts : String → List String → Bool
unfolding any
in_texts s ts = any (λ t. t == s) ts

in_texts-insert_text :
    (s t : String) (ts : List String) → in_texts s (insert_text t ts) ≡ (t == s || in_texts s ts)
unfolding in_texts insert_text any
in_texts-insert_text s t [] = ground arith
in_texts-insert_text s t (u ∷ ts) =
    ground (arith, in_texts-insert_text s t ts, eq_iff t u, eq_iff t s, eq_iff u s)

-- Sorting a set keeps its members.
pub in_texts-sorted_set :
    (s : String) (ts : List String) → in_texts s (sorted_set ts) ≡ in_texts s ts
unfolding in_texts sorted_set any
in_texts-sorted_set s [] = refl
in_texts-sorted_set s (t ∷ ts) =
    rw (in_texts-insert_text s t (sorted_set ts), in_texts-sorted_set s ts) refl
