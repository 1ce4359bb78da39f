-- ===== src/Render/Dataplane/Filtered.antt =====
-- What `filter_for_dataplane` of scripts/render-topology.py keeps.
use Prim.Native.String.{String, ◌++◌}
use pulsaros_testbed.Prelude.{
  ℕ, suc, ◌∙◌, Bool-cases, inl, inr, ◌≡◌, refl, sym, ap, arith, Bool, true, false, if◌then◌else◌,
  Option, none, some, ok, >>=-elim, ok-injective, subst, List, [], ◌∷◌, any, eq_iff,
}
use pulsaros_testbed.Text.{show_ℕ}
use pulsaros_testbed.Value.{
  Value, null, bool, int, float, str, list, dict, cons, nil, elems, Fields, end, field, truthy,
  is_str, field?, iterate, without_field,
}
use pulsaros_testbed.Render.Dataplane.{
  selects, supports, filter_item, filter_from, filter_for_dataplane, append,
}

-- Where an item's field `dataplanes` selects the data plane: it is missing or `null`, or names it.
abbrev names : String → Option Value → Bool
names dataplane none = true
names dataplane (some null) = true
names dataplane (some (list vs)) = any (is_str dataplane) (elems vs)
names dataplane (some _) = false

-- The filter without its tests: what is kept, and how it is changed.
unfoldable pub kept : String → List Value → List Value
kept dataplane [] = []
kept dataplane (dict fs ∷ rest) =
    let more = kept dataplane rest in
    if names dataplane (field? "dataplanes" fs)
    then dict (without_field "dataplanes" fs) ∷ more
    else more
kept dataplane (v ∷ rest) = v ∷ kept dataplane rest

supports-any :
    (label dataplane : String) (vs : List Value) (b : Bool)
    → supports label dataplane vs ≡ ok b
    → b ≡ any (is_str dataplane) vs
unfolding supports
supports-any label dataplane vs b h = ground arith

selects-names :
    (label dataplane : String) (o : Option Value) (b : Bool)
    → selects label dataplane o ≡ ok b
    → b ≡ names dataplane o
unfolding selects
selects-names label dataplane none b h = ground arith
selects-names label dataplane (some null) b h = ground arith
selects-names label dataplane (some (list nil)) b h = ground arith
selects-names label dataplane (some (list (cons v vs))) b h =
    supports-any label dataplane (v ∷ elems vs) b h
selects-names label dataplane (some (bool c)) b h = ground arith
selects-names label dataplane (some (int z)) b h = ground arith
selects-names label dataplane (some (float z k)) b h = ground arith
selects-names label dataplane (some (str s)) b h = ground arith
selects-names label dataplane (some (dict fs)) b h = ground arith

filter_item-lem :
    (label dataplane : String) (fs : Fields) (r : List Value)
    → filter_item label dataplane (dict fs) ≡ ok r
    → r ≡ (
        if names dataplane (field? "dataplanes" fs)
        then dict (without_field "dataplanes" fs) ∷ []
        else [])
unfolding filter_item
filter_item-lem label dataplane fs r h =
    >>=-elim (selects label dataplane (field? "dataplanes" fs)) _ h λ b q done.
      let same = selects-names label dataplane (field? "dataplanes" fs) b q in ground arith

filter_item-kept :
    (label dataplane : String) (v : Value) (vs mine : List Value)
    → filter_item label dataplane v ≡ ok mine
    → append mine (kept dataplane vs) ≡ kept dataplane (v ∷ vs)
unfolding kept
filter_item-kept label dataplane (dict fs) vs mine h =
    let same = filter_item-lem label dataplane fs mine h in ground arith
filter_item-kept label dataplane null vs mine h = unfold filter_item in ground arith
filter_item-kept label dataplane (bool b) vs mine h = unfold filter_item in ground arith
filter_item-kept label dataplane (int z) vs mine h = unfold filter_item in ground arith
filter_item-kept label dataplane (float z k) vs mine h = unfold filter_item in ground arith
filter_item-kept label dataplane (str s) vs mine h = unfold filter_item in ground arith
filter_item-kept label dataplane (list ws) vs mine h = unfold filter_item in ground arith

falsy-iterate :
    (items : Value) (vs : List Value) → iterate items ≡ ok vs → truthy items ≡ false → vs ≡ []
unfolding iterate truthy
falsy-iterate (list nil) vs h e = ground arith
falsy-iterate (str s) vs h e =
    let blank : s ≡ "" = ground (arith, eq_iff s "") in
    sym (ok-injective (subst (λ t. iterate (str t) ≡ ok vs) blank h))
falsy-iterate (dict end) vs h e = ground arith
falsy-iterate (list (cons v ws)) vs h e = ground arith
falsy-iterate (dict (field k v fs)) vs h e = ground arith
falsy-iterate null vs h e = ground arith
falsy-iterate (bool b) vs h e = ground arith
falsy-iterate (int z) vs h e = ground arith
falsy-iterate (float z k) vs h e = ground arith

filter_from-kept :
    (i : ℕ) (vs : List Value) (dataplane label : String) (r : List Value)
    → filter_from i vs dataplane label ≡ ok r
    → r ≡ kept dataplane vs
unfolding filter_from kept
filter_from-kept i [] dataplane label r h = ground arith
filter_from-kept i (v ∷ vs) dataplane label r h =
    >>=-elim (filter_item (label ++ (" " ++ show_ℕ i)) dataplane v) _ h λ mine q rest.
      >>=-elim (filter_from (suc i) vs dataplane label) _ rest λ more q' done.
        let tail = filter_from-kept (suc i) vs dataplane label more q' in
        sym (ok-injective done)
        ∙ ap (append mine) tail
        ∙ filter_item-kept (label ++ (" " ++ show_ℕ i)) dataplane v vs mine q

-- When `filter_for_dataplane` returns, for items that can be iterated, it returns in their order,
-- and without the field `dataplanes`, the mappings whose field is missing, `null` or names the
-- data plane, and the items that are no mappings, unchanged.
pub filter_for_dataplane-kept :
    (items : Value) (vs : List Value) (dataplane label : String) (r : List Value)
    → iterate items ≡ ok vs
    → filter_for_dataplane items dataplane label ≡ ok r
    → r ≡ kept dataplane vs
unfolding filter_for_dataplane
filter_for_dataplane-kept items vs dataplane label r h e = elim (Bool-cases (truthy items)) [
  | inl given ↦ filter_from-kept 0 vs dataplane label r (ground arith)
  | inr lacking ↦
      let none_left = falsy-iterate items vs h lacking in
      let same : [] ≡ r = ground arith in
      sym same ∙ subst (λ l. [] ≡ kept dataplane l) (sym none_left) (unfold kept in refl)
]
