-- ===== src/Analysis/Totals.antt =====
-- The numbers on the JUnit line of `local_summary` of scripts/analyze-artifacts-gemini.py, by the
-- attributes of the suites.
use Prim.Native.String.{String}
use pulsaros_testbed.Prelude.{
  none, some, List, [], ◌∷◌, extend, Dict, get, select, loop, Exception, ok, raise, ◌≡◌, ◌≢◌, refl,
  sym, ap, ◌∙◌, arith, >>=-elim, ok-injective, Bool-cases, Option-cases, inl, inr, ◌==◌, eq_iff,
  subst, apart,
}
use pulsaros_testbed.Number.{ℤ, pos, negsuc, ◌+ℤ◌}
use pulsaros_testbed.Text.{parse_int}
use pulsaros_testbed.Analysis.Junit.{
  Element, element, Elements, leaf, child, Xml, parsed, malformed, Counts, no_counts, add_counts,
  attrib, attrib_int, suite_counts, add_suite, suites, tag, children, children_of,
}
use pulsaros_testbed.Analysis.Failures.{all_suites, +ℤ_assoc, +ℤ_zero}

-- A number of an element: that of an attribute, which is 0 where it is missing.
unfoldable pub Number : String → Dict String → ℤ → Type 0
Number key attrib z =
    (get key attrib ≡ none → z ≡ pos 0)
    × ((s : String) → get key attrib ≡ some s → parse_int s ≡ some z)

-- The sum over the children that are suites.
unfoldable pub ChildSum : String → Elements → ℤ → Type 0
unfolding Number
ChildSum key leaf z = z ≡ pos 0
ChildSum key (child (element t attrib text cs) es) z =
    (a : ℤ) × (b : ℤ) × (t ≡ "testsuite" → Number key attrib a)
    × (t ≢ "testsuite" → a ≡ pos 0)
    × ChildSum key es b
    × (z ≡ a +ℤ b)

-- The number of a root that is a suite, else the sum over its children.
unfoldable pub RootSum : String → Element → ℤ → Type 0
unfolding Number ChildSum
RootSum key (element t attrib text cs) z =
    (t ≡ "testsuite" → Number key attrib z) × (t ≢ "testsuite" → ChildSum key cs z)

-- The sum over the files that could be parsed.
unfoldable pub FileSum : String → Dict Xml → ℤ → Type 0
unfolding RootSum
FileSum key [] z = z ≡ pos 0
FileSum key ((name, parsed root) ∷ files) z =
    (a : ℤ) × (b : ℤ) × RootSum key root a × FileSum key files b × (z ≡ a +ℤ b)
FileSum key ((name, malformed message) ∷ files) z = FileSum key files z

raises {ℓ} : {A : Type ℓ} {e : Exception} {a : A} → raise e ≡ ok a → ⊥
raises h = cc

no_value {ℓ} : {A : Type ℓ} {a : A} → none ≡ some a → ⊥
no_value h = cc

one_value {ℓ} : {A : Type ℓ} {a b : A} → some a ≡ some b → a ≡ b
one_value h = cc

pub attrib_int-Number :
    (key : String) (e : Element) (z : ℤ) → attrib_int key e ≡ ok z → Number key (attrib e) z
unfolding attrib_int Number
attrib_int-Number key e z h = elim (Option-cases (get key (attrib e))) [
  | inl none' ↦ (
    λ _. sym (ok-injective (rw (attrib_int, none') at h)),
    λ s found. absurd (no_value (sym none' ∙ found)),
  )
  | inr (text, found) ↦ elim (Option-cases (parse_int text)) [
    | inl bad ↦ absurd (raises (rw (attrib_int, found, bad) at h))
    | inr (n, read) ↦ (
      λ none'. absurd (no_value (sym none' ∙ found)),
      λ s found'.
          subst (λ s. parse_int s ≡ some z) (one_value (sym found ∙ found'))
            (read ∙ ap some (ok-injective (rw (attrib_int, found, read) at h))),
    )
  ]
]

+ℤ_zero_left : (a : ℤ) → pos 0 +ℤ a ≡ a
+ℤ_zero_left (pos a) = ground arith
+ℤ_zero_left (negsuc a) = ground arith

module _ (key : String) (of : Counts → ℤ)
    (adds : (a b : Counts) → of (add_counts a b) ≡ of a +ℤ of b)
    (reads : (e : Element) (c : Counts)
      → suite_counts e ≡ ok c
      → Number key (attrib e) (of c)) where
  SumOf : List Element → ℤ → Type 0
  unfolding Number
  SumOf [] z = z ≡ pos 0
  SumOf (e ∷ es) z = (a : ℤ) × (b : ℤ) × Number key (attrib e) a × SumOf es b × (z ≡ a +ℤ b)

  loop-SumOf :
      (es : List Element) (c r : Counts)
      → loop add_suite c es ≡ ok r
      → (z : ℤ) × SumOf es z × (of r ≡ of c +ℤ z)
  unfolding loop add_suite SumOf
  loop-SumOf [] c r h = (pos 0, refl, sym (ap of (ok-injective h)) ∙ sym (+ℤ_zero (of c)))
  loop-SumOf (e ∷ es) c r h = >>=-elim (add_suite c e) _ h λ next added later.
      >>=-elim (suite_counts e) _ added λ counts read done.
        let (z, sum, is) = loop-SumOf es next r later in
        (
          of counts +ℤ z,
          (of counts, z, reads e counts read, sum, refl),
          is
              ∙ ap (λ n. n +ℤ z) (sym (ap of (ok-injective done)) ∙ adds c counts)
              ∙ +ℤ_assoc (of c) (of counts) z,
        )

  SumOf-append :
      (xs ys : List Element) (z : ℤ)
      → SumOf (extend xs ys) z
      → (a : ℤ) × (b : ℤ) × SumOf xs a × SumOf ys b × (z ≡ a +ℤ b)
  unfolding SumOf
  SumOf-append [] ys z h = (pos 0, z, refl, h, sym (+ℤ_zero_left z))
  SumOf-append (x ∷ xs) ys z (a, b, n, sum, is) =
      let (c, d, front, back, split) = SumOf-append xs ys b sum in
      (a +ℤ c, d, (a, c, n, front, refl), back, is ∙ ap (λ n. a +ℤ n) split ∙ sym (+ℤ_assoc a c d))

  SumOf-ChildSum :
      (es : Elements) (z : ℤ)
      → SumOf (select (λ e. tag e == "testsuite") (children_of es)) z
      → ChildSum key es z
  unfolding SumOf ChildSum select tag attrib
  SumOf-ChildSum leaf z h = h
  SumOf-ChildSum (child (element t as' text cs) es) z h = elim (Bool-cases (t == "testsuite")) [
    | inl suite ↦
        let (a, b, n, sum, is) = rw (select, suite) at h in
        (
          a,
          b,
          λ _. n,
          λ other. absurd (other ((eq_iff t "testsuite").0 suite)),
          SumOf-ChildSum es b sum,
          is,
        )
    | inr other ↦ (
      pos 0,
      z,
      λ same. absurd (apart t "testsuite" other same),
      λ _. refl,
      SumOf-ChildSum es z (rw (select, other) at h),
      sym (+ℤ_zero_left z),
    )
  ]

  SumOf-RootSum : (root : Element) (z : ℤ) → SumOf (suites root) z → RootSum key root z
  unfolding SumOf RootSum suites tag children attrib
  SumOf-RootSum (element t as' text cs) z h = elim (Bool-cases (t == "testsuite")) [
    | inl suite ↦
        let (a, b, n, zero', is) = rw (suites, suite) at h in
        (
          λ _. subst (Number key as') (sym (is ∙ ap (λ b. a +ℤ b) zero' ∙ +ℤ_zero a)) n,
          λ other. absurd (other ((eq_iff t "testsuite").0 suite)),
        )
    | inr other ↦ (
      λ same. absurd (apart t "testsuite" other same),
      λ _. SumOf-ChildSum cs z (rw (suites, other) at h),
    )
  ]

  SumOf-FileSum : (files : Dict Xml) (z : ℤ) → SumOf (all_suites files) z → FileSum key files z
  unfolding SumOf FileSum all_suites
  SumOf-FileSum [] z h = h
  SumOf-FileSum ((name, parsed root) ∷ files) z h =
      let (a, b, here, rest, is) = SumOf-append (suites root) (all_suites files) z h in
      (a, b, SumOf-RootSum root a here, SumOf-FileSum files b rest, is)
  SumOf-FileSum ((name, malformed message) ∷ files) z h = SumOf-FileSum files z h

  pub FileSum-loop :
      (files : Dict Xml) (r : Counts)
      → of no_counts ≡ pos 0
      → loop add_suite no_counts (all_suites files) ≡ ok r
      → FileSum key files (of r)
  FileSum-loop files r start h =
      let (z, sum, is) = loop-SumOf (all_suites files) no_counts r h in
      subst (FileSum key files) (sym (is ∙ ap (λ n. n +ℤ z) start ∙ +ℤ_zero_left z))
        (SumOf-FileSum files z sum)
