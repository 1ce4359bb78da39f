-- ===== src/Analysis/Verdict.antt =====
-- What the last part of `local_summary` of scripts/analyze-artifacts-gemini.py says, by the elements
-- of the JUnit files.
use Prim.Native.String.{String}
use pulsaros_testbed.Prelude.{
  Bool, apart, none, some, Option, List, [], ◌∷◌, ◌++◌, All, Dict, select, ◌≡◌, ◌≢◌, ◌↔◌, refl, sym,
  ap, Bool-cases, inl, inr, ◌==◌, eq_iff, subst,
}
use pulsaros_testbed.Analysis.Junit.{
  Element, element, Elements, leaf, child, Xml, parsed, malformed, tag, children, children_of, find,
  iter, iter_all, failure_of, test_cases,
}
use pulsaros_testbed.Analysis.Failures.{all_cases}

-- A list of children without a failure or an error.
unfoldable pub Unmarked : Elements → Type 0
Unmarked leaf = Unit
Unmarked (child (element t attrib text cs) es) = (t ≢ "failure") × (t ≢ "error") × Unmarked es

-- No test case, at any depth, has a failure or an error as a child.
unfoldable mutual
  unfolding Unmarked

  pub Passes : Element → Type 0
  Passes (element t attrib text cs) = (t ≡ "testcase" → Unmarked cs) × PassAll cs

  PassAll : Elements → Type 0
  PassAll leaf = Unit
  PassAll (child e es) = Passes e × PassAll es

-- In the files that could be parsed.
unfoldable pub FilesPass : Dict Xml → Type 0
unfolding Passes
FilesPass [] = Unit
FilesPass ((name, parsed root) ∷ files) = Passes root × FilesPass files
FilesPass ((name, malformed message) ∷ files) = FilesPass files

Lacks : String → Elements → Type 0
Lacks name leaf = Unit
Lacks name (child (element t attrib text cs) es) = (t ≢ name) × Lacks name es

Unmarked-Lacks : (cs : Elements) → Unmarked cs ↔ (Lacks "failure" cs × Lacks "error" cs)
unfolding Unmarked Lacks
Unmarked-Lacks leaf = (λ h. (tt, tt), λ h. tt)
Unmarked-Lacks (child (element t attrib text ds) es) =
    let rest = Unmarked-Lacks es in
    (
      λ h. let (a, b) = rest.0 h.2 in ((h.0, a), (h.1, b)),
      λ h. (h.0.0, h.1.0, rest.1 (h.0.1, h.1.1)),
    )

no_some {ℓ} : {A : Type ℓ} {a : A} → some a ≡ none → ⊥
no_some h = cc

find-Lacks : (name : String) (cs : Elements) → (find name (children_of cs) ≡ none) ↔ Lacks name cs
unfolding find tag Lacks
find-Lacks name leaf = (λ h. tt, λ h. refl)
find-Lacks name (child (element t attrib text ds) es) = elim (Bool-cases (t == name)) [
  | inl here ↦
      (λ h. absurd (no_some (rw (find, here) at h)), λ h. absurd (h.0 ((eq_iff t name).0 here)))
  | inr later ↦
      let rest = find-Lacks name es in
      (
        λ h. (λ e. apart t name later e, rest.0 (rw (find, later) at h)),
        λ h. rw (find, later) (rest.1 h.1),
      )
]

-- The first that is there of two is not there.
neither {ℓ} :
    {A : Type ℓ} (o p : Option A)
    → (◌≡◌ {A = Option A} (elim o [ none ↦ p | some a ↦ some a ]) none) ↔ ((o ≡ none) × (p ≡ none))
neither none p = (λ h. (refl, h), λ h. h.1)
neither (some a) p = (λ h. absurd (no_some h), λ h. absurd (no_some h.0))

failure_of-Unmarked :
    (t : String) (attrib : Dict String) (text : Option String) (cs : Elements)
    → (failure_of (element t attrib text cs) ≡ none) ↔ Unmarked cs
unfolding failure_of children
failure_of-Unmarked t attrib text cs =
    let two = neither (find "failure" (children_of cs)) (find "error" (children_of cs)) in
    let failure = find-Lacks "failure" cs in
    let error = find-Lacks "error" cs in
    let both = Unmarked-Lacks cs in
    (
      λ h. both.1 (failure.0 (two.0 h).0, error.0 (two.0 h).1),
      λ h. two.1 (failure.1 (both.0 h).0, error.1 (both.0 h).1),
    )

abbrev Clean : List Element → Type 0
Clean es = All (λ e. failure_of e ≡ none) es

abbrev cases_of : List Element → List Element
cases_of es = select (λ e. tag e == "testcase") es

All-append_iff {ℓ κ} :
    {A : Type ℓ} (P : A → Type κ) (xs ys : List A) → All P (xs ++ ys) ↔ (All P xs × All P ys)
All-append_iff P [] ys = (λ h. (tt, h), λ h. h.1)
All-append_iff P (x ∷ xs) ys =
    let rest = All-append_iff P xs ys in
    (λ h. ((h.0, (rest.0 h.1).0), (rest.0 h.1).1), λ h. (h.0.0, rest.1 (h.0.1, h.1)))

select-append {ℓ} :
    {A : Type ℓ} (p : A → Bool) (xs ys : List A) → select p (xs ++ ys) ≡ select p xs ++ select p ys
unfolding select
select-append p [] ys = refl
select-append p (x ∷ xs) ys = elim (Bool-cases (p x)) [
  | inl kept ↦ rw (select, kept) (ap (λ zs. x ∷ zs) (select-append p xs ys))
  | inr dropped ↦ rw (select, dropped) (select-append p xs ys)
]

mutual
  unfolding iter select tag Passes

  iter-Passes : (e : Element) → Clean (cases_of (iter e)) ↔ Passes e
  iter-Passes (element t attrib text cs) =
      let inner = iter_all-PassAll cs in
      let mine = failure_of-Unmarked t attrib text cs in
      elim (Bool-cases (t == "testcase")) [
        | inl case' ↦ (
          λ h. let h' = rw (select, case') at h in (λ _. mine.0 h'.0, inner.0 h'.1),
          λ h. rw (select, case') (mine.1 (h.0 ((eq_iff t "testcase").0 case')), inner.1 h.1),
        )
        | inr other ↦ (
          λ h. (λ e. absurd (apart t "testcase" other e), inner.0 (rw (select, other) at h)),
          λ h. rw (select, other) (inner.1 h.1),
        )
      ]

  iter_all-PassAll : (es : Elements) → Clean (cases_of (iter_all es)) ↔ PassAll es
  iter_all-PassAll leaf = (λ h. tt, λ h. tt)
  iter_all-PassAll (child e es) =
      let here = iter-Passes e in
      let rest = iter_all-PassAll es in
      let split = select-append (λ e. tag e == "testcase") (iter e) (iter_all es) in
      let two =
        All-append_iff (λ e. failure_of e ≡ none) (cases_of (iter e)) (cases_of (iter_all es)) in
      (
        λ h. let both = two.0 (subst Clean split h) in (here.0 both.0, rest.0 both.1),
        λ h. subst Clean (sym split) (two.1 (here.1 h.0, rest.1 h.1)),
      )

pub all_cases-FilesPass : (files : Dict Xml) → Clean (all_cases files) ↔ FilesPass files
unfolding all_cases test_cases FilesPass
all_cases-FilesPass [] = (λ h. tt, λ h. tt)
all_cases-FilesPass ((name, parsed root) ∷ files) =
    let here = iter-Passes root in
    let rest = all_cases-FilesPass files in
    let two = All-append_iff (λ e. failure_of e ≡ none) (cases_of (iter root)) (all_cases files) in
    (λ h. let both = two.0 h in (here.0 both.0, rest.0 both.1), λ h. two.1 (here.1 h.0, rest.1 h.1))
all_cases-FilesPass ((name, malformed message) ∷ files) = all_cases-FilesPass files
