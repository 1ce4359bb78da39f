-- ===== src/FaultRun/Impact.antt =====
-- Which answers `_assert_fault_impact` of tests/test_fault_injection.py takes.
use Prim.Native.String.{String}
use pulsaros_testbed.Prelude.{
  ℕ, Bool, ◌≡◌, ◌≢◌, ◌↔◌, ◌⊎◌, inl, inr, refl, sym, ap, ◌∙◌, arith, true, false, not, ◌&&◌, ◌||◌,
  ok, die_if, eq_iff, ◌>>◌,
}
use pulsaros_testbed.Number.{ℤ, pos, negsuc, eqℤ}
use pulsaros_testbed.Value.{Value, null, bool, int, float, str, list, dict, is_str}
use pulsaros_testbed.FaultRun.{Completed, has_code, assert_fault_impact}

eqℤ_iff : (a : ℤ) (n : ℕ) → (eqℤ a (pos n) ≡ true) ↔ (a ≡ pos n)
eqℤ_iff (pos a) n = ground arith
eqℤ_iff (negsuc a) n = ground arith

has_code_iff : (n : ℕ) (r : Completed) → (has_code n r ≡ true) ↔ (r.returncode ≡ pos n)
unfolding has_code
has_code_iff n r = eqℤ_iff r.returncode n

is_str_iff : (s : String) (v : Value) → (is_str s v ≡ true) ↔ (v ≡ str s)
unfolding is_str
is_str_iff s (str t) = ground (arith, eq_iff t s)
is_str_iff s null = ground arith
is_str_iff s (bool b) = ground arith
is_str_iff s (int z) = ground arith
is_str_iff s (float z k) = ground arith
is_str_iff s (list vs) = ground arith
is_str_iff s (dict fs) = ground arith

bools_differ : false ≡ true → ⊥
bools_differ h = cc

-- Four tests in a row.
passes :
    (a b c d : Bool) (k l m n : String)
    → ((die_if a k >> (die_if b l >> (die_if c m >> die_if d n))) ≡ ok tt)
      ↔ ((a ≡ false) × (b ≡ false) × (c ≡ false) × (d ≡ false))
passes true b c d k l m n = ground arith
passes false true c d k l m n = ground arith
passes false false true d k l m n = ground arith
passes false false false true k l m n = ground arith
passes false false false false k l m n = ground arith

-- The tests as one on the return code.
verdict :
    (lost up outage none' : Bool)
    → (outage ≡ true → none' ≡ true → ⊥)
    → (lost ≡ true → up ≡ true → ⊥)
    → ((lost ≡ false)
        × (outage && up ≡ false)
        × (none' && not up ≡ false)
        × (not (outage || none') ≡ false))
      ↔ (((outage ≡ true) × (up ≡ false) × (lost ≡ false)) ⊎ ((none' ≡ true) × (up ≡ true)))
verdict lost up true true h k = absurd (h refl refl)
verdict true true outage none' h k = absurd (k refl refl)
verdict false true true false h k = ground arith
verdict false true false true h k = ground arith
verdict false true false false h k = ground arith
verdict true false true false h k = ground arith
verdict true false false true h k = ground arith
verdict true false false false h k = ground arith
verdict false false true false h k = ground arith
verdict false false false true h k = ground arith
verdict false false false false h k = ground arith

absent : {P : Type 0} (b : Bool) → (b ≡ true) ↔ P → (b ≡ false) ↔ (P → ⊥)
absent true h = (λ e. absurd (cc), λ k. absurd (k (h.0 refl)))
absent false h = (λ e p. bools_differ (h.1 p), λ k. refl)

spoken :
    {L U O N : Type 0} (lost up outage none' : Bool)
    → (lost ≡ true) ↔ L
    → (up ≡ true) ↔ U
    → (outage ≡ true) ↔ O
    → (none' ≡ true) ↔ N
    → (((outage ≡ true) × (up ≡ false) × (lost ≡ false)) ⊎ ((none' ≡ true) × (up ≡ true)))
      ↔ ((O × (U → ⊥) × (L → ⊥)) ⊎ (N × U))
spoken lost up outage none' l u o n = (
  λ h. elim h [
    | inl (a, b, c) ↦ inl (o.0 a, (absent up u).0 b, (absent lost l).0 c)
    | inr (a, b) ↦ inr (n.0 a, u.0 b)
  ],
  λ h. elim h [
    | inl (a, b, c) ↦ inl (o.1 a, (absent up u).1 b, (absent lost l).1 c)
    | inr (a, b) ↦ inr (n.1 a, u.1 b)
  ],
)

two_impacts : (v : Value) → v ≡ str "outage" → v ≡ str "no_outage" → ⊥
unfolding is_str
two_impacts v h k = bools_differ (sym (ap (is_str "outage") (sym h ∙ k)))

two_codes : (z : ℤ) → z ≡ pos 255 → z ≡ pos 0 → ⊥
two_codes z h k = ground arith

-- `_assert_fault_impact` passes exactly when an outage was expected and the ping ended with a code
-- other than 0 and 255, or none was expected and it ended with 0.
pub assert_fault_impact_iff :
    (result : Completed) (name : String) (impact : Value)
    → (assert_fault_impact result name impact ≡ ok tt) ↔ (
        ((impact ≡ str "outage") × (result.returncode ≢ pos 0) × (result.returncode ≢ pos 255))
        ⊎ ((impact ≡ str "no_outage") × (result.returncode ≡ pos 0)))
unfolding assert_fault_impact
assert_fault_impact_iff result name impact =
    let lost = has_code_iff 255 result in
    let up = has_code_iff 0 result in
    let outage = is_str_iff "outage" impact in
    let none' = is_str_iff "no_outage" impact in
    let lost' = has_code 255 result in
    let up' = has_code 0 result in
    let a =
      passes lost' (is_str "outage" impact && up') (is_str "no_outage" impact && not up')
        (not (is_str "outage" impact || is_str "no_outage" impact)) _ _ _ _ in
    let b =
      verdict lost' up' (is_str "outage" impact) (is_str "no_outage" impact)
        (λ x y. two_impacts impact (outage.0 x) (none'.0 y))
        (λ x y. two_codes result.returncode (lost.0 x) (up.0 y)) in
    let c =
      spoken lost' up' (is_str "outage" impact) (is_str "no_outage" impact) lost up outage none' in
    (λ h. c.0 (b.0 (a.0 h)), λ h. a.1 (b.1 (c.1 h)))
