-- ===== src/Prelude/Effects.antt =====
-- What a call of the Python code can do: return, exit through `die`, or raise an exception.
use Prim.Native.Nat.{ℕ, suc}
use Prim.Native.String.{String}
use mathlib.Core.Path.{◌≡◌, refl}
use mathlib.Core.Bool.{Bool, true, false}
use mathlib.Core.List.{List, [], ◌∷◌}

-- The exceptions that the modelled code can raise by itself.
pub data Exception : Type 0 where
  type_error value_error key_error attribute_error index_error os_error : Exception

pub data Outcome {ℓ} (A : Type ℓ) : Type ℓ where
  ok : A → Outcome A
  die : String → Outcome A
  raise : Exception → Outcome A

infixl 5 ◌>>=◌ ◌>>◌
abbrev pub ◌>>=◌ {ℓ κ} : {A : Type ℓ} {B : Type κ} → Outcome A → (A → Outcome B) → Outcome B
ok a >>= f = f a
die m >>= f = die m
raise e >>= f = raise e

abbrev pub ◌>>◌ {ℓ} : {B : Type ℓ} → Outcome (Unit {0}) → Outcome B → Outcome B
m >> k = m >>= λ _. k

-- if b: die(message)
abbrev pub die_if : Bool → String → Outcome (Unit {0})
die_if true message = die message
die_if false message = ok tt

module _ {ℓ κ} {A : Type ℓ} {B : Type κ} where
  -- What follows a step of a sequence that returned may use that the step returned.
  pub >>=-elim {μ} :
      {C : Type μ} (m : Outcome A) (f : A → Outcome B) {b : B}
      → (m >>= f) ≡ ok b
      → ((a : A) → m ≡ ok a → f a ≡ ok b → C)
      → C
  >>=-elim (ok a) f h k = k a refl h
  >>=-elim (die m) f h k = absurd (cc)
  >>=-elim (raise e) f h k = absurd (cc)

  -- A sequence that returned: its first step returned, and the rest did.
  pub >>=-eq-ok :
      {b : B} (m : Outcome A) (rest : A → Outcome B)
      → m >>= rest ≡ ok b
      → (a : A) × (m ≡ ok a) × (rest a ≡ ok b)
  >>=-eq-ok m rest h = >>=-elim m rest h (λ a first later. (a, first, later))

  -- for x in xs: the results, or the first failure
  unfoldable pub each : (A → Outcome B) → List A → Outcome (List B)
  each f [] = ok []
  each f (x ∷ xs) = f x >>= λ y. each f xs >>= λ ys. ok (y ∷ ys)

  -- A loop that carries variables.
  unfoldable pub loop : (B → A → Outcome B) → B → List A → Outcome B
  loop f s [] = ok s
  loop f s (x ∷ xs) = f s x >>= λ s'. loop f s' xs

  -- for index, x in enumerate(xs): a loop that carries variables
  unfoldable pub enumerate : (ℕ → B → A → Outcome B) → ℕ → B → List A → Outcome B
  enumerate f i s [] = ok s
  enumerate f i s (x ∷ xs) = f i s x >>= λ s'. enumerate f (suc i) s' xs

pub die_if-ok : (b : Bool) (message : String) {u : Unit {0}} → die_if b message ≡ ok u → b ≡ false
die_if-ok true message h = cc
die_if-ok false message h = refl

pub ok-injective {ℓ} : {A : Type ℓ} {a b : A} → ok a ≡ ok b → a ≡ b
ok-injective h = cc

-- An outcome that is no failure is a value.
pub returns {ℓ} :
    {A : Type ℓ} (m : Outcome A)
    → ((s : String) → m ≡ die s → ⊥)
    → ((e : Exception) → m ≡ raise e → ⊥)
    → (a : A) × (m ≡ ok a)
returns (ok a) d r = (a, refl)
returns (die s) d r = absurd (d s refl)
returns (raise e) d r = absurd (r e refl)
