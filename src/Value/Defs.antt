-- ===== src/Value/Defs.antt =====
-- Values, their truth and their equality.
use Prim.Native.String.{String, compare}
use text.Mathlib.Text.{is_lt}
use pulsaros_testbed.Prelude.{
  ℕ, suc, ◌*◌, ◌^◌, Bool, true, false, ◌&&◌, not, eqb, if◌then◌else◌, Option, none, some, List, [],
  ◌∷◌, Dict, ◌==◌,
}
use pulsaros_testbed.Number.{ℤ, pos, eqℤ, ltℤ, pos_part, neg_part, sub_ℕ}

mutual
  pub data Value : Type 0 where
    null : Value
    bool : Bool → Value
    int : ℤ → Value
    float : ℤ → ℕ → Value
    str : String → Value
    list : Items → Value
    dict : Fields → Value

  pub data Items : Type 0 where
    nil : Items
    cons : Value → Items → Items

  pub data Fields : Type 0 where
    end : Fields
    field : String → Value → Fields → Fields

abbrev pub elems : Items → List Value
elems nil = []
elems (cons v vs) = v ∷ elems vs

abbrev pub items : List Value → Items
items [] = nil
items (v ∷ vs) = cons v (items vs)

abbrev pub entries : Fields → Dict Value
entries end = []
entries (field k v fs) = (k, v) ∷ entries fs

abbrev pub fields : Dict Value → Fields
fields [] = end
fields ((k, v) ∷ d) = field k v (fields d)

-- bool(v)
unfoldable pub truthy : Value → Bool
truthy null = false
truthy (bool b) = b
truthy (int z) = not (eqℤ z (pos 0))
truthy (float z k) = not (eqℤ z (pos 0))
truthy (str s) = not (s == "")
truthy (list nil) = false
truthy (list (cons v vs)) = true
truthy (dict end) = false
truthy (dict (field k v fs)) = true

-- v in (None, "")
unfoldable pub is_blank : Value → Bool
is_blank null = true
is_blank (str s) = s == ""
is_blank _ = false

-- v == "…"
unfoldable pub is_str : String → Value → Bool
is_str s (str t) = t == s
is_str s _ = false

-- v * 10 ^ k
abbrev scale : ℕ → ℤ → ℤ
scale k z = sub_ℕ (pos_part z * 10 ^ k) (neg_part z * 10 ^ k)

abbrev pub bool_int : Bool → ℤ
bool_int true = pos 1
bool_int false = pos 0

-- A number is `m / 10 ^ k`; `True` is 1 and `False` is 0.
unfoldable pub number_of : Value → Option (ℤ × ℕ)
number_of (bool b) = some (bool_int b, 0)
number_of (int z) = some (z, 0)
number_of (float z k) = some (z, k)
number_of _ = none

unfoldable pub same_number : Option (ℤ × ℕ) → Option (ℤ × ℕ) → Bool
same_number (some (a, k)) (some (b, l)) = eqℤ (scale l a) (scale k b)
same_number _ _ = false

-- a < b, for numbers
unfoldable pub number_lt : Option (ℤ × ℕ) → Option (ℤ × ℕ) → Option Bool
number_lt (some (a, k)) (some (b, l)) = some (ltℤ (scale l a) (scale k b))
number_lt _ _ = none

-- a < b, for texts
unfoldable pub text_lt : String → String → Bool
text_lt s t = is_lt (compare s t)

unfoldable pub field? : String → Fields → Option Value
field? k end = none
field? k (field j v fs) = if j == k then some v else field? k fs

unfoldable pub size : Fields → ℕ
size end = 0
size (field k v fs) = suc (size fs)

-- ==
unfoldable mutual
  unfolding number_of same_number field? size

  pub value_eq : Value → Value → Bool
  value_eq null null = true
  value_eq (str s) (str t) = s == t
  value_eq (list vs) (list ws) = items_eq vs ws
  value_eq (dict fs) (dict gs) = eqb (size fs) (size gs) && fields_eq fs gs
  value_eq (bool a) w = same_number (number_of (bool a)) (number_of w)
  value_eq (int a) w = same_number (number_of (int a)) (number_of w)
  value_eq (float a k) w = same_number (number_of (float a k)) (number_of w)
  value_eq _ _ = false

  pub items_eq : Items → Items → Bool
  items_eq nil nil = true
  items_eq (cons v vs) (cons w ws) = value_eq v w && items_eq vs ws
  items_eq _ _ = false

  -- Every field of the first mapping is one of the second.
  pub fields_eq : Fields → Fields → Bool
  fields_eq end gs = true
  fields_eq (field k v fs) gs =
      elim (field? k gs) [ none ↦ false | some w ↦ value_eq v w ] && fields_eq fs gs
