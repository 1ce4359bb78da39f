-- ===== src/Value/Access.antt =====
-- Operations that can raise: `int`, methods of mappings, iteration and hashing.
use Prim.Native.String.{String, [], ◌∷◌}
use pulsaros_testbed.Prelude.{
  ℕ, ◌/◌, ◌^◌, Bool, true, false, if◌then◌else◌, Option, none, some, ◌==◌, Outcome, ok, raise,
  type_error, value_error, attribute_error, any, Dict, keys, suc,
}
use mathlib.Core.List.{List}
use pulsaros_testbed.Number.{ℤ, pos, negsuc, neg}
use pulsaros_testbed.Text.{parse_int}
use pulsaros_testbed.Value.Defs.{
  Value, null, bool, int, float, str, list, dict, Fields, end, field, elems, field?, bool_int,
}

-- Rounds towards zero.
truncate : ℤ → ℕ → ℤ
truncate (pos n) k = pos (n / 10 ^ k)
truncate (negsuc n) k = neg (pos (suc n / 10 ^ k))

parsed : Option ℤ → Outcome ℤ
parsed none = raise value_error
parsed (some z) = ok z

-- int(v)
unfoldable pub to_int : Value → Outcome ℤ
unfolding truncate parsed parse_int
to_int null = raise type_error
to_int (bool b) = ok (bool_int b)
to_int (int z) = ok z
to_int (float z k) = ok (truncate z k)
to_int (str s) = parsed (parse_int s)
to_int (list vs) = raise type_error
to_int (dict fs) = raise type_error

abbrev pub or_default : Option Value → Value → Value
or_default none d = d
or_default (some v) d = v

-- fields.get(k, d)
unfoldable pub get_or : String → Value → Fields → Value
unfolding field?
get_or k d fs = or_default (field? k fs) d

-- fields.get(k)
unfoldable pub get_field : String → Fields → Value
unfolding get_or
get_field k fs = get_or k null fs

-- k in fields
unfoldable pub has_field : String → Fields → Bool
unfolding field?
has_field k fs = elim (field? k fs) [ none ↦ false | some _ ↦ true ]

-- fields[k] = v
unfoldable pub put_field : String → Value → Fields → Fields
put_field k v end = field k v end
put_field k v (field j w fs) = if j == k then field j v fs else field j w (put_field k v fs)

-- {key: value for key, value in fields.items() if key != k}
unfoldable pub without_field : String → Fields → Fields
without_field k end = end
without_field k (field j w fs) =
    let rest = without_field k fs in if j == k then rest else field j w rest

-- v.get, v.items, v.values of what is no mapping is an AttributeError.
unfoldable pub as_dict : Value → Outcome Fields
as_dict (dict fs) = ok fs
as_dict _ = raise attribute_error

chars : String → List Value
chars [] = List.[]
chars (c ∷ s) = List.◌∷◌ (str (c ∷ [])) (chars s)

key_values : Fields → List Value
key_values end = List.[]
key_values (field k v fs) = List.◌∷◌ (str k) (key_values fs)

-- for x in v
unfoldable pub iterate : Value → Outcome (List Value)
unfolding chars key_values
iterate (list vs) = ok (elems vs)
iterate (str s) = ok (chars s)
iterate (dict fs) = ok (key_values fs)
iterate _ = raise type_error

-- Lists and mappings have no hash.
unfoldable pub hashable : Value → Bool
hashable (list vs) = false
hashable (dict fs) = false
hashable _ = true

-- v in d, for a dictionary `d` with text keys
unfoldable pub in_keys {ℓ} : {A : Type ℓ} → Value → Dict A → Outcome Bool
in_keys (str s) d = ok (any (λ k. k == s) (keys d))
in_keys (list vs) d = raise type_error
in_keys (dict fs) d = raise type_error
in_keys _ d = ok false
