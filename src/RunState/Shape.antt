-- ===== src/RunState/Shape.antt =====
-- Mappings that are changed in place: `setdefault`, and an assignment below nested mappings.
use Prim.Native.String.{String}
use pulsaros_testbed.Prelude.{Outcome, ok, raise, type_error, attribute_error, ◌>>=◌}
use pulsaros_testbed.Value.{Value, list, dict, Fields, Items, nil, cons, get_or, put_field, as_dict}

-- v[…] = … of what is no mapping is a TypeError.
unfoldable pub assignable : Value → Outcome Fields
assignable (dict fs) = ok fs
assignable _ = raise type_error

-- fields.setdefault(k, d), as the mapping that is changed: `change` reads the mapping under `k`.
unfoldable pub at_key : String → Fields → (Value → Outcome Fields) → Fields → Outcome Fields
at_key k default change fs =
    change (get_or k (dict default) fs) >>= λ gs. ok (put_field k (dict gs) fs)

-- What `change` does to a value on which a method of mappings is called, or a field is assigned.
unfoldable pub within : (Fields → Outcome Fields) → Value → Outcome Fields
within change v = as_dict v >>= change

unfoldable pub assign : (Fields → Fields) → Value → Outcome Fields
assign change v = assignable v >>= λ fs. ok (change fs)

unfoldable pub append_item : Items → Value → Items
append_item nil v = cons v nil
append_item (cons w ws) v = cons w (append_item ws v)

-- v.append(x)
unfoldable pub appended : Value → Value → Outcome Value
appended (list vs) x = ok (list (append_item vs x))
appended _ x = raise attribute_error
