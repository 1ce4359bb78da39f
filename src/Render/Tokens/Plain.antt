-- ===== src/Render/Tokens/Plain.antt =====
-- Values without references: `resolve_tokens` of scripts/render-topology.py keeps them.
use pulsaros_testbed.Prelude.{Bool, true, ◌&&◌, not, ◌≡◌, refl, arith, Option, ok, &&-true}
use pulsaros_testbed.Value.{
  Value, null, bool, int, float, str, list, dict, Items, nil, cons, Fields, end, field,
}
use pulsaros_testbed.Render.Hosts.{Host}
use pulsaros_testbed.Render.Tokens.Defs.{
  Scope, is_reference, resolve_token, resolve_tokens, resolve_items, resolve_fields,
}

-- No text in the value starts with `@`.
unfoldable mutual
  unfolding is_reference

  pub is_plain : Value → Bool
  is_plain (str s) = not (is_reference s)
  is_plain (list vs) = items_plain vs
  is_plain (dict fs) = fields_plain fs
  is_plain v = true

  pub items_plain : Items → Bool
  items_plain nil = true
  items_plain (cons v vs) = is_plain v && items_plain vs

  pub fields_plain : Fields → Bool
  fields_plain end = true
  fields_plain (field k v fs) = is_plain v && fields_plain fs

module _ (scope : Scope) (host : Option Host) where
  mutual
    unfolding is_plain items_plain fields_plain resolve_tokens resolve_items resolve_fields
        resolve_token

    value-plain : (v : Value) → is_plain v ≡ true → resolve_tokens scope host v ≡ ok v
    value-plain null h = refl
    value-plain (bool b) h = refl
    value-plain (int z) h = refl
    value-plain (float z k) h = refl
    value-plain (str s) h = ground arith
    value-plain (list vs) h = rw (items-plain vs h) refl
    value-plain (dict fs) h = rw (fields-plain fs h) refl

    items-plain : (vs : Items) → items_plain vs ≡ true → resolve_items scope host vs ≡ ok vs
    items-plain nil h = refl
    items-plain (cons v vs) h =
        let (p, q) = &&-true (is_plain v) (items_plain vs) h in
        rw (value-plain v p, items-plain vs q) refl

    fields-plain : (fs : Fields) → fields_plain fs ≡ true → resolve_fields scope host fs ≡ ok fs
    fields-plain end h = refl
    fields-plain (field k v fs) h =
        let (p, q) = &&-true (is_plain v) (fields_plain fs) h in
        rw (value-plain v p, fields-plain fs q) refl

  -- `resolve_tokens` returns a value in which no text, at any depth, starts with `@`, unchanged.
  pub resolve_tokens-plain : (v : Value) → is_plain v ≡ true → resolve_tokens scope host v ≡ ok v
  resolve_tokens-plain v h = value-plain v h
