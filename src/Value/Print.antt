-- ===== src/Value/Print.antt =====
-- str(v). Inside a list or a mapping a text is quoted, with the common escapes.
use Prim.Native.String.{String, [], ◌∷◌, ◌++◌}
use pulsaros_testbed.Prelude.{
  ℕ, zero, suc, ◌/◌, ◌%◌, ◌^◌, code, Bool, true, false, ◌&&◌, not, eqb, if◌then◌else◌,
}
use pulsaros_testbed.Number.{ℤ, pos, negsuc}
use pulsaros_testbed.Text.{show_ℕ, show_ℤ, pad, has_char}
use pulsaros_testbed.Value.Defs.{
  Value, null, bool, int, float, str, list, dict, Items, nil, cons, Fields, end, field,
}

show_decimal : ℕ → ℕ → String
unfolding show_ℕ pad
show_decimal n zero = show_ℕ n ++ ".0"
show_decimal n (suc k) = show_ℕ (n / 10 ^ suc k) ++ ("." ++ pad (suc k) (show_ℕ (n % 10 ^ suc k)))

escape : ℕ → String → String
escape quote [] = []
escape quote (c ∷ s) =
    let rest = escape quote s in
    if eqb (code c) quote
    then "\\" ++ (c ∷ rest)
    else if eqb (code c) 92
    then "\\\\" ++ rest
    else if eqb (code c) 10
    then "\\n" ++ rest
    else if eqb (code c) 13
    then "\\r" ++ rest
    else if eqb (code c) 9
    then "\\t" ++ rest
    else c ∷ rest

quoted : String → String
unfolding escape has_char
quoted s =
    if has_char 39 s && not (has_char 34 s)
    then "\"" ++ (escape 34 s ++ "\"")
    else "'" ++ (escape 39 s ++ "'")

show_bool : Bool → String
show_bool true = "True"
show_bool false = "False"

unfoldable pub show_float : ℤ → ℕ → String
unfolding show_decimal
show_float (pos n) k = show_decimal n k
show_float (negsuc n) k = "-" ++ show_decimal (suc n) k

unfoldable mutual
  unfolding show_float show_ℤ quoted show_bool

  pub repr : Value → String
  repr null = "None"
  repr (bool b) = show_bool b
  repr (int z) = show_ℤ z
  repr (float z k) = show_float z k
  repr (str s) = quoted s
  repr (list vs) = "[" ++ (repr_items vs ++ "]")
  repr (dict fs) = "{" ++ (repr_fields fs ++ "}")

  pub repr_items : Items → String
  repr_items nil = ""
  repr_items (cons v vs) = repr v ++ repr_more vs

  repr_more : Items → String
  repr_more nil = ""
  repr_more (cons v vs) = ", " ++ (repr v ++ repr_more vs)

  pub repr_fields : Fields → String
  repr_fields end = ""
  repr_fields (field k v fs) = quoted k ++ (": " ++ (repr v ++ repr_more_fields fs))

  repr_more_fields : Fields → String
  repr_more_fields end = ""
  repr_more_fields (field k v fs) = ", " ++ (quoted k ++ (": " ++ (repr v ++ repr_more_fields fs)))

unfoldable pub py_str : Value → String
unfolding repr
py_str (str s) = s
py_str v = repr v
