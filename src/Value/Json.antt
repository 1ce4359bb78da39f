-- ===== src/Value/Json.antt =====
-- json.dumps(v) and json.dumps(v, indent=2): texts are escaped to ASCII.
use Prim.Native.String.{String, [], ◌∷◌, ◌++◌}
use pulsaros_testbed.Prelude.{
  ℕ, zero, suc, ◌+◌, ◌-◌, ◌/◌, ◌%◌, code, Bool, true, false, ◌&&◌, leb, ltb, eqb, if◌then◌else◌,
}
use pulsaros_testbed.Text.{show_in, show_ℤ, pad}
use pulsaros_testbed.Value.Defs.{
  Value, null, bool, int, float, str, list, dict, Items, nil, cons, Fields, end, field,
}
use pulsaros_testbed.Value.Print.{show_float}

-- \u and four digits
unit : ℕ → String
unfolding show_in pad
unit c = "\\u" ++ pad 4 (show_in 16 c)

-- One UTF-16 unit, or a surrogate pair.
unicode : ℕ → String
unfolding unit
unicode c =
    if ltb c 65536
    then unit c
    else unit (55296 + (c - 65536) / 1024) ++ unit (56320 + (c - 65536) % 1024)

json_text : String → String
unfolding unicode
json_text [] = []
json_text (c ∷ s) =
    let rest = json_text s in
    if eqb (code c) 34
    then "\\\"" ++ rest
    else if eqb (code c) 92
    then "\\\\" ++ rest
    else if eqb (code c) 10
    then "\\n" ++ rest
    else if eqb (code c) 13
    then "\\r" ++ rest
    else if eqb (code c) 9
    then "\\t" ++ rest
    else if eqb (code c) 12
    then "\\f" ++ rest
    else if eqb (code c) 8
    then "\\b" ++ rest
    else if leb 32 (code c) && leb (code c) 126
    then c ∷ rest
    else unicode (code c) ++ rest

json_key : String → String
unfolding json_text
json_key s = "\"" ++ (json_text s ++ "\"")

spaces : ℕ → String
spaces zero = []
spaces (suc n) = " " ∷ " " ∷ spaces n

-- The start of a line at a level, if lines are broken.
line : Bool → ℕ → String
unfolding spaces
line true level = "\n" ++ spaces level
line false level = []

comma : Bool → ℕ → String
unfolding line
comma true level = "," ++ line true level
comma false level = ", "

unfoldable mutual
  unfolding show_float show_ℤ json_key line comma

  pub json : Bool → ℕ → Value → String
  json broken level null = "null"
  json broken level (bool true) = "true"
  json broken level (bool false) = "false"
  json broken level (int z) = show_ℤ z
  json broken level (float z k) = show_float z k
  json broken level (str s) = json_key s
  json broken level (list nil) = "[]"
  json broken level (list (cons v vs)) =
      "["
      ++ (line broken (suc level)
          ++ (json broken (suc level) v
              ++ (json_items broken (suc level) vs ++ (line broken level ++ "]"))))
  json broken level (dict end) = "{}"
  json broken level (dict (field k v fs)) =
      "{"
      ++ (line broken (suc level)
          ++ (json_key k
              ++ (": "
                  ++ (json broken (suc level) v
                      ++ (json_fields broken (suc level) fs ++ (line broken level ++ "}"))))))

  json_items : Bool → ℕ → Items → String
  json_items broken level nil = []
  json_items broken level (cons v vs) =
      comma broken level ++ (json broken level v ++ json_items broken level vs)

  json_fields : Bool → ℕ → Fields → String
  json_fields broken level end = []
  json_fields broken level (field k v fs) =
      comma broken level
      ++ (json_key k ++ (": " ++ (json broken level v ++ json_fields broken level fs)))

-- json.dumps(v)
unfoldable pub dumps : Value → String
unfolding json
dumps v = json false 0 v

-- json.dumps(v, indent=2)
unfoldable pub dumps_indented : Value → String
unfolding json
dumps_indented v = json true 0 v
