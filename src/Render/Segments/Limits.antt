-- ===== src/Render/Segments/Limits.antt =====
-- `validate_vlan` and `validate_vni` of scripts/render-topology.py.
use Prim.Native.String.{String, ◌++◌}
use pulsaros_testbed.Prelude.{if◌then◌else◌, Outcome, ok, ◌>>=◌, ◌>>◌, die_if, ◌||◌}
use pulsaros_testbed.Number.{ℤ, pos, ltℤ}
use pulsaros_testbed.Value.{Value, to_int, is_blank}

unfoldable pub validate_vlan : Value → String → Outcome ℤ
validate_vlan value label = do
  vlan ← to_int value
  die_if (ltℤ vlan (pos 1) || ltℤ (pos 4094) vlan) (label ++ " must be between 1 and 4094")
  ok vlan

unfoldable pub validate_vni : Value → String → Outcome ℤ
validate_vni value label = do
  vni ← to_int value
  die_if (ltℤ vni (pos 1) || ltℤ (pos 16777215) vni) (label ++ " must be between 1 and 16777215")
  ok vni

-- if value not in (None, ""): validate_vlan(value, label)
unfoldable pub optional_vlan : Value → String → Outcome (Unit {0})
optional_vlan value label =
    if is_blank value then ok tt else (validate_vlan value label >>= λ _. ok tt)
