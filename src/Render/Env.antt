-- ===== src/Render/Env.antt =====
-- `env_int`, `env_str` and `mac_for` of scripts/render-topology.py. `os.environ` is a dictionary.

pub mod Mac
use Prim.Native.String.{String, ◌++◌}
use pulsaros_testbed.Prelude.{
  ℕ, ◌/◌, ◌%◌, ◌^◌, Option, none, some, ◌==◌, if◌then◌else◌, Outcome, ok, die, Dict, get,
}
use pulsaros_testbed.Number.{ℤ, pos}
use pulsaros_testbed.Text.{numeric, show_hex2}

abbrev pub Environ : Type 0
Environ = Dict String

required : {A : Type 0} → String → Option A → Outcome A
required name none = die (name ++ " is required")
required name (some d) = ok d

read_number : String → Option ℕ → Outcome ℕ
read_number name none = die (name ++ " must be numeric")
read_number name (some n) = ok n

unfoldable pub env_int : Environ → String → Option ℕ → Outcome ℕ
unfolding required read_number
env_int env name default = elim (get name env) [
  | none ↦ required name default
  | some value ↦ if value == "" then required name default else read_number name (numeric value)
]

unfoldable pub env_str : Environ → String → Option String → Outcome String
unfolding required
env_str env name default = elim (get name env) [
  | none ↦ required name default
  | some value ↦ if value == "" then required name default else ok value
]

-- The bytes of the run, and the offset as `%02x` prints it.
unfoldable pub mac_for : ℕ → ℤ → String
mac_for run_id offset =
    "52:54:"
    ++ (show_hex2 (pos (run_id / 2 ^ 16 % 256))
        ++ (":"
            ++ (show_hex2 (pos (run_id / 2 ^ 8 % 256))
                ++ (":" ++ (show_hex2 (pos (run_id % 256)) ++ (":" ++ show_hex2 offset))))))
