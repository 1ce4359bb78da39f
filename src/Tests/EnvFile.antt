-- ===== src/Tests/EnvFile.antt =====
-- topology.env, written and read.
use pulsaros_testbed.Prelude.{◌≡◌, refl, true, none, some, ok, []}
use pulsaros_testbed.Number.{pos}
use pulsaros_testbed.Text.{
  all_chars, strip, strip_left, strip_right, is_white, show_ℤ, show_ℕ, show_in, spell, digit,
}
use pulsaros_testbed.Value.{int, str, Fields, end, field, field?, is_blank, py_str, repr}
use pulsaros_testbed.Render.Env.{env_int}
use pulsaros_testbed.Render.Output.{env_lines, env_text}
use pulsaros_testbed.EnvFile.{is_break, starts_with, load_env_file}
use pulsaros_testbed.EnvFile.Roundtrip.{plain_entries, printed, env_file-roundtrip}
use pulsaros_testbed.EnvFile.Numbers.{env_int-roundtrip}

abbrev rest : Fields
rest = field "TOPOLOGY" (str "pair of hosts") (field "SDN_BRIDGE" (str "") end)

abbrev entries : Fields
entries = field "RUN_ID" (int (pos 4711)) rest

plain : plain_entries entries ≡ true
unfolding plain_entries is_blank all_chars strip strip_left strip_right is_white starts_with
    is_break py_str repr show_ℤ show_ℕ show_in spell digit
plain = refl

env_file-roundtrip_example :
    load_env_file (some (env_text (env_lines entries))) ≡ printed [] entries
env_file-roundtrip_example = env_file-roundtrip entries plain

env_int-roundtrip_example :
    env_int (load_env_file (some (env_text (env_lines entries)))) "RUN_ID" none ≡ ok 4711
unfolding field?
env_int-roundtrip_example = env_int-roundtrip "RUN_ID" 4711 rest none plain refl
