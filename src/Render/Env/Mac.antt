-- ===== src/Render/Env/Mac.antt =====
-- MAC addresses of one run differ where the offsets do.
use text.Mathlib.TextLemmas.{append_cancel_left}
use pulsaros_testbed.Prelude.{ℕ, ◌≡◌}
use pulsaros_testbed.Number.{ℤ}
use pulsaros_testbed.Text.Spelling.{show_hex2_injective}
use pulsaros_testbed.Render.Env.{mac_for}

-- In one run, two MAC offsets with one MAC address are one offset, whatever their size and sign.
pub mac_for_injective : (run_id : ℕ) (a b : ℤ) → mac_for run_id a ≡ mac_for run_id b → a ≡ b
unfolding mac_for
mac_for_injective run_id a b h = show_hex2_injective a b (
    append_cancel_left _ _ _ (
      append_cancel_left _ _ _ (
        append_cancel_left _ _ _ (
          append_cancel_left _ _ _
            (append_cancel_left _ _ _ (append_cancel_left _ _ _ (append_cancel_left _ _ _ h)))))))
