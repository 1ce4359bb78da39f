-- ===== src/Tests/Floats.antt =====
-- Texts that `float` reads and refuses.
use pulsaros_testbed.Prelude.{◌≡◌, refl, true, false, none, some}
use pulsaros_testbed.Text.{
  is_digit, is_space, all_space, next_place, decimal, is_word, magnitude, float_below_zero,
}

minus_half : float_below_zero " -.5" ≡ some true
unfolding is_digit is_space all_space next_place decimal is_word magnitude float_below_zero
minus_half = refl

minus_zero : float_below_zero "-0.0" ≡ some false
unfolding is_digit is_space all_space next_place decimal is_word magnitude float_below_zero
minus_zero = refl

minus_infinity : float_below_zero "-INF" ≡ some true
unfolding is_digit is_space all_space next_place decimal is_word magnitude float_below_zero
minus_infinity = refl

exponent : float_below_zero "1_0.5e-3 " ≡ some false
unfolding is_digit is_space all_space next_place decimal is_word magnitude float_below_zero
exponent = refl

stray_underscore : float_below_zero "1_.5" ≡ none
unfolding is_digit is_space all_space next_place decimal is_word magnitude float_below_zero
stray_underscore = refl

no_exponent : float_below_zero "1e" ≡ none
unfolding is_digit is_space all_space next_place decimal is_word magnitude float_below_zero
no_exponent = refl
