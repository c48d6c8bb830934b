-- ===== src/Application/Components/Tests.antt =====
-- Commands in whole numbers, in place of doubles, and what a lidar counts.
use communication_in_critica.Prelude.{◌≡◌, refl, ◌*◌, Bool, true, false, ℤ, pos, negsuc, ltb, ◌+ℤ◌}
use communication_in_critica.Application.Components.{
  Doubles, apply_between, apply_braking, apply_steering, apply_powertrain, run_lidar, lidar_loop,
  initial_points,
}

abbrev below : ℤ → ℤ → Bool
below (pos a) (pos b) = ltb a b
below (pos a) (negsuc b) = false
below (negsuc a) (pos b) = true
below (negsuc a) (negsuc b) = ltb b a

abbrev whole_numbers : Doubles
whole_numbers = record {
  Double = ℤ;
  ltd = below;
  whole = λ a. a;
  literal = λ a. a;
  add = λ a b. a +ℤ b;
  ten_thousandths = λ a. a;
}

braked : apply_braking whole_numbers (pos 200) ≡ pos 150
unfolding apply_braking apply_between
braked = refl

steered : apply_steering whole_numbers (negsuc 89) ≡ negsuc 44
unfolding apply_steering apply_between
steered = refl

powered : apply_powertrain whole_numbers (pos 200) ≡ pos 200
unfolding apply_powertrain
powered = refl

counted : run_lidar (λ i. 1000 * i) initial_points ≡ 1500
unfolding run_lidar lidar_loop
counted = refl
