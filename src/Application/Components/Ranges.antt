-- ===== src/Application/Components/Ranges.antt =====
-- What the sensors measure and the actuators keep.
use communication_in_critica.Prelude.{
  ℕ, ◌%◌, ◌≤◌, ◌<◌, ◌≡◌, refl, false, Bool-cases, inl, inr, ℤ, pos, ◌-ℤ◌, arith,
}
use communication_in_critica.Application.Components.{
  lidar_loop, run_lidar, Radar, radar_loop, run_radar, Doubles, apply_between,
}

-- Whatever was counted before, a lidar that has run counts between 500 and 1999 points.
lidar_within :
    (rand : ℕ → ℕ) (points : ℕ) → (500 ≤ run_lidar rand points) × (run_lidar rand points < 2000)
unfolding run_lidar lidar_loop
lidar_within rand points = (omega arith, omega arith)

-- A radar that has run measures from 5 to 204 metres and from -30 to 29 half metres a second.
radar_within :
    (rand : ℕ → ℕ) (s : Radar)
    → (5 ≤ (run_radar rand s).range_m)
      × ((run_radar rand s).range_m < 205)
      × ((run_radar rand s).rel_speed ≡ pos (rand 9 % 60) -ℤ pos 30)
      × (rand 9 % 60 < 60)
unfolding run_radar radar_loop
radar_within rand s = (omega arith, omega arith, refl, omega arith)

module _ (d : Doubles) where
  open d use {Double, ltd, whole}

  -- What an actuator keeps is not below its lower bound and not above its upper one, whatever the
  -- order of doubles says of a value that is not a number.
  apply-Between :
      (low high : ℤ) (value : Double)
      → ltd (whole high) (whole low) ≡ false
      → ltd (whole low) (whole low) ≡ false
      → ltd (whole high) (whole high) ≡ false
      → (ltd (apply_between d low high value) (whole low) ≡ false)
        × (ltd (whole high) (apply_between d low high value) ≡ false)
  unfolding apply_between
  apply-Between low high value ordered at_low at_high = elim (Bool-cases (ltd value (whole low))) [
    | inl below ↦ rw (below, ordered) (at_low, ordered)
    | inr above ↦ elim (Bool-cases (ltd (whole high) value)) [
      | inl beyond ↦ rw (above, beyond) (ordered, at_high)
      | inr within ↦ rw (above, within) (above, within)
    ]
  ]
