-- ===== src/Gps/Tests.antt =====
-- A vehicle that starts in quadrant 0 at tick 100 and is asked at 300 and 500, at 100 ticks a second.
use communication_in_critica.Prelude.{
  ◌+◌, ◌*◌, ◌≤◌, ◌≡◌, refl, List, [], ◌∷◌, true, false, some, arith,
}
use communication_in_critica.Gps.{Gps, ioctl, advance, gps_init, get_quadrant}
use communication_in_critica.Gps.Pace.{Visit, moves, moves_paced}

abbrev gps : Gps
gps = record { quadrant = 0; last_change = 100; is_fixed = false }

loaded : gps_init 100 9 (some 0) ≡ gps
unfolding gps_init
loaded = refl

abbrev visits : List Visit
visits =
    record { tick = 300; random = 0; command = get_quadrant true }
    ∷ record { tick = 500; random = 5; command = get_quadrant true }
    ∷ []

one_move : moves 100 gps visits ≡ 1
unfolding moves ioctl advance
one_move = refl

moves_paced_example : 100 + moves 100 gps visits * (3 * 100) ≤ 500
moves_paced_example =
    moves_paced 100 100 100 gps visits (omega arith) refl (omega arith)
      (omega arith, (omega arith, tt))
