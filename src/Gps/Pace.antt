-- ===== src/Gps/Pace.antt =====
-- The pace of the simulated vehicle, over the wrap of `jiffies`: a call at tick `t` of an unbounded
-- count reads `t % 2 ^ 64`.
use communication_in_critica.Prelude.{
  ℕ, suc, ◌+◌, ◌*◌, ◌%◌, ◌^◌, ◌<◌, ◌≤◌, ◌≡◌, ◌≢◌, ◌⊎◌, inl, inr, refl, List, [], ◌∷◌, Bool, false,
  if◌then◌else◌, ◌==◌, arith,
}
use communication_in_critica.Gps.{
  Gps, Command, advance, ioctl, quadrants, get_quadrant, set_fixed, other, time_before,
}

pub record Visit : Type 0 where
  pub tick : ℕ
  pub random : ℕ
  pub command : Command

abbrev after : ℕ → Gps → Visit → Gps
after hz g v = (ioctl hz (v.tick % 2 ^ 64) v.random g v.command).0

-- how often the quadrant changes in a sequence of calls
unfoldable pub moves : ℕ → Gps → List Visit → ℕ
unfolding ioctl
moves hz g [] = 0
moves hz g (v ∷ vs) =
    (if (after hz g v).quadrant == g.quadrant then 0 else 1) + moves hz (after hz g v) vs

-- The calls are in the order of their ticks, from the given one on.
abbrev pub Ordered : ℕ → List Visit → Type 0
Ordered t [] = Unit
Ordered t (v ∷ vs) = (t ≤ v.tick) × Ordered v.tick vs

abbrev pub last_tick : ℕ → List Visit → ℕ
last_tick t [] = t
last_tick t (v ∷ vs) = last_tick v.tick vs

-- `time_before` tells right whether an interval has passed, as long as less than 2^63 ticks have
-- passed since it ended.
time_before-late :
    (t l k : ℕ)
    → k ≤ 2 ^ 63
    → l ≤ t
    → time_before (t % 2 ^ 64) ((l % 2 ^ 64 + k) % 2 ^ 64) ≡ false
    → l + k ≤ t
time_before-late t l k small order h = ground arith

time_before-passed :
    (t l k : ℕ)
    → k ≤ 2 ^ 63
    → l + k ≤ t
    → t < l + k + 2 ^ 63
    → time_before (t % 2 ^ 64) ((l % 2 ^ 64 + k) % 2 ^ 64) ≡ false
time_before-passed t l k small passed near = ground arith

-- A call that changes the quadrant comes at least 3 seconds after the last change, and notes its
-- time; another leaves the time noted, or notes its own.
after-cases :
    (hz last t r : ℕ) (g : Gps) (c : Command)
    → 3 * hz ≤ 2 ^ 63
    → g.last_change ≡ last % 2 ^ 64
    → last ≤ t
    → let g' = (ioctl hz (t % 2 ^ 64) r g c).0 in
      ((g'.quadrant ≡ g.quadrant) × (g'.last_change ≡ last % 2 ^ 64))
      ⊎ ((last + 3 * hz ≤ t) × (g'.last_change ≡ t % 2 ^ 64))
unfolding ioctl advance
after-cases hz last t r g set_fixed small same order = inl (refl, same)
after-cases hz last t r g other small same order = inl (refl, same)
after-cases hz last t r g (get_quadrant copies) small same order =
    ground (arith, same, time_before-late t last (3 * hz) small order)

one_more : (m k : ℕ) → suc m * k ≡ k + m * k
one_more m k = omega arith

-- In any sequence of calls in the order of time the quadrant changes at most once in 3 seconds: the
-- changes, times 3 seconds, are at most the time since the last change before the sequence.
pub moves_paced :
    (hz last now : ℕ) (g : Gps) (vs : List Visit)
    → 3 * hz ≤ 2 ^ 63
    → g.last_change ≡ last % 2 ^ 64
    → last ≤ now
    → Ordered now vs
    → last + moves hz g vs * (3 * hz) ≤ last_tick now vs
unfolding moves
moves_paced hz last now g [] small same le order = omega arith
moves_paced hz last now g (v ∷ vs) small same le order =
    elim (after-cases hz last v.tick v.random g v.command small same (omega (arith, order.0))) [
      | inl (still, same') ↦ ground (
        arith,
        still,
        moves_paced hz last v.tick (after hz g v) vs small same' (omega (arith, order.0)) order.1,
      )
      | inr (passed, same') ↦ ground (
        arith,
        one_more (moves hz (after hz g v) vs) (3 * hz),
        passed,
        moves_paced hz v.tick v.tick (after hz g v) vs small same' (omega arith) order.1,
      )
    ]

-- A call of a device that is not fixed, once 3 seconds have passed and before 2^63 ticks more, moves
-- to another quadrant and starts the next interval.
due_moves :
    (hz last t r : ℕ) (g : Gps) (copies : Bool)
    → 3 * hz ≤ 2 ^ 63
    → g.quadrant < quadrants
    → g.is_fixed ≡ false
    → g.last_change ≡ last % 2 ^ 64
    → last + 3 * hz ≤ t
    → t < last + 3 * hz + 2 ^ 63
    → let g' = (ioctl hz (t % 2 ^ 64) r g (get_quadrant copies)).0 in
      (g'.quadrant ≢ g.quadrant) × (g'.last_change ≡ t % 2 ^ 64)
unfolding ioctl advance
due_moves hz last t r g copies small inside free same passed near =
    ground (arith, time_before-passed t last (3 * hz) small passed near)
