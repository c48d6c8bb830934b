-- ===== src/PeriodicThread/Pace.antt =====
-- When the job of a periodic thread is called again.
use communication_in_critica.Prelude.{
  ℕ, zero, suc, ◌+◌, ◌-◌, ◌*◌, ◌≤◌, ◌≡◌, refl, ◌⊎◌, inl, inr, Bool, false, ◌&&◌, some, ltb,
  Bool-cases, arith,
}
use communication_in_critica.PeriodicThread.{cap, next_deadline, slice, wait}

-- A deadline is a period after the one before, or later if the job took longer, and never past.
pub next_deadline-bounds :
    (next period_us now : ℕ)
    → (next + period_us * 1000 ≤ next_deadline next period_us now)
      × (now ≤ next_deadline next period_us now)
      × ((next_deadline next period_us now ≡ next + period_us * 1000)
          ⊎ (next_deadline next period_us now ≡ now + period_us * 1000))
unfolding next_deadline
next_deadline-bounds next period_us now = elim (Bool-cases (ltb (next + period_us * 1000) now)) [
  | inl late ↦ rw late (ground (arith, late), omega arith, inr refl)
  | inr soon ↦ rw soon (omega arith, ground (arith, soon), inl refl)
]

not_before : (on : Bool) (now next : ℕ) → next ≤ now → (on && ltb now next) ≡ false
not_before on now next h = elim (Bool-cases on) [
  | inl e ↦ rw e (ground (arith, h))
  | inr e ↦ rw e refl
]

-- A slice brings the deadline nearer by 50 ms, or to the present.
slept :
    (next fuel before during after : ℕ)
    → before ≤ during
    → during + slice next during ≤ after
    → next ≤ before + suc fuel * cap
    → next ≤ after + fuel * cap
unfolding slice
slept next fuel before during after h s b = elim (Bool-cases (ltb (next - during) cap)) [
  | inl last ↦ ground (arith, last, h, s, b)
  | inr whole ↦ ground (arith, whole, h, s, b)
]

-- If the clock does not go back and a sleep lasts at least as long as was asked for, then the loop
-- ends after as many slices of 50 ms as the time to the deadline has, at most, and then the thread
-- was stopped or the deadline is reached.
pub wait_ends :
    (at_test at_slice : ℕ → ℕ) (running : ℕ → Bool) (next fuel k : ℕ)
    → ((i : ℕ) → at_test i ≤ at_slice i)
    → ((i : ℕ) → at_slice i + slice next (at_slice i) ≤ at_test (suc i))
    → next ≤ at_test k + fuel * cap
    → (j : ℕ) × (wait at_test running next k (suc fuel) ≡ some j)
      × (k ≤ j)
      × (j ≤ k + fuel)
      × ((running j ≡ false) ⊎ (next ≤ at_test j))
unfolding wait
wait_ends at_test at_slice running next zero k forward sleeps near =
    rw (not_before (running k) (at_test k) next (omega (arith, near)))
      (k, refl, omega arith, omega arith, inr (omega (arith, near)))
wait_ends at_test at_slice running next (suc fuel) k forward sleeps near =
    let (j, ends, from, to, why) =
      wait_ends at_test at_slice running next fuel (suc k) forward sleeps
        (slept next fuel (at_test k) (at_slice k) (at_test (suc k)) (forward k) (sleeps k) near) in
    elim (Bool-cases (running k)) [
      | inr stopped ↦ rw stopped (k, refl, omega arith, omega arith, inl stopped)
      | inl on ↦ elim (Bool-cases (ltb (at_test k) next)) [
        | inl early ↦ rw (on, early) (j, ends, omega (arith, from), omega (arith, to), why)
        | inr late ↦ rw (on, late) (k, refl, omega arith, omega arith, inr (ground (arith, late)))
      ]
    ]
