-- ===== src/PeriodicThread/Tests.antt =====
-- A thread that waits for 120 ms and is not stopped.
use communication_in_critica.Prelude.{
  ℕ, suc, ◌+◌, ◌*◌, ◌≤◌, ◌≡◌, ◌⊎◌, Bool, true, false, some, arith,
}
use communication_in_critica.PeriodicThread.{cap, slice, wait}
use communication_in_critica.PeriodicThread.Pace.{wait_ends}

abbrev clock : ℕ → ℕ
clock i = i * cap

abbrev on : ℕ → Bool
on i = true

sleeps : (i : ℕ) → clock i + slice 120000000 (clock i) ≤ clock (suc i)
unfolding slice
sleeps i = ground arith

wait_ends_example :
    (j : ℕ) × (wait clock on 120000000 0 4 ≡ some j)
    × (0 ≤ j)
    × (j ≤ 0 + 3)
    × ((on j ≡ false) ⊎ (120000000 ≤ clock j))
wait_ends_example = wait_ends clock clock on 120000000 3 0 (λ i. omega arith) sleeps (omega arith)
