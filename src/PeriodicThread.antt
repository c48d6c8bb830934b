-- ===== src/PeriodicThread.antt =====
-- src/core/periodic_thread.h: a thread that calls a job at deadlines a period apart, and between them
-- sleeps in slices, so that it is stopped soon. The job, the clock and the sleeping are not code of
-- the repository: the readings of the clock are arguments, in nanoseconds, as is what each test of
-- `_running` finds.
pub mod Pace
mod Tests
use communication_in_critica.Prelude.{
  ℕ, zero, suc, ◌+◌, ◌-◌, ◌*◌, Bool, true, false, ◌&&◌, Option, none, some, if◌then◌else◌, ltb,
}

-- 50 ms
abbrev pub cap : ℕ
cap = 50000000

-- `_period_us` and `_running`
pub record Thread : Type 0 where
  pub period_us : ℕ
  pub running : Bool

abbrev pub stop : Thread → Thread
stop t = record t { running = false }

abbrev pub set_period : ℕ → Thread → Thread
set_period period_us t = record t { period_us = period_us }

-- the next deadline, after a job that is over at `now`
unfoldable pub next_deadline : ℕ → ℕ → ℕ → ℕ
next_deadline next period_us now =
    let planned = next + period_us * 1000 in
    if ltb planned now then now + period_us * 1000 else planned

-- how long the thread sleeps at a reading of the clock
unfoldable pub slice : ℕ → ℕ → ℕ
slice next now = if ltb (next - now) cap then next - now else cap

-- The loop that sleeps, from its `k`-th test on: the test that ends it. `at_test` is the clock where
-- the loop tests for the deadline, `running` what the tests find, and fuel bounds the slices.
unfoldable pub wait : (ℕ → ℕ) → (ℕ → Bool) → ℕ → ℕ → ℕ → Option ℕ
wait at_test running next k zero = none
wait at_test running next k (suc fuel) =
    let rest = wait at_test running next (suc k) fuel in
    if running k && ltb (at_test k) next then rest else some k
