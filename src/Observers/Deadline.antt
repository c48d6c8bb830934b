-- ===== src/Observers/Deadline.antt =====
-- The deadline of a wait on a semaphore (src/core/posix_semaphore.h).
use communication_in_critica.Prelude.{ℕ, ◌+◌, ◌*◌, ◌%◌, ◌≡◌, ◌<◌, leb, Bool-cases, inl, inr, arith}
use communication_in_critica.Observers.{deadline}

-- From a whole reading of the clock, the deadline is so many milliseconds later, and whole.
pub deadline-exact :
    (timeout_ms sec nsec : ℕ)
    → nsec < 1000000000
    → let (s, n) = deadline timeout_ms (sec, nsec) in
      (s * 1000000000 + n ≡ sec * 1000000000 + nsec + timeout_ms * 1000000) × (n < 1000000000)
unfolding deadline
deadline-exact timeout_ms sec nsec h =
    elim (Bool-cases (leb 1000000000 (nsec + (timeout_ms % 1000) * 1000000))) [
      | inl e ↦ rw e (ground (arith, e, h), ground (arith, e, h))
      | inr e ↦ rw e (ground (arith, e, h), ground (arith, e, h))
    ]
