-- ===== src/Channel/Sptp/Jump.antt =====
-- What `SPTP_Protocol::adjust_clock_jump` (src/channel/sptp_protocol.h) sets the clock to.
use communication_in_critica.Prelude.{
  ℕ, ◌+◌, ◌*◌, ◌/◌, ◌%◌, ◌≡◌, ◌<◌, refl, ℤ, pos, ◌+ℤ◌, some, arith,
}
use communication_in_critica.Channel.Sptp.{adjust_clock_jump}

-- If the sum of the clock and the jump is not before 1970, the clock is set to it, whole.
pub adjust_clock_jump-exact :
    (sec nsec total : ℕ) (delta_ns : ℤ)
    → pos (sec * 1000000000 + nsec) +ℤ delta_ns ≡ pos total
    → (s n : ℕ) × (adjust_clock_jump sec nsec delta_ns ≡ some (s, n))
      × (s * 1000000000 + n ≡ total)
      × (n < 1000000000)
unfolding adjust_clock_jump
adjust_clock_jump-exact sec nsec total delta_ns e = (
  total / 1000000000,
  total % 1000000000,
  rw (e, adjust_clock_jump) refl,
  omega arith,
  omega arith,
)
