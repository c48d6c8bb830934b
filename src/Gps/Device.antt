-- ===== src/Gps/Device.antt =====
-- src/network/gps.cpp: the wrapper of the device, and the test of a frame's quadrant by the engine
-- of the raw socket (src/network/engine/raw_socket_engine.cpp).
use communication_in_critica.Prelude.{
  ℕ, ◌%◌, ◌≡◌, ◌≢◌, ◌↔◌, ◌⊎◌, Bool, true, ◌&&◌, ◌||◌, not, Option, none, some, if◌then◌else◌, ◌==◌,
  arith,
}
use communication_in_critica.Ethernet.{Mac, mac_eq, mac_eq_iff}
use communication_in_critica.Gps.{Command, Answer, at, done, efault, enotty, set_fixed}

abbrev pub quadrant_none : ℕ
quadrant_none = 0xFF

-- `GPS::quadrant`, for an `ioctl` that answered, or none if the device is not open
unfoldable pub quadrant_of : Option Answer → ℕ
quadrant_of none = quadrant_none
quadrant_of (some (at q)) = q % 256
quadrant_of (some done) = 0
quadrant_of (some efault) = quadrant_none
quadrant_of (some enotty) = quadrant_none

-- `GPS::set_fixed`: the call is made, if any
abbrev pub set_fixed_call : Bool → Bool → Option Command
set_fixed_call is_open wanted = if not wanted || not is_open then none else some set_fixed

-- `RawSocketEngine::engine_should_drop_frame`
unfoldable pub engine_should_drop_frame : Mac → Mac → ℕ → ℕ → Bool
unfolding mac_eq
engine_should_drop_frame src local origin mine =
    mac_eq src local
    || (not (mine == quadrant_none) && (not (origin == quadrant_none) && not (mine == origin)))

-- A frame is dropped if and only if it is the machine's own, or both quadrants are known and they
-- differ.
pub engine_should_drop_frame_iff :
    (src local : Mac) (origin mine : ℕ)
    → (engine_should_drop_frame src local origin mine ≡ true)
      ↔ ((src ≡ local) ⊎ ((mine ≢ quadrant_none) × (origin ≢ quadrant_none) × (mine ≢ origin)))
unfolding engine_should_drop_frame
engine_should_drop_frame_iff src local origin mine = ground (arith, mac_eq_iff src local)
