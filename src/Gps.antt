-- ===== src/Gps.antt =====
-- The virtual GPS: the kernel module kernel/gps_module/gps.c and its wrapper src/network/gps.cpp.
-- An `unsigned long` is 64 bits wide. What the kernel supplies is an argument: `jiffies`, the random
-- number of a call, the ticks of a second `hz` (a constant of the kernel's configuration), and
-- whether a copy to user space succeeds.
pub mod Device
pub mod Grid
pub mod Pace
mod Tests
use communication_in_critica.Prelude.{
  ℕ, ◌+◌, ◌-◌, ◌*◌, ◌%◌, ◌^◌, Bool, true, false, ◌||◌, Option, none, some, if◌then◌else◌, ltb, leb,
  ◌==◌,
}

abbrev pub quadrants : ℕ
quadrants = 4

-- the static variables of the module
pub record Gps : Type 0 where
  pub quadrant : ℕ
  pub last_change : ℕ
  pub is_fixed : Bool

-- `time_before(a, b)` of the kernel, `(long) (a - b) < 0`
abbrev pub time_before : ℕ → ℕ → Bool
time_before a b = leb (2 ^ 63) ((a + 2 ^ 64 - b) % 2 ^ 64)

-- `gps_neighbors`: Q0 is above Q2 and left of Q1
abbrev pub neighbors : ℕ → ℕ → ℕ
neighbors q i = if q == 0 || q == 3 then (if i == 0 then 1 else 2) else (if i == 0 then 0 else 3)

-- `gps_advance_locked`
unfoldable pub advance : ℕ → ℕ → ℕ → Gps → Gps
advance hz jiffies random g =
    if g.is_fixed
    then g
    else (if time_before jiffies ((g.last_change + 3 * hz) % 2 ^ 64)
        then g
        else record g { quadrant = neighbors g.quadrant (random % 2); last_change = jiffies })

pub data Command : Type 0 where
  get_quadrant : (copies : Bool) → Command
  set_fixed : Command
  other : Command

-- The result of `ioctl`: 0 with the quadrant that was written, 0, or an error.
pub data Answer : Type 0 where
  at : (quadrant : ℕ) → Answer
  done : Answer
  efault : Answer
  enotty : Answer

-- `gps_ioctl`; a case is under `gps_lock`
unfoldable pub ioctl : ℕ → ℕ → ℕ → Gps → Command → Gps × Answer
unfolding advance
ioctl hz jiffies random g (get_quadrant copies) =
    let moved = advance hz jiffies random g in (moved, if copies then at moved.quadrant else efault)
ioctl hz jiffies random g set_fixed = (record g { is_fixed = true }, done)
ioctl hz jiffies random g other = (g, enotty)

-- `gps_init`, up to the registration of the device; the parameter is none if it is negative
unfoldable pub gps_init : ℕ → ℕ → Option ℕ → Gps
gps_init jiffies random parameter = record {
  quadrant = elim parameter [
    | some q ↦ if ltb q quadrants then q else random % quadrants
    | none ↦ random % quadrants
  ];
  last_change = jiffies;
  is_fixed = false;
}
