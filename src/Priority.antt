-- ===== src/Priority.antt =====
-- src/core/rt_priority.cpp: the real-time priorities of the program's threads. The bounds of the
-- scheduler, none where the call fails, and whether it takes the priority are arguments.
use communication_in_critica.Prelude.{
  ℕ, ◌≤◌, ◌≡◌, Bool, Option, none, some, if◌then◌else◌, ltb, arith,
}

-- `MAIN_THREAD_PRIORITY` and `SERVICE_THREAD_PRIORITY`
abbrev main_thread_priority : ℕ
main_thread_priority = 98

abbrev service_thread_priority : ℕ
service_thread_priority = 99

unfoldable clamped : ℕ → ℕ → ℕ → ℕ
clamped low high priority =
    if ltb priority low then low else (if ltb high priority then high else priority)

-- `set_current_thread_fifo`: the priority that the thread gets, none where it returns false
unfoldable set_current_thread_fifo : Option ℕ → Option ℕ → Bool → ℕ → Option ℕ
unfolding clamped
set_current_thread_fifo none high takes priority = none
set_current_thread_fifo (some low) none takes priority = none
set_current_thread_fifo (some low) (some high) takes priority =
    if takes then some (clamped low high priority) else none

abbrev set_main_thread_priority : Option ℕ → Option ℕ → Bool → Option ℕ
set_main_thread_priority low high takes =
    set_current_thread_fifo low high takes main_thread_priority

abbrev set_service_thread_priority : Option ℕ → Option ℕ → Bool → Option ℕ
set_service_thread_priority low high takes =
    set_current_thread_fifo low high takes service_thread_priority

-- The priority asked for is within the scheduler's bounds.
clamped-within :
    (low high priority : ℕ)
    → low ≤ high
    → (low ≤ clamped low high priority) × (clamped low high priority ≤ high)
unfolding clamped
clamped-within low high priority h = ground (arith, h)

-- It is the wanted one if that is within them.
clamped-same :
    (low high priority : ℕ)
    → low ≤ priority
    → priority ≤ high
    → clamped low high priority ≡ priority
unfolding clamped
clamped-same low high priority above below = ground (arith, above, below)
