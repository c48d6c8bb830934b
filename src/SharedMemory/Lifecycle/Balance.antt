-- ===== src/SharedMemory/Lifecycle/Balance.antt =====
-- The attachment of a process to the region, from `engine_init` to `engine_close`.
use communication_in_critica.Prelude.{
  ℕ, ◌+◌, ◌-◌, ◌≡◌, refl, ap, ◌⊎◌, inl, inr, Bool, true, false, Option, none, some, if◌then◌else◌,
  ◌==◌, Bool-cases, arith,
}
use communication_in_critica.SharedMemory.Region.{magic_number}
use communication_in_critica.SharedMemory.Engine.{engine_init}
use communication_in_critica.SharedMemory.Lifecycle.{
  Configuration, SharedMemoryEngine, Memory, attach_region, init_engine, may_transfer, close_engine,
}

back : (a : ℕ) → a + 1 - 1 ≡ a
back a = omega arith

-- The engine is attached, to a valid region in which its entry is set, or it is not and nothing has
-- changed.
abbrev pub Started : Memory → SharedMemoryEngine × Memory → Type 0
Started m (e, n) =
    ((e.attached ≡ true)
      × (n.attachments ≡ m.attachments + 1)
      × (m.region.magic ≡ magic_number)
      × (n.region ≡ engine_init m.region e.slot))
    ⊎ ((e.attached ≡ false) × (n ≡ m))

pub init_engine-Started :
    (c : Option Configuration) (shmat locks : Bool) (e : SharedMemoryEngine) (m : Memory)
    → e.attached ≡ false
    → Started m (init_engine c shmat locks e m)
unfolding init_engine attach_region
init_engine-Started none shmat locks e m h = inr (h, refl)
init_engine-Started (some c) false locks e m h = inr (h, refl)
init_engine-Started (some c) true locks e m h = elim (Bool-cases (m.region.magic == magic_number)) [
  | inl valid ↦ elim (Bool-cases locks) [
    | inl on ↦ rw (valid, on) (inl (refl, refl, ground (arith, valid), refl))
    | inr off ↦ rw (valid, off) (inr (refl, λ t. record m { attachments = back m.attachments t }))
  ]
  | inr invalid ↦ rw invalid (inr (refl, refl))
]

close_engine-attachments :
    (locks : Bool) (e : SharedMemoryEngine) (m : Memory)
    → let (after, n, _) = close_engine locks e m in
      (after.attached ≡ false)
      × (n.attachments ≡ (if e.attached then m.attachments - 1 else m.attachments))
unfolding close_engine
close_engine-attachments locks e m = elim (Bool-cases e.attached) [
  | inl a ↦ elim (Bool-cases locks) [
    | inl l ↦ rw (a, l) (refl, refl)
    | inr l ↦ rw (a, l) (refl, refl)
  ]
  | inr a ↦ rw a (refl, refl)
]

-- Whatever the configuration and the kernel's answers, an engine starts attached to a valid region,
-- in which its entry is set, or not attached and with nothing changed, and then it neither sends nor
-- receives; and when it is closed the process has the region attached as often as before.
pub started_and_closed :
    (c : Option Configuration) (shmat locks locks_too : Bool) (e : SharedMemoryEngine) (m : Memory)
    (has_frame : Bool) (size : ℕ)
    → e.attached ≡ false
    → let (started, n) = init_engine c shmat locks e m in
      let (after, left, _) = close_engine locks_too started n in
      (((started.attached ≡ true)
          × (m.region.magic ≡ magic_number)
          × (n.region ≡ engine_init m.region started.slot))
        ⊎ ((n ≡ m) × (may_transfer started has_frame size ≡ false)))
      × (after.attached ≡ false)
      × (left.attachments ≡ m.attachments)
unfolding may_transfer
started_and_closed c shmat locks locks_too e m has_frame size h =
    let (started, n) = init_engine c shmat locks e m in
    let (shut, count) = close_engine-attachments locks_too started n in
    elim (init_engine-Started c shmat locks e m h) [
      | inl (there, more, valid, set) ↦
          (inl (there, valid, set), shut, ground (arith, count, there, more))
      | inr (away, same) ↦ (
        inr (same, ground (arith, away)),
        shut,
        ground (arith, count, away, ap (λ k. k.attachments) same),
      )
    ]
