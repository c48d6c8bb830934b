-- ===== src/SharedMemory/Delivery.antt =====
-- What the readers of the ring are given: every frame, in the order of publication.
use communication_in_critica.Prelude.{
  ℕ, zero, suc, ◌+◌, ◌%◌, ◌^◌, ◌≤◌, ◌<◌, ◌≡◌, refl, ap, Bool, true, false, not, ◌&&◌, min, List, [],
  ◌∷◌, ◌++◌, none, some, if◌then◌else◌, leb, ◌==◌, arith, take, drop, length,
}
use communication_in_critica.SharedMemory.Region.{
  BroadcastSlot, Region, slot_count, frame_size_max, gateway_writer, max_components,
  deliver_to_components,
}
use communication_in_critica.SharedMemory.Engine.{
  memcpy, engine_send, should_read, is_gateway, received, filled,
}
use communication_in_critica.SharedMemory.System.{System, IsFresh, Reach, IsOnTime}
use communication_in_critica.SharedMemory.Invariant.{deliveries, published-le}
use communication_in_critica.SharedMemory.Invariant.Kept.{Reach-Inv}

-- In every interleaving where no process attaches after the first frame, and which publishes less
-- than 2 ^ 64 frames, each registered reader was given exactly the frames meant for it among the
-- first `read_seq` that were published, each once, in the order of publication; it is at most the
-- ring behind.
pub delivered_in_order :
    {r : Region} {s : System} (i : ℕ)
    → IsFresh r
    → s.published < 2 ^ 64
    → (p : Reach r s) → IsOnTime p
    → i < s.region.component_count
    → (s.inbox i ≡ deliveries i s.log (s.region.components i).read_seq)
      × ((s.region.components i).read_seq ≤ s.published)
      × (s.published ≤ (s.region.components i).read_seq + slot_count)
delivered_in_order i f small p early h =
    let v = Reach-Inv f small p early in
    (v.given i h, omega (arith, v.queued i h), published-le v i h)

take-append : (n : ℕ) (xs ys : List ℕ) → n ≤ length xs → take n (take n xs ++ ys) ≡ take n xs
take-append zero xs ys h = refl
take-append (suc n) [] ys h = absurd (omega arith)
take-append (suc n) (x ∷ xs) ys h = ap (λ l. x ∷ l) (take-append n xs ys (omega arith))

-- The bytes that a reader gets from a slot that was filled with a frame, if the slot is for it.
read_back :
    (old frame : List ℕ) (n : ℕ) → n ≤ length frame → take n (memcpy old frame n) ≡ take n frame
unfolding memcpy
read_back old frame n h = take-append n frame (drop n old) h

min_lem :
    (size : ℕ)
    → (if leb size frame_size_max then size else frame_size_max) ≡ min size frame_size_max
min_lem size = ground arith

min_twice : (size : ℕ) → min (min size frame_size_max) frame_size_max ≡ min size frame_size_max
min_twice size = omega arith

payload-filled :
    (size writer flags : ℕ) (frame : List ℕ) (old : BroadcastSlot)
    → size ≤ length frame
    → let slot = filled old frame size writer flags in
      take
        (if leb slot.frame_size frame_size_max then slot.frame_size else frame_size_max)
        slot.frame
      ≡ take (min size frame_size_max) frame
unfolding filled
payload-filled size writer flags frame old h =
    rw (min_lem size, min_lem (min size frame_size_max), min_twice size)
      (read_back old.frame frame (min size frame_size_max) (omega arith))

received-filled :
    (j size writer flags : ℕ) (frame : List ℕ) (old : BroadcastSlot)
    → size ≤ length frame
    → received j frame_size_max (filled old frame size writer flags) ≡ (
        if should_read j (filled old frame size writer flags)
        then some (take (min size frame_size_max) frame)
        else none)
unfolding received
received-filled j size writer flags frame old h =
    ap (λ p. if should_read j (filled old frame size writer flags) then some p else none)
      (payload-filled size writer flags frame old h)

slots-engine_send :
    (r : Region) (me size : ℕ) (frame : List ℕ)
    → (engine_send r me frame size).slots (r.next_write_seq % slot_count)
      ≡ filled
          (r.slots (r.next_write_seq % slot_count))
          frame
          size
          (if is_gateway me then gateway_writer else me)
          (if is_gateway me then deliver_to_components else 3)
unfolding engine_send
slots-engine_send r me size frame = ground arith

should_read-filled :
    (j me size : ℕ) (frame : List ℕ) (old : BroadcastSlot)
    → j < max_components
    → should_read j (
        filled old frame size
          (if is_gateway me then gateway_writer else me)
          (if is_gateway me then deliver_to_components else 3))
      ≡ not (not (is_gateway me) && me == j)
unfolding should_read filled
should_read-filled j me size frame old h = ground arith

if-not {ℓ} : {A : Type ℓ} (b : Bool) (x y : A) → (if not b then x else y) ≡ (if b then y else x)
if-not true x y = refl
if-not false x y = refl

-- A frame that a component or the gateway sends is for every registered process, whole up to the
-- size of an Ethernet frame, but a component does not get its own. The gateway does get back what
-- it sends.
pub received-engine_send :
    (r : Region) (me j size : ℕ) (frame : List ℕ)
    → j < max_components
    → size ≤ length frame
    → received j frame_size_max
        ((engine_send r me frame size).slots (r.next_write_seq % slot_count))
      ≡ (if not (is_gateway me) && me == j
          then none
          else some (take (min size frame_size_max) frame))
received-engine_send r me j size frame hj h = rw (
  slots-engine_send r me size frame,
  received-filled j size _ _ frame _ h,
  should_read-filled j me size frame _ hj,
  if-not,
)
