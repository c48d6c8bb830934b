-- ===== src/SharedMemory/Tests.antt =====
-- A vehicle with two components: runs of the ring.
use communication_in_critica.Prelude.{
  ℕ, ◌+◌, ◌%◌, ◌≤◌, ◌<◌, ◌≡◌, ◌≢◌, refl, List, [], ◌∷◌, none, some, true, ◌⊎◌, ◌-◌, if◌then◌else◌,
  arith,
}
use communication_in_critica.SharedMemory.Region.{Region, update, slot_count, frame_size_max}
use communication_in_critica.SharedMemory.Engine.{
  engine_send, read_slot, received, filled, engine_init, engine_close,
}
use communication_in_critica.SharedMemory.System.{
  attach, post, IsOnTime, outside, idle, awake, posting, stopped, deliver, post_all, read_of,
  System, Step, reserve, publish, wake, consume, close, Steps, here, later, init, IsFresh, Reach,
}
use communication_in_critica.SharedMemory.Invariant.{Inv, deliveries}
use communication_in_critica.SharedMemory.Invariant.Kept.{Reach-Inv}
use communication_in_critica.SharedMemory.Delivery.{delivered_in_order, received-engine_send}
use communication_in_critica.SharedMemory.Progress.{
  closed_reader_blocks, deadlock_free, quiescent_delivered,
}
use communication_in_critica.SharedMemory.Attach.{attached, late_attach_breaks}
use communication_in_critica.SharedMemory.Create.{
  create, fresh_region, fresh_region-IsFresh, create_all_or_nothing, Calls, Succeeds, no_context,
  nothing_left,
}

abbrev region : Region
region = fresh_region (λ i. i + 257) 2

region-IsFresh : IsFresh region
region-IsFresh = fresh_region-IsFresh (λ i. i + 257) 2

count-region : region.component_count ≡ 3
unfolding fresh_region
count-region = refl

abbrev payload : List ℕ
payload = 7 ∷ 8 ∷ 9 ∷ []

-- The gateway and both components attach.
abbrev with_gateway : System
with_gateway = record (init region) {
  region = engine_init region 0;
  reader = update (init region).reader 0 idle;
}

abbrev with_first : System
with_first = record with_gateway {
  region = engine_init with_gateway.region 1;
  reader = update with_gateway.reader 1 idle;
}

abbrev all_attached : System
all_attached = record with_first {
  region = engine_init with_first.region 2;
  reader = update with_first.reader 2 idle;
}

joining : Reach region all_attached
unfolding fresh_region engine_init
joining =
    later (later (later here (attach 0 (omega arith) refl)) (attach 1 (omega arith) refl))
      (attach 2 (omega arith) refl)

joining-IsOnTime : IsOnTime joining
unfolding joining
joining-IsOnTime = ((((tt, refl), refl)), refl)

abbrev reserved : System
reserved = record all_attached { empty = 99; reserved = 1 }

reserving : Reach region reserved
reserving = later joining (reserve (omega arith))

-- Component 1 has published a frame, and component 2 has read it.
abbrev published : System
published = record reserved {
  region = engine_send all_attached.region 1 payload 3;
  reserved = 0;
  pending = post_all region.component_count (λ _. 0);
  published = 1;
  log =
      update region.slots 0
        ((engine_send all_attached.region 1 payload 3).slots (region.next_write_seq % slot_count));
}

publishing : Reach region published
unfolding engine_init fresh_region
publishing = later reserving (publish 1 3 payload (omega arith) (omega arith))

publishing-IsOnTime : IsOnTime publishing
unfolding publishing reserving joining
publishing-IsOnTime = (((((tt, refl), refl), refl), tt), tt)

-- A reader is woken, reads, and posts where it was the last.
abbrev woken : System → ℕ → System
woken s i = record s {
  pending = update s.pending i (s.pending i - 1);
  reader = update s.reader i awake;
}

abbrev reader_after : System → ℕ → System
reader_after s i = record s {
  region = (read_of s i).region;
  reader = update s.reader i (if (read_of s i).should_post_empty then posting else idle);
  inbox = update s.inbox i (deliver (read_of s i).frame (s.inbox i));
}

abbrev read : System
read = reader_after (woken published 2) 2

reading : Reach region read
unfolding engine_send engine_init fresh_region
reading =
    later (later publishing (wake 2 (omega arith) refl (omega arith)))
      (consume 2 (omega arith) refl)

reading-IsOnTime : IsOnTime reading
unfolding reading
reading-IsOnTime = ((publishing-IsOnTime, tt), tt)

frame_arrives : read.inbox 2 ≡ payload ∷ []
unfolding engine_send engine_init fresh_region read_slot filled
frame_arrives = refl

delivered_in_order_example :
    (read.inbox 2 ≡ deliveries 2 read.log (read.region.components 2).read_seq)
    × ((read.region.components 2).read_seq ≤ 1)
    × (1 ≤ (read.region.components 2).read_seq + slot_count)
unfolding engine_send engine_init fresh_region read_slot
delivered_in_order_example =
    delivered_in_order 2 region-IsFresh (omega arith) reading reading-IsOnTime (omega arith)

-- The gateway injects a frame, and is given it back.
received-engine_send_example :
    received 0 frame_size_max
      ((engine_send region 0 payload 3).slots (region.next_write_seq % slot_count))
    ≡ some payload
received-engine_send_example = received-engine_send region 0 0 3 payload (omega arith) (omega arith)

abbrev closed : System
closed = record published {
  region = engine_close published.region 2;
  reader = update published.reader 2 stopped;
}

closing : Steps published closed
unfolding engine_send engine_init fresh_region
closing = later here (close 2 (omega arith) refl)

closed_reader_blocks_example : 1 ≤ (closed.region.components 2).read_seq + slot_count
unfolding engine_send engine_init fresh_region engine_close
closed_reader_blocks_example =
    closed_reader_blocks {t = closed} 2 region-IsFresh (omega arith)
      (later publishing (close 2 (omega arith) refl)) (omega arith) refl here
      (publishing-IsOnTime, tt) tt

running : (i : ℕ) → i < 3 → (published.reader i ≢ outside) × (published.reader i ≢ stopped)
running i h = (λ e. ground (arith, h, e), λ e. ground (arith, h, e))

deadlock_free_example : (t : System) × Step published t
unfolding engine_send engine_init fresh_region
deadlock_free_example =
    deadlock_free {s = published} region-IsFresh (omega arith) publishing publishing-IsOnTime
      running

-- All three have read the frame, and the last one has posted.
abbrev two_read : System
two_read = reader_after (woken (reader_after (woken read 1) 1) 0) 0

abbrev settled : System
settled = record two_read { empty = 100; reader = update two_read.reader 0 idle }

settling : Reach region settled
unfolding engine_send engine_init fresh_region read_slot
settling =
    later
      (later
        (later
          (later (later reading (wake 1 (omega arith) refl (omega arith)))
            (consume 1 (omega arith) refl))
          (wake 0 (omega arith) refl (omega arith)))
        (consume 0 (omega arith) refl))
      (post 0 (omega arith) refl)

settling-IsOnTime : IsOnTime settling
unfolding settling
settling-IsOnTime = (((((reading-IsOnTime, tt), tt), tt), tt), tt)

quiescent_delivered_example :
    (100 ≡ slot_count)
    × ((i : ℕ) → i < settled.region.component_count → settled.inbox i ≡ deliveries i settled.log 1)
unfolding engine_send engine_init fresh_region read_slot
quiescent_delivered_example =
    quiescent_delivered {s = settled} region-IsFresh (omega arith) settling settling-IsOnTime refl
      (λ i h. ground (arith, h))

late_attach_breaks_example :
    ((read_slot (engine_init published.region 2) 2 frame_size_max).frame
      ≡ received 2 frame_size_max (published.region.slots (1 % slot_count)))
    × (¬ Inv (attached published 2))
unfolding engine_send engine_init fresh_region
late_attach_breaks_example =
    late_attach_breaks 2 frame_size_max
      (Reach-Inv region-IsFresh (omega arith) publishing publishing-IsOnTime) (omega arith)
      (omega arith)

abbrev calls : Calls
calls = record { shmget = some 3; semget = some 4; shmat = true; setall = true }

create_all_or_nothing_example :
    (create none 0 calls ≡ (no_context, nothing_left)) ⊎ Succeeds 0 (create none 0 calls)
create_all_or_nothing_example = create_all_or_nothing none 0 calls
