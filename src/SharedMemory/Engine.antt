-- ===== src/SharedMemory/Engine.antt =====
-- src/network/engine/shared_memory_engine.cpp: what the engine does to the region while it holds
-- SEM_RING_MUTEX. The semaphores themselves are in `SharedMemory.System`.
use Prim.Native.Nat.{bit_and, bit_or}
use communication_in_critica.Prelude.{
  ℕ, zero, suc, ◌%◌, min, Bool, not, ◌&&◌, ◌||◌, List, ◌++◌, Option, none, some, if◌then◌else◌, ltb,
  leb, ◌==◌, take, drop,
}
use communication_in_critica.SharedMemory.Region.{
  ComponentEntry, BroadcastSlot, Region, update, next64, gateway_slot, gateway_writer, slot_count,
  frame_size_max, deliver_to_components, deliver_to_gateway,
}

-- `std::memcpy(dst, src, n)`: the bytes of `dst` from `n` on stay.
unfoldable pub memcpy : List ℕ → List ℕ → ℕ → List ℕ
memcpy dst src n = take n src ++ drop n dst

-- The process's own slot; it is the gateway's process if that is slot 0.
abbrev pub is_gateway : ℕ → Bool
is_gateway slot = slot == gateway_slot

-- `least_read_seq_not_me`: the least `read_seq` among the first `n` components, without `me`
unfoldable pub least_read_seq_not_me : ℕ → (ℕ → ComponentEntry) → ℕ → ℕ
least_read_seq_not_me me components zero = 0xffffffffffffffff
least_read_seq_not_me me components (suc i) =
    let least = least_read_seq_not_me me components i in
    if i == me then least else min least (components i).read_seq

-- the slot that `write_slot` leaves, over what it held
unfoldable pub filled : BroadcastSlot → List ℕ → ℕ → ℕ → ℕ → BroadcastSlot
unfolding memcpy
filled old frame size writer_slot flags =
    let n = if leb size frame_size_max then size else frame_size_max in
    record {
      writer_slot = writer_slot;
      flags = flags;
      frame_size = n;
      frame = memcpy old.frame frame n;
    }

-- The critical section of `write_slot`.
unfoldable pub write_slot : Region → List ℕ → ℕ → ℕ → ℕ → Region
write_slot r frame size writer_slot flags =
    let i = r.next_write_seq % slot_count in
    record r {
      next_write_seq = next64 r.next_write_seq;
      slots = update r.slots i (filled (r.slots i) frame size writer_slot flags);
    }

-- `engine_send`: who the writer says it is, and for whom the frame is.
unfoldable pub engine_send : Region → ℕ → List ℕ → ℕ → Region
unfolding write_slot
engine_send r me frame size =
    if is_gateway me
    then write_slot r frame size gateway_writer deliver_to_components
    else write_slot r frame size me (bit_or deliver_to_components deliver_to_gateway)

-- `should_read` of `read_slot`
unfoldable pub should_read : ℕ → BroadcastSlot → Bool
should_read me s =
    let to_components = not (bit_and s.flags deliver_to_components == 0) in
    let to_gateway = not (bit_and s.flags deliver_to_gateway == 0) in
    (is_gateway me && to_gateway) || (to_components && not (s.writer_slot == me))

-- what the reader's buffer of `size` bytes receives, if the slot is for the reader
unfoldable pub received : ℕ → ℕ → BroadcastSlot → Option (List ℕ)
unfolding should_read
received me size s =
    if should_read me s
    then some (take (if leb s.frame_size size then s.frame_size else size) s.frame)
    else none

-- The critical section of `read_slot`: the region, what was read, and `should_post_empty`.
pub record ReadResult : Type 0 where
  pub region : Region
  pub frame : Option (List ℕ)
  pub should_post_empty : Bool

unfoldable pub read_slot : Region → ℕ → ℕ → ReadResult
unfolding received least_read_seq_not_me
read_slot r me size =
    let seq = (r.components me).read_seq in
    let components = update r.components me (record (r.components me) { read_seq = next64 seq }) in
    record {
      region = record r { components = components };
      frame = received me size (r.slots (seq % slot_count));
      should_post_empty =
          leb (components me).read_seq (least_read_seq_not_me me components r.component_count);
    }

-- The critical section of `engine_init`.
unfoldable pub engine_init : Region → ℕ → Region
engine_init r me = record r {
  gateway_active = if is_gateway me then 1 else r.gateway_active;
  components =
      if ltb me r.component_count
      then update r.components me
          (record (r.components me) { active = 1; read_seq = r.next_write_seq })
      else r.components;
}

-- The critical section of `engine_close`.
unfoldable pub engine_close : Region → ℕ → Region
engine_close r me =
    if is_gateway me
    then record r { gateway_active = 0 }
    else (if ltb me r.component_count
        then record r {
          components = update r.components me (record (r.components me) { active = 0 });
        }
        else r)
