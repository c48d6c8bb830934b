-- ===== src/SharedMemory/Invariant.antt =====
-- The accounting of the ring: semaphores, sequence numbers, slots and what the readers were given.
pub mod Readers
pub mod Kept
use Prim.Native.Nat.{bit_or}
use communication_in_critica.Prelude.{
  ℕ, zero, suc, ◌+◌, ◌-◌, ◌%◌, ◌^◌, ◌≤◌, ◌<◌, ◌≡◌, ◌≢◌, refl, sym, ap, ◌∙◌, inl, inr, List, [],
  if◌then◌else◌, arith, Bool-cases, dec_lt, ℕ_discrete,
}
use communication_in_critica.SharedMemory.Region.{
  ComponentEntry, BroadcastSlot, Region, update, next64, slot_count, frame_size_max, gateway_writer,
  deliver_to_components, deliver_to_gateway,
}
use communication_in_critica.SharedMemory.Engine.{
  write_slot, engine_send, engine_close, read_slot, received, is_gateway,
}
use communication_in_critica.SharedMemory.Least.{
  least_read_seq, least_read_seq-split, least_read_seq_not_me-update, weight_below,
  weight_below-update, weight_below-zero, least_read_seq-eq, least_read_seq-update,
}
use communication_in_critica.SharedMemory.System.{
  Reader, idle, awake, posting, stopped, System, deliver, post_all, read_of, Step, reserve, publish,
  wake, consume, post, close, init, IsFresh, Reach, here, later,
}

-- a reader that owes a `sem_post(SEM_RING_EMPTY)`
abbrev pub owes : Reader → ℕ
owes posting = 1
owes _ = 0

-- a reader that took a pending token and has not read for it
abbrev pub claims : Reader → ℕ
claims awake = 1
claims _ = 0

-- What slot `me` is given of the first `k` frames published, newest first.
unfoldable pub deliveries : ℕ → (ℕ → BroadcastSlot) → ℕ → List (List ℕ)
deliveries me log zero = []
deliveries me log (suc k) = deliver (received me frame_size_max (log k)) (deliveries me log k)

pub deliveries-update :
    (me : ℕ) (log : ℕ → BroadcastSlot) (j : ℕ) (x : BroadcastSlot) (k : ℕ)
    → k ≤ j
    → deliveries me (update log j x) k ≡ deliveries me log k
unfolding deliveries
deliveries-update me log j x zero h = refl
deliveries-update me log j x (suc k) h = ground (arith, deliveries-update me log j x k)

module _ (s : System) where
  abbrev pub count : ℕ
  count = s.region.component_count

  abbrev pub read_seq : ℕ → ℕ
  read_seq i = (s.region.components i).read_seq

  pub record Inv : Type 0 where
    pub registered : 0 < s.region.component_count
    pub counted : s.region.next_write_seq ≡ s.published
    pub space :
        s.empty + s.reserved + weight_below owes s.reader s.region.component_count + s.published
        ≡ slot_count + least_read_seq s.region.component_count s.region.components
    pub queued :
        (i : ℕ)
        → i < s.region.component_count
        → s.pending i + claims (s.reader i) + (s.region.components i).read_seq ≡ s.published
    pub kept :
        (k : ℕ)
        → k < s.published
        → s.published ≤ k + slot_count
        → s.region.slots (k % slot_count) ≡ s.log k
    pub given :
        (i : ℕ)
        → i < s.region.component_count
        → s.inbox i ≡ deliveries i s.log (s.region.components i).read_seq

-- The least `read_seq` is at most each of them.
pub least-le :
    (n : ℕ) (c : ℕ → ComponentEntry) (i : ℕ) → i < n → least_read_seq n c ≤ (c i).read_seq
least-le n c i h = omega (arith, least_read_seq-split i n c h)

-- No writer runs more than the ring ahead of any registered component.
pub published-le :
    {s : System}
    → Inv s
    → (i : ℕ) → i < s.region.component_count
    → s.published ≤ (s.region.components i).read_seq + slot_count
published-le {s} v i h =
    omega (arith, v.space, least-le s.region.component_count s.region.components i h)
