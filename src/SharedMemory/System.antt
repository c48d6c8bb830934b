-- ===== src/SharedMemory/System.antt =====
-- The processes of one vehicle around the shared ring, as interleavings of the blocks that
-- src/network/engine/shared_memory_engine.cpp runs between two semaphore operations. What happens
-- under SEM_RING_MUTEX is one step, since `next_write_seq`, the slots and every `read_seq` are
-- touched there only. `published`, `log` and `inbox` are history that the code does not store.
use communication_in_critica.Prelude.{
  ℕ, suc, ◌-◌, ◌%◌, ◌<◌, ◌≡◌, ◌≢◌, List, [], ◌∷◌, Option, none, some, if◌then◌else◌, ltb,
}
use communication_in_critica.SharedMemory.Region.{
  BroadcastSlot, Region, update, slot_count, frame_size_max,
}
use communication_in_critica.SharedMemory.Engine.{
  engine_init, engine_send, engine_close, read_slot, ReadResult,
}

-- Where the receiver thread of a process stands.
pub data Reader : Type 0 where
  outside : Reader  -- before `engine_init`
  idle : Reader  -- before `sem_wait(pending_sem_index(_slot))`
  awake : Reader  -- has its pending token, before SEM_RING_MUTEX
  posting : Reader  -- has left the mutex and owes `sem_post(SEM_RING_EMPTY)`
  stopped : Reader  -- after `engine_close`

pub record System : Type 0 where
  pub region : Region
  pub empty : ℕ  -- SEM_RING_EMPTY
  pub pending : ℕ → ℕ  -- SEM_PENDING_BASE + slot
  pub reserved : ℕ  -- writers between `sem_wait(SEM_RING_EMPTY)` and SEM_RING_MUTEX
  pub reader : ℕ → Reader
  pub published : ℕ  -- how many frames were written
  pub log : ℕ → BroadcastSlot  -- the slot that each write left
  pub inbox : ℕ → List (List ℕ)  -- what each reader was given, newest first

abbrev pub deliver {ℓ} : {A : Type ℓ} → Option A → List A → List A
deliver none xs = xs
deliver (some x) xs = x ∷ xs

-- `write_slot` posts the pending semaphore of every registered component.
abbrev pub post_all : ℕ → (ℕ → ℕ) → ℕ → ℕ
post_all count pending i = if ltb i count then suc (pending i) else pending i

-- `read_slot` of the receiver thread of slot `i`, whose buffer holds `frame_size_max` bytes
abbrev pub read_of : System → ℕ → ReadResult
read_of s i = read_slot s.region i frame_size_max

pub data Step (s : System) : System → Type 0 where
  attach :
      (i : ℕ)
      → i < s.region.component_count
      → s.reader i ≡ outside
      → Step s (record s { region = engine_init s.region i; reader = update s.reader i idle })
  reserve : 0 < s.empty → Step s (record s { empty = s.empty - 1; reserved = suc s.reserved })
  publish :
      (me size : ℕ) (frame : List ℕ)
      → size ≢ 0
      → 0 < s.reserved
      → Step s (record s {
        region = engine_send s.region me frame size;
        reserved = s.reserved - 1;
        pending = post_all s.region.component_count s.pending;
        published = suc s.published;
        log =
            update s.log s.published
              ((engine_send s.region me frame size).slots (s.region.next_write_seq % slot_count));
      })
  wake :
      (i : ℕ)
      → i < s.region.component_count
      → s.reader i ≡ idle
      → 0 < s.pending i
      → Step s (record s {
        pending = update s.pending i (s.pending i - 1);
        reader = update s.reader i awake;
      })
  consume :
      (i : ℕ)
      → i < s.region.component_count
      → s.reader i ≡ awake
      → Step s (record s {
        region = (read_of s i).region;
        reader = update s.reader i (if (read_of s i).should_post_empty then posting else idle);
        inbox = update s.inbox i (deliver (read_of s i).frame (s.inbox i));
      })
  post :
      (i : ℕ)
      → i < s.region.component_count
      → s.reader i ≡ posting
      → Step s (record s { empty = suc s.empty; reader = update s.reader i idle })
  close :
      (i : ℕ)
      → i < s.region.component_count
      → s.reader i ≡ idle
      → Step s (record s { region = engine_close s.region i; reader = update s.reader i stopped })

-- `create` with `count` registered slots; no process has attached
abbrev pub init : Region → System
init r = record {
  region = r;
  empty = slot_count;
  pending = λ _. 0;
  reserved = 0;
  reader = λ _. outside;
  published = 0;
  log = r.slots;
  inbox = λ _. [];
}

-- What `create` leaves: no frame written, every component at sequence number 0, and at least
-- the gateway registered.
pub record IsFresh (r : Region) : Type 0 where
  pub registered : 0 < r.component_count
  pub unwritten : r.next_write_seq ≡ 0
  pub unread : (i : ℕ) → (r.components i).read_seq ≡ 0

pub data Steps (s : System) : System → Type 0 where
  here : Steps s s
  later : {t u : System} → Steps s t → Step t u → Steps s u

-- An interleaving of the processes, from the region that `create` left.
abbrev pub Reach : Region → System → Type 0
Reach r = Steps (init r)

-- The step is no attachment, or one before the first frame is published.
abbrev pub IsEarly : {s t : System} → Step s t → Type 0
IsEarly {s} (attach i h e) = s.published ≡ 0
IsEarly (reserve h) = Unit
IsEarly (publish me size frame ne h) = Unit
IsEarly (wake i h e p) = Unit
IsEarly (consume i h e) = Unit
IsEarly (post i h e) = Unit
IsEarly (close i h e) = Unit

-- No process attaches once a frame has been published, which nothing in the code prevents.
abbrev pub IsOnTime : {s t : System} → Steps s t → Type 0
IsOnTime here = Unit
IsOnTime (later p st) = IsOnTime p × IsEarly st
