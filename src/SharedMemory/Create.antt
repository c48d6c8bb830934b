-- ===== src/SharedMemory/Create.antt =====
-- `SharedMemoryEngine::create` and `destroy`: the System V objects of a vehicle, all or nothing.
-- What the kernel answers to each call is an argument.
use communication_in_critica.Prelude.{
  ℕ, zero, suc, ◌+◌, ◌<◌, ◌≡◌, refl, ◌⊎◌, inl, inr, Bool, true, false, ◌&&◌, ◌||◌, not, [], Option,
  none, some, arith, ltb, leb, if◌then◌else◌, ◌==◌, Bool-cases,
}
use communication_in_critica.SharedMemory.Region.{
  ComponentEntry, Region, update, magic_number, max_components, slot_count,
}
use communication_in_critica.SharedMemory.System.{IsFresh}

-- `Context`; `none` is the id -1
pub record Context : Type 0 where
  pub shmid : Option ℕ
  pub semid : Option ℕ

-- What `shmget`, `semget`, `shmat` and `semctl(SETALL)` answer.
pub record Calls : Type 0 where
  pub shmget : Option ℕ
  pub semget : Option ℕ
  pub shmat : Bool
  pub setall : Bool

-- The objects that are in the kernel afterwards: the segment with its content, the semaphores with
-- their values.
pub record Kernel : Type 0 where
  pub segment : Option Region
  pub semaphores : Option (ℕ → ℕ)

abbrev pub nothing_left : Kernel
nothing_left = record { segment = none; semaphores = none }

abbrev pub no_context : Context
no_context = record { shmid = none; semid = none }

abbrev pub zero_entry : ComponentEntry
zero_entry = record { port = 0; slot = 0; active = 0; read_seq = 0 }

abbrev pub zero_region : Region
zero_region = record {
  magic = 0;
  component_count = 0;
  gateway_active = 0;
  components = λ _. zero_entry;
  next_write_seq = 0;
  slots = λ _. record { writer_slot = 0; flags = 0; frame_size = 0; frame = [] };
}

abbrev pub is_some {ℓ} : {A : Type ℓ} → Option A → Bool
is_some none = false
is_some (some x) = true

abbrev pub or_else {ℓ} : {A : Type ℓ} → A → Option A → A
or_else d none = d
or_else d (some x) = x

-- the loop over the registered components, up to slot `i`
unfoldable pub register : (ℕ → ℕ) → ℕ → ℕ → ComponentEntry
register ports zero = λ _. zero_entry
register ports (suc i) =
    update (register ports i) (suc i)
      (record { port = ports i; slot = suc i; active = 0; read_seq = 0 })

-- the region after `memset` and the writes
unfoldable pub fresh_region : (ℕ → ℕ) → ℕ → Region
unfolding register
fresh_region ports component_count = record zero_region {
  magic = magic_number;
  component_count = component_count + 1;
  components = register ports component_count;
}

-- SEM_RING_MUTEX is 0, SEM_RING_EMPTY is 1, the pending semaphores follow.
unfoldable pub initial_values : ℕ → ℕ
initial_values i = if i == 0 then 1 else (if i == 1 then slot_count else 0)

-- `shmctl(IPC_RMID)` and `semctl(IPC_RMID)`
abbrev pub remove_segment : Kernel → Kernel
remove_segment k = record k { segment = none }

abbrev pub remove_semaphores : Kernel → Kernel
remove_semaphores k = record k { semaphores = none }

abbrev pub get_segment : Kernel → Kernel
get_segment k = record k { segment = some zero_region }

abbrev pub get_semaphores : Kernel → Kernel
get_semaphores k = record k { semaphores = some (λ _. 0) }

-- the calls that follow the check of the arguments, by what `shmget`, `semget`, `shmat` and
-- `semctl(SETALL)` answer
unfoldable pub create_objects :
    (ℕ → ℕ) → ℕ → Kernel → Option ℕ → Option ℕ → Bool → Bool → Context × Kernel
unfolding fresh_region initial_values
create_objects ports n k none semid shmat setall = (no_context, k)
create_objects ports n k (some shmid) none shmat setall =
    (no_context, remove_segment (get_segment k))
create_objects ports n k (some shmid) (some semid) false setall =
    (no_context, remove_segment (remove_semaphores (get_semaphores (get_segment k))))
create_objects ports n k (some shmid) (some semid) true false = (
  no_context,
  remove_segment (
      remove_semaphores
        (record (get_semaphores (get_segment k)) { segment = some (fresh_region ports n) })),
)
create_objects ports n k (some shmid) (some semid) true true = (
  record { shmid = some shmid; semid = some semid },
  record k { segment = some (fresh_region ports n); semaphores = some initial_values },
)

-- `ports` is `none` for a null pointer, which is read only if there is a component.
unfoldable pub create : Option (ℕ → ℕ) → ℕ → Calls → Context × Kernel
unfolding create_objects
create ports n calls =
    if leb max_components n || (ltb 0 n && not (is_some ports))
    then (no_context, nothing_left)
    else create_objects (or_else (λ _. 0) ports) n nothing_left calls.shmget calls.semget
        calls.shmat calls.setall

-- `destroy` removes what the context names.
unfoldable pub destroy : Context → Kernel → Kernel
destroy c k = record {
  segment = elim c.shmid [ none ↦ k.segment | some id ↦ none ];
  semaphores = elim c.semid [ none ↦ k.semaphores | some id ↦ none ];
}

register-unread : (ports : ℕ → ℕ) (n i : ℕ) → (register ports n i).read_seq ≡ 0
unfolding register
register-unread ports zero i = refl
register-unread ports (suc n) i = ground (arith, register-unread ports n i)

pub fresh_region-IsFresh : (ports : ℕ → ℕ) (n : ℕ) → IsFresh (fresh_region ports n)
unfolding fresh_region
fresh_region-IsFresh ports n = record {
  registered = omega arith;
  unwritten = refl;
  unread = register-unread ports n;
}

-- What `create` returns, if it succeeds.
pub record Succeeds (component_count : ℕ) (out : Context × Kernel) : Type 0 where
  pub region : Region
  pub values : ℕ → ℕ
  pub segment : out.1.segment ≡ some region
  pub semaphores : out.1.semaphores ≡ some values
  pub fresh : IsFresh region
  pub size : region.component_count ≡ component_count + 1
  pub room : component_count < max_components
  pub mutex : values 0 ≡ 1
  pub empty : values 1 ≡ slot_count
  pub pending : (i : ℕ) → values (i + 2) ≡ 0

Succeeds-or_not :
    (ports : ℕ → ℕ) (n : ℕ) (shmid semid : Option ℕ) (shmat setall : Bool)
    → n < max_components
    → let out = create_objects ports n nothing_left shmid semid shmat setall in
      (out ≡ (no_context, nothing_left)) ⊎ Succeeds n out
unfolding create_objects fresh_region initial_values
Succeeds-or_not ports n none semid shmat setall h = inl refl
Succeeds-or_not ports n (some a) none shmat setall h = inl refl
Succeeds-or_not ports n (some a) (some b) false setall h = inl refl
Succeeds-or_not ports n (some a) (some b) true false h = inl refl
Succeeds-or_not ports n (some a) (some b) true true h = inr (record {
  region = fresh_region ports n;
  values = initial_values;
  segment = refl;
  semaphores = refl;
  fresh = fresh_region-IsFresh ports n;
  size = refl;
  room = h;
  mutex = refl;
  empty = refl;
  pending = λ i. ground arith;
})

-- `create` either fails with both ids -1 and leaves nothing in the kernel, or there are fewer
-- components than `max_components` and it leaves a fresh region of one slot more than there are
-- components, and the semaphores of an empty, unlocked ring.
pub create_all_or_nothing :
    (ports : Option (ℕ → ℕ)) (n : ℕ) (calls : Calls)
    → (create ports n calls ≡ (no_context, nothing_left)) ⊎ Succeeds n (create ports n calls)
unfolding create
create_all_or_nothing ports n calls =
    elim (Bool-cases (leb max_components n || (ltb 0 n && not (is_some ports)))) [
      | inl e ↦ inl (rw e)
      | inr e ↦ rw e (Succeeds-or_not _ n _ _ _ _ (ground arith))
    ]
