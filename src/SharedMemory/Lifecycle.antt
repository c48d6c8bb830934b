-- ===== src/SharedMemory/Lifecycle.antt =====
-- src/network/engine/shared_memory_engine.cpp: how a process configures the engine, attaches to the
-- region, and closes. What the kernel answers to `shmat` and `semop` is an argument.
pub mod Balance
mod Tests
use communication_in_critica.Prelude.{
  ℕ, suc, ◌+◌, ◌-◌, Bool, true, false, not, ◌&&◌, ◌||◌, List, [], ◌∷◌, Option, none, some,
  if◌then◌else◌, ◌==◌,
}
use communication_in_critica.SharedMemory.Region.{Region, magic_number, gateway_slot}
use communication_in_critica.SharedMemory.Create.{Context, no_context, is_some}
use communication_in_critica.SharedMemory.Engine.{engine_init, engine_close, is_gateway}

-- `Configuration`
pub record Configuration : Type 0 where
  pub context : Context
  pub slot : ℕ
  pub port : ℕ

-- `_configuration` with `_configuration_ready`, which the engines of a process share
abbrev pub configure : Configuration → Option Configuration
configure c = some c

abbrev pub clear_configuration : Option Configuration
clear_configuration = none

unfoldable pub is_gateway_process : Option Configuration → Bool
is_gateway_process none = false
is_gateway_process (some c) = is_gateway c.slot

-- The engine's fields, with whether `_region` is not null, and whether there is a thread.
pub record SharedMemoryEngine : Type 0 where
  pub context : Context
  pub attached : Bool
  pub slot : ℕ
  pub port : ℕ
  pub gateway : Bool
  pub running_receiver : Bool
  pub has_worker : Bool

-- `INVALID_SLOT`
abbrev pub invalid_slot : ℕ
invalid_slot = 0xFFFF

-- the constructor
abbrev pub shared_memory_engine : SharedMemoryEngine
shared_memory_engine = record {
  context = no_context;
  attached = false;
  slot = invalid_slot;
  port = 0;
  gateway = false;
  running_receiver = false;
  has_worker = false;
}

-- What the engine changes: the region, and how often the process has it attached.
pub record Memory : Type 0 where
  pub region : Region
  pub attachments : ℕ

-- The answer of `semop`.
pub data SemOp : Type 0 where
  done : SemOp
  interrupted : SemOp
  failed : SemOp

-- `sem_wait`, by the answers of `semop`, the first one first; none while it waits
unfoldable pub sem_wait : List SemOp → Option Bool
sem_wait [] = none
sem_wait (done ∷ answers) = some true
sem_wait (interrupted ∷ answers) = sem_wait answers
sem_wait (failed ∷ answers) = some false

-- `attach_region`, by whether `shmat` succeeds, and what it returns
unfoldable pub attach_region :
    Bool → SharedMemoryEngine → Memory → SharedMemoryEngine × Memory × Bool
attach_region shmat e m =
    if not shmat
    then (e, m, false)
    else (if m.region.magic == magic_number
        then (record e { attached = true }, record m { attachments = m.attachments + 1 }, true)
        else (record e { attached = false }, m, false))

abbrev pub detach_region : SharedMemoryEngine → Memory → SharedMemoryEngine × Memory
detach_region e m =
    if e.attached
    then (record e { attached = false }, record m { attachments = m.attachments - 1 })
    else (e, m)

-- the fields that `engine_init` takes from the configuration
abbrev pub configured : Configuration → SharedMemoryEngine → SharedMemoryEngine
configured c e = record e {
  context = c.context;
  slot = c.slot;
  port = c.port;
  gateway = is_gateway c.slot;
}

-- `engine_init`; `locks` is what `sem_wait` returns for SEM_RING_MUTEX
unfoldable pub init_engine :
    Option Configuration → Bool → Bool → SharedMemoryEngine → Memory → SharedMemoryEngine × Memory
unfolding attach_region
init_engine none shmat locks e m = (e, m)
init_engine (some c) shmat locks e m =
    let (there, n, attaches) = attach_region shmat (configured c e) m in
    if not attaches
    then (there, n)
    else (if locks
        then (there, record n { region = engine_init n.region there.slot })
        else detach_region there n)

-- `engine_send` and `engine_receive` go on to the ring if they are given a frame with room
unfoldable pub may_transfer : SharedMemoryEngine → Bool → ℕ → Bool
may_transfer e has_frame size = e.attached && has_frame && not (size == 0)

-- `start_receiving`, up to the thread
unfoldable pub start_receiving : SharedMemoryEngine → SharedMemoryEngine
start_receiving e =
    if e.attached then record e { running_receiver = true; has_worker = true } else e

-- `engine_close`: the engine, the memory, and the semaphore that wakes the thread, if there is one
unfoldable pub close_engine :
    Bool → SharedMemoryEngine → Memory → SharedMemoryEngine × Memory × Option ℕ
close_engine locks e m =
    let halted = record e { running_receiver = false; has_worker = false } in
    let unlisted =
      if e.attached && locks then record m { region = engine_close m.region e.slot } else m in
    let (after, n) = detach_region halted unlisted in
    (after, n, if is_some e.context.semid then some (e.slot + 2) else none)
