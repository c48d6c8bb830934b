-- ===== src/SharedMemory/Lifecycle/Tests.antt =====
-- The process of a vehicle's first component, whose lock fails once it is attached.
use communication_in_critica.Prelude.{◌≡◌, ◌⊎◌, refl, true, false, some}
use communication_in_critica.SharedMemory.Region.{magic_number}
use communication_in_critica.SharedMemory.Engine.{engine_init}
use communication_in_critica.SharedMemory.Create.{zero_region}
use communication_in_critica.SharedMemory.Lifecycle.{
  Configuration, Memory, shared_memory_engine, init_engine, may_transfer, close_engine,
}
use communication_in_critica.SharedMemory.Lifecycle.Balance.{started_and_closed}

abbrev first : Configuration
first = record { context = record { shmid = some 5; semid = some 6 }; slot = 1; port = 0x102 }

abbrev memory : Memory
memory = record {
  region = record zero_region { magic = magic_number; component_count = 3 };
  attachments = 0;
}

started_and_closed_example :
    let (started, n) = init_engine (some first) true false shared_memory_engine memory in
    let (after, left, _) = close_engine true started n in
    (((started.attached ≡ true)
        × (memory.region.magic ≡ magic_number)
        × (n.region ≡ engine_init memory.region started.slot))
      ⊎ ((n ≡ memory) × (may_transfer started true 60 ≡ false)))
    × (after.attached ≡ false)
    × (left.attachments ≡ 0)
started_and_closed_example =
    started_and_closed (some first) true false true shared_memory_engine memory true 60 refl
