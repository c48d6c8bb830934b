-- ===== src/SharedMemory/Region.antt =====
-- src/network/engine/shm_region.h: the layout of the shared memory region. An array is a function
-- from the index; only indices below `component_count` and `slot_count` are used.
use communication_in_critica.Prelude.{ℕ, List, ◌+◌, ◌^◌, ◌%◌, if◌then◌else◌, ◌==◌}

abbrev pub magic_number : ℕ
magic_number = 0x534F3232

abbrev pub invalid_slot : ℕ
invalid_slot = 0xFFFF

abbrev pub gateway_slot : ℕ
gateway_slot = 0

abbrev pub gateway_writer : ℕ
gateway_writer = 0xFFFE

abbrev pub max_components : ℕ
max_components = 100

abbrev pub slot_count : ℕ
slot_count = 100

-- `sizeof(Ethernet::Frame)`: 14 bytes of header and the MTU
abbrev pub frame_size_max : ℕ
frame_size_max = 1514

abbrev pub deliver_to_components : ℕ
deliver_to_components = 0x0001

abbrev pub deliver_to_gateway : ℕ
deliver_to_gateway = 0x0002

-- `Component_Entry`
pub record ComponentEntry : Type 0 where
  pub port : ℕ
  pub slot : ℕ
  pub active : ℕ
  pub read_seq : ℕ

-- `Broadcast_Slot`
pub record BroadcastSlot : Type 0 where
  pub writer_slot : ℕ
  pub flags : ℕ
  pub frame_size : ℕ
  pub frame : List ℕ

-- `Region`, with its `Broadcast_Ring`
pub record Region : Type 0 where
  pub magic : ℕ
  pub component_count : ℕ
  pub gateway_active : ℕ
  pub components : ℕ → ComponentEntry
  pub next_write_seq : ℕ
  pub slots : ℕ → BroadcastSlot

-- A write to one element of an array.
abbrev pub update {ℓ} : {A : Type ℓ} (array : ℕ → A) (place : ℕ) (new : A) → ℕ → A
update array place new k = if place == k then new else array k

-- `x++` on a `uint64_t`
abbrev pub next64 : ℕ → ℕ
next64 x = (x + 1) % 2 ^ 64
