-- ===== src/SharedMemory.antt =====
-- The shared memory engine of a vehicle (src/network/engine/shared_memory_engine.cpp).
pub mod Region
pub mod Engine
pub mod System
pub mod Least
pub mod Invariant
pub mod Delivery
pub mod Progress
pub mod Attach
pub mod Lifecycle
pub mod Create
pub mod Created
mod Tests
