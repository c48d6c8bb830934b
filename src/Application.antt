-- ===== src/Application.antt =====
-- src/application: a vehicle as a list of components with their ports, its gateway, and the
-- processes that it runs in, and what the components do.
pub mod Vehicle
pub mod Processes
pub mod Launch
pub mod Reaping
pub mod Slots
pub mod Components
mod Tests
