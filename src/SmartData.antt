-- ===== src/SmartData.antt =====
-- Interest and response over the communicator (src/communication/smart_data).
pub mod Helpers
pub mod Wire
pub mod BindingCache
pub mod Tracker
pub mod Smart
pub mod DataTypes
pub mod Exchange
mod Tests
