-- ===== src/SmartData/Exchange.antt =====
-- SmartData (src/communication/smart_data) over the communicators of
-- src/communication/communicator.h.
pub mod Payloads
pub mod Across
pub mod Asking
pub mod Brokering
mod Tests
mod BrokerTests
