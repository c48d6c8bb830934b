-- ===== src/Communication.antt =====
-- src/communication/communicator.h and src/communication/message: messages, and the communicators
-- through which a component sends and receives them.
pub mod Message
pub mod Communicator
pub mod Journey
