-- ===== src/Communication/Message.antt =====
-- src/communication/message/message.h and message_header.h: a message is the bytes of its payload
-- up to its size, and its origin and stamp. The type, which nothing reads, is left out here; `Typed`
-- has the classes as they are.
pub mod Typed
use communication_in_critica.Prelude.{ℕ, List, take, ℤ}
use communication_in_critica.Channel.Address.{Address}

-- `MAX_SIZE`
abbrev pub max_size : ℕ
max_size = 1400

pub record Message : Type 0 where
  pub payload : List ℕ
  pub address : Address
  pub timestamp : ℤ
  pub quadrant : ℕ

-- the bytes that the constructor from bytes takes
abbrev pub clipped : List ℕ → List ℕ
clipped bytes = take max_size bytes
