-- ===== src/Channel.antt =====
-- The channel layer (src/channel).
pub mod Address
pub mod Sptp
pub mod Protocol
