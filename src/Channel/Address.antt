-- ===== src/Channel/Address.antt =====
-- `Protocol::Address` of src/channel/protocol.h: a physical address and a port.
use communication_in_critica.Prelude.{ℕ, ◌≡◌, ◌↔◌, Bool, true, ◌&&◌, ◌==◌, arith}
use communication_in_critica.Ethernet.{Mac, internal, broadcast, mac_eq, mac_eq_iff}

pub record Address : Type 0 where
  pub paddr : Mac
  pub port : ℕ

abbrev pub physical_broadcast : ℕ → Address
physical_broadcast port = record { paddr = broadcast; port = port }

-- `std::numeric_limits<Port>::max()`
abbrev pub broadcast_port : ℕ
broadcast_port = 0xFFFF

abbrev pub logical_broadcast : Address
logical_broadcast = physical_broadcast broadcast_port

unfoldable pub is_internal : Address → Bool
unfolding mac_eq
is_internal a = mac_eq a.paddr internal

unfoldable pub address_eq : Address → Address → Bool
address_eq a c = mac_eq a.paddr c.paddr && a.port == c.port

pub address_eq_iff : (a c : Address) → (address_eq a c ≡ true) ↔ (a ≡ c)
unfolding address_eq
address_eq_iff a c = ground (arith, mac_eq_iff a.paddr c.paddr)
