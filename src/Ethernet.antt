-- ===== src/Ethernet.antt =====
-- src/network/ethernet.h and ethernet.cpp: addresses, frames and the two bytes of the type.
use communication_in_critica.Prelude.{
  ℕ, ◌+◌, ◌*◌, ◌/◌, ◌%◌, ◌^◌, ◌<◌, ◌≡◌, ◌↔◌, Bool, true, false, ◌&&◌, ◌||◌, not, ◌==◌, arith,
}

-- `Ethernet::Address`: six bytes
pub record Mac : Type 0 where
  pub b0 : ℕ
  pub b1 : ℕ
  pub b2 : ℕ
  pub b3 : ℕ
  pub b4 : ℕ
  pub b5 : ℕ

-- the default constructor, and `INTERNAL`
abbrev pub internal : Mac
internal = record { b0 = 0; b1 = 0; b2 = 0; b3 = 0; b4 = 0; b5 = 0 }

abbrev pub broadcast : Mac
broadcast = record { b0 = 0xFF; b1 = 0xFF; b2 = 0xFF; b3 = 0xFF; b4 = 0xFF; b5 = 0xFF }

-- `operator ==`, by `memcmp`
unfoldable pub mac_eq : Mac → Mac → Bool
mac_eq a c =
    a.b0 == c.b0 && a.b1 == c.b1 && a.b2 == c.b2 && a.b3 == c.b3 && a.b4 == c.b4 && a.b5 == c.b5

-- `operator bool`
unfoldable pub mac_to_bool : Mac → Bool
mac_to_bool a =
    not (a.b0 == 0)
    || not (a.b1 == 0)
    || not (a.b2 == 0)
    || not (a.b3 == 0)
    || not (a.b4 == 0)
    || not (a.b5 == 0)

abbrev pub mtu : ℕ
mtu = 1500

abbrev pub header_size : ℕ
header_size = 14

pub mac_eq_iff : (a c : Mac) → (mac_eq a c ≡ true) ↔ (a ≡ c)
unfolding mac_eq
mac_eq_iff a c = ground arith

-- An address is false exactly when it is the internal one.
pub mac_to_bool-internal : (a : Mac) → (mac_to_bool a ≡ false) ↔ (a ≡ internal)
unfolding mac_to_bool
mac_to_bool-internal a = ground arith

-- `type(p)` writes the high and the low byte, `type()` puts them together.
unfoldable pub type_hi : ℕ → ℕ
type_hi p = p / 2 ^ 8 % 2 ^ 8

unfoldable pub type_lo : ℕ → ℕ
type_lo p = p % 2 ^ 8

unfoldable pub type_of : ℕ → ℕ → ℕ
type_of hi lo = hi * 2 ^ 8 % 2 ^ 16 + lo

-- A 16-bit Ethernet type written into the two bytes is read back.
pub type_of-bytes : (p : ℕ) → p < 2 ^ 16 → type_of (type_hi p) (type_lo p) ≡ p
unfolding type_of type_hi type_lo
type_of-bytes p h = omega arith
