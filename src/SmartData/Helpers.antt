-- ===== src/SmartData/Helpers.antt =====
-- src/communication/smart_data/smart_helpers.h and unit.h.
use mathlib.Core.Path.{ap₂}
use native.Mathlib.Nat.{pow-suc, one-le-pow}
use communication_in_critica.Prelude.{
  ℕ, ◌+◌, ◌*◌, ◌%◌, ◌^◌, ◌<◌, ◌≡◌, refl, List, [], ◌∷◌, ◌≤◌, arith, All, length,
}
use communication_in_critica.Ethernet.{Mac}

-- The `Unit` codes that src/communication/smart_data/data_types.h uses.
abbrev pub speed : ℕ
speed = 0x00000002

abbrev pub lidar_distance : ℕ
lidar_distance = 0x00000003

abbrev pub radar_distance : ℕ
radar_distance = 0x00000004

abbrev pub test_counter : ℕ
test_counter = 0x0000F001

-- `k = (k << 8) | b` on 64 bits, for a byte `b`: the low byte of `k << 8` is zero.
abbrev pub key_step : ℕ → ℕ → ℕ
key_step k b = k * 2 ^ 8 % 2 ^ 64 + b

-- the loop over the bytes
unfoldable pub key_of : ℕ → List ℕ → ℕ
key_of k [] = k
key_of k (b ∷ bs) = key_of (key_step k b) bs

unfoldable pub mac_key : Mac → ℕ
unfolding key_of
mac_key a = key_of 0 (a.b0 ∷ a.b1 ∷ a.b2 ∷ a.b3 ∷ a.b4 ∷ a.b5 ∷ [])

-- The six values are bytes.
pub record IsBytes (a : Mac) : Type 0 where
  pub is0 : a.b0 < 256
  pub is1 : a.b1 < 256
  pub is2 : a.b2 < 256
  pub is3 : a.b3 < 256
  pub is4 : a.b4 < 256
  pub is5 : a.b5 < 256

key_step-split :
    (k l b c : ℕ)
    → k < 2 ^ 40
    → l < 2 ^ 40
    → b < 256
    → c < 256
    → key_step k b ≡ key_step l c
    → (k ≡ l) × (b ≡ c)
key_step-split k l b c hk hl hb hc e = omega arith

room-suc : (m p : ℕ) → 1 ≤ p → m * (p * 256) ≤ 2 ^ 48 → (m ≤ 2 ^ 40) × (m * 256 * p ≤ 2 ^ 48)
room-suc m p h r = grind arith

-- Over bytes, the key of a list that fits in 64 bits determines the start and the list.
key_of_injective :
    (bs cs : List ℕ) (k l m : ℕ)
    → length bs ≡ length cs
    → k < m
    → l < m
    → m * 256 ^ length bs ≤ 2 ^ 48
    → All (λ b. b < 256) bs
    → All (λ c. c < 256) cs
    → key_of k bs ≡ key_of l cs
    → (k ≡ l) × (bs ≡ cs)
unfolding key_of
key_of_injective [] [] k l m n hk hl room hb hc e = (e, refl)
key_of_injective [] (c ∷ cs) k l m n hk hl room hb hc e = absurd (omega arith)
key_of_injective (b ∷ bs) [] k l m n hk hl room hb hc e = absurd (omega arith)
key_of_injective (b ∷ bs) (c ∷ cs) k l m n hk hl room hb hc e =
    let (small, room') =
      room-suc m (256 ^ length bs) (one-le-pow (length bs) 256 (omega arith))
        (rw (pow-suc 256 (length bs)) at room) in
    let (same, rest) =
      key_of_injective bs cs (key_step k b) (key_step l c) (m * 256) (omega arith) (omega arith)
        (omega arith) room' hb.1 hc.1 e in
    let (start, byte) = key_step-split k l b c (omega arith) (omega arith) hb.0 hc.0 same in
    (start, ap₂ ◌∷◌ byte rest)

-- Distinct vehicles have distinct keys: the key of a MAC address determines its six bytes.
pub mac_key_injective : (a c : Mac) → IsBytes a → IsBytes c → mac_key a ≡ mac_key c → a ≡ c
unfolding mac_key
mac_key_injective a c ha hc e = ground (
  arith,
  key_of_injective (a.b0 ∷ a.b1 ∷ a.b2 ∷ a.b3 ∷ a.b4 ∷ a.b5 ∷ [])
      (c.b0 ∷ c.b1 ∷ c.b2 ∷ c.b3 ∷ c.b4 ∷ c.b5 ∷ []) 0 0 1 refl (omega arith) (omega arith)
      (omega arith) (omega arith) (omega arith) e,
)
