-- ===== src/Network/Nic/Fixtures.antt =====
-- NICs for the tests of what stands on them: their buffers are free and have whole frames.
use communication_in_critica.Prelude.{
  ℕ, zero, suc, ◌≡◌, refl, ap, List, [], ◌∷◌, true, if◌then◌else◌, ltb, length, arith,
}
use communication_in_critica.Ethernet.{Mac}
use communication_in_critica.Network.Nic.{Nic, frame_bytes}
use communication_in_critica.Network.Nic.Pool.{count}

abbrev pub down : ℕ → List ℕ
down zero = []
down (suc n) = n ∷ down n

pub count-down : (i n : ℕ) → count i (down n) ≡ (if ltb i n then 1 else 0)
count-down i zero = ground arith
count-down i (suc n) = ground (arith, count-down i n)

abbrev pub zeros : ℕ → List ℕ
zeros zero = []
zeros (suc n) = 0 ∷ zeros n

pub length-zeros : (n : ℕ) → length (zeros n) ≡ n
length-zeros zero = refl
length-zeros (suc n) = ap suc (length-zeros n)

abbrev pub vehicle : Mac
vehicle = record { b0 = 2; b1 = 0; b2 = 0; b3 = 0; b4 = 0; b5 = 9 }

abbrev pub clean : Nic
clean = record {
  address = vehicle;
  writes_quadrant = true;
  free_list = down 100;
  buffers = λ _. record { frame = zeros frame_bytes; size = 0 };
  last_quadrant = 255;
  tx_packets = 0;
  tx_bytes = 0;
  rx_packets = 0;
  rx_bytes = 0;
}
