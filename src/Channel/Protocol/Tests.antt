-- ===== src/Channel/Protocol/Tests.antt =====
-- A gateway with one observer, and a frame of its vehicle for everybody.
use communication_in_critica.Prelude.{
  ℕ, suc, ◌+◌, ◌≡◌, List, [], ◌∷◌, some, true, false, if◌then◌else◌, ltb, arith, refl, pos,
}
use communication_in_critica.Network.Nic.{Nic, frame_bytes}
use communication_in_critica.Network.Nic.Fixtures.{clean, down, count-down, length-zeros, vehicle}
use communication_in_critica.Network.Nic.Pool.{IsPool, count}
use communication_in_critica.Channel.Protocol.{handle, Gateway, Engines, update_shm}
use communication_in_critica.Channel.Protocol.Update.{Settled, update_shm-Settled}
use communication_in_critica.Channel.Address.{logical_broadcast}
use communication_in_critica.Channel.Protocol.RoundTrip.{frame_of, received_as_sent}
use communication_in_critica.Channel.Protocol.Endpoint.{Packet, send_via_nic, receive_packet}

last_held : (i n : ℕ) → count i (down n) + count i (n ∷ []) ≡ (if ltb i (suc n) then 1 else 0)
last_held i n = ground (arith, count-down i n)

-- to everybody, from the vehicle, of the protocol's type, to port 65535
abbrev bytes : List ℕ
bytes =
    255 ∷ 255 ∷ 255 ∷ 255 ∷ 255 ∷ 255 ∷ 2 ∷ 0 ∷ 0 ∷ 0 ∷ 0 ∷ 9 ∷ 136 ∷ 136 ∷ 1 ∷ 0 ∷ 0 ∷ 0 ∷ 0 ∷ 0
    ∷ 0 ∷ 0 ∷ 2 ∷ 1 ∷ 255 ∷ 255 ∷ 255 ∷ 0 ∷ 0 ∷ 0 ∷ []

abbrev nic : Nic
nic = record clean { buffers = λ _. record { frame = []; size = 0 } }

nic-IsPool : IsPool nic []
nic-IsPool i = omega (arith, count-down i 100)

-- Buffer 99 holds the frame.
abbrev busy : Nic
busy = record nic { free_list = down 99; buffers = λ _. record { frame = bytes; size = 16 } }

busy-IsPool : IsPool busy (99 ∷ [])
busy-IsPool i = last_held i 99

abbrev engines : Engines
engines = record { quadrant = 1; socket_bytes = some 30; shm_bytes = some 30 }

abbrev from_vehicle : Gateway
from_vehicle = record {
  shm = busy;
  socket = nic;
  address = vehicle;
  observed = (7, 65535) ∷ [];
  has_sptp = true;
}

abbrev from_network : Gateway
from_network = record from_vehicle { shm = nic; socket = busy }

update_shm-Settled_example :
    IsPool (update_shm from_vehicle engines 99).gateway.socket []
    × Settled 99
        (update_shm from_vehicle engines 99).gateway.shm
        (update_shm from_vehicle engines 99).notified
        []
update_shm-Settled_example = update_shm-Settled from_vehicle engines 99 [] [] busy-IsPool nic-IsPool

-- A packet of three bytes for everybody.
abbrev packet : Packet
packet = record {
  from = record { paddr = vehicle; port = 258 };
  to = logical_broadcast;
  payload = 1 ∷ 2 ∷ 3 ∷ [];
  ts = 0;
  kind = 0;
  now = 77;
}

abbrev idle : Gateway
idle = record from_vehicle { shm = nic }

received_as_sent_example :
    let f = frame_of 14 clean packet 2 99 in
    ((send_via_nic 14 clean packet 2 (some 33)).1 ≡ some f)
    × ((handle clean f (λ _. false)).1 ≡ some 99)
    × ((receive_packet 14 (handle clean f (λ _. false)).0 99 1400).1
        ≡ some (record {
          from = record { paddr = vehicle; port = 258 };
          timestamp = pos 77;
          quadrant = 2;
          payload = 1 ∷ 2 ∷ 3 ∷ [];
        }))
received_as_sent_example =
    received_as_sent 14 clean clean packet 2 (some 33) (λ _. false) 99 99 1400 (down 99) (down 99)
      (omega arith) (omega arith) (omega arith) (omega arith) (omega arith) (omega arith) refl
      (length-zeros frame_bytes) refl refl
