-- ===== src/Channel/Protocol/Events/Tests.antt =====
-- A gateway with clean buffers that hears a frame of the protocol on one side and another on the other and sends a packet.
use communication_in_critica.Prelude.{ℕ, zero, suc, List, [], ◌∷◌, ◌++◌, some, true, arith}
use communication_in_critica.Network.Nic.{frame_bytes}
use communication_in_critica.Network.Nic.Fixtures.{clean, zeros, length-zeros, vehicle}
use communication_in_critica.Channel.Address.{logical_broadcast}
use communication_in_critica.Channel.Protocol.{Gateway, Engines}
use communication_in_critica.Channel.Protocol.Endpoint.{Packet}
use communication_in_critica.Channel.Protocol.Events.{Event, from_ring, from_network, sending, run}
use communication_in_critica.Channel.Protocol.Events.Frames.{IsBytes, IsFramed}
use communication_in_critica.Channel.Protocol.Events.Kept.{AreFramed, run-AreFramed}

zeros-IsBytes : (n : ℕ) → IsBytes (zeros n)
zeros-IsBytes zero = tt
zeros-IsBytes (suc n) = (omega arith, zeros-IsBytes n)

padded-IsBytes : (n : ℕ) (ys : List ℕ) → IsBytes ys → IsBytes (zeros n ++ ys)
padded-IsBytes zero ys h = h
padded-IsBytes (suc n) ys h = (omega arith, padded-IsBytes n ys h)

-- A frame of the protocol's type, and then zeros.
abbrev protocol_frame : ℕ → List ℕ
protocol_frame n = zeros 12 ++ 136 ∷ 136 ∷ zeros n

protocol_frame-IsBytes : (n : ℕ) → IsBytes (protocol_frame n)
protocol_frame-IsBytes n =
    padded-IsBytes 12 (136 ∷ 136 ∷ zeros n) (omega arith, (omega arith, zeros-IsBytes n))

clean-IsFramed : IsFramed clean
clean-IsFramed = record {
  address = omega arith;
  frames = λ k. record {
    whole = length-zeros frame_bytes;
    bytes = zeros-IsBytes frame_bytes;
    sized = omega arith;
  };
}

abbrev quiet : Gateway
quiet = record {
  shm = clean;
  socket = clean;
  address = vehicle;
  observed = (7, 65535) ∷ [];
  has_sptp = true;
}

abbrev second : Engines
second = record { quadrant = 2; socket_bytes = some 30; shm_bytes = some 30 }

abbrev short_packet : Packet
short_packet = record {
  from = record { paddr = vehicle; port = 258 };
  to = logical_broadcast;
  payload = 1 ∷ 2 ∷ 3 ∷ [];
  ts = 0;
  kind = 0;
  now = 77;
}

abbrev history : List Event
history =
    from_ring (protocol_frame 40) second
    ∷ from_network (zeros 20) second
    ∷ sending short_packet second
    ∷ []

run-AreFramed_example : AreFramed (run 14 quiet history)
run-AreFramed_example =
    run-AreFramed 14 quiet history (omega arith)
      (
        (protocol_frame-IsBytes 40, omega arith),
        (
          zeros-IsBytes 20,
          (
            (
              record {
                to_mac = omega arith;
                kind = omega arith;
                payload = omega arith;
                small = omega arith;
              },
              omega arith,
            ),
            tt,
          ),
        ),
      )
      (record { shm = clean-IsFramed; socket = clean-IsFramed })
