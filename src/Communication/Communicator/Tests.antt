-- ===== src/Communication/Communicator/Tests.antt =====
-- A component that broadcasts three bytes, and one whose SmartData gets them.
use communication_in_critica.Prelude.{[], ◌∷◌, true, false, arith}
use communication_in_critica.Network.Nic.{Nic, frame_bytes}
use communication_in_critica.Network.Nic.Fixtures.{clean, down, count-down, zeros, vehicle}
use communication_in_critica.Network.Nic.Pool.{IsPool}
use communication_in_critica.Channel.Address.{Address}
use communication_in_critica.Communication.Communicator.{Communicator, communicator, update}
use communication_in_critica.Communication.Communicator.Ownership.{Owned, update-Owned}

abbrev nic : Nic
nic = record clean { writes_quadrant = false }

abbrev steering : Address
steering = record { paddr = vehicle; port = 3001 }

abbrev braking : Address
braking = record { paddr = vehicle; port = 3002 }

abbrev sender : Communicator
sender = (communicator 1 steering true []).0

-- Buffer 99 holds a packet.
abbrev busy : Nic
busy = record nic {
  free_list = down 99;
  buffers = λ _. record { frame = zeros frame_bytes; size = 19 };
}

busy-IsPool : IsPool busy (99 ∷ [])
busy-IsPool i = ground (arith, count-down i 100)

update-Owned_example :
    Owned
      (record sender { observers = (5, 65535) ∷ [] })
      65535
      99
      []
      (update 14 (record sender { observers = (5, 65535) ∷ [] }) 65535 busy 99)
update-Owned_example =
    update-Owned 14 (record sender { observers = (5, 65535) ∷ [] }) 65535 busy 99 [] busy-IsPool
