-- ===== src/Channel/Protocol/Events.antt =====
-- What happens to a gateway, one event after the other: frames that its NICs receive
-- (src/network/nic.h), each with the `update` of src/channel/protocol.h that it leads to, and packets
-- that it sends.
pub mod Frames
pub mod Kept
mod Tests
use communication_in_critica.Channel.Protocol.{handle}
use communication_in_critica.Prelude.{ℕ, Bool, false, List, [], ◌∷◌, Option, none, some}
use communication_in_critica.Gps.Device.{engine_should_drop_frame}
use communication_in_critica.Network.Nic.{Nic, quadrant_offset}
use communication_in_critica.Channel.Protocol.{Gateway, Engines, update_shm, update_socket}
use communication_in_critica.Channel.Protocol.Header.{src_of, payload_of, byte}
use communication_in_critica.Channel.Protocol.Endpoint.{Packet, send_packet}

-- The engine of the shared memory drops nothing.
abbrev pub shm_drops : List ℕ → Bool
shm_drops f = false

-- The engine of the socket drops by the source and the quadrant of the frame, and the NIC's own.
abbrev pub socket_drops : Gateway → Engines → List ℕ → Bool
socket_drops g e f =
    engine_should_drop_frame (src_of f) g.socket.address (byte quadrant_offset (payload_of f))
      e.quadrant

pub data Event : Type 0 where
  from_ring : (frame : List ℕ) (e : Engines) → Event
  from_network : (frame : List ℕ) (e : Engines) → Event
  sending : (p : Packet) (e : Engines) → Event

abbrev pub updated_shm : Gateway → Engines → Nic × Option ℕ → Gateway
updated_shm g e (n, none) = record g { shm = n }
updated_shm g e (n, some j) = (update_shm (record g { shm = n }) e j).gateway

abbrev pub updated_socket : ℕ → Gateway → Engines → Nic × Option ℕ → Gateway
updated_socket data_offset g e (n, none) = record g { socket = n }
updated_socket data_offset g e (n, some j) =
    (update_socket data_offset (record g { socket = n }) e j).gateway

-- the gateway after an event
unfoldable pub after : ℕ → Gateway → Event → Gateway
unfolding handle update_shm update_socket send_packet engine_should_drop_frame
after data_offset g (from_ring frame e) = updated_shm g e (handle g.shm frame shm_drops)
after data_offset g (from_network frame e) =
    updated_socket data_offset g e (handle g.socket frame (socket_drops g e))
after data_offset g (sending p e) = (send_packet data_offset g e p).0

-- after several, the first one first
unfoldable pub run : ℕ → Gateway → List Event → Gateway
run data_offset g [] = g
run data_offset g (event ∷ events) = run data_offset (after data_offset g event) events
