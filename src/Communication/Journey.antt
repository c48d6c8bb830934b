-- ===== src/Communication/Journey.antt =====
-- A broadcast on its way from a component of one vehicle to the components of another: the NICs of
-- src/network/nic.h call the `update` of src/channel/protocol.h with the buffers that they filled.
-- The rings of the two vehicles and the network between them give the frame as it was sent, each to
-- the receive handler of the next NIC; a frame that an engine does not send goes no further.
pub mod Hops
pub mod Outward
pub mod Across
pub mod Echo
pub mod Landing
pub mod Fixtures
mod Tests
use communication_in_critica.Prelude.{
  ℕ, ◌≡◌, List, [], ◌∷◌, Option, none, some, Bool, false, not, ◌&&◌, length, ◌>>=◌,
}
use communication_in_critica.Gps.Device.{engine_should_drop_frame}
use communication_in_critica.Network.Nic.{Nic, was_sent, frame_bytes, quadrant_offset}
use communication_in_critica.Channel.Protocol.{Gateway, Engines, handle, update_shm, update_socket}
use communication_in_critica.Channel.Protocol.Header.{src_of, payload_of, byte}
use communication_in_critica.Channel.Protocol.Events.{shm_drops, socket_drops}
use communication_in_critica.Communication.Communicator.{Communicator, send}

-- the receive handler of a gateway's NIC for the shared memory, with the `update` that it calls:
-- the frame that leaves by the socket
unfoldable pub uplink : Gateway → Engines → List ℕ → Option (List ℕ)
unfolding handle update_shm
uplink g e f =
    let (shm, got) = handle g.shm f shm_drops in
    got >>= λ j. (update_shm (record g { shm = shm }) e j).to_socket

-- the same for its NIC for the socket: the frame for the shared memory
unfoldable pub downlink : ℕ → Gateway → Engines → List ℕ → Option (List ℕ)
unfolding handle update_socket engine_should_drop_frame
downlink data_offset g e f =
    let (socket, got) = handle g.socket f (socket_drops g e) in
    got >>= λ j. (update_socket data_offset (record g { socket = socket }) e j).to_shm

-- a message that a communicator sends, from the ring of its vehicle to the ring of another
unfoldable pub across :
    ℕ
    → Communicator
    → Nic
    → List ℕ
    → ℕ
    → ℕ
    → ℕ
    → Option ℕ
    → Gateway
    → Engines
    → Gateway
    → Engines
    → Option (List ℕ)
unfolding send uplink downlink
across data_offset c n payload stamp now q bytes here e there e' =
    (send data_offset c n payload stamp now q bytes).1 >>= λ f.
    (uplink here e f >>= λ f'. downlink data_offset there e' f')

-- Every engine on the way sends what it is given, and that of the other vehicle does not drop it.
abbrev pub passes : Option ℕ → Gateway → Engines → Gateway → Engines → Bool
passes bytes here e there e' =
    was_sent bytes
    && (was_sent e.socket_bytes
        && (not (
              engine_should_drop_frame here.socket.address there.socket.address e.quadrant
                e'.quadrant)
            && was_sent e'.shm_bytes))

-- The NIC has a free buffer, the `k`-th, with room for a whole frame.
pub record IsReady (n : Nic) (k : ℕ) : Type 0 where
  pub rest : List ℕ
  pub is_free : n.free_list ≡ k ∷ rest
  pub whole : length (n.buffers k).frame ≡ frame_bytes
