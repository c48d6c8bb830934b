-- ===== src/Communication/Journey/Outward.antt =====
-- A message from a component of a vehicle to the network.
use communication_in_critica.Prelude.{
  none, ℕ, ◌+◌, ◌≤◌, ◌≡◌, refl, subst, List, true, some, Option, if◌then◌else◌, length, arith,
}
use communication_in_critica.Ethernet.{mtu, header_size}
use communication_in_critica.Network.Nic.{Nic, was_sent}
use communication_in_critica.Channel.Protocol.{Gateway, Engines}
use communication_in_critica.Channel.Protocol.Header.{packet_header_size, byte}
use communication_in_critica.Channel.Protocol.RoundTrip.{
  frame_of, frame_of-Carries, send_via_nic-frame,
}
use communication_in_critica.Communication.Message.{max_size}
use communication_in_critica.Channel.Protocol.Carrying.{Carries}
use communication_in_critica.Communication.Communicator.{Communicator, packet_of, send}
use communication_in_critica.Communication.Journey.{uplink, IsReady}
use communication_in_critica.Communication.Journey.Hops.{uplink-Carries}

-- What a component broadcasts leaves its gateway, if its own engine and the gateway's send it, as a
-- frame that carries the message, from the gateway's address and with its quadrant.
pub sent_outward :
    (data_offset : ℕ) (c : Communicator) (payload : List ℕ) (stamp now q : ℕ) (bytes : Option ℕ)
    (n : Nic) (here : Gateway) (e : Engines) (k1 k2 k3 : ℕ)
    → 14 ≤ data_offset
    → data_offset ≤ packet_header_size
    → length payload ≤ max_size
    → n.address ≡ here.address
    → here.socket.writes_quadrant ≡ true
    → IsReady n k1
    → IsReady here.shm k2
    → IsReady here.socket k3
    → (f1 : List ℕ) × (f2 : List ℕ) × ((send data_offset c n payload stamp now q bytes).1
        ≡ (if was_sent bytes then some f1 else none))
      × (uplink here e f1 ≡ (if was_sent e.socket_bytes then some f2 else none))
      × (length f2 ≡ header_size + (packet_header_size + length payload))
      × Carries data_offset here.socket.address (packet_of c payload stamp now) e.quadrant f2
unfolding send
sent_outward data_offset c payload stamp now q bytes n here e k1 k2 k3 past within room same writes
      r1 r2 r3 =
    let p = packet_of c payload stamp now in
    let fits : packet_header_size + length payload ≤ mtu = omega (arith, room) in
    let f1 = frame_of data_offset n p q k1 in
    let quad = if n.writes_quadrant then q else byte 26 (n.buffers k1).frame in
    let (long1, carries1) = frame_of-Carries data_offset n p q k1 r1.whole fits past within in
    let (f2, up, long2, carries2) =
      uplink-Carries data_offset p quad f1 here e k2 k3 past within fits long1
        (subst (λ a. Carries data_offset a p quad f1) same carries1) refl r2 r3 writes in
    (
      f1,
      f2,
      send_via_nic-frame data_offset n p q bytes k1 r1.rest r1.is_free fits,
      up,
      long2,
      carries2,
    )
