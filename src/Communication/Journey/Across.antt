-- ===== src/Communication/Journey/Across.antt =====
-- A message from a component of one vehicle to a component of another, through both gateways.
use communication_in_critica.Prelude.{
  ap, ◌∙◌, if◌then◌else◌, ℕ, ◌+◌, ◌^◌, ◌≤◌, ◌<◌, ◌≡◌, ◌⊎◌, refl, List, Bool-cases, inl, inr, true,
  false, some, none, Option, length, ◌>>=◌, pos, arith,
}
use communication_in_critica.Ethernet.{mtu}
use communication_in_critica.Gps.Device.{engine_should_drop_frame}
use communication_in_critica.Network.Nic.{Nic, was_sent}
use communication_in_critica.Channel.Address.{Address, broadcast_port}
use communication_in_critica.Channel.Protocol.{Gateway, Engines, Observed, has_observer}
use communication_in_critica.Channel.Protocol.Header.{packet_header_size}
use communication_in_critica.Communication.Message.{max_size}
use communication_in_critica.Communication.Communicator.{Communicator, packet_of, send}
use communication_in_critica.Communication.Communicator.Delivery.{Heard, Carries-Heard}
use communication_in_critica.Channel.Protocol.Events.{shm_drops}
use communication_in_critica.Communication.Journey.{across, passes, IsReady}
use communication_in_critica.Communication.Journey.Outward.{sent_outward}
use communication_in_critica.Communication.Journey.Hops.{downlink-Carries, downlink-dropped}

-- A message that a component broadcasts gives no frame in the other vehicle if an engine on the way
-- does not send it or that of the other vehicle's gateway drops it, and otherwise reaches the
-- components of that vehicle, with the payload, the stamp and the port of the sender, the address of
-- its gateway and the quadrant where that sent it. Every NIC on the way has a free buffer, the
-- gateway's address for the shared memory is the sender's, and only the sockets' NICs write
-- quadrants.
pub across_vehicles :
    (data_offset self : ℕ) (c : Communicator) (own : Address) (observers channel : Observed)
    (payload : List ℕ) (stamp now q : ℕ) (bytes : Option ℕ) (n m : Nic) (here there : Gateway)
    (e e' : Engines) (k1 k2 k3 k4 k5 k6 : ℕ)
    → 14 ≤ data_offset
    → data_offset ≤ packet_header_size
    → 0 < length payload
    → length payload ≤ max_size
    → c.address.port < 65536
    → 0 < stamp
    → stamp < 2 ^ 63
    → n.address ≡ here.address
    → here.socket.writes_quadrant ≡ true
    → there.shm.writes_quadrant ≡ false
    → IsReady n k1
    → IsReady here.shm k2
    → IsReady here.socket k3
    → IsReady there.socket k4
    → IsReady there.shm k5
    → IsReady m k6
    → has_observer broadcast_port observers ≡ true
    → let arrived = across data_offset c n payload stamp now q bytes here e there e' in
      ((passes bytes here e there e' ≡ false) × (arrived ≡ none))
      ⊎ ((passes bytes here e there e' ≡ true)
          × ((f : List ℕ) × (arrived ≡ some f)
              × Heard data_offset self own channel observers m shm_drops k6 f (record {
                payload = payload;
                address = record { paddr = here.socket.address; port = c.address.port };
                timestamp = pos stamp;
                quadrant = e.quadrant;
              })))
unfolding send across
across_vehicles data_offset self c own observers channel payload stamp now q bytes n m here there e
      e' k1 k2 k3 k4 k5 k6 past within some_bytes room port later early same writes plain r1 r2 r3
      r4 r5 r6 watched =
    let p = packet_of c payload stamp now in
    let fits : packet_header_size + length payload ≤ mtu = omega (arith, room) in
    let (f1, f2, sent, up, long2, carries2) =
      sent_outward data_offset c payload stamp now q bytes n here e k1 k2 k3 past within room same
        writes r1 r2 r3 in
    let src = here.socket.address in
    let drops = engine_should_drop_frame src there.socket.address e.quadrant e'.quadrant in
    elim (Bool-cases (was_sent bytes)) [
      | inr lost ↦ inl (rw lost refl, rw (sent, lost, ◌>>=◌) refl)
      | inl first ↦ elim (Bool-cases (was_sent e.socket_bytes)) [
        | inr lost ↦ inl (rw (first, lost) refl, rw (sent, first, ◌>>=◌) (rw (up, lost) refl))
        | inl second ↦ elim (Bool-cases drops) [
          | inl d ↦ inl (
            rw (first, second, d) refl,
            rw (sent, first, ◌>>=◌)
                (rw (up, second)
                  (downlink-dropped data_offset p e.quadrant f2 there e' k4 k5 past within fits
                    long2 src carries2 r4 d)),
          )
          | inr kept ↦
              let (f3, down, long3, carries3) =
                downlink-Carries data_offset p e.quadrant f2 there e' k4 k5 past within fits long2
                  src carries2 r4 kept refl r5 plain in
              elim (Bool-cases (was_sent e'.shm_bytes)) [
                | inr lost ↦ inl (
                  rw (first, second, kept, lost) refl,
                  rw (sent, first, ◌>>=◌)
                      (rw (up, second) (down ∙ ap (λ b. if b then some f3 else none) lost)),
                )
                | inl third ↦ inr (
                  rw (first, second, kept, third) refl,
                  (
                    f3,
                    rw (sent, first, ◌>>=◌)
                        (rw (up, second) (down ∙ ap (λ b. if b then some f3 else none) third)),
                    Carries-Heard data_offset self own channel observers m shm_drops k6 r6.rest
                        within r6.is_free watched c payload stamp now e.quadrant src f3 carries3
                        long3 refl some_bytes room port later early,
                  ),
                )
              ]
        ]
      ]
    ]
