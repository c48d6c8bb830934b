-- ===== src/Communication/Journey/Hops.antt =====
-- Each hop of a broadcast: what the frame carries, and where it is dropped.
use communication_in_critica.Channel.Protocol.{handle}
use communication_in_critica.Prelude.{
  ℕ, ◌+◌, ◌≤◌, ◌≡◌, refl, ap, subst, ◌∙◌, List, Bool, true, false, none, some, if◌then◌else◌,
  length, take, ◌>>=◌, arith,
}
use communication_in_critica.Ethernet.{Mac, broadcast, header_size, mtu}
use communication_in_critica.Gps.Device.{quadrant_none, engine_should_drop_frame}
use communication_in_critica.Network.Nic.{Nic, was_sent, overlay, frame_bytes, quadrant_offset}
use communication_in_critica.Network.Nic.Frame.{length-overlay}
use communication_in_critica.Channel.Protocol.{Gateway, Engines}
use communication_in_critica.Channel.Protocol.Header.{packet_header_size, byte, payload_of}
use communication_in_critica.Channel.Protocol.Endpoint.{Packet}
use communication_in_critica.Channel.Protocol.Carrying.{
  Carries, src_of-Carries, quadrant-Carries, overlay-Carries,
}
use communication_in_critica.Channel.Protocol.RoundTrip.{
  held-Carries, receive-dropped, handle-dropped,
}
use communication_in_critica.Channel.Protocol.Forwarding.{
  forwarded, forward-frame, outward_sent-Carries, inward_sent-Carries, update_shm-Carries,
  update_socket-Carries,
}
use communication_in_critica.Channel.Protocol.Events.{shm_drops, socket_drops}
use communication_in_critica.Communication.Journey.{uplink, downlink, IsReady}

module _ (data_offset : ℕ) (p : Packet) (quad : ℕ) (f : List ℕ) (g : Gateway) (e : Engines)
    (j k : ℕ) (past : 14 ≤ data_offset) (within : data_offset ≤ packet_header_size)
    (fits : packet_header_size + length p.payload ≤ mtu)
    (long : length f ≡ header_size + (packet_header_size + length p.payload)) where
  length-held :
      (n : Nic) (i : ℕ) → IsReady n i → length (overlay 0 f (n.buffers i).frame) ≡ frame_bytes
  length-held n i r =
      length-overlay 0 f (n.buffers i).frame (omega (arith, r.whole, long, fits)) ∙ r.whole

  -- From the shared memory to the network.
  pub uplink-Carries :
      Carries data_offset g.address p quad f
      → p.to.paddr ≡ broadcast
      → IsReady g.shm j
      → IsReady g.socket k
      → g.socket.writes_quadrant ≡ true
      → (out : List ℕ) × (uplink g e f ≡ (if was_sent e.socket_bytes then some out else none))
        × (length out ≡ header_size + (packet_header_size + length p.payload))
        × Carries data_offset g.socket.address p e.quadrant out
  unfolding uplink
  uplink-Carries c to_all shm socket writes =
      let size = packet_header_size + length p.payload in
      let held = overlay 0 f (g.shm.buffers j).frame in
      let (got, buffer, carries) =
        held-Carries data_offset g.address p quad f g.shm shm_drops j shm.rest c long within fits
          shm.is_free refl in
      let at = record g { shm = (handle g.shm f shm_drops).0 } in
      let out =
        forwarded g.socket p.to.paddr size header_size (take size (payload_of held)) e.quadrant k in
      let (out_long, sent) =
        outward_sent-Carries data_offset g.address p quad held g.socket k carries
          (length-held g.shm j shm) socket.whole fits past within e.quadrant in
      (
        out,
        rw (got, ◌>>=◌)
            (update_shm-Carries data_offset p quad held at e j carries buffer to_all
              ∙ forward-frame g.socket p.to.paddr size header_size (take size (payload_of held))
                  e.quadrant e.socket_bytes k socket.rest socket.is_free fits),
        out_long,
        subst (λ w. Carries data_offset g.socket.address p (if w then e.quadrant else quad) out)
            writes sent,
      )

  -- From the network to the shared memory, if the engine does not drop the frame.
  module _ (src : Mac) (c : Carries data_offset src p quad f) (socket : IsReady g.socket j) where
    abbrev dropped : Bool
    dropped = engine_should_drop_frame src g.socket.address quad e.quadrant

    pub drops-held : socket_drops g e (overlay 0 f (g.socket.buffers j).frame) ≡ dropped
    drops-held =
        let held = overlay 0 f (g.socket.buffers j).frame in
        let carries =
          overlay-Carries data_offset src p quad f (g.socket.buffers j).frame
            (header_size + (packet_header_size + length p.payload)) c within (omega arith)
            (omega (arith, long)) in
        ap
          (λ a.
            engine_should_drop_frame a g.socket.address (byte quadrant_offset (payload_of held))
              e.quadrant)
          (src_of-Carries data_offset src p quad held carries)
        ∙ ap (λ q. engine_should_drop_frame src g.socket.address q e.quadrant)
            (quadrant-Carries data_offset src p quad held carries)

    pub downlink-dropped : dropped ≡ true → downlink data_offset g e f ≡ none
    unfolding downlink
    downlink-dropped d =
        rw
          (
            handle-dropped g.socket f (socket_drops g e) (
                receive-dropped g.socket f (socket_drops g e) j socket.rest socket.is_free
                  (omega (arith, long, fits)) (omega (arith, long)) (drops-held ∙ d)),
            ◌>>=◌,
          )
          refl

    pub downlink-Carries :
        dropped ≡ false
        → p.kind ≡ 0
        → IsReady g.shm k
        → g.shm.writes_quadrant ≡ false
        → (out : List ℕ) × (downlink data_offset g e f
            ≡ (if was_sent e.shm_bytes then some out else none))
          × (length out ≡ header_size + (packet_header_size + length p.payload))
          × Carries data_offset src p quad out
    unfolding downlink
    downlink-Carries kept is_data shm writes =
        let size = packet_header_size + length p.payload in
        let held = overlay 0 f (g.socket.buffers j).frame in
        let (got, buffer, carries) =
          held-Carries data_offset src p quad f g.socket (socket_drops g e) j socket.rest c long
            within fits socket.is_free (drops-held ∙ kept) in
        let at = record g { socket = (handle g.socket f (socket_drops g e)).0 } in
        let out =
          forwarded g.shm p.to.paddr size 0 (take (header_size + size) held) quadrant_none k in
        let (out_long, sent) =
          inward_sent-Carries data_offset src p quad held g.shm k carries
            (length-held g.socket j socket) shm.whole fits past within quadrant_none in
        (
          out,
          rw (got, ◌>>=◌)
              (update_socket-Carries data_offset src p quad held at e j carries buffer is_data
                ∙ forward-frame g.shm p.to.paddr size 0 (take (header_size + size) held)
                    quadrant_none e.shm_bytes k shm.rest shm.is_free fits),
          out_long,
          subst (λ w. Carries data_offset src p (if w then quadrant_none else quad) out) writes
              sent,
        )
