-- ===== src/Channel/Protocol/Forwarding.antt =====
-- What a gateway passes on of a frame that carries a packet: from the shared memory to the network
-- and back, by `forward` of src/channel/protocol.h.
use communication_in_critica.Prelude.{
  ltb-false, eq_self, eq_false, ℕ, ◌+◌, ◌≤◌, ◌≡◌, refl, sym, ap, ◌∙◌, List, [], ◌∷◌, true, Option,
  none, some, if◌then◌else◌, ◌&&◌, length, take, chunk, drop-drop, length-take, length-drop, arith,
}
use communication_in_critica.Ethernet.{Mac, mac_eq, mac_eq_iff, broadcast, header_size, mtu}
use communication_in_critica.Gps.Device.{quadrant_none}
use communication_in_critica.Network.Nic.{
  Nic, send, was_sent, overlay, ethernet_header, frame_bytes,
}
use communication_in_critica.Network.Nic.Frame.{
  length-overlay, chunk-overlay, chunk-overlay_before, chunk-take,
}
use communication_in_critica.Channel.Protocol.{
  Gateway, Engines, forward, update_shm, update_socket, proto,
}
use communication_in_critica.Channel.Protocol.Header.{
  packet_header_size, src_of, dst_of, payload_of, kind_of,
}
use communication_in_critica.Channel.Protocol.Endpoint.{Packet}
use communication_in_critica.Channel.Protocol.Packing.{
  stamped, length-stamped, length-ethernet_header, source-header, destination-header, type-header,
}
use communication_in_critica.Channel.Protocol.Carrying.{
  Carries, src_of-Carries, dst_of-Carries, kind_of-Carries, stamped-Carries, take-Carries,
  overlay-Carries,
}
use communication_in_critica.Channel.Protocol.RoundTrip.{alloc-free}

-- The frame in the buffer, before the NIC stamps it.
abbrev pub copied : Nic → Mac → ℕ → List ℕ → ℕ → List ℕ
copied n dst offset bytes k =
    overlay offset bytes (overlay 0 (ethernet_header dst n.address proto) (n.buffers k).frame)

abbrev pub forwarded : Nic → Mac → ℕ → ℕ → List ℕ → ℕ → ℕ → List ℕ
forwarded n dst size offset bytes q k =
    take (header_size + size) (stamped n.writes_quadrant q (copied n dst offset bytes k))

-- What is sent, from a NIC with a free buffer.
pub forward-frame :
    (n : Nic) (dst : Mac) (size offset : ℕ) (bytes : List ℕ) (q : ℕ) (sent : Option ℕ) (k : ℕ)
    (rest : List ℕ)
    → n.free_list ≡ k ∷ rest
    → size ≤ mtu
    → (forward n dst size offset bytes q sent).1
      ≡ (if was_sent sent then some (forwarded n dst size offset bytes q k) else none)
unfolding forward send
forward-frame n dst size offset bytes q sent k rest free fits =
    rw (alloc-free n dst proto size k rest free fits, forward, eq_self k) refl

-- A frame that carries a packet, in a whole buffer, and its copy in a free buffer of another NIC.
module _ (data_offset : ℕ) (src : Mac) (p : Packet) (quad : ℕ) (f : List ℕ) (n : Nic) (k : ℕ)
    (c : Carries data_offset src p quad f) (long : length f ≡ frame_bytes)
    (whole : length (n.buffers k).frame ≡ frame_bytes)
    (fits : packet_header_size + length p.payload ≤ mtu) (past : 14 ≤ data_offset)
    (within : data_offset ≤ packet_header_size) where
  abbrev size : ℕ
  size = packet_header_size + length p.payload

  abbrev prepared_frame : List ℕ
  prepared_frame = overlay 0 (ethernet_header p.to.paddr n.address proto) (n.buffers k).frame

  length-prepared_frame : length prepared_frame ≡ frame_bytes
  length-prepared_frame =
      length-overlay 0 (ethernet_header p.to.paddr n.address proto) (n.buffers k).frame
        (omega (arith, whole, length-ethernet_header p.to.paddr n.address proto))
      ∙ whole

  -- Towards the network the payload is copied behind a header of the socket's own.
  abbrev outward : List ℕ
  outward = copied n p.to.paddr header_size (take size (payload_of f)) k

  length-payload : length (take size (payload_of f)) ≡ size
  length-payload = length-take size (payload_of f) (omega (arith, length-drop 14 f, long, fits))

  length-outward : length outward ≡ frame_bytes
  length-outward =
      length-overlay 14 (take size (payload_of f)) prepared_frame
        (omega (arith, length-payload, length-prepared_frame, fits))
      ∙ length-prepared_frame

  in_header :
      (i m : ℕ)
      → i + m ≤ 14
      → chunk i m outward ≡ chunk i m (ethernet_header p.to.paddr n.address proto)
  in_header i m h =
      chunk-overlay_before 14 (take size (payload_of f)) prepared_frame i m
        (omega (arith, length-prepared_frame)) h
      ∙ ap (λ l. chunk l m prepared_frame) (omega arith)
      ∙ chunk-overlay 0 (ethernet_header p.to.paddr n.address proto) (n.buffers k).frame i m
          (omega arith) (omega (arith, h, length-ethernet_header p.to.paddr n.address proto))

  in_payload : (i m : ℕ) → i + m ≤ size → chunk (14 + i) m outward ≡ chunk (14 + i) m f
  in_payload i m h =
      chunk-overlay 14 (take size (payload_of f)) prepared_frame i m
        (omega (arith, length-prepared_frame)) (omega (arith, h, length-payload))
      ∙ chunk-take i m size (payload_of f) h
      ∙ ap (take m) (drop-drop i 14 f)

  outward-Carries : Carries data_offset n.address p quad outward
  outward-Carries = record {
    destination = in_header 0 6 (omega arith) ∙ destination-header p.to.paddr n.address proto;
    source = in_header 6 6 (omega arith) ∙ source-header p.to.paddr n.address proto;
    ethertype = in_header 12 2 (omega arith) ∙ type-header p.to.paddr n.address proto;
    ports = in_payload 0 12 (omega arith) ∙ c.ports;
    quadrant = in_payload 12 1 (omega arith) ∙ c.quadrant;
    kind = in_payload 13 1 (omega arith) ∙ c.kind;
    payload = in_payload data_offset (length p.payload) (omega (arith, within)) ∙ c.payload;
  }

  -- What leaves by the socket carries the packet, from the socket's address, with the quadrant that
  -- the socket's NIC writes.
  pub outward_sent-Carries :
      (q : ℕ)
      → let sent = forwarded n p.to.paddr size header_size (take size (payload_of f)) q k in
        (length sent ≡ header_size + size)
        × Carries data_offset n.address p (if n.writes_quadrant then q else quad) sent
  outward_sent-Carries q =
      let out = stamped n.writes_quadrant q outward in
      (
        length-take (header_size + size) out
            (omega (arith, fits, length-stamped n.writes_quadrant q outward length-outward)),
        take-Carries data_offset n.address p (if n.writes_quadrant then q else quad) out []
            (header_size + size)
            (stamped-Carries data_offset n.address p quad outward n.writes_quadrant q
              outward-Carries length-outward past)
            within (omega arith),
      )

  -- Towards the shared memory the whole frame is copied, with its header.
  abbrev inward : List ℕ
  inward = copied n p.to.paddr 0 (take (header_size + size) f) k

  length-all : length (take (header_size + size) f) ≡ header_size + size
  length-all = length-take (header_size + size) f (omega (arith, long, fits))

  length-inward : length inward ≡ frame_bytes
  length-inward =
      length-overlay 0 (take (header_size + size) f) prepared_frame
        (omega (arith, length-all, length-prepared_frame, fits))
      ∙ length-prepared_frame

  inward-Carries : Carries data_offset src p quad inward
  inward-Carries =
      overlay-Carries data_offset src p quad (take (header_size + size) f) prepared_frame
        (header_size + size)
        (take-Carries data_offset src p quad f [] (header_size + size) c within (omega arith))
        within (omega arith) (sym length-all)

  pub inward_sent-Carries :
      (q : ℕ)
      → let sent = forwarded n p.to.paddr size 0 (take (header_size + size) f) q k in
        (length sent ≡ header_size + size)
        × Carries data_offset src p (if n.writes_quadrant then q else quad) sent
  inward_sent-Carries q =
      let all = stamped n.writes_quadrant q inward in
      (
        length-take (header_size + size) all
            (omega (arith, fits, length-stamped n.writes_quadrant q inward length-inward)),
        take-Carries data_offset src p (if n.writes_quadrant then q else quad) all []
            (header_size + size)
            (stamped-Carries data_offset src p quad inward n.writes_quadrant q inward-Carries
              length-inward past)
            within (omega arith),
      )

-- A gateway that finds a broadcast of its own vehicle in the shared memory passes its payload on.
pub update_shm-Carries :
    (data_offset : ℕ) (p : Packet) (quad : ℕ) (f : List ℕ) (g : Gateway) (e : Engines) (idx : ℕ)
    → Carries data_offset g.address p quad f
    → g.shm.buffers idx ≡ record { frame = f; size = packet_header_size + length p.payload }
    → p.to.paddr ≡ broadcast
    → let size = packet_header_size + length p.payload in
      (update_shm g e idx).to_socket
      ≡ (forward g.socket p.to.paddr size header_size
          (take size (payload_of f))
          e.quadrant
          e.socket_bytes).1
unfolding update_shm
update_shm-Carries data_offset p quad f g e idx c held to_all =
    let size = packet_header_size + length p.payload in
    let own : mac_eq (src_of f) g.address && mac_eq (dst_of f) broadcast ≡ true =
      ap (λ a. mac_eq a g.address && mac_eq (dst_of f) broadcast)
        (src_of-Carries data_offset g.address p quad f c)
      ∙ ap (λ b. b && mac_eq (dst_of f) broadcast) ((mac_eq_iff g.address g.address).1 refl)
      ∙ (mac_eq_iff (dst_of f) broadcast).1
          (dst_of-Carries data_offset g.address p quad f c ∙ to_all) in
    rw (held, ltb-false size packet_header_size (omega arith), own)
      (ap
        (λ d.
          (forward g.socket d size header_size (take size (payload_of f)) e.quadrant
            e.socket_bytes).1)
        (dst_of-Carries data_offset g.address p quad f c))

-- A gateway that gets data from the network passes the frame on to the shared memory.
pub update_socket-Carries :
    (data_offset : ℕ) (src : Mac) (p : Packet) (quad : ℕ) (f : List ℕ) (g : Gateway) (e : Engines)
    (idx : ℕ)
    → Carries data_offset src p quad f
    → g.socket.buffers idx ≡ record { frame = f; size = packet_header_size + length p.payload }
    → p.kind ≡ 0
    → let size = packet_header_size + length p.payload in
      (update_socket data_offset g e idx).to_shm
      ≡ (forward g.shm p.to.paddr size 0 (take (header_size + size) f) quadrant_none e.shm_bytes).1
unfolding update_socket
update_socket-Carries data_offset src p quad f g e idx c held is_data =
    let size = packet_header_size + length p.payload in
    let kind = kind_of-Carries data_offset src p quad f c ∙ is_data in
    rw
      (
        held,
        ltb-false size packet_header_size (omega arith),
        eq_false (kind_of f) 1 (ground (arith, kind)),
        eq_false (kind_of f) 2 (ground (arith, kind)),
      )
      (ap (λ d. (forward g.shm d size 0 (take (header_size + size) f) quadrant_none e.shm_bytes).1)
        (dst_of-Carries data_offset src p quad f c))
