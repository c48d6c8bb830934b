-- ===== src/Channel/Protocol/Events/Kept.antt =====
-- Whatever happens to a gateway, the buffers of its NICs stay frames.
use communication_in_critica.Channel.Protocol.{by_type, handle}
use communication_in_critica.Prelude.{
  subst, sym, Bool, ◌%◌, ◌^◌, ℕ, zero, suc, ◌+◌, ◌/◌, ◌≤◌, ◌<◌, ◌≡◌, refl, List, [], ◌∷◌, ◌++◌,
  Bool-cases, inl, inr, ◌&&◌, ◌||◌, Option, none, some, if◌then◌else◌, ltb, ◌==◌, length, take,
  drop, All, All-append, All-take, All-drop, length-take-le, to_bytes, from_bytes, arith,
}
use communication_in_critica.Ethernet.{Mac, mac_eq, broadcast, header_size}
use communication_in_critica.Gps.Device.{quadrant_none}
use communication_in_critica.Network.Nic.{receive, Nic, free}
use communication_in_critica.Channel.Address.{is_internal}
use communication_in_critica.Channel.Protocol.{
  Gateway, Engines, Observed, notify, forward, written, handed, update_shm, update_socket, proto,
}
use communication_in_critica.Channel.Protocol.Header.{
  prot_of, packet_header_size, byte, mac_at, dst_of, src_of, payload_of, kind_of, dst_port_of,
}
use communication_in_critica.Channel.Protocol.Endpoint.{
  Packet, stamp_and_ports, filled, send_via_nic, send_packet,
}
use communication_in_critica.Channel.Protocol.Packing.{length-stamp_and_ports}
use communication_in_critica.Channel.Protocol.Events.{
  Event, from_ring, from_network, sending, after, run, updated_shm, updated_socket, shm_drops,
  socket_drops,
}
use communication_in_critica.Channel.Protocol.Events.Frames.{
  IsBytes, IsMac, IsFramed, overlay-IsFrame, put-IsFramed, alloc-IsFramed, send-IsFramed,
  receive-IsFramed,
}

first_byte : (xs : List ℕ) → IsBytes xs → from_bytes 1 xs < 256
unfolding from_bytes
first_byte [] h = omega arith
first_byte (x ∷ xs) h = omega (arith, h.0)

mac_at-IsMac : (i : ℕ) (f : List ℕ) → IsBytes f → IsMac (mac_at i f)
mac_at-IsMac i f h =
    let at : (k : ℕ) → byte k f < 256 =
      λ k. first_byte (drop k f) (All-drop (λ b. b < 256) k f h) in
    (at i, (at (i + 1), (at (i + 2), (at (i + 3), (at (i + 4), (at (i + 5), tt))))))

-- A write into a buffer of the NIC.
written-IsFramed :
    (offset : ℕ) (bytes : List ℕ) (k : ℕ) (n : Nic)
    → offset + length bytes ≤ 1514
    → IsBytes bytes
    → IsFramed n
    → IsFramed (written offset bytes (k, n))
written-IsFramed offset bytes k n within new f =
    put-IsFramed n k _
      (overlay-IsFrame offset bytes (n.buffers k) (n.buffers k).size within new (f.frames k).sized
        (f.frames k))
      f

forward-IsFramed :
    (n : Nic) (dst : Mac) (size offset : ℕ) (bytes : List ℕ) (q : ℕ) (sent : Option ℕ)
    → IsMac dst
    → offset + length bytes ≤ 1514
    → IsBytes bytes
    → q < 256
    → IsFramed n
    → IsFramed (forward n dst size offset bytes q sent).0
unfolding forward
forward-IsFramed n dst size offset bytes q sent d within new small f =
    elim (alloc-IsFramed n dst proto size d f) [
      | inl nothing ↦ rw (nothing, forward) f
      | inr (k, m, got, fits, fm) ↦
          rw (got, forward)
            (send-IsFramed (written offset bytes (k, m)) k q sent small
              (written-IsFramed offset bytes k m within new fm))
    ]

handed-IsFramed :
    (port : ℕ) (observed : Observed) (idx : ℕ) (n : Nic)
    → IsFramed n
    → IsFramed (handed port observed idx n).0
unfolding handed
handed-IsFramed port observed idx n f = go (notify port observed) refl
  where
    go : (who : List ℕ) → notify port observed ≡ who → IsFramed (handed port observed idx n).0
    go [] e = rw (e, handed) (record { address = f.address; frames = f.frames })
    go (o ∷ os) e = rw (e, handed) f

-- The numbers of a packet to send are within their types, and so is its size with the header.
pub record IsPacket (p : Packet) : Type 0 where
  pub to_mac : IsMac p.to.paddr
  pub kind : p.kind < 256
  pub payload : IsBytes p.payload
  pub small : packet_header_size + length p.payload < 2 ^ 32

to_bytes-IsBytes : (n x : ℕ) → IsBytes (to_bytes n x)
unfolding to_bytes
to_bytes-IsBytes zero x = tt
to_bytes-IsBytes (suc n) x = (omega arith, to_bytes-IsBytes n (x / 256))

stamp_and_ports-IsBytes : (p : Packet) → IsBytes (stamp_and_ports p)
unfolding stamp_and_ports
stamp_and_ports-IsBytes p =
    let stamp = if p.ts == 0 then p.now else p.ts in
    All-append (λ b. b < 256) (to_bytes 8 stamp) (to_bytes 2 p.from.port ++ to_bytes 2 p.to.port)
      (to_bytes-IsBytes 8 stamp)
      (All-append (λ b. b < 256) (to_bytes 2 p.from.port) (to_bytes 2 p.to.port)
        (to_bytes-IsBytes 2 p.from.port) (to_bytes-IsBytes 2 p.to.port))

send_via_nic-IsFramed :
    (data_offset : ℕ) (n : Nic) (p : Packet) (q : ℕ) (bytes : Option ℕ)
    → data_offset ≤ packet_header_size
    → q < 256
    → IsPacket p
    → IsFramed n
    → IsFramed (send_via_nic data_offset n p q bytes).0
unfolding send_via_nic
send_via_nic-IsFramed data_offset n p q bytes within small packet f =
    elim (alloc-IsFramed n p.to.paddr proto ((packet_header_size + length p.payload) % 2 ^ 32)
      packet.to_mac f) [
        | inl nothing ↦ rw (nothing, send_via_nic) f
        | inr (k, m, got, fits, fm) ↦
            rw (got, send_via_nic)
              (send-IsFramed (filled data_offset p (k, m)).1 k q bytes small (
                written-IsFramed (header_size + data_offset) p.payload k _
                  (omega (arith, fits, within, packet.small)) packet.payload
                  (written-IsFramed (header_size + 13) (p.kind ∷ []) k _ (omega arith)
                    (packet.kind, tt)
                    (written-IsFramed header_size (stamp_and_ports p) k m
                      (omega (arith, length-stamp_and_ports p)) (stamp_and_ports-IsBytes p) fm))))
      ]

-- Both NICs of a gateway.
pub record AreFramed (g : Gateway) : Type 0 where
  pub shm : IsFramed g.shm
  pub socket : IsFramed g.socket

freed-IsFramed : (idx : ℕ) (n : Nic) → IsFramed n → IsFramed (free idx n)
freed-IsFramed idx n f = record { address = f.address; frames = f.frames }

update_shm-AreFramed :
    (g : Gateway) (e : Engines) (idx : ℕ)
    → e.quadrant < 256
    → AreFramed g
    → AreFramed (update_shm g e idx).gateway
unfolding update_shm
update_shm-AreFramed g e idx small f =
    let b = g.shm.buffers idx in
    let frame = f.shm.frames idx in
    let payload = take b.size (payload_of b.frame) in
    let passed =
      forward-IsFramed g.socket (dst_of b.frame) b.size header_size payload e.quadrant
        e.socket_bytes (mac_at-IsMac 0 b.frame frame.bytes)
        (omega (arith, length-take-le b.size (payload_of b.frame), frame.sized))
        (All-take (λ x. x < 256) b.size (payload_of b.frame)
          (All-drop (λ x. x < 256) 14 b.frame frame.bytes))
        small f.socket in
    let shm = handed-IsFramed (dst_port_of b.frame) g.observed idx g.shm f.shm in
    elim (Bool-cases (ltb b.size packet_header_size)) [
      | inl short ↦ rw short (record { shm = freed-IsFramed idx g.shm f.shm; socket = f.socket })
      | inr whole ↦
          elim (Bool-cases
            (mac_eq (src_of b.frame) g.address && mac_eq (dst_of b.frame) broadcast)) [
              | inl own ↦ rw (whole, own) (record { shm = shm; socket = passed })
              | inr other ↦ rw (whole, other) (record { shm = shm; socket = f.socket })
            ]
    ]

update_socket-AreFramed :
    (data_offset : ℕ) (g : Gateway) (e : Engines) (idx : ℕ)
    → AreFramed g
    → AreFramed (update_socket data_offset g e idx).gateway
unfolding update_socket
update_socket-AreFramed data_offset g e idx f =
    let b = g.socket.buffers idx in
    let frame = f.socket.frames idx in
    let all = take (header_size + b.size) b.frame in
    let passed =
      forward-IsFramed g.shm (dst_of b.frame) b.size 0 all quadrant_none e.shm_bytes
        (mac_at-IsMac 0 b.frame frame.bytes)
        (omega (arith, length-take-le (header_size + b.size) b.frame, frame.sized))
        (All-take (λ x. x < 256) (header_size + b.size) b.frame frame.bytes) (omega arith) f.shm in
    elim (Bool-cases (ltb b.size packet_header_size)) [
      | inl short ↦ rw short (record { shm = f.shm; socket = freed-IsFramed idx g.socket f.socket })
      | inr whole ↦ elim (Bool-cases (kind_of b.frame == 1 || kind_of b.frame == 2)) [
        | inl sptp ↦
            rw (whole, sptp) (record { shm = f.shm; socket = freed-IsFramed idx g.socket f.socket })
        | inr is_data ↦
            rw (whole, is_data)
              (record {
                shm = passed;
                socket = handed-IsFramed (dst_port_of b.frame) g.observed idx g.socket f.socket;
              })
      ]
    ]

-- What comes from outside is bytes, and what is sent is a packet.
abbrev pub IsEvent : Event → Type 0
IsEvent (from_ring frame e) = IsBytes frame × (e.quadrant < 256)
IsEvent (from_network frame e) = IsBytes frame
IsEvent (sending p e) = IsPacket p × (e.quadrant < 256)

by_type-IsFramed : (got : Nic × Option ℕ) → IsFramed got.0 → IsFramed (by_type got).0
unfolding by_type
by_type-IsFramed (n, none) f = f
by_type-IsFramed (n, some j) f =
    let pick : Bool → Nic × Option ℕ = λ b. if b then (n, some j) else (free j n, none) in
    elim (Bool-cases (prot_of (n.buffers j).frame == proto)) [
      | inl own ↦ subst (λ b. IsFramed (pick b).0) (sym own) f
      | inr other ↦ subst (λ b. IsFramed (pick b).0) (sym other) (freed-IsFramed j n f)
    ]

handle-IsFramed :
    (n : Nic) (bytes : List ℕ) (drops : List ℕ → Bool)
    → IsBytes bytes
    → IsFramed n
    → IsFramed (handle n bytes drops).0
unfolding handle
handle-IsFramed n bytes drops new f =
    by_type-IsFramed (receive n bytes drops) (receive-IsFramed n bytes drops new f)

module _ (data_offset : ℕ) (within : data_offset ≤ packet_header_size) where
  updated_shm-AreFramed :
      (g : Gateway) (e : Engines) (got : Nic × Option ℕ)
      → e.quadrant < 256
      → IsFramed got.0
      → AreFramed g
      → AreFramed (updated_shm g e got)
  updated_shm-AreFramed g e (n, none) small fn f = record { shm = fn; socket = f.socket }
  updated_shm-AreFramed g e (n, some j) small fn f =
      update_shm-AreFramed (record g { shm = n }) e j small (record { shm = fn; socket = f.socket })

  updated_socket-AreFramed :
      (g : Gateway) (e : Engines) (got : Nic × Option ℕ)
      → IsFramed got.0
      → AreFramed g
      → AreFramed (updated_socket data_offset g e got)
  updated_socket-AreFramed g e (n, none) fn f = record { shm = f.shm; socket = fn }
  updated_socket-AreFramed g e (n, some j) fn f =
      update_socket-AreFramed data_offset (record g { socket = n }) e j
        (record { shm = f.shm; socket = fn })

  send_packet-AreFramed :
      (g : Gateway) (e : Engines) (p : Packet)
      → e.quadrant < 256
      → IsPacket p
      → AreFramed g
      → AreFramed (send_packet data_offset g e p).0
  unfolding send_packet
  send_packet-AreFramed g e p small packet f = elim (Bool-cases (is_internal p.to)) [
    | inl i ↦ rw i (record {
      shm =
          send_via_nic-IsFramed data_offset g.shm p quadrant_none e.shm_bytes within (omega arith)
            packet f.shm;
      socket = f.socket;
    })
    | inr o ↦ rw o (record {
      shm = f.shm;
      socket =
          send_via_nic-IsFramed data_offset g.socket p e.quadrant e.socket_bytes within small packet
            f.socket;
    })
  ]

  after-AreFramed :
      (g : Gateway) (event : Event)
      → IsEvent event
      → AreFramed g
      → AreFramed (after data_offset g event)
  unfolding after
  after-AreFramed g (from_ring frame e) (bytes, small) f =
      updated_shm-AreFramed g e (handle g.shm frame shm_drops) small
        (handle-IsFramed g.shm frame shm_drops bytes f.shm) f
  after-AreFramed g (from_network frame e) bytes f =
      updated_socket-AreFramed g e (handle g.socket frame (socket_drops g e))
        (handle-IsFramed g.socket frame (socket_drops g e) bytes f.socket) f
  after-AreFramed g (sending p e) (packet, small) f = send_packet-AreFramed g e p small packet f

-- After any history of frames received, of whatever bytes and length, and of packets sent, whose size
-- with the header is below 2 ^ 32, every buffer of both NICs is still a frame: no copy has gone beyond its end,
-- what it holds are bytes, and its size is at most the MTU.
pub run-AreFramed :
    (data_offset : ℕ) (g : Gateway) (events : List Event)
    → data_offset ≤ packet_header_size
    → All IsEvent events
    → AreFramed g
    → AreFramed (run data_offset g events)
unfolding run
run-AreFramed data_offset g [] within es f = f
run-AreFramed data_offset g (event ∷ events) within es f =
    run-AreFramed data_offset (after data_offset g event) events within es.1
      (after-AreFramed data_offset within g event es.0 f)
