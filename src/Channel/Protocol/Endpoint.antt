-- ===== src/Channel/Protocol/Endpoint.antt =====
-- `send`, `send_via_nic` and `receive` of src/channel/protocol.h.
use communication_in_critica.Prelude.{
  ℕ, ◌+◌, ◌%◌, ◌^◌, ◌≡◌, ◌⊎◌, inl, inr, refl, true, false, not, List, [], ◌∷◌, ◌++◌, Option, none,
  some, if◌then◌else◌, ltb, ◌==◌, length, take, to_bytes, Bool-cases, ℤ,
}
use communication_in_critica.Ethernet.{header_size}
use communication_in_critica.Gps.Device.{quadrant_none}
use communication_in_critica.Channel.Address.{Address, is_internal}
use communication_in_critica.Network.Nic.{Nic, alloc, send, free, quadrant_offset}
use communication_in_critica.Network.Nic.Pool.{IsPool, free-IsPool, alloc-IsPool, send-IsPool}
use communication_in_critica.Channel.Protocol.{Gateway, Engines, proto, written, posted}
use communication_in_critica.Channel.Protocol.Header.{
  packet_header_size, src_of, payload_of, src_port_of, timestamp_of, data_of, byte,
}

-- A packet to send: `now` is the clock where the stamp is written.
pub record Packet : Type 0 where
  pub from : Address
  pub to : Address
  pub payload : List ℕ
  pub ts : ℕ
  pub kind : ℕ
  pub now : ℕ

-- the stamp and the ports, in the order of the header
unfoldable pub stamp_and_ports : Packet → List ℕ
unfolding to_bytes
stamp_and_ports p =
    to_bytes 8 (if p.ts == 0 then p.now else p.ts)
    ++ (to_bytes 2 p.from.port ++ to_bytes 2 p.to.port)

-- the writes into the packet; the quadrant, before the kind, is the NIC's to write
abbrev pub filled : ℕ → Packet → ℕ × Nic → ℕ × Nic
filled data_offset p (k, n) =
    let ports = written header_size (stamp_and_ports p) (k, n) in
    let kinds = written (header_size + 13) (p.kind ∷ []) (k, ports) in
    (k, written (header_size + data_offset) p.payload (k, kinds))

abbrev pub sent_filled : ℕ → Packet → ℕ → Option ℕ → ℕ × Nic → Nic × Option (List ℕ)
sent_filled data_offset p q bytes got =
    let (k, n) = filled data_offset p got in posted bytes (send n k q bytes)

-- the size that is asked for is an `unsigned int`
unfoldable pub send_via_nic : ℕ → Nic → Packet → ℕ → Option ℕ → Nic × Option (List ℕ)
unfolding alloc send stamp_and_ports
send_via_nic data_offset n p q bytes =
    elim (alloc n p.to.paddr proto ((packet_header_size + length p.payload) % 2 ^ 32)) [
      | none ↦ (n, none)
      | some got ↦ sent_filled data_offset p q bytes got
    ]

-- `send` of a gateway: the state, and the frames for the socket and for the shared memory
unfoldable pub send_packet :
    ℕ → Gateway → Engines → Packet → Gateway × Option (List ℕ) × Option (List ℕ)
unfolding is_internal send_via_nic
send_packet data_offset g e p =
    if not (is_internal p.to)
    then (let (n, frame) = send_via_nic data_offset g.socket p e.quadrant e.socket_bytes in
        (record g { socket = n }, frame, none))
    else (let (n, frame) = send_via_nic data_offset g.shm p quadrant_none e.shm_bytes in
        (record g { shm = n }, none, frame))

pub record Received : Type 0 where
  pub from : Address
  pub timestamp : ℤ
  pub quadrant : ℕ
  pub payload : List ℕ

-- `receive`, into a place of `size` bytes
unfoldable pub receive_packet : ℕ → Nic → ℕ → ℕ → Nic × Option Received
unfolding src_port_of timestamp_of
receive_packet data_offset n idx size =
    let b = n.buffers idx in
    if ltb b.size packet_header_size then (free idx n, none) else (
      free idx n,
      some (record {
        from = record { paddr = src_of b.frame; port = src_port_of b.frame };
        timestamp = timestamp_of b.frame;
        quadrant = byte quadrant_offset (payload_of b.frame);
        payload = take size (data_of data_offset b.frame b.size);
      }),
    )

send_via_nic-IsPool :
    (data_offset : ℕ) (n : Nic) (p : Packet) (q : ℕ) (bytes : Option ℕ) (held : List ℕ)
    → IsPool n held
    → IsPool (send_via_nic data_offset n p q bytes).0 held
unfolding send_via_nic
send_via_nic-IsPool data_offset n p q bytes held pool =
    elim (alloc-IsPool n p.to.paddr proto ((packet_header_size + length p.payload) % 2 ^ 32) held
      pool) [
        | inl nothing ↦ rw (nothing, send_via_nic) pool
        | inr (k, m, got, more) ↦
            rw (got, send_via_nic) (send-IsPool (filled data_offset p (k, m)).1 k q bytes held more)
      ]

-- Whatever is sent and whatever the engines answer, both pools are afterwards as they were, and a
-- packet to an internal address never leaves by the socket, nor another by the shared memory.
pub send_packet-IsPool :
    (data_offset : ℕ) (g : Gateway) (e : Engines) (p : Packet) (held taken : List ℕ)
    → IsPool g.shm held
    → IsPool g.socket taken
    → let (after, to_socket, to_shm) = send_packet data_offset g e p in
      IsPool after.shm held
      × IsPool after.socket taken
      × (((is_internal p.to ≡ true) × (to_socket ≡ none))
          ⊎ ((is_internal p.to ≡ false) × (to_shm ≡ none)))
unfolding send_packet
send_packet-IsPool data_offset g e p held taken shm socket = elim (Bool-cases (is_internal p.to)) [
  | inl i ↦ rw i (
    send_via_nic-IsPool data_offset g.shm p quadrant_none e.shm_bytes held shm,
    socket,
    inl (refl, refl),
  )
  | inr o ↦ rw o (
    shm,
    send_via_nic-IsPool data_offset g.socket p e.quadrant e.socket_bytes taken socket,
    inr (refl, refl),
  )
]

-- A receiver gives the buffer back, also of a packet that is too short.
pub receive_packet-IsPool :
    (data_offset : ℕ) (n : Nic) (idx size : ℕ) (held : List ℕ)
    → IsPool n (idx ∷ held)
    → IsPool (receive_packet data_offset n idx size).0 held
unfolding receive_packet
receive_packet-IsPool data_offset n idx size held p =
    elim (Bool-cases (ltb (n.buffers idx).size packet_header_size)) [
      | inl e ↦ rw e (free-IsPool n idx held p)
      | inr e ↦ rw e (free-IsPool n idx held p)
    ]
