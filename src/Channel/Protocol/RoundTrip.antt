-- ===== src/Channel/Protocol/RoundTrip.antt =====
-- A packet from `send_via_nic` to `receive` of src/channel/protocol.h: the frame is packed, received
-- by a NIC, and unpacked.
use communication_in_critica.Prelude.{
  ◌⊎◌, inl, inr, Bool-cases, ltb-false, eq_self, ==_iff, ℕ, ◌+◌, ◌-◌, ◌%◌, ◌^◌, ◌≤◌, ◌<◌, ◌≡◌, refl,
  sym, ap, ◌∙◌, List, [], ◌∷◌, Bool, true, false, Option, none, some, if◌then◌else◌, ◌==◌, length,
  take, take-all, take_long, length-take, pos, arith,
}
use communication_in_critica.Ethernet.{Mac, header_size, mtu}
use communication_in_critica.Network.Nic.{
  Nic, was_sent, alloc, alloc_buf, prepared, send, receive, arrived, overlay, frame_bytes, free,
}
use communication_in_critica.Channel.Protocol.{proto, by_type, handle}
use communication_in_critica.Channel.Protocol.Header.{packet_header_size, byte, prot_of}
use communication_in_critica.Channel.Protocol.Endpoint.{Packet, send_via_nic, receive_packet}
use communication_in_critica.Channel.Protocol.Packing.{
  laid_out, stamped, length-laid_out, length-stamped,
}
use communication_in_critica.Channel.Protocol.Carrying.{
  Carries, prot_of-Carries, src_of-Carries, src_port_of-Carries, timestamp_of-Carries,
  quadrant-Carries, data_of-Carries, laid_out-Carries, stamped-Carries, take-Carries,
  overlay-Carries,
}

abbrev pub frame_of : ℕ → Nic → Packet → ℕ → ℕ → List ℕ
frame_of data_offset n p q k =
    take (header_size + (packet_header_size + length p.payload))
      (stamped n.writes_quadrant q (laid_out data_offset n.address p (n.buffers k).frame))

pub alloc_buf-free :
    (n : Nic) (k : ℕ) (rest : List ℕ)
    → n.free_list ≡ k ∷ rest
    → alloc_buf n ≡ some (k, record n { free_list = rest })
unfolding alloc_buf
alloc_buf-free n k rest free = rw (free, alloc_buf) refl

pub alloc-free :
    (n : Nic) (dst : Mac) (prot size k : ℕ) (rest : List ℕ)
    → n.free_list ≡ k ∷ rest
    → size ≤ mtu
    → alloc n dst prot size ≡ some (prepared dst prot size (k, record n { free_list = rest }))
unfolding alloc
alloc-free n dst prot size k rest free fits =
    rw (ltb-false mtu size fits, alloc_buf-free n k rest free) refl

unwrapped : (size : ℕ) → size ≤ mtu → size % 2 ^ 32 ≡ size
unwrapped size fits = omega (arith, fits)

-- What is sent, from a NIC with a free buffer.
pub send_via_nic-frame :
    (data_offset : ℕ) (n : Nic) (p : Packet) (q : ℕ) (bytes : Option ℕ) (k : ℕ) (rest : List ℕ)
    → n.free_list ≡ k ∷ rest
    → packet_header_size + length p.payload ≤ mtu
    → (send_via_nic data_offset n p q bytes).1
      ≡ (if was_sent bytes then some (frame_of data_offset n p q k) else none)
unfolding send_via_nic send
send_via_nic-frame data_offset n p q bytes k rest free fits =
    rw
      (
        alloc-free n p.to.paddr proto ((packet_header_size + length p.payload) % 2 ^ 32) k rest free
            (omega (arith, fits)),
        send_via_nic,
        eq_self k,
        unwrapped (packet_header_size + length p.payload) fits,
      )
      refl

-- The buffer of a frame that is not dropped.
pub receive-whole :
    (m : Nic) (f : List ℕ) (drops : List ℕ → Bool) (j : ℕ) (rest : List ℕ)
    → m.free_list ≡ j ∷ rest
    → length f ≤ frame_bytes
    → header_size ≤ length f
    → drops (overlay 0 f (m.buffers j).frame) ≡ false
    → ((receive m f drops).1 ≡ some j)
      × ((receive m f drops).0.buffers j
          ≡ record { frame = overlay 0 f (m.buffers j).frame; size = length f - header_size })
unfolding receive arrived
receive-whole m f drops j rest free short long kept =
    rw
      (
        alloc_buf-free m j rest free,
        receive,
        ltb-false frame_bytes (length f) short,
        ltb-false (length f) header_size long,
        take-all f,
        kept,
        eq_self j,
      )
      (refl, refl)

-- A frame that the engine's test drops is for nobody.
pub receive-dropped :
    (m : Nic) (f : List ℕ) (drops : List ℕ → Bool) (j : ℕ) (rest : List ℕ)
    → m.free_list ≡ j ∷ rest
    → length f ≤ frame_bytes
    → header_size ≤ length f
    → drops (overlay 0 f (m.buffers j).frame) ≡ true
    → (receive m f drops).1 ≡ none
unfolding receive arrived
receive-dropped m f drops j rest free short long dropped =
    rw
      (
        alloc_buf-free m j rest free,
        receive,
        ltb-false frame_bytes (length f) short,
        ltb-false (length f) header_size long,
        take-all f,
        dropped,
      )
      refl

-- The protocol is given the frames of its type, and no other.
by_type-own :
    (got : Nic × Option ℕ) (j : ℕ)
    → got.1 ≡ some j
    → prot_of (got.0.buffers j).frame ≡ proto
    → by_type got ≡ got
unfolding by_type
by_type-own (n, none) j e typed = refl
by_type-own (n, some i) j e typed =
    let same : i ≡ j = ground (arith, e) in
    let own : prot_of (n.buffers i).frame ≡ proto =
      ap (λ k. prot_of (n.buffers k).frame) same ∙ typed in
    ap (λ b. if b then (n, some i) else (free i n, none)) ((==_iff _ proto).1 own)

by_type-none : (got : Nic × Option ℕ) → got.1 ≡ none → (by_type got).1 ≡ none
unfolding by_type
by_type-none (n, none) e = refl
by_type-none (n, some i) e = ground (arith, e)

pub by_type-cases : (got : Nic × Option ℕ) → ((by_type got).1 ≡ none) ⊎ (by_type got ≡ got)
unfolding by_type
by_type-cases (n, none) = inl refl
by_type-cases (n, some j) =
    let pick : Bool → Nic × Option ℕ = λ b. if b then (n, some j) else (free j n, none) in
    elim (Bool-cases (prot_of (n.buffers j).frame == proto)) [
      | inl own ↦ inr (ap pick own)
      | inr other ↦ inl (ap (λ b. (pick b).1) other)
    ]

pub handle-dropped :
    (m : Nic) (f : List ℕ) (drops : List ℕ → Bool)
    → (receive m f drops).1 ≡ none
    → (handle m f drops).1 ≡ none
unfolding handle
handle-dropped m f drops none_got = by_type-none (receive m f drops) none_got

-- when the packet says that it was sent
abbrev pub stamp_of : Packet → ℕ
stamp_of p = if p.ts == 0 then p.now else p.ts

-- What a receiver makes of a buffer that carries a packet.
pub receive_packet-Carries :
    (data_offset : ℕ) (n : Nic) (idx size quad : ℕ) (src : Mac) (p : Packet) (f : List ℕ)
    → Carries data_offset src p quad f
    → n.buffers idx ≡ record { frame = f; size = packet_header_size + length p.payload }
    → length p.payload ≤ size
    → p.from.port < 65536
    → stamp_of p < 2 ^ 63
    → (receive_packet data_offset n idx size).1
      ≡ some (record {
        from = record { paddr = src; port = p.from.port };
        timestamp = pos (stamp_of p);
        quadrant = quad;
        payload = p.payload;
      })
unfolding receive_packet
receive_packet-Carries data_offset n idx size quad src p f c held fits port stamp =
    rw
      (
        held,
        ltb-false (packet_header_size + length p.payload) packet_header_size (omega arith),
        src_of-Carries data_offset src p quad f c,
        src_port_of-Carries data_offset src p quad f c port,
        timestamp_of-Carries data_offset src p quad f c stamp,
        quadrant-Carries data_offset src p quad f c,
        data_of-Carries data_offset src p quad f c,
        take_long size p.payload fits,
      )
      refl

-- The frame that a NIC hands to the engine: as long as the packet, which it carries.
pub frame_of-Carries :
    (data_offset : ℕ) (n : Nic) (p : Packet) (q k : ℕ)
    → length (n.buffers k).frame ≡ frame_bytes
    → packet_header_size + length p.payload ≤ mtu
    → 14 ≤ data_offset
    → data_offset ≤ packet_header_size
    → (length (frame_of data_offset n p q k)
        ≡ header_size + (packet_header_size + length p.payload))
      × Carries data_offset n.address p
          (if n.writes_quadrant then q else byte 26 (n.buffers k).frame)
          (frame_of data_offset n p q k)
frame_of-Carries data_offset n p q k whole fits past within =
    let old = (n.buffers k).frame in
    let laid = laid_out data_offset n.address p old in
    let long = length-laid_out data_offset n.address p old whole fits past within in
    let quad = if n.writes_quadrant then q else byte 26 old in
    (
      length-take _ _ (omega (arith, fits, long, length-stamped n.writes_quadrant q laid long)),
      take-Carries data_offset n.address p quad (stamped n.writes_quadrant q laid) []
          (header_size + (packet_header_size + length p.payload))
          (stamped-Carries data_offset n.address p (byte 26 old) laid n.writes_quadrant q
            (laid_out-Carries data_offset n.address p old whole fits past within) long past)
          within (omega arith),
    )

-- The buffer that a frame with a packet is received into, and what it carries.
pub held-Carries :
    (data_offset : ℕ) (src : Mac) (p : Packet) (quad : ℕ) (f : List ℕ) (m : Nic)
    (drops : List ℕ → Bool) (j : ℕ) (more : List ℕ)
    → Carries data_offset src p quad f
    → length f ≡ header_size + (packet_header_size + length p.payload)
    → data_offset ≤ packet_header_size
    → packet_header_size + length p.payload ≤ mtu
    → m.free_list ≡ j ∷ more
    → drops (overlay 0 f (m.buffers j).frame) ≡ false
    → ((handle m f drops).1 ≡ some j)
      × ((handle m f drops).0.buffers j ≡ record {
        frame = overlay 0 f (m.buffers j).frame;
        size = packet_header_size + length p.payload;
      })
      × Carries data_offset src p quad (overlay 0 f (m.buffers j).frame)
unfolding handle
held-Carries data_offset src p quad f m drops j more sent long within fits free kept =
    let (got, held) =
      receive-whole m f drops j more free (omega (arith, long, fits)) (omega (arith, long)) kept in
    let in_buffer = overlay 0 f (m.buffers j).frame in
    let carries : Carries data_offset src p quad in_buffer =
      overlay-Carries data_offset src p quad f (m.buffers j).frame
        (header_size + (packet_header_size + length p.payload)) sent within (omega arith)
        (sym long) in
    let own =
      by_type-own (receive m f drops) j got (
        ap (λ b. prot_of b.frame) held
        ∙ prot_of-Carries data_offset src p quad in_buffer carries) in
    (
      ap (λ r. r.1) own ∙ got,
      ap (λ r. r.0.buffers j) own
          ∙ held
          ∙ ap (λ l. record { frame = overlay 0 f (m.buffers j).frame; size = l })
              (omega (arith, long)),
      carries,
    )

-- The same for the frame of a NIC.
pub received-Carries :
    (data_offset : ℕ) (n m : Nic) (p : Packet) (q : ℕ) (drops : List ℕ → Bool) (k j : ℕ)
    (more : List ℕ)
    → 14 ≤ data_offset
    → data_offset ≤ packet_header_size
    → packet_header_size + length p.payload ≤ mtu
    → length (n.buffers k).frame ≡ frame_bytes
    → m.free_list ≡ j ∷ more
    → drops (overlay 0 (frame_of data_offset n p q k) (m.buffers j).frame) ≡ false
    → let f = frame_of data_offset n p q k in
      ((handle m f drops).1 ≡ some j)
      × ((handle m f drops).0.buffers j ≡ record {
        frame = overlay 0 f (m.buffers j).frame;
        size = packet_header_size + length p.payload;
      })
      × Carries data_offset n.address p
          (if n.writes_quadrant then q else byte 26 (n.buffers k).frame)
          (overlay 0 f (m.buffers j).frame)
received-Carries data_offset n m p q drops k j more past within fits whole free kept =
    let (long, sent) = frame_of-Carries data_offset n p q k whole fits past within in
    held-Carries data_offset n.address p
      (if n.writes_quadrant then q else byte 26 (n.buffers k).frame) (frame_of data_offset n p q k)
      m drops j more sent long within fits free kept

-- A packet that fits, sent by a NIC with a free buffer, leaves exactly if the engine sends it. Where a
-- NIC with a free buffer receives its frame and does not drop it, the protocol is given it, and a
-- receiver with room for it gets the sender's address and port, the stamp and the payload. The quadrant is the sender's if its NIC writes one, which the socket's
-- does; otherwise it is what stood in the sender's buffer from its last use.
pub received_as_sent :
    (data_offset : ℕ) (n m : Nic) (p : Packet) (q : ℕ) (bytes : Option ℕ) (drops : List ℕ → Bool)
    (k j size : ℕ) (rest more : List ℕ)
    → 14 ≤ data_offset
    → data_offset ≤ packet_header_size
    → packet_header_size + length p.payload ≤ mtu
    → length p.payload ≤ size
    → p.from.port < 65536
    → stamp_of p < 2 ^ 63
    → n.free_list ≡ k ∷ rest
    → length (n.buffers k).frame ≡ frame_bytes
    → m.free_list ≡ j ∷ more
    → drops (overlay 0 (frame_of data_offset n p q k) (m.buffers j).frame) ≡ false
    → let f = frame_of data_offset n p q k in
      ((send_via_nic data_offset n p q bytes).1 ≡ (if was_sent bytes then some f else none))
      × ((handle m f drops).1 ≡ some j)
      × ((receive_packet data_offset (handle m f drops).0 j size).1
          ≡ some (record {
            from = record { paddr = n.address; port = p.from.port };
            timestamp = pos (stamp_of p);
            quadrant = if n.writes_quadrant then q else byte 26 (n.buffers k).frame;
            payload = p.payload;
          }))
received_as_sent data_offset n m p q bytes drops k j size rest more past within fits room port stamp
      free whole free_too kept =
    let quad = if n.writes_quadrant then q else byte 26 (n.buffers k).frame in
    let f = frame_of data_offset n p q k in
    let (got, held, carries) =
      received-Carries data_offset n m p q drops k j more past within fits whole free_too kept in
    (
      send_via_nic-frame data_offset n p q bytes k rest free fits,
      got,
      receive_packet-Carries data_offset (handle m f drops).0 j size quad n.address p
          (overlay 0 f (m.buffers j).frame) carries held room port stamp,
    )
