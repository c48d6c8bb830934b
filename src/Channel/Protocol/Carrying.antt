-- ===== src/Channel/Protocol/Carrying.antt =====
-- A frame that carries a packet of src/channel/protocol.h: which parts of it are the packet's, and
-- that the frame still carries the packet when it is sent, and in the buffer that receives it.
use communication_in_critica.Prelude.{
  ℕ, zero, suc, ◌⊎◌, ◌+◌, ◌^◌, ◌≤◌, ◌<◌, ◌≡◌, refl, sym, ap, ◌∙◌, List, [], ◌∷◌, ◌++◌, Bool,
  Bool-cases, inl, inr, if◌then◌else◌, ◌==◌, length, to_bytes, from_bytes, from_bytes-to_bytes,
  chunk, take, drop, drop-drop, pos, int64_of, arith,
}
use communication_in_critica.Ethernet.{Mac, header_size, mtu, type_hi, type_lo, type_of}
use communication_in_critica.Channel.Protocol.{proto}
use communication_in_critica.Network.Nic.{overlay, mac_bytes, quadrant_offset, frame_bytes}
use communication_in_critica.Network.Nic.Frame.{
  chunk-overlay, chunk-overlay_before, chunk-overlay_after, chunk-take, from_bytes-chunk,
}
use communication_in_critica.Channel.Protocol.Header.{
  packet_header_size, byte, prot_of, mac_at, src_of, dst_of, kind_of, payload_of, src_port_of,
  dst_port_of, timestamp_of, data_of,
}
use communication_in_critica.Channel.Protocol.Endpoint.{Packet, stamp_and_ports}
use communication_in_critica.Channel.Protocol.Packing.{
  laid_out, stamped, destination-laid_out, source-laid_out, type-laid_out, ports-laid_out,
  kind-laid_out, quadrant-laid_out, data-laid_out,
}

-- The frame has the parts of the packet, and a quadrant.
pub record Carries (data_offset : ℕ) (src : Mac) (p : Packet) (quad : ℕ) (f : List ℕ) : Type 0 where
  pub destination : chunk 0 6 f ≡ mac_bytes p.to.paddr
  pub source : chunk 6 6 f ≡ mac_bytes src
  pub ethertype : chunk 12 2 f ≡ type_hi proto ∷ type_lo proto ∷ []
  pub ports : chunk 14 12 f ≡ stamp_and_ports p
  pub quadrant : chunk 26 1 f ≡ quad ∷ []
  pub kind : chunk 27 1 f ≡ p.kind ∷ []
  pub payload : chunk (14 + data_offset) (length p.payload) f ≡ p.payload

from_one : (x : ℕ) (xs : List ℕ) → from_bytes 1 (x ∷ xs) ≡ x
unfolding from_bytes
from_one x xs = omega arith

chunk_one : (i : ℕ) (xs : List ℕ) → i < length xs → chunk i 1 xs ≡ byte i xs ∷ []
unfolding from_bytes
chunk_one i [] h = absurd (omega (arith, h))
chunk_one zero (x ∷ xs) h = ap (λ b. b ∷ []) (sym (from_one x xs))
chunk_one (suc i) (x ∷ xs) h = chunk_one i xs (omega (arith, h))

int64_of_small : (n : ℕ) → n < 2 ^ 63 → int64_of n ≡ pos n
int64_of_small n h = ground (arith, h)

-- An address is read from where its bytes are.
module _ (i : ℕ) (f : List ℕ) (a : Mac) (h : chunk i 6 f ≡ mac_bytes a) where
  byte_of : (j : ℕ) → j + 1 ≤ 6 → byte (i + j) f ≡ byte j (mac_bytes a)
  byte_of j l =
      ap (from_bytes 1) (sym (drop-drop j i f))
      ∙ from_bytes-chunk i 6 j 1 f l
      ∙ ap (λ xs. byte j xs) h

  pub mac_at-chunk : mac_at i f ≡ a
  mac_at-chunk =
      let here : i ≡ i + 0 = omega arith in
      λ k. record {
        b0 = (ap (λ m. byte m f) here ∙ byte_of 0 (omega arith) ∙ from_one a.b0 _) k;
        b1 = (byte_of 1 (omega arith) ∙ from_one a.b1 _) k;
        b2 = (byte_of 2 (omega arith) ∙ from_one a.b2 _) k;
        b3 = (byte_of 3 (omega arith) ∙ from_one a.b3 _) k;
        b4 = (byte_of 4 (omega arith) ∙ from_one a.b4 _) k;
        b5 = (byte_of 5 (omega arith) ∙ from_one a.b5 _) k;
      }

module _ (data_offset : ℕ) (src : Mac) (p : Packet) (quad : ℕ) (f : List ℕ)
    (c : Carries data_offset src p quad f) where
  pub src_of-Carries : src_of f ≡ src
  src_of-Carries = mac_at-chunk 6 f src c.source

  pub dst_of-Carries : dst_of f ≡ p.to.paddr
  dst_of-Carries = mac_at-chunk 0 f p.to.paddr c.destination

  type_byte-Carries : (byte 12 f ≡ type_hi proto) × (byte 13 f ≡ type_lo proto)
  type_byte-Carries = (
    from_bytes-chunk 12 2 0 1 f (omega arith)
        ∙ ap (from_bytes 1) c.ethertype
        ∙ from_one (type_hi proto) (type_lo proto ∷ []),
    ap (from_bytes 1) (sym (drop-drop 1 12 f))
        ∙ from_bytes-chunk 12 2 1 1 f (omega arith)
        ∙ ap (λ xs. from_bytes 1 (drop 1 xs)) c.ethertype
        ∙ from_one (type_lo proto) [],
  )

  pub prot_of-Carries : prot_of f ≡ proto
  unfolding prot_of type_hi type_lo
  prot_of-Carries = let (high, low) = type_byte-Carries in λ i. type_of (high i) (low i)

  pub kind_of-Carries : kind_of f ≡ p.kind
  unfolding kind_of
  kind_of-Carries =
      ap (from_bytes 1) (drop-drop 13 14 f)
      ∙ from_bytes-chunk 27 1 0 1 f (omega arith)
      ∙ ap (from_bytes 1) c.kind
      ∙ from_one p.kind []

  pub src_port_of-Carries : p.from.port < 65536 → src_port_of f ≡ p.from.port
  unfolding src_port_of stamp_and_ports
  src_port_of-Carries h =
      from_bytes-chunk 14 12 8 2 f (omega arith)
      ∙ ap (λ xs. from_bytes 2 (drop 8 xs)) c.ports
      ∙ omega (arith, h)

  pub dst_port_of-Carries : p.to.port < 65536 → dst_port_of f ≡ p.to.port
  unfolding dst_port_of stamp_and_ports
  dst_port_of-Carries h =
      from_bytes-chunk 14 12 10 2 f (omega arith)
      ∙ ap (λ xs. from_bytes 2 (drop 10 xs)) c.ports
      ∙ omega (arith, h)

  pub timestamp_of-Carries :
      (if p.ts == 0 then p.now else p.ts) < 2 ^ 63
      → timestamp_of f ≡ pos (if p.ts == 0 then p.now else p.ts)
  unfolding timestamp_of stamp_and_ports
  timestamp_of-Carries h =
      let ts = if p.ts == 0 then p.now else p.ts in
      ap int64_of (
        from_bytes-chunk 14 12 0 8 f (omega arith)
        ∙ ap (from_bytes 8) c.ports
        ∙ from_bytes-to_bytes 8 ts (to_bytes 2 p.from.port ++ to_bytes 2 p.to.port)
            (omega (arith, h)))
      ∙ int64_of_small ts h

  pub quadrant-Carries : byte quadrant_offset (payload_of f) ≡ quad
  quadrant-Carries =
      ap (from_bytes 1) (drop-drop 12 14 f)
      ∙ from_bytes-chunk 26 1 0 1 f (omega arith)
      ∙ ap (from_bytes 1) c.quadrant
      ∙ from_one quad []

  pub data_of-Carries : data_of data_offset f (packet_header_size + length p.payload) ≡ p.payload
  data_of-Carries =
      ap (λ n. take n (drop data_offset (drop 14 f))) (omega arith)
      ∙ ap (take (length p.payload)) (drop-drop data_offset 14 f)
      ∙ c.payload

-- Of a whole frame the NIC changes no byte but the quadrant's.
module _ (data_offset : ℕ) (src : Mac) (p : Packet) (quad : ℕ) (f : List ℕ) (writes : Bool) (q : ℕ)
    (c : Carries data_offset src p quad f) (long : length f ≡ frame_bytes)
    (past : 14 ≤ data_offset) where
  chunk-stamped : (i n : ℕ) → (i + n ≤ 26) ⊎ (27 ≤ i) → chunk i n (stamped writes q f) ≡ chunk i n f
  chunk-stamped i n h = elim (Bool-cases writes) [
    | inl w ↦ rw w (elim h [
      | inl before ↦
          chunk-overlay_before 26 (q ∷ []) f i n (omega (arith, long)) (omega (arith, before))
      | inr after ↦
          chunk-overlay_after 26 (q ∷ []) f i n (omega (arith, long)) (omega (arith, after))
    ])
    | inr w ↦ rw w refl
  ]

  pub stamped-Carries : Carries data_offset src p (if writes then q else quad) (stamped writes q f)
  stamped-Carries = record {
    destination = chunk-stamped 0 6 (inl (omega arith)) ∙ c.destination;
    source = chunk-stamped 6 6 (inl (omega arith)) ∙ c.source;
    ethertype = chunk-stamped 12 2 (inl (omega arith)) ∙ c.ethertype;
    ports = chunk-stamped 14 12 (inl (omega arith)) ∙ c.ports;
    quadrant = elim (Bool-cases writes) [
      | inl w ↦ rw w (chunk-overlay 26 (q ∷ []) f 0 1 (omega (arith, long)) (omega arith))
      | inr w ↦ rw w c.quadrant
    ];
    kind = chunk-stamped 27 1 (inr (omega arith)) ∙ c.kind;
    payload =
        chunk-stamped (14 + data_offset) (length p.payload) (inr (omega (arith, past))) ∙ c.payload;
  }

-- The frame that is laid out carries the packet, with the quadrant that stood in the buffer.
pub laid_out-Carries :
    (data_offset : ℕ) (src : Mac) (p : Packet) (old : List ℕ)
    → length old ≡ frame_bytes
    → packet_header_size + length p.payload ≤ mtu
    → 14 ≤ data_offset
    → data_offset ≤ packet_header_size
    → Carries data_offset src p (byte 26 old) (laid_out data_offset src p old)
laid_out-Carries data_offset src p old whole fits past within = record {
  destination = destination-laid_out data_offset src p old whole fits past within;
  source = source-laid_out data_offset src p old whole fits past within;
  ethertype = type-laid_out data_offset src p old whole fits past within;
  ports = ports-laid_out data_offset src p old whole fits past within;
  quadrant =
      quadrant-laid_out data_offset src p old whole fits past within
      ∙ chunk_one 26 old (omega (arith, whole));
  kind = kind-laid_out data_offset src p old whole fits past within;
  payload = data-laid_out data_offset src p old whole fits past within;
}

-- A frame cut after the packet, and the buffer that it is received into, carry the packet.
module _ (data_offset : ℕ) (src : Mac) (p : Packet) (quad : ℕ) (f old : List ℕ) (size : ℕ)
    (c : Carries data_offset src p quad f) (within : data_offset ≤ packet_header_size)
    (all : header_size + packet_header_size + length p.payload ≤ size) where
  pub take-Carries : Carries data_offset src p quad (take size f)
  take-Carries = record {
    destination = chunk-take 0 6 size f (omega (arith, all)) ∙ c.destination;
    source = chunk-take 6 6 size f (omega (arith, all)) ∙ c.source;
    ethertype = chunk-take 12 2 size f (omega (arith, all)) ∙ c.ethertype;
    ports = chunk-take 14 12 size f (omega (arith, all)) ∙ c.ports;
    quadrant = chunk-take 26 1 size f (omega (arith, all)) ∙ c.quadrant;
    kind = chunk-take 27 1 size f (omega (arith, all)) ∙ c.kind;
    payload =
        chunk-take (14 + data_offset) (length p.payload) size f (omega (arith, all, within))
        ∙ c.payload;
  }

  chunk-copied :
      (i n : ℕ) → size ≡ length f → i + n ≤ size → chunk i n (overlay 0 f old) ≡ chunk i n f
  chunk-copied i n same h =
      ap (λ j. chunk j n (overlay 0 f old)) (omega arith)
      ∙ chunk-overlay 0 f old i n (omega arith) (omega (arith, same, h))

  pub overlay-Carries : size ≡ length f → Carries data_offset src p quad (overlay 0 f old)
  overlay-Carries same = record {
    destination = chunk-copied 0 6 same (omega (arith, all)) ∙ c.destination;
    source = chunk-copied 6 6 same (omega (arith, all)) ∙ c.source;
    ethertype = chunk-copied 12 2 same (omega (arith, all)) ∙ c.ethertype;
    ports = chunk-copied 14 12 same (omega (arith, all)) ∙ c.ports;
    quadrant = chunk-copied 26 1 same (omega (arith, all)) ∙ c.quadrant;
    kind = chunk-copied 27 1 same (omega (arith, all)) ∙ c.kind;
    payload =
        chunk-copied (14 + data_offset) (length p.payload) same (omega (arith, all, within))
        ∙ c.payload;
  }
