-- ===== src/Channel/Protocol/Packing.antt =====
-- What stands in the frame that `send_via_nic` of src/channel/protocol.h hands to the engine.
use communication_in_critica.Prelude.{
  ℕ, ◌+◌, ◌≤◌, ◌≡◌, refl, ap, ◌∙◌, List, [], ◌∷◌, ◌++◌, Bool, if◌then◌else◌, length, length-append,
  Bool-cases, inl, inr, to_bytes, ◌==◌, length-to_bytes, chunk, take-all, take_long, arith,
}
use communication_in_critica.Ethernet.{Mac, header_size, type_hi, type_lo}
use communication_in_critica.Network.Nic.{
  overlay, mac_bytes, ethernet_header, quadrant_offset, frame_bytes,
}
use communication_in_critica.Network.Nic.Frame.{
  length-overlay, chunk-overlay, chunk-overlay_before, chunk-overlay_after,
}
use communication_in_critica.Channel.Protocol.{proto}
use communication_in_critica.Channel.Protocol.Header.{packet_header_size}
use communication_in_critica.Channel.Protocol.Endpoint.{Packet, stamp_and_ports}

-- The frame after each write, over what the buffer had; the quadrant is the NIC's to write.
abbrev addressed : Mac → Packet → List ℕ → List ℕ
addressed src p old = overlay 0 (ethernet_header p.to.paddr src proto) old

abbrev with_ports : Mac → Packet → List ℕ → List ℕ
with_ports src p old = overlay header_size (stamp_and_ports p) (addressed src p old)

abbrev with_kind : Mac → Packet → List ℕ → List ℕ
with_kind src p old = overlay (header_size + 13) (p.kind ∷ []) (with_ports src p old)

abbrev pub laid_out : ℕ → Mac → Packet → List ℕ → List ℕ
laid_out data_offset src p old = overlay (header_size + data_offset) p.payload (with_kind src p old)

abbrev pub stamped : Bool → ℕ → List ℕ → List ℕ
stamped writes q f = if writes then overlay (header_size + quadrant_offset) (q ∷ []) f else f

pub length-stamped :
    (writes : Bool) (q : ℕ) (f : List ℕ)
    → length f ≡ frame_bytes
    → length (stamped writes q f) ≡ frame_bytes
length-stamped writes q f long = elim (Bool-cases writes) [
  | inl w ↦ rw w (length-overlay 26 (q ∷ []) f (omega (arith, long)) ∙ long)
  | inr w ↦ rw w long
]

pub length-stamp_and_ports : (p : Packet) → length (stamp_and_ports p) ≡ 12
unfolding stamp_and_ports
length-stamp_and_ports p = omega (
  arith,
  length-append (to_bytes 8 (if p.ts == 0 then p.now else p.ts))
      (to_bytes 2 p.from.port ++ to_bytes 2 p.to.port),
  length-append (to_bytes 2 p.from.port) (to_bytes 2 p.to.port),
  length-to_bytes 8 (if p.ts == 0 then p.now else p.ts),
  length-to_bytes 2 p.from.port,
  length-to_bytes 2 p.to.port,
)

pub length-ethernet_header : (dst src : Mac) (prot : ℕ) → length (ethernet_header dst src prot) ≡ 14
unfolding ethernet_header
length-ethernet_header dst src prot = refl

pub source-header :
    (dst src : Mac) (prot : ℕ) → chunk 6 6 (ethernet_header dst src prot) ≡ mac_bytes src
unfolding ethernet_header
source-header dst src prot = refl

pub type-header :
    (dst src : Mac) (prot : ℕ)
    → chunk 12 2 (ethernet_header dst src prot) ≡ type_hi prot ∷ type_lo prot ∷ []
unfolding ethernet_header
type-header dst src prot = refl

pub destination-header :
    (dst src : Mac) (prot : ℕ) → chunk 0 6 (ethernet_header dst src prot) ≡ mac_bytes dst
unfolding ethernet_header
destination-header dst src prot = refl

-- The parts of the frame, for a buffer of a whole frame and a payload that fits.
module _ (data_offset : ℕ) (src : Mac) (p : Packet) (old : List ℕ)
    (whole : length old ≡ frame_bytes) (fits : packet_header_size + length p.payload ≤ 1500)
    (past : 14 ≤ data_offset) (within : data_offset ≤ packet_header_size) where
  length-addressed : length (addressed src p old) ≡ 1514
  length-addressed =
      length-overlay 0 (ethernet_header p.to.paddr src proto) old
        (omega (arith, whole, length-ethernet_header p.to.paddr src proto))
      ∙ whole

  length-with_ports : length (with_ports src p old) ≡ 1514
  length-with_ports =
      length-overlay 14 (stamp_and_ports p) (addressed src p old)
        (omega (arith, length-addressed, length-stamp_and_ports p))
      ∙ length-addressed

  length-with_kind : length (with_kind src p old) ≡ 1514
  length-with_kind =
      length-overlay 27 (p.kind ∷ []) (with_ports src p old) (omega (arith, length-with_ports))
      ∙ length-with_ports

  pub length-laid_out : length (laid_out data_offset src p old) ≡ 1514
  length-laid_out =
      length-overlay (14 + data_offset) p.payload (with_kind src p old)
        (omega (arith, length-with_kind, fits, within))
      ∙ length-with_kind

  -- The parts before the data are as they were when the kind was written.
  before_data :
      (i n : ℕ)
      → i + n ≤ 28
      → chunk i n (laid_out data_offset src p old) ≡ chunk i n (with_kind src p old)
  before_data i n h =
      chunk-overlay_before (14 + data_offset) p.payload (with_kind src p old) i n
        (omega (arith, length-with_kind, within)) (omega (arith, h, past))

  -- The parts of the Ethernet header are as they were when it was written.
  before_ports :
      (i n : ℕ)
      → i + n ≤ 14
      → chunk i n (laid_out data_offset src p old)
        ≡ chunk i n (ethernet_header p.to.paddr src proto)
  before_ports i n h =
      before_data i n (omega (arith, h))
      ∙ chunk-overlay_before 27 (p.kind ∷ []) (with_ports src p old) i n
          (omega (arith, length-with_ports)) (omega (arith, h))
      ∙ chunk-overlay_before 14 (stamp_and_ports p) (addressed src p old) i n
          (omega (arith, length-addressed)) (omega (arith, h))
      ∙ ap (λ k. chunk k n (addressed src p old)) (omega arith)
      ∙ chunk-overlay 0 (ethernet_header p.to.paddr src proto) old i n (omega (arith, whole))
          (omega (arith, h, length-ethernet_header p.to.paddr src proto))

  pub destination-laid_out : chunk 0 6 (laid_out data_offset src p old) ≡ mac_bytes p.to.paddr
  destination-laid_out = before_ports 0 6 (omega arith) ∙ destination-header p.to.paddr src proto

  pub source-laid_out : chunk 6 6 (laid_out data_offset src p old) ≡ mac_bytes src
  source-laid_out = before_ports 6 6 (omega arith) ∙ source-header p.to.paddr src proto

  pub type-laid_out :
      chunk 12 2 (laid_out data_offset src p old) ≡ type_hi proto ∷ type_lo proto ∷ []
  type-laid_out = before_ports 12 2 (omega arith) ∙ type-header p.to.paddr src proto

  pub ports-laid_out : chunk 14 12 (laid_out data_offset src p old) ≡ stamp_and_ports p
  ports-laid_out =
      before_data 14 12 (omega arith)
      ∙ chunk-overlay_before 27 (p.kind ∷ []) (with_ports src p old) 14 12
          (omega (arith, length-with_ports)) (omega arith)
      ∙ chunk-overlay 14 (stamp_and_ports p) (addressed src p old) 0 12
          (omega (arith, length-addressed)) (omega (arith, length-stamp_and_ports p))
      ∙ take_long 12 (stamp_and_ports p) (omega (arith, length-stamp_and_ports p))

  pub kind-laid_out : chunk 27 1 (laid_out data_offset src p old) ≡ p.kind ∷ []
  kind-laid_out =
      before_data 27 1 (omega arith)
      ∙ chunk-overlay 27 (p.kind ∷ []) (with_ports src p old) 0 1 (omega (arith, length-with_ports))
          (omega arith)

  pub quadrant-laid_out : chunk 26 1 (laid_out data_offset src p old) ≡ chunk 26 1 old
  quadrant-laid_out =
      before_data 26 1 (omega arith)
      ∙ chunk-overlay_before 27 (p.kind ∷ []) (with_ports src p old) 26 1
          (omega (arith, length-with_ports)) (omega arith)
      ∙ chunk-overlay_after 14 (stamp_and_ports p) (addressed src p old) 26 1
          (omega (arith, length-addressed)) (omega (arith, length-stamp_and_ports p))
      ∙ chunk-overlay_after 0 (ethernet_header p.to.paddr src proto) old 26 1 (omega (arith, whole))
          (omega (arith, length-ethernet_header p.to.paddr src proto))

  pub data-laid_out :
      chunk (14 + data_offset) (length p.payload) (laid_out data_offset src p old) ≡ p.payload
  data-laid_out =
      ap (λ i. chunk i (length p.payload) (laid_out data_offset src p old)) (omega arith)
      ∙ chunk-overlay (14 + data_offset) p.payload (with_kind src p old) 0 (length p.payload)
          (omega (arith, length-with_kind, within)) (omega arith)
      ∙ take-all p.payload
