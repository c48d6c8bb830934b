-- ===== src/Network/Nic/Transfer/Unmarshal.antt =====
-- What `unmarshal` gets of what `send` from memory sent.
use communication_in_critica.Prelude.{
  eq_self, ℕ, ◌+◌, ◌-◌, ◌≤◌, ◌≡◌, refl, sym, ap, ◌∙◌, List, ◌∷◌, Bool, false, Bool-cases, inl, inr,
  Option, none, some, if◌then◌else◌, ltb, length, take, length-take, take_long, chunk, take-all,
  arith,
}
use communication_in_critica.Ethernet.{Mac, header_size, mtu}
use communication_in_critica.Network.Nic.{
  Nic, Sent, send, receive, overlay, ethernet_header, mac_bytes, frame_bytes,
}
use communication_in_critica.Network.Nic.Frame.{
  length-overlay, chunk-overlay, chunk-overlay_before, chunk-take,
}
use communication_in_critica.Network.Nic.Transfer.{send_data, unmarshal}
use communication_in_critica.Channel.Protocol.Carrying.{mac_at-chunk}
use communication_in_critica.Channel.Protocol.RoundTrip.{alloc-free, receive-whole}

-- The frame that is sent.
abbrev pub data_frame : Nic → Mac → ℕ → List ℕ → ℕ → List ℕ
data_frame n dst prot bytes k =
    take (header_size + length bytes) (
      overlay header_size bytes
        (overlay 0 (ethernet_header dst n.address prot) (n.buffers k).frame))

abbrev pub frame_sent : Option Sent → Option (List ℕ)
frame_sent none = none
frame_sent (some s) = some s.frame

send_data-frame :
    (n : Nic) (dst : Mac) (prot : ℕ) (bytes : List ℕ) (q : ℕ) (engine : Option ℕ) (k : ℕ)
    (rest : List ℕ)
    → n.free_list ≡ k ∷ rest
    → length bytes ≤ mtu
    → n.writes_quadrant ≡ false
    → frame_sent (send_data n dst prot bytes q engine) ≡ some (data_frame n dst prot bytes k)
unfolding send_data send
send_data-frame n dst prot bytes q engine k rest free fits plain =
    rw (alloc-free n dst prot (length bytes) k rest free fits, send_data, eq_self k, plain) refl

length-header : (dst src : Mac) (prot : ℕ) → length (ethernet_header dst src prot) ≡ 14
unfolding ethernet_header
length-header dst src prot = refl

macs-header :
    (dst src : Mac) (prot : ℕ)
    → (chunk 0 6 (ethernet_header dst src prot) ≡ mac_bytes dst)
      × (chunk 6 6 (ethernet_header dst src prot) ≡ mac_bytes src)
unfolding ethernet_header
macs-header dst src prot = (refl, refl)

take-shorter :
    (size : ℕ) (bytes : List ℕ)
    → take (if ltb size (length bytes) then size else length bytes) bytes ≡ take size bytes
take-shorter size bytes = elim (Bool-cases (ltb size (length bytes))) [
  | inl l ↦ rw l refl
  | inr l ↦ rw l (take-all bytes ∙ sym (take_long size bytes (ground (arith, l))))
]

-- The frame of a NIC with a whole buffer, and the buffer that it is received into.
module _ (n : Nic) (dst : Mac) (prot : ℕ) (bytes : List ℕ) (k : ℕ) (old : List ℕ)
    (whole : length (n.buffers k).frame ≡ frame_bytes) (fits : length bytes ≤ mtu) where
  abbrev headed : List ℕ
  headed = overlay 0 (ethernet_header dst n.address prot) (n.buffers k).frame

  length-headed : length headed ≡ 1514
  length-headed =
      length-overlay 0 (ethernet_header dst n.address prot) (n.buffers k).frame
        (omega (arith, whole, length-header dst n.address prot))
      ∙ whole

  length-data_frame : length (data_frame n dst prot bytes k) ≡ 14 + length bytes
  length-data_frame = length-take (14 + length bytes) (overlay 14 bytes headed) (
      omega (
        arith,
        fits,
        length-headed,
        length-overlay 14 bytes headed (omega (arith, fits, length-headed)),
      ))

  in_buffer :
      (i m : ℕ)
      → i + m ≤ 14 + length bytes
      → chunk i m (overlay 0 (data_frame n dst prot bytes k) old)
        ≡ chunk i m (overlay 14 bytes headed)
  in_buffer i m h =
      ap (λ l. chunk l m (overlay 0 (data_frame n dst prot bytes k) old)) (omega arith)
      ∙ chunk-overlay 0 (data_frame n dst prot bytes k) old i m (omega arith)
          (omega (arith, h, length-data_frame))
      ∙ chunk-take i m (14 + length bytes) (overlay 14 bytes headed) h

  in_header :
      (i m : ℕ)
      → i + m ≤ 14
      → chunk i m (overlay 0 (data_frame n dst prot bytes k) old)
        ≡ chunk i m (ethernet_header dst n.address prot)
  in_header i m h =
      in_buffer i m (omega (arith, h))
      ∙ chunk-overlay_before 14 bytes headed i m (omega (arith, length-headed)) h
      ∙ ap (λ l. chunk l m headed) (omega arith)
      ∙ chunk-overlay 0 (ethernet_header dst n.address prot) (n.buffers k).frame i m (omega arith)
          (omega (arith, h, length-header dst n.address prot))

  in_data :
      (m : ℕ)
      → m ≤ length bytes
      → chunk 14 m (overlay 0 (data_frame n dst prot bytes k) old) ≡ take m bytes
  in_data m h =
      in_buffer 14 m (omega (arith, h))
      ∙ chunk-overlay 14 bytes headed 0 m (omega (arith, length-headed)) (omega (arith, h))

-- What is sent from memory, if it fits, by a NIC with a free buffer that writes no quadrant, and
-- received by one with a free buffer that does not drop it, is what `unmarshal` gives: the source,
-- the destination, and of the bytes as many as there is room for.
pub unmarshal_as_sent :
    (n m : Nic) (dst : Mac) (prot : ℕ) (bytes : List ℕ) (q : ℕ) (engine : Option ℕ)
    (drops : List ℕ → Bool) (k j size : ℕ) (rest more : List ℕ)
    → length bytes ≤ mtu
    → n.writes_quadrant ≡ false
    → n.free_list ≡ k ∷ rest
    → length (n.buffers k).frame ≡ frame_bytes
    → m.free_list ≡ j ∷ more
    → drops (overlay 0 (data_frame n dst prot bytes k) (m.buffers j).frame) ≡ false
    → let f = data_frame n dst prot bytes k in
      (frame_sent (send_data n dst prot bytes q engine) ≡ some f)
      × ((receive m f drops).1 ≡ some j)
      × (unmarshal (receive m f drops).0 j size ≡ (n.address, dst, take size bytes))
unfolding unmarshal
unmarshal_as_sent n m dst prot bytes q engine drops k j size rest more fits plain free whole
      free_too kept =
    let f = data_frame n dst prot bytes k in
    let old = (m.buffers j).frame in
    let long = length-data_frame n dst prot bytes k old whole fits in
    let g = overlay 0 f old in
    let (got, held) =
      receive-whole m f drops j more free_too (omega (arith, long, fits)) (omega (arith, long))
        kept in
    let at_size : length f - header_size ≡ length bytes = omega (arith, long) in
    let (to, from) = macs-header dst n.address prot in
    let source =
      mac_at-chunk 6 g n.address
        (in_header n dst prot bytes k old whole fits 6 6 (omega arith) ∙ from) in
    let destination =
      mac_at-chunk 0 g dst (in_header n dst prot bytes k old whole fits 0 6 (omega arith) ∙ to) in
    let copy = if ltb size (length bytes) then size else length bytes in
    let copied =
      in_data n dst prot bytes k old whole fits copy (ground arith) ∙ take-shorter size bytes in
    (
      send_data-frame n dst prot bytes q engine k rest free fits plain,
      got,
      rw (held, at_size) (λ i. (source i, destination i, copied i)),
    )
