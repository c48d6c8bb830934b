-- ===== src/Communication/Journey/Echo.antt =====
-- What a gateway does with a frame that came from the network and that it reads back from the ring.
use communication_in_critica.Prelude.{
  if◌then◌else◌, ltb-false, eq_self, ℕ, zero, suc, ◌+◌, ◌-◌, ◌≤◌, ◌≡◌, ◌≢◌, ◌⊎◌, refl, sym, ap, ◌∙◌,
  List, [], ◌∷◌, ◌++◌, Bool, Bool-cases, inl, inr, true, false, ◌&&◌, ◌||◌, Option, none, some, ltb,
  ◌==◌, length, take, drop, take-all, take-append-before, from_bytes, ◌>>=◌, arith,
}
use communication_in_critica.Ethernet.{Mac, mac_eq, mac_eq_iff, broadcast, header_size, mtu}
use communication_in_critica.Gps.Device.{quadrant_none}
use communication_in_critica.Network.Nic.{
  was_sent, Nic, alloc, alloc_buf, receive, arrived, overlay, frame_bytes,
}
use communication_in_critica.Channel.Protocol.{
  handle, Gateway, Engines, forward, update_shm, update_socket,
}
use communication_in_critica.Channel.Protocol.Header.{
  packet_header_size, src_of, dst_of, kind_of, byte,
}
use communication_in_critica.Channel.Protocol.RoundTrip.{
  handle-dropped, by_type-cases, alloc_buf-free,
}
use communication_in_critica.Channel.Protocol.Forwarding.{forwarded, forward-frame}
use communication_in_critica.Channel.Protocol.Events.{shm_drops, socket_drops}
use communication_in_critica.Communication.Journey.{uplink, downlink}

List-cases : (xs : List ℕ) → (xs ≡ []) ⊎ ((k : ℕ) × (rest : List ℕ) × (xs ≡ k ∷ rest))
List-cases [] = inl refl
List-cases (k ∷ rest) = inr (k, rest, refl)

-- A frame is received by nobody, or is in a buffer as it came.
receive-cases :
    (n : Nic) (f : List ℕ) (drops : List ℕ → Bool)
    → length f ≤ frame_bytes
    → ((receive n f drops).1 ≡ none)
      ⊎ ((j : ℕ) × ((receive n f drops).1 ≡ some j)
          × ((receive n f drops).0.buffers j
              ≡ record { frame = overlay 0 f (n.buffers j).frame; size = length f - header_size })
          × (header_size ≤ length f))
unfolding receive arrived
receive-cases n f drops short = elim (List-cases n.free_list) [
  | inl e ↦ inl (rw (e, alloc_buf, receive) refl)
  | inr (j, rest, e) ↦
      elim (Bool-cases (ltb (length f) header_size || drops (overlay 0 f (n.buffers j).frame))) [
        | inl dropped ↦ inl (
            rw
              (
                alloc_buf-free n j rest e,
                receive,
                ltb-false frame_bytes (length f) short,
                take-all f,
                dropped,
              )
              refl)
        | inr kept ↦ inr (
          j,
          rw
              (
                alloc_buf-free n j rest e,
                receive,
                ltb-false frame_bytes (length f) short,
                take-all f,
                kept,
              )
              refl,
          rw
              (
                alloc_buf-free n j rest e,
                receive,
                ltb-false frame_bytes (length f) short,
                take-all f,
                kept,
                eq_self j,
              )
              refl,
          ground (arith, kept),
        )
      ]
]

-- The same of the whole handler.
handle-cases :
    (n : Nic) (f : List ℕ) (drops : List ℕ → Bool)
    → length f ≤ frame_bytes
    → ((handle n f drops).1 ≡ none)
      ⊎ ((j : ℕ) × ((handle n f drops).1 ≡ some j)
          × ((handle n f drops).0.buffers j
              ≡ record { frame = overlay 0 f (n.buffers j).frame; size = length f - header_size })
          × (header_size ≤ length f))
unfolding handle
handle-cases n f drops short = elim (receive-cases n f drops short) [
  | inl nothing ↦ inl (handle-dropped n f drops nothing)
  | inr (j, got, held, long) ↦ elim (by_type-cases (receive n f drops)) [
    | inl nothing ↦ inl nothing
    | inr same ↦ inr (j, ap (λ r. r.1) same ∙ got, ap (λ r. r.0.buffers j) same ∙ held, long)
  ]
]

-- Nothing is passed on, or the frame of a free buffer.
forward-cases :
    (n : Nic) (dst : Mac) (size offset : ℕ) (bytes : List ℕ) (q : ℕ) (sent : Option ℕ)
    → size ≤ mtu
    → ((forward n dst size offset bytes q sent).1 ≡ none)
      ⊎ ((k : ℕ) × ((forward n dst size offset bytes q sent).1
            ≡ some (forwarded n dst size offset bytes q k)))
unfolding forward alloc
forward-cases n dst size offset bytes q sent fits = elim (List-cases n.free_list) [
  | inl e ↦ inl (rw (ltb-false mtu size fits, e, alloc_buf, alloc, forward) refl)
  | inr (k, rest, e) ↦
      let out = forward-frame n dst size offset bytes q sent k rest e fits in
      let frame = forwarded n dst size offset bytes q k in
      elim (Bool-cases (was_sent sent)) [
        | inl yes_sent ↦ inr (k, out ∙ ap (λ b. if b then some frame else none) yes_sent)
        | inr not_sent ↦ inl (out ∙ ap (λ b. if b then some frame else none) not_sent)
      ]
]

-- A buffer that a frame was received into begins with it.
byte-append : (i : ℕ) (f rest : List ℕ) → i + 1 ≤ length f → byte i (f ++ rest) ≡ byte i f
unfolding from_bytes
byte-append i [] rest h = absurd (omega (arith, h))
byte-append zero (x ∷ f) rest h = refl
byte-append (suc i) (x ∷ f) rest h = byte-append i f rest (omega (arith, h))

src_of-append : (f rest : List ℕ) → header_size ≤ length f → src_of (f ++ rest) ≡ src_of f
src_of-append f rest h = λ i. record {
  b0 = byte-append 6 f rest (omega (arith, h)) i;
  b1 = byte-append (6 + 1) f rest (omega (arith, h)) i;
  b2 = byte-append (6 + 2) f rest (omega (arith, h)) i;
  b3 = byte-append (6 + 3) f rest (omega (arith, h)) i;
  b4 = byte-append (6 + 4) f rest (omega (arith, h)) i;
  b5 = byte-append (6 + 5) f rest (omega (arith, h)) i;
}

take-own : (n : ℕ) (f rest : List ℕ) → n ≡ length f → take n (f ++ rest) ≡ f
take-own n f rest e =
    take-append-before n f rest (omega (arith, e)) ∙ ap (λ m. take m f) e ∙ take-all f

-- The copy of a whole frame, cut at its length, is the frame.
forwarded-whole :
    (n : Nic) (dst : Mac) (f old : List ℕ) (q k : ℕ)
    → n.writes_quadrant ≡ false
    → header_size ≤ length f
    → let size = length f - header_size in
      forwarded n dst size 0 (take (header_size + size) (overlay 0 f old)) q k ≡ f
forwarded-whole n dst f old q k plain long =
    let size = length f - header_size in
    let all : header_size + size ≡ length f = omega (arith, long) in
    rw (plain, take-own (header_size + size) f (drop (0 + length f) old) all)
      (take-own (header_size + size) f _ all)

-- What `update` of a gateway gives to the shared memory is the frame in the socket's buffer.
update_socket-whole :
    (data_offset : ℕ) (g : Gateway) (e : Engines) (idx : ℕ) (f old : List ℕ)
    → g.socket.buffers idx ≡ record { frame = overlay 0 f old; size = length f - header_size }
    → header_size ≤ length f
    → length f ≤ frame_bytes
    → g.shm.writes_quadrant ≡ false
    → ((update_socket data_offset g e idx).to_shm ≡ none)
      ⊎ ((update_socket data_offset g e idx).to_shm ≡ some f)
unfolding update_socket
update_socket-whole data_offset g e idx f old held long short plain =
    let size = length f - header_size in
    let b = overlay 0 f old in
    elim (Bool-cases (ltb size packet_header_size)) [
      | inl little ↦ inl (rw (held, little) refl)
      | inr enough ↦ elim (Bool-cases (kind_of b == 1 || kind_of b == 2)) [
        | inl sptp ↦ inl (rw (held, enough, sptp) refl)
        | inr is_data ↦
            elim (forward-cases g.shm (dst_of b) size 0 (take (header_size + size) b) quadrant_none
              e.shm_bytes (omega (arith, short))) [
                | inl nothing ↦ inl (rw (held, enough, is_data) nothing)
                | inr (k, sent) ↦ inr (
                    rw (held, enough, is_data)
                      (sent
                        ∙ ap some
                            (forwarded-whole g.shm (dst_of b) f old quadrant_none k plain long)))
              ]
      ]
    ]

-- Nothing of another source than the gateway's own leaves by the socket.
update_shm-foreign :
    (g : Gateway) (e : Engines) (idx : ℕ) (f old : List ℕ)
    → g.shm.buffers idx ≡ record { frame = overlay 0 f old; size = length f - header_size }
    → header_size ≤ length f
    → src_of f ≢ g.address
    → (update_shm g e idx).to_socket ≡ none
unfolding update_shm
update_shm-foreign g e idx f old held long foreign =
    let b = overlay 0 f old in
    elim (Bool-cases (ltb (length f - header_size) packet_header_size)) [
      | inl little ↦ rw (held, little) refl
      | inr enough ↦
          elim (Bool-cases (mac_eq (src_of b) g.address && mac_eq (dst_of b) broadcast)) [
            | inl own ↦
                let same : mac_eq (src_of b) g.address ≡ true = ground (arith, own) in
                absurd (
                  foreign (
                    sym (src_of-append f (drop (0 + length f) old) long)
                    ∙ (mac_eq_iff (src_of b) g.address).0 same))
            | inr other ↦ rw (held, enough, other) refl
          ]
    ]

uplink-foreign :
    (g : Gateway) (e : Engines) (f : List ℕ)
    → length f ≤ frame_bytes
    → src_of f ≢ g.address
    → uplink g e f ≡ none
unfolding uplink
uplink-foreign g e f short foreign = elim (handle-cases g.shm f shm_drops short) [
  | inl nothing ↦ rw (nothing, ◌>>=◌) refl
  | inr (j, got, held, long) ↦
      rw (got, ◌>>=◌)
        (update_shm-foreign (record g { shm = (handle g.shm f shm_drops).0 }) e j f
          (g.shm.buffers j).frame held long foreign)
]

downlink-whole :
    (data_offset : ℕ) (g : Gateway) (e : Engines) (f : List ℕ)
    → length f ≤ frame_bytes
    → g.shm.writes_quadrant ≡ false
    → (downlink data_offset g e f ≡ none) ⊎ (downlink data_offset g e f ≡ some f)
unfolding downlink
downlink-whole data_offset g e f short plain =
    elim (handle-cases g.socket f (socket_drops g e) short) [
      | inl nothing ↦ inl (rw (nothing, ◌>>=◌) refl)
      | inr (j, got, held, long) ↦
          rw (got, ◌>>=◌)
            (update_socket-whole data_offset
              (record g { socket = (handle g.socket f (socket_drops g e)).0 }) e j f
              (g.socket.buffers j).frame held long short plain)
    ]

-- Whatever comes from the network, what the gateway gives to the shared memory is nothing or the
-- frame as it came; and where such a frame is read back from the ring, in whatever state, by a
-- gateway whose address for the shared memory is not its source, none of it leaves by the socket.
pub not_echoed :
    (data_offset : ℕ) (g later : Gateway) (e e' : Engines) (f : List ℕ)
    → length f ≤ frame_bytes
    → g.shm.writes_quadrant ≡ false
    → src_of f ≢ later.address
    → ((downlink data_offset g e f ≡ none) ⊎ (downlink data_offset g e f ≡ some f))
      × ((downlink data_offset g e f >>= uplink later e') ≡ none)
not_echoed data_offset g later e e' f short plain foreign =
    let back = uplink-foreign later e' f short foreign in
    elim (downlink-whole data_offset g e f short plain) [
      | inl nothing ↦ (inl nothing, rw (nothing, ◌>>=◌) refl)
      | inr passed ↦ (inr passed, rw (passed, ◌>>=◌) back)
    ]
