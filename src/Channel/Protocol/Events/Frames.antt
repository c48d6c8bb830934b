-- ===== src/Channel/Protocol/Events/Frames.antt =====
-- The frames in the buffers of a NIC: each is as long as an Ethernet frame, of bytes, and its size
-- is at most the MTU. A write beyond the end would make it longer.
use communication_in_critica.Prelude.{
  ℕ, ◌+◌, ◌-◌, ◌≤◌, ◌<◌, ◌≡◌, ◌⊎◌, refl, ◌∙◌, List, [], ◌∷◌, ◌++◌, Bool, Bool-cases, inl, inr, true,
  false, Option, none, some, if◌then◌else◌, ltb, ◌==◌, ◌||◌, length, take, drop, All, All-append,
  All-take, All-drop, length-take-le, arith,
}
use communication_in_critica.Ethernet.{Mac, header_size, mtu, type_hi, type_lo}
use communication_in_critica.Network.Nic.{
  Nic, Buffer, alloc, alloc_buf, prepared, send, put, overlay, mac_bytes, ethernet_header, arrived,
  receive, frame_bytes,
}
use communication_in_critica.Network.Nic.Frame.{length-overlay}

abbrev pub IsBytes : List ℕ → Type 0
IsBytes xs = All (λ b. b < 256) xs

abbrev pub IsMac : Mac → Type 0
IsMac a = IsBytes (mac_bytes a)

pub record IsFrame (b : Buffer) : Type 0 where
  pub whole : length b.frame ≡ frame_bytes
  pub bytes : IsBytes b.frame
  pub sized : b.size ≤ mtu

pub record IsFramed (n : Nic) : Type 0 where
  pub address : IsMac n.address
  pub frames : (k : ℕ) → IsFrame (n.buffers k)

overlay-IsBytes :
    (k : ℕ) (bytes old : List ℕ) → IsBytes bytes → IsBytes old → IsBytes (overlay k bytes old)
overlay-IsBytes k bytes old new h =
    All-append (λ b. b < 256) (take k old) (bytes ++ drop (k + length bytes) old)
      (All-take (λ b. b < 256) k old h)
      (All-append (λ b. b < 256) bytes (drop (k + length bytes) old) new
        (All-drop (λ b. b < 256) (k + length bytes) old h))

-- A write of bytes within the frame.
pub overlay-IsFrame :
    (k : ℕ) (bytes : List ℕ) (b : Buffer) (size : ℕ)
    → k + length bytes ≤ frame_bytes
    → IsBytes bytes
    → size ≤ mtu
    → IsFrame b
    → IsFrame (record { frame = overlay k bytes b.frame; size = size })
overlay-IsFrame k bytes b size within new short f = record {
  whole = length-overlay k bytes b.frame (omega (arith, f.whole, within)) ∙ f.whole;
  bytes = overlay-IsBytes k bytes b.frame new f.bytes;
  sized = short;
}

put-IsFrame :
    (buffers : ℕ → Buffer) (k : ℕ) (b : Buffer) (i : ℕ)
    → IsFrame b
    → IsFrame (buffers i)
    → IsFrame (put buffers k b i)
put-IsFrame buffers k b i own other = elim (Bool-cases (i == k)) [
  | inl e ↦ rw e own
  | inr e ↦ rw e other
]

header-IsBytes :
    (dst src : Mac) (prot : ℕ) → IsMac dst → IsMac src → IsBytes (ethernet_header dst src prot)
unfolding ethernet_header type_hi type_lo
header-IsBytes dst src prot d s =
    let types : IsBytes (type_hi prot ∷ type_lo prot ∷ []) = (omega arith, (omega arith, tt)) in
    All-append (λ b. b < 256) (mac_bytes dst) (mac_bytes src ++ (type_hi prot ∷ type_lo prot ∷ []))
      d (All-append (λ b. b < 256) (mac_bytes src) (type_hi prot ∷ type_lo prot ∷ []) s types)

length-header : (dst src : Mac) (prot : ℕ) → length (ethernet_header dst src prot) ≡ 14
unfolding ethernet_header
length-header dst src prot = refl

-- `alloc` gives nothing, or a buffer of a NIC whose frames are whole.
pub alloc-IsFramed :
    (n : Nic) (dst : Mac) (prot size : ℕ)
    → IsMac dst
    → IsFramed n
    → (alloc n dst prot size ≡ none)
      ⊎ ((k : ℕ) × (m : Nic) × (alloc n dst prot size ≡ some (k, m)) × (size ≤ mtu) × IsFramed m)
unfolding alloc alloc_buf
alloc-IsFramed n dst prot size d f = go n.free_list refl
  where
    go :
        (xs : List ℕ)
        → n.free_list ≡ xs
        → (alloc n dst prot size ≡ none)
          ⊎ ((k : ℕ) × (m : Nic) × (alloc n dst prot size ≡ some (k, m))
              × (size ≤ mtu)
              × IsFramed m)
    go [] e = inl (elim (Bool-cases (ltb mtu size)) [
      | inl l ↦ rw (l, alloc) refl
      | inr l ↦ rw (l, e, alloc_buf, alloc) refl
    ])
    go (k ∷ rest) e = elim (Bool-cases (ltb mtu size)) [
      | inl l ↦ inl (rw (l, alloc) refl)
      | inr l ↦
          let (idx, m) = prepared dst prot size (k, record n { free_list = rest }) in
          inr (
            k,
            m,
            rw (l, e, alloc_buf, alloc) refl,
            ground (arith, l),
            record {
              address = f.address;
              frames = λ i.
                  put-IsFrame n.buffers k _ i
                    (overlay-IsFrame 0 (ethernet_header dst n.address prot) (n.buffers k) size
                      (omega (arith, length-header dst n.address prot))
                      (header-IsBytes dst n.address prot d f.address) (ground (arith, l))
                      (f.frames k))
                    (f.frames i);
            },
          )
    ]

-- Writes into the buffers that the protocol makes, and what the NIC does with a buffer.
pub put-IsFramed :
    (n : Nic) (k : ℕ) (b : Buffer)
    → IsFrame b
    → IsFramed n
    → IsFramed (record n { buffers = put n.buffers k b })
put-IsFramed n k b own f = record {
  address = f.address;
  frames = λ i. put-IsFrame n.buffers k b i own (f.frames i);
}

stamped-IsFrame :
    (b : Buffer) (writes : Bool) (q : ℕ)
    → q < 256
    → IsFrame b
    → IsFrame (record b { frame = if writes then overlay 26 (q ∷ []) b.frame else b.frame })
stamped-IsFrame b true q small f =
    overlay-IsFrame 26 (q ∷ []) b b.size (omega arith) (small, tt) f.sized f
stamped-IsFrame b false q small f = f

pub send-IsFramed :
    (n : Nic) (k q : ℕ) (bytes : Option ℕ) → q < 256 → IsFramed n → IsFramed (send n k q bytes).nic
unfolding send
send-IsFramed n k q bytes small f = record {
  address = f.address;
  frames = λ i.
      put-IsFrame n.buffers k _ i
        (stamped-IsFrame (n.buffers k) n.writes_quadrant q small (f.frames k)) (f.frames i);
}

arrived-IsFramed :
    (n : Nic) (k : ℕ) (bytes : List ℕ) (drops : List ℕ → Bool)
    → IsBytes bytes
    → IsFramed n
    → IsFramed (arrived n k bytes drops).0
unfolding arrived
arrived-IsFramed n k bytes drops new f =
    let size = if ltb frame_bytes (length bytes) then frame_bytes else length bytes in
    let short : size ≤ frame_bytes = ground arith in
    let b = n.buffers k in
    let filled = overlay 0 (take size bytes) b.frame in
    let at : (l : ℕ) → l ≤ mtu → IsFrame (record { frame = filled; size = l }) = λ l h.
      overlay-IsFrame 0 (take size bytes) b l (omega (arith, short, length-take-le size bytes))
        (All-take (λ x. x < 256) size bytes new) h (f.frames k) in
    elim (Bool-cases (ltb size header_size || drops filled)) [
      | inl dropped ↦ rw dropped (record {
        address = f.address;
        frames = λ i. put-IsFrame n.buffers k _ i (at b.size (f.frames k).sized) (f.frames i);
      })
      | inr kept ↦ rw kept (record {
        address = f.address;
        frames = λ i.
            put-IsFrame n.buffers k _ i (at (size - header_size) (omega (arith, short)))
              (f.frames i);
      })
    ]

pub receive-IsFramed :
    (n : Nic) (bytes : List ℕ) (drops : List ℕ → Bool)
    → IsBytes bytes
    → IsFramed n
    → IsFramed (receive n bytes drops).0
unfolding receive alloc_buf
receive-IsFramed n bytes drops new f = go n.free_list refl
  where
    go : (xs : List ℕ) → n.free_list ≡ xs → IsFramed (receive n bytes drops).0
    go [] e = rw (e, alloc_buf, receive) f
    go (k ∷ rest) e =
        rw (e, alloc_buf, receive)
          (arrived-IsFramed (record n { free_list = rest }) k bytes drops new
            (record { address = f.address; frames = f.frames }))
