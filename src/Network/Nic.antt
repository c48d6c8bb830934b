-- ===== src/Network/Nic.antt =====
-- src/network/nic.h: the pool of buffers, and the ways of a frame out and in. The pool is under
-- `_buf_mtx`, so each operation on it is one step. A buffer is the bytes of its frame, which keep
-- what was there beyond what is copied, and its size. What the engine says is an argument: the
-- quadrant, whether a frame is to be dropped, and the result of sending.
pub mod Pool
pub mod Frame
pub mod Fixtures
pub mod Transfer
use communication_in_critica.Prelude.{
  ℕ, zero, suc, ◌+◌, ◌-◌, ◌%◌, ◌^◌, Bool, true, false, not, ◌&&◌, ◌||◌, List, [], ◌∷◌, ◌++◌, Option,
  none, some, if◌then◌else◌, ltb, leb, ◌==◌, take, drop, length,
}
use communication_in_critica.Ethernet.{Mac, header_size, mtu, type_hi, type_lo}
use communication_in_critica.Gps.Device.{quadrant_none}

-- `Buffer<Ethernet::Frame>`
pub record Buffer : Type 0 where
  pub frame : List ℕ
  pub size : ℕ

-- `BUFFER_SIZE`
abbrev pub buffer_size : ℕ
buffer_size = 100

-- The two kinds differ in `_write_quadrant`, which does nothing for the shared memory.
pub record Nic : Type 0 where
  pub address : Mac
  pub writes_quadrant : Bool
  pub free_list : List ℕ
  pub buffers : ℕ → Buffer
  pub last_quadrant : ℕ
  pub tx_packets : ℕ
  pub tx_bytes : ℕ
  pub rx_packets : ℕ
  pub rx_bytes : ℕ

abbrev pub put : (ℕ → Buffer) → ℕ → Buffer → ℕ → Buffer
put buffers idx b k = if k == idx then b else buffers k

-- `std::memcpy` into the frame, at an offset
abbrev pub overlay : ℕ → List ℕ → List ℕ → List ℕ
overlay offset bytes old = take offset old ++ (bytes ++ drop (offset + length bytes) old)

abbrev pub mac_bytes : Mac → List ℕ
mac_bytes a = a.b0 ∷ a.b1 ∷ a.b2 ∷ a.b3 ∷ a.b4 ∷ a.b5 ∷ []

unfoldable pub alloc_buf : Nic → Option (ℕ × Nic)
alloc_buf n = elim n.free_list [
  | [] ↦ none
  | idx ∷ rest ↦ some (idx, record n { free_list = rest })
]

abbrev pub free : ℕ → Nic → Nic
free idx n = record n { free_list = idx ∷ n.free_list }

-- the Ethernet header that `alloc` writes
unfoldable pub ethernet_header : Mac → Mac → ℕ → List ℕ
unfolding type_hi type_lo
ethernet_header dst src prot =
    mac_bytes dst ++ (mac_bytes src ++ (type_hi prot ∷ type_lo prot ∷ []))

abbrev pub prepared : Mac → ℕ → ℕ → ℕ × Nic → ℕ × Nic
prepared dst prot size (idx, n) =
    let b = n.buffers idx in
    (
      idx,
      record n {
        buffers = put n.buffers idx (record {
          frame = overlay 0 (ethernet_header dst n.address prot) b.frame;
          size = size;
        });
      },
    )

unfoldable pub alloc : Nic → Mac → ℕ → ℕ → Option (ℕ × Nic)
unfolding alloc_buf ethernet_header
alloc n dst prot size =
    if ltb mtu size
    then none
    else elim (alloc_buf n) [ none ↦ none | some got ↦ some (prepared dst prot size got) ]

-- where the protocol's header has its quadrant in the payload
abbrev pub quadrant_offset : ℕ
quadrant_offset = 12

-- `detect_quadrant_change`: the last quadrant known, and whether the handler is called
unfoldable pub detect_quadrant_change : ℕ → ℕ → ℕ × Bool
detect_quadrant_change last q =
    if q == quadrant_none
    then (last, false)
    else (q, not (last == quadrant_none) && not (last == q))

-- `bytes > 0`, for what the engine answered: how much it sent, or none if it failed
abbrev pub was_sent : Option ℕ → Bool
was_sent none = false
was_sent (some k) = ltb 0 k

-- `frame` is what the engine is given.
pub record Sent : Type 0 where
  pub nic : Nic
  pub frame : List ℕ
  pub quadrant_changed : Bool

-- `send(buf)`, at quadrant `q`; `bytes` is what the engine sent, none if it failed
unfoldable pub send : Nic → ℕ → ℕ → Option ℕ → Sent
unfolding detect_quadrant_change
send n idx q bytes =
    let b = n.buffers idx in
    let (last, changed) = detect_quadrant_change n.last_quadrant q in
    let frame =
      if n.writes_quadrant
      then overlay (header_size + quadrant_offset) (q ∷ []) b.frame
      else b.frame in
    let counted = record n {
      buffers = put n.buffers idx (record b { frame = frame });
      last_quadrant = last;
      tx_packets = if was_sent bytes then (n.tx_packets + 1) % 2 ^ 32 else n.tx_packets;
      tx_bytes = elim bytes [ none ↦ n.tx_bytes | some k ↦ (n.tx_bytes + k) % 2 ^ 32 ];
    } in
    record {
      nic = free idx counted;
      frame = take (header_size + b.size) frame;
      quadrant_changed = changed;
    }

abbrev pub frame_bytes : ℕ
frame_bytes = header_size + mtu

-- What the receive handler of the constructor does with a buffer that it got: it is for the
-- observers, or free again.
unfoldable pub arrived : Nic → ℕ → List ℕ → (List ℕ → Bool) → Nic × Option ℕ
arrived n idx bytes drops =
    let size = if ltb frame_bytes (length bytes) then frame_bytes else length bytes in
    let b = n.buffers idx in
    let filled = overlay 0 (take size bytes) b.frame in
    let held = record n { buffers = put n.buffers idx (record b { frame = filled }) } in
    if ltb size header_size || drops filled then (free idx held, none) else (
      record held {
        buffers = put n.buffers idx (record { frame = filled; size = size - header_size });
        rx_packets = (n.rx_packets + 1) % 2 ^ 32;
        rx_bytes = (n.rx_bytes + size) % 2 ^ 32;
      },
      some idx,
    )

-- the receive handler, up to the notification of the observers; `drops` is the engine's test of the
-- frame
unfoldable pub receive : Nic → List ℕ → (List ℕ → Bool) → Nic × Option ℕ
unfolding alloc_buf arrived
receive n bytes drops = elim (alloc_buf n) [
  | none ↦ (n, none)
  | some (idx, rest) ↦ arrived rest idx bytes drops
]
