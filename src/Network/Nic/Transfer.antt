-- ===== src/Network/Nic/Transfer.antt =====
-- The rest of src/network/nic.h: the constructor, sending from memory, `unmarshal`, the observers
-- and the start of the engine's reception.
pub mod Unmarshal
mod Tests
use communication_in_critica.Prelude.{
  ℕ, zero, suc, ◌+◌, Bool, true, false, List, [], ◌∷◌, Option, none, some, if◌then◌else◌, ltb, leb,
  ◌&&◌, take, drop, length,
}
use communication_in_critica.Ethernet.{Mac, header_size}
use communication_in_critica.Gps.Device.{quadrant_none}
use communication_in_critica.Network.Nic.{
  Nic, Buffer, Sent, buffer_size, alloc, send, put, overlay, frame_bytes,
}
use communication_in_critica.Channel.Protocol.Header.{dst_of, src_of, payload_of}
use communication_in_critica.Observers.Conditional.{Entry, attach, detach}

-- the pushes of the constructor's loop
unfoldable pub pushed : ℕ → List ℕ
pushed zero = []
pushed (suc n) = n ∷ pushed n

-- the constructor, with the address that the engine gives and what the memory of the buffers holds
unfoldable pub nic : Mac → (ℕ → Buffer) → Nic
unfolding pushed
nic address buffers = record {
  address = address;
  writes_quadrant = false;
  free_list = pushed buffer_size;
  buffers = buffers;
  last_quadrant = quadrant_none;
  tx_packets = 0;
  tx_bytes = 0;
  rx_packets = 0;
  rx_bytes = 0;
}

-- `setup_write_quadrant`, with the protocol's function
abbrev pub setup_write_quadrant : Nic → Nic
setup_write_quadrant n = record n { writes_quadrant = true }

-- `send(dst, prot, data, size)` at a quadrant: none for -1
abbrev pub sent_data : List ℕ → ℕ → Option ℕ → ℕ × Nic → Sent
sent_data bytes q engine (k, n) =
    let b = n.buffers k in
    send
      (record n {
        buffers = put n.buffers k (record b { frame = overlay header_size bytes b.frame });
      })
      k q engine

unfoldable pub send_data : Nic → Mac → ℕ → List ℕ → ℕ → Option ℕ → Option Sent
unfolding alloc send
send_data n dst prot bytes q engine = elim (alloc n dst prot (length bytes)) [
  | none ↦ none
  | some got ↦ some (sent_data bytes q engine got)
]

-- `unmarshal`, into a place of `size` bytes: the source, the destination and what is copied, whose
-- number it returns
unfoldable pub unmarshal : Nic → ℕ → ℕ → Mac × Mac × List ℕ
unmarshal n k size =
    let b = n.buffers k in
    let copy = if ltb size b.size then size else b.size in
    (src_of b.frame, dst_of b.frame, take copy (payload_of b.frame))

-- the observers and whether the engine was told to receive
pub record Reception : Type 0 where
  pub observers : List Entry
  pub receive_started : Bool

-- `attach`, and whether it starts the engine's reception; `detach`
unfoldable pub attach_nic : ℕ → ℕ → Reception → Reception × Bool
unfolding attach
attach_nic observer prot r = (
  record { observers = attach observer prot r.observers; receive_started = true },
  if r.receive_started then false else true,
)

unfoldable pub detach_nic : ℕ → ℕ → Reception → Reception
unfolding detach
detach_nic observer prot r = record r { observers = detach observer prot r.observers }
