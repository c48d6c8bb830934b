-- ===== src/Channel/Protocol.antt =====
-- src/channel/protocol.h: what the channel does with the buffers that the NICs hand it, and how it
-- sends. The process of a gateway has both NICs, a component's has the shared memory's only. What
-- the engines say of a packet sent is an argument, as is the quadrant.
pub mod Header
pub mod Update
pub mod Endpoint
pub mod Packing
pub mod Carrying
pub mod RoundTrip
pub mod Forwarding
pub mod Events
pub mod Session
mod Tests
use communication_in_critica.Prelude.{
  ℕ, ◌+◌, ◌-◌, Bool, true, false, not, ◌&&◌, ◌||◌, List, [], ◌∷◌, ◌++◌, Option, none, some,
  if◌then◌else◌, ltb, leb, ◌==◌, take, drop, ℤ, remove_if,
}
use communication_in_critica.Ethernet.{Mac, mac_eq, broadcast, header_size}
use communication_in_critica.Gps.Device.{quadrant_none}
use communication_in_critica.Channel.Address.{Address, is_internal}
use communication_in_critica.Channel.Protocol.Header.{
  packet_header_size, prot_of, dst_of, src_of, payload_of, kind_of, dst_port_of, src_port_of,
  timestamp_of, data_of,
}
use communication_in_critica.Network.Nic.{
  Nic, Buffer, Sent, was_sent, alloc, send, receive, free, put, overlay,
}

-- `PROTO`
abbrev pub proto : ℕ
proto = 0x8888

-- `_observed`: the observers with their ports
abbrev pub Observed : Type 0
Observed = List (ℕ × ℕ)

abbrev pub attach : ℕ → ℕ → Observed → Observed
attach observer port os = os ++ (observer, port) ∷ []

-- `has_observer`
unfoldable pub has_observer : ℕ → Observed → Bool
has_observer port [] = false
has_observer port ((o, p) ∷ os) =
    let rest = has_observer port os in if p == port then true else rest

unfoldable pub detach : ℕ → ℕ → Observed → Observed
detach observer port os = remove_if (λ e. e.0 == observer && e.1 == port) os

-- `notify`: who is given the buffer
unfoldable pub notify : ℕ → Observed → List ℕ
notify port [] = []
notify port ((o, p) ∷ os) = let rest = notify port os in if p == port then o ∷ rest else rest

pub record Gateway : Type 0 where
  pub shm : Nic
  pub socket : Nic
  pub address : Mac
  pub observed : Observed
  pub has_sptp : Bool

-- What the engines answer: the quadrant of the socket's, and what each sends.
pub record Engines : Type 0 where
  pub quadrant : ℕ
  pub socket_bytes : Option ℕ
  pub shm_bytes : Option ℕ

-- A call of `SPTP_Protocol::on_receive`.
pub record SptpCall : Type 0 where
  pub kind : ℕ
  pub sender : Address
  pub timestamp : ℤ
  pub payload : List ℕ

-- What `update` did: the state, who was given the buffer, what was sent, and the call of SPTP.
pub record Outcome : Type 0 where
  pub gateway : Gateway
  pub notified : List ℕ
  pub to_socket : Option (List ℕ)
  pub to_shm : Option (List ℕ)
  pub sptp : Option SptpCall

abbrev pub written : ℕ → List ℕ → ℕ × Nic → Nic
written offset bytes (k, m) =
    let b = m.buffers k in
    record m { buffers = put m.buffers k (record b { frame = overlay offset bytes b.frame }) }

-- what leaves the NIC, if the engine sent it
abbrev pub posted : Option ℕ → Sent → Nic × Option (List ℕ)
posted bytes s = (s.nic, if was_sent bytes then some s.frame else none)

-- the end of a NIC's receive handler: its observer is the protocol, which is attached for `PROTO`
-- (src/channel/protocol.h), and the buffer of a frame of another type is freed
unfoldable pub by_type : Nic × Option ℕ → Nic × Option ℕ
unfolding prot_of
by_type (n, none) = (n, none)
by_type (n, some j) = if prot_of (n.buffers j).frame == proto then (n, some j) else (free j n, none)

-- the receive handler: the buffer that the protocol's `update` is called with, if any
unfoldable pub handle : Nic → List ℕ → (List ℕ → Bool) → Nic × Option ℕ
unfolding receive by_type
handle n f drops = by_type (receive n f drops)

-- `alloc`, a copy into the frame at an offset, and `send`, if there is a buffer
unfoldable pub forward : Nic → Mac → ℕ → ℕ → List ℕ → ℕ → Option ℕ → Nic × Option (List ℕ)
unfolding alloc send
forward n dst size offset bytes q sent = elim (alloc n dst proto size) [
  | none ↦ (n, none)
  | some (k, m) ↦ posted sent (send (written offset bytes (k, m)) k q sent)
]

-- The end of `update`: the observers of the port are given the buffer, or it is freed.
unfoldable pub handed : ℕ → Observed → ℕ → Nic → Nic × List ℕ
unfolding notify
handed port observed idx n = elim (notify port observed) [
  | [] ↦ (free idx n, [])
  | o ∷ os ↦ (n, o ∷ os)
]

-- `update` of a component, which has no socket
unfoldable pub update_component : Observed → Nic → ℕ → Nic × List ℕ
unfolding handed
update_component observed n idx =
    let b = n.buffers idx in
    if ltb b.size packet_header_size
    then (free idx n, [])
    else handed (dst_port_of b.frame) observed idx n

-- `update` of a gateway, for a buffer of the shared memory's NIC
unfoldable pub update_shm : Gateway → Engines → ℕ → Outcome
unfolding mac_eq forward handed
update_shm g e idx =
    let b = g.shm.buffers idx in
    if ltb b.size packet_header_size
    then record {
      gateway = record g { shm = free idx g.shm };
      notified = [];
      to_socket = none;
      to_shm = none;
      sptp = none;
    }
    else let (socket, sent) =
        if mac_eq (src_of b.frame) g.address && mac_eq (dst_of b.frame) broadcast
        then forward g.socket (dst_of b.frame) b.size header_size (take b.size (payload_of b.frame))
            e.quadrant e.socket_bytes
        else (g.socket, none) in
      let (shm, who) = handed (dst_port_of b.frame) g.observed idx g.shm in
      record {
        gateway = record g { shm = shm; socket = socket };
        notified = who;
        to_socket = sent;
        to_shm = none;
        sptp = none;
      }

-- `update` of a gateway, for a buffer of the socket's NIC
unfoldable pub update_socket : ℕ → Gateway → Engines → ℕ → Outcome
unfolding forward handed
update_socket data_offset g e idx =
    let b = g.socket.buffers idx in
    let freed = record g { socket = free idx g.socket } in
    if ltb b.size packet_header_size
    then record { gateway = freed; notified = []; to_socket = none; to_shm = none; sptp = none }
    else (if kind_of b.frame == 1 || kind_of b.frame == 2
        then record {
          gateway = freed;
          notified = [];
          to_socket = none;
          to_shm = none;
          sptp =
              if g.has_sptp
              then some (record {
                kind = kind_of b.frame;
                sender = record { paddr = src_of b.frame; port = src_port_of b.frame };
                timestamp = timestamp_of b.frame;
                payload = data_of data_offset b.frame b.size;
              })
              else none;
        }
        else let (shm, sent) =
            forward g.shm (dst_of b.frame) b.size 0 (take (header_size + b.size) b.frame)
              quadrant_none e.shm_bytes in
          let (socket, who) = handed (dst_port_of b.frame) g.observed idx g.socket in
          record {
            gateway = record g { shm = shm; socket = socket };
            notified = who;
            to_socket = none;
            to_shm = sent;
            sptp = none;
          })
