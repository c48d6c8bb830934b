-- ===== src/Communication/Communicator/Delivery.antt =====
-- The way of a broadcast from one communicator to the observers of another.
use communication_in_critica.Channel.Protocol.{handle}
use communication_in_critica.Prelude.{
  ltb-false, ℕ, ◌+◌, ◌^◌, ◌≤◌, ◌<◌, ◌≡◌, refl, ap, ◌∙◌, inl, inr, Bool, true, false, List, [], ◌∷◌,
  Option, some, leb, ◌==◌, length, Bool-cases, arith, Elem, pos,
}
use communication_in_critica.Channel.Address.{Address, broadcast_port}
use communication_in_critica.Channel.Protocol.{
  Observed, attach, notify, has_observer, update_component,
}
use communication_in_critica.Channel.Protocol.Update.{handed-notified}
use communication_in_critica.Channel.Protocol.Header.{packet_header_size}
use communication_in_critica.Channel.Protocol.Endpoint.{Received, Packet, receive_packet}
use communication_in_critica.Channel.Protocol.Carrying.{Carries, dst_port_of-Carries}
use communication_in_critica.Channel.Protocol.RoundTrip.{
  held-Carries, receive_packet-Carries, stamp_of,
}
use communication_in_critica.Communication.Message.{Message, max_size}
use communication_in_critica.Communication.Communicator.{
  Communicator, communicator, packet_of, passed_on, unpacked, message_of, update,
}
use communication_in_critica.Network.Nic.{Nic, overlay}
use communication_in_critica.Ethernet.{header_size, Mac}

-- Who is attached at a port is notified of it, last of all.
pub notify-attach : (self port : ℕ) (os : Observed) → Elem self (notify port (attach self port os))
unfolding notify
notify-attach self port [] = elim (Bool-cases (port == port)) [
  | inl e ↦ rw e (inl refl)
  | inr e ↦ absurd (ground (arith, e))
]
notify-attach self port ((o, p) ∷ os) = elim (Bool-cases (p == port)) [
  | inl e ↦ rw e (inr (notify-attach self port os))
  | inr e ↦ rw e (notify-attach self port os)
]

-- A buffer that carries a packet for a port is handed to whom is attached there.
pub update_component-notified :
    (observed : Observed) (m : Nic) (j data_offset quad : ℕ) (src : Mac) (p : Packet) (f : List ℕ)
    → Carries data_offset src p quad f
    → m.buffers j ≡ record { frame = f; size = packet_header_size + length p.payload }
    → p.to.port < 65536
    → (update_component observed m j).1 ≡ notify p.to.port observed
unfolding update_component
update_component-notified observed m j data_offset quad src p f c held port =
    rw
      (
        held,
        ltb-false (packet_header_size + length p.payload) packet_header_size (omega arith),
        dst_port_of-Carries data_offset src p quad f c port,
      )
      (handed-notified p.to.port observed j m)

leb-false : (n : ℕ) → 0 < n → leb n 0 ≡ false
leb-false n h = ground (arith, h)

-- The observers of a condition are given the message of a buffer that carries a packet.
unpacked-notified :
    (c : Communicator) (condition : ℕ) (got : Nic × Option Received) (r : Received)
    → got.1 ≡ some r
    → 0 < length r.payload
    → let u = unpacked c condition got in
      (u.message ≡ some (message_of r)) × (u.notified ≡ notify condition c.observers)
unfolding unpacked passed_on
unpacked-notified c condition (n, got) r e some_bytes =
    rw (e, unpacked, leb-false (length r.payload) some_bytes) (refl, refl)

pub update-Carries :
    (data_offset : ℕ) (c : Communicator) (condition : ℕ) (m : Nic) (j quad : ℕ) (src : Mac)
    (p : Packet) (f : List ℕ)
    → Carries data_offset src p quad f
    → m.buffers j ≡ record { frame = f; size = packet_header_size + length p.payload }
    → has_observer condition c.observers ≡ true
    → 0 < length p.payload
    → length p.payload ≤ max_size
    → p.from.port < 65536
    → stamp_of p < 2 ^ 63
    → let u = update data_offset c condition m j in
      (u.message
        ≡ some (record {
          payload = p.payload;
          address = record { paddr = src; port = p.from.port };
          timestamp = pos (stamp_of p);
          quadrant = quad;
        }))
      × (u.notified ≡ notify condition c.observers)
unfolding update
update-Carries data_offset c condition m j quad src p f carries held watched some_bytes fits port
      stamp =
    let r : Received = record {
      from = record { paddr = src; port = p.from.port };
      timestamp = pos (stamp_of p);
      quadrant = quad;
      payload = p.payload;
    } in
    rw watched (
      unpacked-notified c condition (receive_packet data_offset m j max_size) r
        (receive_packet-Carries data_offset m j max_size quad src p f carries held fits port stamp)
        some_bytes)

-- The same for the packet of a message.
pub update-broadcast :
    (data_offset : ℕ) (own c : Communicator) (m : Nic) (k quad : ℕ) (src : Mac) (payload : List ℕ)
    (stamp now : ℕ) (f : List ℕ)
    → Carries data_offset src (packet_of c payload stamp now) quad f
    → m.buffers k ≡ record { frame = f; size = packet_header_size + length payload }
    → has_observer broadcast_port own.observers ≡ true
    → 0 < length payload
    → length payload ≤ max_size
    → c.address.port < 65536
    → 0 < stamp
    → stamp < 2 ^ 63
    → let u = update data_offset own broadcast_port m k in
      (u.message
        ≡ some (record {
          payload = payload;
          address = record { paddr = src; port = c.address.port };
          timestamp = pos stamp;
          quadrant = quad;
        }))
      × (u.notified ≡ notify broadcast_port own.observers)
update-broadcast data_offset own c m k quad src payload stamp now f carries held watched some_bytes
      room port later early =
    let p = packet_of c payload stamp now in
    let at_stamp : stamp_of p ≡ stamp = ground (arith, later) in
    let (message, notified) =
      update-Carries data_offset own broadcast_port m k quad src p f carries held watched some_bytes
        room port (omega (arith, at_stamp, early)) in
    (
      message
          ∙ ap
              (λ ts. some (record {
                payload = payload;
                address = record { paddr = src; port = c.address.port };
                timestamp = pos ts;
                quadrant = quad;
              }))
              at_stamp,
      notified,
    )

-- The frame is received by a NIC and reaches a component whose communicator is the last to have
-- subscribed, and its observers of broadcasts are given the message.
abbrev pub Heard :
    ℕ → ℕ → Address → Observed → Observed → Nic → (List ℕ → Bool) → ℕ → List ℕ → Message → Type 0
Heard data_offset self own channel observers m drops k f message =
    let held = (handle m f drops).0 in
    let (fresh, attached) = communicator self own true channel in
    let u = update data_offset (record fresh { observers = observers }) broadcast_port held k in
    ((handle m f drops).1 ≡ some k)
    × Elem self (update_component attached held k).1
    × (u.message ≡ some message)
    × (u.notified ≡ notify broadcast_port observers)

-- What a frame that carries the packet of a message is heard as.
module _ (data_offset self : ℕ) (own : Address) (channel observers : Observed) (m : Nic)
    (drops : List ℕ → Bool) (k : ℕ) (more : List ℕ) (within : data_offset ≤ packet_header_size)
    (free : m.free_list ≡ k ∷ more) (watched : has_observer broadcast_port observers ≡ true) where
  pub Carries-Heard :
      (c : Communicator) (payload : List ℕ) (stamp now quad : ℕ) (src : Mac) (f : List ℕ)
      → Carries data_offset src (packet_of c payload stamp now) quad f
      → length f ≡ header_size + (packet_header_size + length payload)
      → drops (overlay 0 f (m.buffers k).frame) ≡ false
      → 0 < length payload
      → length payload ≤ max_size
      → c.address.port < 65536
      → 0 < stamp
      → stamp < 2 ^ 63
      → Heard data_offset self own channel observers m drops k f (record {
        payload = payload;
        address = record { paddr = src; port = c.address.port };
        timestamp = pos stamp;
        quadrant = quad;
      })
  Carries-Heard c payload stamp now quad src f carries long kept some_bytes room port later early =
      let p = packet_of c payload stamp now in
      let (got, buffer, filled) =
        held-Carries data_offset src p quad f m drops k more carries long within
          (omega (arith, room)) free kept in
      let held = (handle m f drops).0 in
      let in_buffer = overlay 0 f (m.buffers k).frame in
      let (fresh, attached) = communicator self own true channel in
      let (message, notified) =
        update-broadcast data_offset (record fresh { observers = observers }) c held k quad src
          payload stamp now in_buffer filled buffer watched some_bytes room port later early in
      (
        got,
        rw
            (update_component-notified attached held k data_offset quad src p in_buffer filled
              buffer (omega arith))
            (notify-attach self broadcast_port (attach self own.port channel)),
        message,
        notified,
      )
