-- ===== src/Communication/Journey/Landing.antt =====
-- What a frame of the network is heard as by a communicator on the gateway itself, as that of a
-- road-side unit is.
use communication_in_critica.Channel.Protocol.{handle}
use communication_in_critica.Prelude.{
  ℕ, ◌∷◌, ◌+◌, ◌^◌, ◌≤◌, ◌<◌, ◌≡◌, refl, ◌∙◌, List, true, false, some, Elem, ltb-false, eq_false,
  length, pos, arith,
}
use communication_in_critica.Ethernet.{Mac, header_size}
use communication_in_critica.Network.Nic.{overlay}
use communication_in_critica.Channel.Address.{Address, broadcast_port}
use communication_in_critica.Channel.Protocol.{
  Gateway, Engines, Observed, update_socket, notify, attach, has_observer,
}
use communication_in_critica.Channel.Protocol.Header.{packet_header_size, kind_of}
use communication_in_critica.Channel.Protocol.Endpoint.{Packet}
use communication_in_critica.Channel.Protocol.Carrying.{
  Carries, kind_of-Carries, dst_port_of-Carries,
}
use communication_in_critica.Channel.Protocol.RoundTrip.{held-Carries}
use communication_in_critica.Channel.Protocol.Update.{handed-notified}
use communication_in_critica.Channel.Protocol.Events.{socket_drops}
use communication_in_critica.Communication.Message.{Message, max_size}
use communication_in_critica.Communication.Communicator.{
  Communicator, communicator, packet_of, update,
}
use communication_in_critica.Communication.Communicator.Delivery.{update-broadcast, notify-attach}

-- The gateway, whose last to attach is a communicator that has subscribed to broadcasts, receives
-- the frame in its `k`-th buffer, notifies the communicator, and this its observers of a message.
abbrev pub HeardByGateway :
    ℕ → ℕ → Address → Observed → Observed → Gateway → Engines → ℕ → List ℕ → Message → Type 0
HeardByGateway data_offset self own channel observers g e k f message =
    let got = handle g.socket f (socket_drops g e) in
    let (fresh, attached) = communicator self own true channel in
    let u = update data_offset (record fresh { observers = observers }) broadcast_port got.0 k in
    (got.1 ≡ some k)
    × Elem self
        (update_socket data_offset (record g { socket = got.0; observed = attached }) e k).notified
    × (u.message ≡ some message)
    × (u.notified ≡ notify broadcast_port observers)

update_socket-notified :
    (g : Gateway) (e : Engines) (j data_offset quad : ℕ) (src : Mac) (p : Packet) (f : List ℕ)
    → Carries data_offset src p quad f
    → g.socket.buffers j ≡ record { frame = f; size = packet_header_size + length p.payload }
    → p.kind ≡ 0
    → p.to.port < 65536
    → (update_socket data_offset g e j).notified ≡ notify p.to.port g.observed
unfolding update_socket
update_socket-notified g e j data_offset quad src p f c held is_data port =
    let kind = kind_of-Carries data_offset src p quad f c ∙ is_data in
    rw
      (
        held,
        ltb-false (packet_header_size + length p.payload) packet_header_size (omega arith),
        eq_false (kind_of f) 1 (ground (arith, kind)),
        eq_false (kind_of f) 2 (ground (arith, kind)),
        dst_port_of-Carries data_offset src p quad f c port,
      )
      (handed-notified p.to.port g.observed j g.socket)

pub Carries-HeardByGateway :
    (data_offset self : ℕ) (own : Address) (channel observers : Observed) (g : Gateway)
    (e : Engines) (k : ℕ) (more : List ℕ) (c : Communicator) (payload : List ℕ) (stamp now quad : ℕ)
    (src : Mac) (f : List ℕ)
    → data_offset ≤ packet_header_size
    → g.socket.free_list ≡ k ∷ more
    → has_observer broadcast_port observers ≡ true
    → Carries data_offset src (packet_of c payload stamp now) quad f
    → length f ≡ header_size + (packet_header_size + length payload)
    → socket_drops g e (overlay 0 f (g.socket.buffers k).frame) ≡ false
    → 0 < length payload
    → length payload ≤ max_size
    → c.address.port < 65536
    → 0 < stamp
    → stamp < 2 ^ 63
    → HeardByGateway data_offset self own channel observers g e k f (record {
      payload = payload;
      address = record { paddr = src; port = c.address.port };
      timestamp = pos stamp;
      quadrant = quad;
    })
Carries-HeardByGateway data_offset self own channel observers g e k more c payload stamp now quad
      src f within free watched carries long kept some_bytes room port later early =
    let p = packet_of c payload stamp now in
    let (got, buffer, filled) =
      held-Carries data_offset src p quad f g.socket (socket_drops g e) k more carries long within
        (omega (arith, room)) free kept in
    let held = (handle g.socket f (socket_drops g e)).0 in
    let in_buffer = overlay 0 f (g.socket.buffers k).frame in
    let (fresh, attached) = communicator self own true channel in
    let (message, notified) =
      update-broadcast data_offset (record fresh { observers = observers }) c held k quad src
        payload stamp now in_buffer filled buffer watched some_bytes room port later early in
    (
      got,
      rw
          (update_socket-notified (record g { socket = held; observed = attached }) e k data_offset
            quad src p in_buffer filled buffer refl (omega arith))
          (notify-attach self broadcast_port (attach self own.port channel)),
      message,
      notified,
    )
