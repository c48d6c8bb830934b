-- ===== src/Communication/Communicator.antt =====
-- src/communication/communicator.h: an observer of the channel at its own port and, if it subscribes,
-- at the port of broadcasts, and observed by the SmartData of its component. An observer of the
-- channel is a number, `self` here. The NIC is the one that the channel sends by or that the buffer
-- is of, and `data_offset` says where the compiler places the data of a packet. Between the two looks
-- that `update` takes at its observers nobody attaches or detaches.
pub mod Ownership
pub mod Delivery
mod Tests
use communication_in_critica.Prelude.{
  ℕ, suc, ◌+◌, Bool, true, false, not, List, [], ◌∷◌, ◌++◌, Option, none, some, if◌then◌else◌, ltb,
  leb, ◌==◌, length,
}
use communication_in_critica.Channel.Address.{Address, logical_broadcast, broadcast_port}
use communication_in_critica.Channel.Protocol.{Observed, attach, detach, notify, has_observer}
use communication_in_critica.Channel.Protocol.Endpoint.{
  Packet, Received, send_via_nic, receive_packet,
}
use communication_in_critica.Communication.Message.{Message, max_size}
use communication_in_critica.Network.Nic.{Nic}

-- `_address`, `_broadcast_address`, `_subscribed_to_broadcast`, the observers of its messages, and
-- the queue of buffers that it has as an observer of the channel.
pub record Communicator : Type 0 where
  pub address : Address
  pub broadcast_address : Address
  pub subscribed : Bool
  pub observers : Observed
  pub queue : List ℕ

-- the constructor, and the observers of the channel after it
abbrev pub communicator : ℕ → Address → Bool → Observed → Communicator × Observed
communicator self address subscribe channel = (
  record {
    address = address;
    broadcast_address = logical_broadcast;
    subscribed = subscribe;
    observers = [];
    queue = [];
  },
  let own = attach self address.port channel in
      if subscribe then attach self logical_broadcast.port own else own,
)

-- the destructor
unfoldable pub left : ℕ → Communicator → Observed → Observed
unfolding detach
left self c channel =
    let own = detach self c.address.port channel in
    if c.subscribed then detach self c.broadcast_address.port own else own

-- the packet of a message that is sent at a stamp
abbrev pub packet_of : Communicator → List ℕ → ℕ → ℕ → Packet
packet_of c payload stamp now = record {
  from = c.address;
  to = logical_broadcast;
  payload = payload;
  ts = stamp;
  kind = 0;
  now = now;
}

-- `send`: the NIC, the frame sent, and what is returned. `bytes` is what the engine sent, none if
-- it failed.
unfoldable pub send :
    ℕ → Communicator → Nic → List ℕ → ℕ → ℕ → ℕ → Option ℕ → Nic × Option (List ℕ) × Bool
unfolding send_via_nic
send data_offset c n payload stamp now q bytes =
    let (after, frame) = send_via_nic data_offset n (packet_of c payload stamp now) q bytes in
    (
      after,
      frame,
      elim frame [ none ↦ false | some f ↦ elim bytes [ none ↦ false | some k ↦ ltb 0 k ] ],
    )

-- What `update` did: whom it gave a message, and whether it deleted it.
pub record Updated : Type 0 where
  pub communicator : Communicator
  pub nic : Nic
  pub message : Option Message
  pub notified : List ℕ
  pub deleted : Bool

abbrev pub message_of : Received → Message
message_of r = record {
  payload = r.payload;
  address = r.from;
  timestamp = r.timestamp;
  quadrant = r.quadrant;
}

-- the observers of the condition are given the message, or it is deleted
unfoldable pub passed_on : Communicator → ℕ → Nic → Received → Updated
unfolding notify
passed_on c condition n r =
    let who = if leb (length r.payload) 0 then [] else notify condition c.observers in
    record {
      communicator = c;
      nic = n;
      message = some (message_of r);
      notified = who;
      deleted = elim who [ [] ↦ true | _ ∷ _ ↦ false ];
    }

-- what was unpacked of a buffer is passed on, or deleted where there was no whole header
unfoldable pub unpacked : Communicator → ℕ → Nic × Option Received → Updated
unfolding passed_on
unpacked c condition (n, none) = record {
  communicator = c;
  nic = n;
  message = none;
  notified = [];
  deleted = true;
}
unpacked c condition (n, some r) = passed_on c condition n r

-- `update`, for a buffer of the NIC
unfoldable pub update : ℕ → Communicator → ℕ → Nic → ℕ → Updated
unfolding has_observer receive_packet unpacked
update data_offset c condition n idx =
    if has_observer condition c.observers
    then unpacked c condition (receive_packet data_offset n idx max_size)
    else record {
      communicator = record c { queue = c.queue ++ idx ∷ [] };
      nic = n;
      message = none;
      notified = [];
      deleted = false;
    }

-- `receive`, once there is a buffer, into a payload of a size: the message, and what is returned
unfoldable pub receive : ℕ → Communicator → Nic → ℕ → Communicator × Nic × Option Message × Bool
unfolding receive_packet
receive data_offset c n size = elim c.queue [
  | [] ↦ (c, n, none, false)
  | idx ∷ rest ↦
      let (after, got) = receive_packet data_offset n idx size in
      (
        record c { queue = rest },
        after,
        elim got [ none ↦ none | some r ↦ some (message_of r) ],
        elim got [ none ↦ false | some r ↦ ltb 0 (length r.payload) ],
      )
]
