-- ===== src/Channel/Protocol/Session.antt =====
-- The rest of src/channel/protocol.h: the constructor and the destructor, the start and stop of the
-- clock synchronisation, the handlers that the socket's NIC and SPTP call, and addresses. The clocks
-- that a call reads are arguments, and what SPTP sends is a value returned.
pub mod History
pub mod Resync
mod Tests
use communication_in_critica.Prelude.{
  ℕ, ◌≡◌, refl, ap, ◌∙◌, Bool, true, false, not, ◌&&◌, List, [], ◌∷◌, Option, none, some,
  if◌then◌else◌, ◌==◌, ℤ, Bool-cases, inl, inr, arith,
}
use communication_in_critica.Ethernet.{Mac}
use communication_in_critica.Gps.Device.{quadrant_none}
use communication_in_critica.Network.Nic.{Nic, send, detect_quadrant_change}
use communication_in_critica.Channel.Address.{Address, physical_broadcast}
use communication_in_critica.Channel.Sptp.{
  Sptp, Effect, sends, create, start, send_sync_request, request_resync, gateway_port, request_kind,
}
use communication_in_critica.Channel.Sptp.Wire.{request_bytes}
use communication_in_critica.Channel.Protocol.{Observed, attach, detach, proto}

-- The observers of the shared memory's NIC, those of the socket's NIC if there is one, `_address`,
-- `_is_master`, `_presence_handler`, a number, and `_sptp`; `fixed` is what the socket's engine was
-- told of the quadrant.
pub record Session : Type 0 where
  pub shm_observers : Observed
  pub socket_observers : Option Observed
  pub address : Address
  pub is_master : Bool
  pub presence_handler : Option ℕ
  pub sptp : Option Sptp
  pub fixed : Option Bool

-- the constructor, in the process of a gateway or of a component
unfoldable pub session : ℕ → Mac → Bool → Observed → Session
session self mac gateway_process shm_observers = record {
  shm_observers = attach self proto shm_observers;
  socket_observers = if gateway_process then some (attach self proto []) else none;
  address = record { paddr = mac; port = 0 };
  is_master = false;
  presence_handler = none;
  sptp = none;
  fixed = none;
}

abbrev pub create_address : Session → ℕ → Address
create_address s port = record { paddr = s.address.paddr; port = port }

abbrev pub set_presence_handler : ℕ → Session → Session
set_presence_handler handler s = record s { presence_handler = some handler }

-- `on_presence`: the handler that is called with the sender
abbrev pub on_presence : Session → Address → Option (ℕ × Address)
on_presence s from = elim s.presence_handler [ none ↦ none | some handler ↦ some (handler, from) ]

-- the part of `enable_sync` for a gateway without synchronisation
unfoldable pub started : Bool → Session → ℕ → ℤ → ℤ → Session × List Effect
unfolding create start
started is_master s steady now tx_ts =
    let (sptp, effects) = start (create is_master) steady now tx_ts in
    (record s { is_master = is_master; fixed = some is_master; sptp = some sptp }, effects)

unfoldable pub enable_sync : Bool → Session → ℕ → ℤ → ℤ → Session × List Effect
unfolding started
enable_sync is_master s steady now tx_ts = elim s.socket_observers [
  | none ↦ (s, [])
  | some _ ↦ elim s.sptp [ none ↦ started is_master s steady now tx_ts | some _ ↦ (s, []) ]
]

-- `disable_sync` stops SPTP and deletes it
abbrev pub disable_sync : Session → Session
disable_sync s = record s { sptp = none }

-- the destructor
unfoldable pub ended : ℕ → Session → Session
unfolding detach
ended self s = record (disable_sync s) {
  shm_observers = detach self proto s.shm_observers;
  socket_observers = none;
}

-- `on_quadrant_change`
unfoldable pub on_quadrant_change : Session → ℤ → ℤ → Session × List Effect
unfolding request_resync
on_quadrant_change s now tx_ts = elim s.sptp [
  | none ↦ (s, [])
  | some sptp ↦
      let (after, effects) = request_resync sptp now tx_ts in
      (record s { sptp = some after }, effects)
]

-- a `send` of the socket's NIC, which calls the handler of a change of quadrant
unfoldable pub send_noticing : Session → Nic → ℕ → ℕ → Option ℕ → ℤ → ℤ → Session × List Effect
unfolding send on_quadrant_change
send_noticing s n idx q bytes now tx_ts =
    if (send n idx q bytes).quadrant_changed then on_quadrant_change s now tx_ts else (s, [])
