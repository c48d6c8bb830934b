-- ===== src/SmartData/Smart.antt =====
-- src/communication/smart_data/smart_data.h: a producer or a consumer of one unit, as an observer of
-- a communicator. A message is its payload, its sender and its quadrant; the values of the unit are
-- opaque bytes, of a size that the type decides. The time is an argument, and what is sent, in order,
-- is a value returned. Times do not overflow, nor do the counters.
pub mod Service
pub mod History
mod Tests
use communication_in_critica.Prelude.{
  ℕ, ◌+◌, ◌*◌, Bool, true, false, not, ◌&&◌, ◌||◌, List, [], ◌∷◌, ◌++◌, Option, none, some,
  if◌then◌else◌, ltb, leb, ◌==◌, length, take, drop, Map, assign,
}
use communication_in_critica.Channel.Address.{Address, broadcast_port}
use communication_in_critica.Channel.Protocol.{Observed, attach, detach}
use communication_in_critica.Communication.Message.{Message}
use communication_in_critica.SmartData.Helpers.{mac_key}
use communication_in_critica.SmartData.Wire.{
  InterestMessage, read_header, read_interest, smart_header_size, interest_message_size,
  kind_interest, kind_response, response_bytes, interest_bytes,
}
use communication_in_critica.SmartData.BindingCache.{
  Cache, empty, on_interest, on_disinterest, clear,
}
use communication_in_critica.SmartData.Tracker.{interest_message}

-- `Smart_Config`
abbrev pub interest_refresh_us : ℕ
interest_refresh_us = 1000000

abbrev pub binding_lifetime_min_us : ℕ
binding_lifetime_min_us = 3500000

abbrev pub binding_lifetime_factor : ℕ
binding_lifetime_factor = 4

abbrev pub value_ttl_factor : ℕ
value_ttl_factor = 3

-- The fields of either role; the producers known are a set, a map to nothing of interest. A function
-- that was set to be called is a number.
pub record Smart : Type 0 where
  pub unit : ℕ
  pub value_size : ℕ
  pub is_producer : Bool
  pub cache : Cache
  pub last_seen_quad : ℕ
  pub responses_sent : ℕ
  pub on_response_sent : Option ℕ
  pub on_disinterest : Option ℕ
  pub period_us : ℕ
  pub last_response_ns : ℕ
  pub reissues : ℕ
  pub unsubscribed : Bool
  pub producers : Map
  pub responses_received : ℕ
  pub value_mode : Bool
  pub last_value : List ℕ
  pub last_value_ns : ℕ
  pub has_value : Bool
  pub queue : List Message

-- the constructor of a producer
unfoldable pub producer : ℕ → ℕ → Smart
producer unit value_size = record {
  unit = unit;
  value_size = value_size;
  is_producer = true;
  cache = empty binding_lifetime_min_us binding_lifetime_factor;
  last_seen_quad = 0xff;
  responses_sent = 0;
  on_response_sent = none;
  on_disinterest = none;
  period_us = 0;
  last_response_ns = 0;
  reissues = 0;
  unsubscribed = false;
  producers = [];
  responses_received = 0;
  value_mode = false;
  last_value = [];
  last_value_ns = 0;
  has_value = false;
  queue = [];
}

abbrev pub send_interest : Smart → Bool → InterestMessage
send_interest s disinterest = interest_message s.unit s.period_us disinterest

-- the call of a function, if it was set, with its argument
abbrev pub called : Option ℕ → ℕ → Option (ℕ × ℕ)
called none x = none
called (some f) x = some (f, x)

-- `respond`, with the bytes of the value that the component produces: the payload that is sent, and
-- the call of `_on_response_sent`
unfoldable pub respond : Smart → List ℕ → Smart × List ℕ × Option (ℕ × ℕ)
unfolding response_bytes
respond s value =
    let n = s.responses_sent + 1 in
    (
      record s { responses_sent = n },
      response_bytes (record { kind = kind_response; unit = s.unit }) value,
      called s.on_response_sent n,
    )

-- the payload of an interest
abbrev pub interest_payload : Smart → Bool → List ℕ
interest_payload s disinterest = interest_bytes (send_interest s disinterest)

-- the constructor of a consumer, and the interests that it sends
unfoldable pub consumer : ℕ → ℕ → ℕ → Bool → Bool → ℕ → Smart × List InterestMessage
unfolding producer
consumer unit value_size period auto_refresh value_mode now =
    let s = record (producer unit value_size) {
      is_producer = false;
      period_us = if period == 0 then 1 else period;
      value_mode = value_mode;
      last_response_ns = now;
    } in
    let m = send_interest s false in (s, if auto_refresh then m ∷ [] else m ∷ m ∷ m ∷ [])

-- What became of a message: whether it was freed, and the call of `_on_disinterest`.
pub record Handled : Type 0 where
  pub smart : Smart
  pub freed : Bool
  pub disinterest : Option (ℕ × ℕ)

-- the part of `update` for a producer that got a whole interest
unfoldable pub heed : Smart → ℕ → Message → Handled
unfolding read_interest on_interest on_disinterest clear
heed s now m =
    let cache = if s.last_seen_quad == m.quadrant then s.cache else clear s.cache in
    let im = read_interest m.payload in
    let seen = record s { last_seen_quad = m.quadrant } in
    if im.disinterest == 0
    then record {
      smart = record seen { cache = on_interest cache now s.unit m.address im.period_us };
      freed = true;
      disinterest = none;
    }
    else record {
      smart = record seen { cache = on_disinterest cache s.unit m.address };
      freed = true;
      disinterest = called s.on_disinterest s.unit;
    }

-- the part of `update` for a consumer that got a response
unfoldable pub take_response : Smart → ℕ → Message → Handled
unfolding mac_key assign
take_response s now m =
    let known = record s {
      last_response_ns = now;
      producers = assign (mac_key m.address.paddr) 0 s.producers;
      responses_received = s.responses_received + 1;
    } in
    let valued =
      if leb (smart_header_size + s.value_size) (length m.payload)
      then record known {
        last_value = take s.value_size (drop smart_header_size m.payload);
        last_value_ns = now;
        has_value = true;
      }
      else known in
    record {
      smart = if s.value_mode then valued else record valued { queue = valued.queue ++ m ∷ [] };
      freed = s.value_mode;
      disinterest = none;
    }

unfoldable pub update : Smart → ℕ → Message → Handled
unfolding read_header heed take_response
update s now m =
    let kept : Handled = record { smart = s; freed = true; disinterest = none } in
    let h = read_header m.payload in
    if ltb (length m.payload) smart_header_size || not (h.unit == s.unit)
    then kept
    else (if s.is_producer && h.kind == kind_interest
        then (if leb interest_message_size (length m.payload) then heed s now m else kept)
        else (if not s.is_producer && h.kind == kind_response then take_response s now m else kept))

unfoldable pub expired : Smart → ℕ → Bool
expired s now =
    if s.has_value then ltb (s.last_value_ns + value_ttl_factor * s.period_us * 1000) now else true

unfoldable pub reactive_tick : Smart → ℕ → Smart × List InterestMessage
reactive_tick s now =
    if leb (s.last_response_ns + interest_refresh_us * 1000) now
    then (record s { reissues = s.reissues + 1 }, send_interest s false ∷ [])
    else (s, [])

unfoldable pub unsubscribe : Smart → Smart × List InterestMessage
unsubscribe s =
    let m = send_interest s true in
    if s.is_producer || s.unsubscribed
    then (s, [])
    else (record s { unsubscribed = true }, m ∷ m ∷ m ∷ [])

unfoldable pub abandon : Smart → Smart
abandon s = if s.is_producer then s else record s { unsubscribed = true }

-- `drain_and_free`: the messages that it deletes, until `updated(0)` finds none
unfoldable pub drain_and_free : List Message → List Message
drain_and_free [] = []
drain_and_free (m ∷ queue) = m ∷ drain_and_free queue

-- the destructor: what it sends
unfoldable pub destroy : Smart → List InterestMessage
destroy s = if s.is_producer || s.unsubscribed then [] else send_interest s true ∷ []

-- `on_response_sent` and `on_disinterest_received`
abbrev pub set_on_response_sent : ℕ → Smart → Smart
set_on_response_sent f s = record s { on_response_sent = some f }

abbrev pub set_on_disinterest : ℕ → Smart → Smart
set_on_disinterest f s = record s { on_disinterest = some f }

abbrev pub fresh : Smart → ℕ → Bool
fresh s now = not (expired s now)

abbrev pub producer_count : Smart → ℕ
producer_count s = length s.producers

-- `receive_response`, without waiting: the front of the queue
unfoldable pub receive_response : Smart → Smart × Option Message
receive_response s = elim s.queue [
  | [] ↦ (s, none)
  | m ∷ rest ↦ (record s { queue = rest }, some m)
]

-- the observers of the communicator with a new SmartData, and without one that ends
abbrev pub joined : ℕ → Observed → Observed
joined self observers = attach self broadcast_port observers

abbrev pub parted : ℕ → Observed → Observed
parted self observers = detach self broadcast_port observers
