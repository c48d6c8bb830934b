-- ===== src/Channel/Sptp.antt =====
-- src/channel/sptp_protocol.h: the clock synchronisation between a road-side unit, the master, and
-- the vehicles. A call takes the clocks that it reads as arguments; what it sends, and the jump of
-- the clock, is a value it returns. Sums of `int64_t` stamps are taken not to overflow, nor the
-- counters. The constant of `Traits` for the watchdog is whole nanoseconds here: below 2^53 of them
-- the test on doubles is the same.
pub mod Wire
pub mod Measure
pub mod Round
pub mod Stale
pub mod Jump
mod Tests
use communication_in_critica.Prelude.{
  ℕ, ◌+◌, ◌*◌, ◌/◌, ◌%◌, ◌^◌, Bool, true, false, not, ◌&&◌, ◌||◌, List, [], ◌∷◌, Option, none, some,
  if◌then◌else◌, ltb, leb, ◌==◌, length, ℤ, pos, negsuc, ◌+ℤ◌, ◌-ℤ◌, half, neg, abs, int64_of,
  is_zero,
}
use communication_in_critica.Channel.Address.{Address, physical_broadcast}
use communication_in_critica.Channel.Sptp.Wire.{
  request_size, sync_size, request_bytes, sync_bytes, seq_of, t2_prime_of,
}

-- `PacketKind`
abbrev pub data_kind : ℕ
data_kind = 0

abbrev pub sync_kind : ℕ
sync_kind = 1

abbrev pub request_kind : ℕ
request_kind = 2

abbrev pub initial_delay_ns : ℕ
initial_delay_ns = 100000

abbrev pub min_offset_ns : ℕ
min_offset_ns = 100000

abbrev pub max_offset_ns : ℕ
max_offset_ns = 1000000000

abbrev pub max_silence_ns : ℕ
max_silence_ns = 2000000000

-- `Component_Ports::GATEWAY`
abbrev pub gateway_port : ℕ
gateway_port = 0

pub record Sptp : Type 0 where
  pub is_master : Bool
  pub current_delay_ns : ℕ
  pub current_offset_ns : ℤ
  pub pending_t2_ns : ℤ
  pub pending_seq : ℕ
  pub next_seq : ℕ
  pub last_sync_steady_ns : ℕ
  pub running : Bool
  pub sync_count : ℕ
  pub resync_requests : ℕ
  pub first_sync_done : Bool

-- What a call does outside its own state.
pub data Effect : Type 0 where
  sends : (to : Address) (kind : ℕ) (payload : List ℕ) → Effect
  presence : (from : Address) → Effect
  jumps : (delta_ns : ℤ) → Effect

unfoldable pub create : Bool → Sptp
create is_master = record {
  is_master = is_master;
  current_delay_ns = initial_delay_ns;
  current_offset_ns = pos 0;
  pending_t2_ns = pos 0;
  pending_seq = 0;
  next_seq = 1;
  last_sync_steady_ns = 0;
  running = false;
  sync_count = 0;
  resync_requests = 0;
  first_sync_done = false;
}

-- `send_sync_request`: `now` is read before the packet is sent, and `tx_ts` is what the protocol
-- stamped it with, 0 if it was not sent
unfoldable pub send_sync_request : Sptp → ℤ → ℤ → Sptp × List Effect
send_sync_request s now tx_ts = (
  record s {
    next_seq = (s.next_seq + 1) % 2 ^ 32;
    pending_t2_ns = if is_zero tx_ts then now else tx_ts;
    pending_seq = s.next_seq;
  },
  sends (physical_broadcast gateway_port) request_kind (request_bytes s.next_seq) ∷ [],
)

-- `start`, up to the start of the thread
unfoldable pub start : Sptp → ℕ → ℤ → ℤ → Sptp × List Effect
unfolding send_sync_request
start s steady now tx_ts =
    if s.is_master
    then (s, [])
    else send_sync_request (record s { last_sync_steady_ns = steady; running = true }) now tx_ts

-- a round of the loop of the thread, after it slept
unfoldable pub watch : Sptp → ℕ → ℤ → ℤ → Sptp × List Effect
unfolding send_sync_request
watch s steady now tx_ts =
    if s.running && (not s.first_sync_done || ltb (s.last_sync_steady_ns + max_silence_ns) steady)
    then send_sync_request s now tx_ts
    else (s, [])

abbrev pub stop : Sptp → Sptp
stop s = record s { running = false }

unfoldable pub request_resync : Sptp → ℤ → ℤ → Sptp × List Effect
unfolding send_sync_request
request_resync s now tx_ts =
    if s.is_master || not s.running
    then (s, [])
    else send_sync_request (record s { resync_requests = s.resync_requests + 1 }) now tx_ts

abbrev pub raw_offset : ℤ → ℤ → ℤ → ℤ → ℤ
raw_offset t1 t1' t2 t2' = half ((t1' -ℤ t1) -ℤ (t2' -ℤ t2))

abbrev pub raw_delay : ℤ → ℤ → ℤ → ℤ → ℤ
raw_delay t1 t1' t2 t2' = half ((t1' -ℤ t1) +ℤ (t2' -ℤ t2))

-- `adjust_clock_jump`: the time that it sets, from what the clock says, in seconds and nanoseconds;
-- the kernel refuses one before 1970
unfoldable pub adjust_clock_jump : ℕ → ℕ → ℤ → Option (ℕ × ℕ)
adjust_clock_jump sec nsec delta_ns = elim (pos (sec * 1000000000 + nsec) +ℤ delta_ns) [
  | pos total ↦ some (total / 1000000000, total % 1000000000)
  | negsuc n ↦ none
]

-- the moving average, with `ALPHA` an eighth: exact in doubles for delays below 2^49 ns
abbrev pub averaged : ℕ → ℤ → ℕ
averaged current (pos raw) = if raw == 0 then current else (7 * current + raw) / 8
averaged current _ = current

-- `on_receive` of the master
unfoldable pub receive_request : Sptp → ℕ → Address → List ℕ → ℕ → Sptp × List Effect
receive_request s kind sender payload now =
    if kind == request_kind && leb request_size (length payload)
    then (s, sends sender sync_kind (sync_bytes (seq_of payload) now) ∷ presence sender ∷ [])
    else (s, [])

-- the end of `on_receive` of a slave, from the two measures on
unfoldable pub apply_measure : Sptp → ℤ → ℤ → ℕ → Sptp × List Effect
apply_measure s offset delay steady =
    let measured = record s {
      current_delay_ns = averaged s.current_delay_ns delay;
      pending_t2_ns = pos 0;
    } in
    if leb max_offset_ns (abs offset) then (measured, []) else (
      record measured {
        last_sync_steady_ns = steady;
        first_sync_done = true;
        current_offset_ns = offset;
        sync_count = s.sync_count + 1;
      },
      if ltb min_offset_ns (abs offset) then jumps (neg offset) ∷ [] else [],
    )

-- `on_receive` of a slave
unfoldable pub receive_sync : Sptp → ℕ → ℤ → List ℕ → ℤ → ℕ → Sptp × List Effect
unfolding apply_measure
receive_sync s kind t1 payload t1' steady =
    if kind == sync_kind
      && (leb sync_size (length payload)
          && (not (is_zero s.pending_t2_ns) && seq_of payload == s.pending_seq))
    then apply_measure s (raw_offset t1 t1' s.pending_t2_ns (t2_prime_of payload))
        (raw_delay t1 t1' s.pending_t2_ns (t2_prime_of payload)) steady
    else (s, [])

-- `on_receive`: a master reads the clock before it replies, a slave when the packet is whole
unfoldable pub on_receive : Sptp → ℕ → Address → ℤ → List ℕ → ℕ → ℤ → ℕ → Sptp × List Effect
unfolding receive_request receive_sync
on_receive s kind sender header_ts payload t2' t1' steady =
    if s.is_master
    then receive_request s kind sender payload t2'
    else receive_sync s kind header_ts payload t1' steady
