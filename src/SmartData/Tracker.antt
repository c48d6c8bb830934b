-- ===== src/SmartData/Tracker.antt =====
-- src/communication/smart_data/interest_tracker.h: the broker of a road-side unit. It hears the
-- interests of its quadrant, repeats them, and stops the producers of the units that nobody wants
-- any more. Both handlers and the tick run under `_mtx`, so each is one step; the time is an
-- argument. A message sent is a value returned.
pub mod Active
pub mod Absence
pub mod Runs
pub mod Service
pub mod Repeating
pub mod Seen
pub mod Stopping
use communication_in_critica.Prelude.{
  ℕ, ◌+◌, ◌%◌, ◌^◌, Bool, true, false, not, ◌&&◌, List, [], ◌∷◌, ◌++◌, Option, none, some, map,
  if◌then◌else◌, ltb, leb, ◌==◌, remove_if, length, Map, lookup, assign, erase,
}
use communication_in_critica.Channel.Address.{Address, address_eq}
use communication_in_critica.SmartData.Helpers.{mac_key}
use communication_in_critica.SmartData.Wire.{
  InterestMessage, kind_interest, interest_message_size, read_header, read_interest,
}

abbrev pub presence_lease_ns : ℕ
presence_lease_ns = 4000000000

pub record Entry : Type 0 where
  pub unit : ℕ
  pub address : Address
  pub period_us : ℕ

-- The key of the vehicle of an entry.
abbrev pub vehicle_of : Entry → ℕ
vehicle_of e = mac_key e.address.paddr

pub record Tracker : Type 0 where
  pub interests : List Entry
  pub presence : Map
  pub active_units : List ℕ
  pub disinterests_sent : ℕ

abbrev pub start : Tracker
start = record { interests = []; presence = []; active_units = []; disinterests_sent = 0 }

unfoldable pub on_presence : Tracker → ℕ → Address → Tracker
unfolding assign
on_presence t now from = record t { presence = assign (mac_key from.paddr) now t.presence }

-- the test of the two loops of `update`
abbrev pub is_from : ℕ → Address → Entry → Bool
is_from unit address e = e.unit == unit && address_eq e.address address

-- the loop that looks for the entry, and the `push_back` when there is none
unfoldable pub register : ℕ → Address → ℕ → List Entry → List Entry
register unit address period [] = record { unit = unit; address = address; period_us = period } ∷ []
register unit address period (e ∷ es) =
    let rest = register unit address period es in
    if is_from unit address e then record e { period_us = period } ∷ es else e ∷ rest

-- what `update` does once the message is known to be an interest
unfoldable pub heard : Tracker → ℕ → Address → InterestMessage → Tracker
unfolding register assign
heard t now address im =
    if im.disinterest == 0
    then record t {
      presence = assign (mac_key address.paddr) now t.presence;
      interests = register im.header.unit address im.period_us t.interests;
    }
    else record t { interests = remove_if (is_from im.header.unit address) t.interests }

-- `update`, for a message from `address`; it frees the message in each case
unfoldable pub update : Tracker → ℕ → Address → List ℕ → Tracker
unfolding heard
update t now address payload =
    if leb interest_message_size (length payload) && (read_header payload).kind == kind_interest
    then heard t now address (read_interest payload)
    else t

-- the first loop of `broker_tick`
unfoldable pub dead : ℕ → Map → List ℕ
dead now [] = []
dead now ((mac, seen) ∷ m) =
    let rest = dead now m in if ltb (seen + presence_lease_ns) now then mac ∷ rest else rest

-- the loop over `dead`
unfoldable pub purge : List ℕ → Tracker → Tracker
unfolding erase
purge [] t = t
purge (mac ∷ macs) t = purge macs (record t {
  presence = erase mac t.presence;
  interests = remove_if (λ e. vehicle_of e == mac) t.interests;
})

-- the body of the loop that fills `active`
unfoldable pub note : Map → Entry → Map
unfolding lookup assign
note active e = elim (lookup e.unit active) [
  | none ↦ assign e.unit e.period_us active
  | some p ↦ if ltb e.period_us p then assign e.unit e.period_us active else active
]

unfoldable pub note_all : Map → List Entry → Map
unfolding note
note_all active [] = active
note_all active (e ∷ es) = note_all (note active e) es

-- `active.find(u) == active.end()`
abbrev pub missing : Map → ℕ → Bool
missing active u = elim (lookup u active) [ none ↦ true | some _ ↦ false ]

-- the loop that fills `to_stop`
abbrev pub stopped : Map → List ℕ → List ℕ
stopped active [] = []
stopped active (u ∷ us) =
    let rest = stopped active us in if missing active u then u ∷ rest else rest

-- the message of `send_msg`
abbrev pub interest_message : ℕ → ℕ → Bool → InterestMessage
interest_message unit period disinterest = record {
  header = record { kind = kind_interest; unit = unit };
  period_us = period;
  disinterest = if disinterest then 1 else 0;
}

unfoldable pub broker_tick : Tracker → ℕ → Tracker × List InterestMessage
unfolding dead purge note_all
broker_tick t now =
    let left = purge (dead now t.presence) t in
    let active = note_all [] left.interests in
    let to_stop = stopped active left.active_units in
    (
      record left {
        active_units = map (λ kv. kv.0) active;
        disinterests_sent = (left.disinterests_sent + length to_stop) % 2 ^ 64;
      },
      map (λ u. interest_message u 0 true) to_stop
          ++ map (λ kv. interest_message kv.0 kv.1 false) active,
    )
