-- ===== src/SmartData/Tests.antt =====
-- Runs of the interest and response layer.
use communication_in_critica.Prelude.{
  ℕ, ◌≡◌, ◌<◌, ◌≤◌, refl, List, [], ◌∷◌, Option, none, some, arith, to_bytes, from_bytes, ◌↔◌, Elem,
  true, false, ◌++◌,
}
use communication_in_critica.Ethernet.{Mac, mac_eq}
use communication_in_critica.Channel.Address.{Address, address_eq}
use communication_in_critica.SmartData.Helpers.{mac_key, key_of, IsBytes, speed}
use communication_in_critica.SmartData.Wire.{
  InterestMessage, interest_bytes, read_interest, header_bytes, read_header,
}
use communication_in_critica.SmartData.BindingCache.{empty, find_thread, find_binding}
use communication_in_critica.SmartData.BindingCache.Refine.{
  Call, interest, disinterest, view, run, lease_run,
}
use communication_in_critica.SmartData.BindingCache.Service.{
  leases_refine, lease_answered, thread_wanted,
}
use communication_in_critica.SmartData.Tracker.{
  Entry, start, heard, purge, broker_tick, interest_message, vehicle_of,
}
use communication_in_critica.SmartData.Tracker.Active.{Asked, Bounds}
use communication_in_critica.SmartData.Tracker.Runs.{Event, message, tick, run as run_tracker}
use communication_in_critica.SmartData.Tracker.Seen.{SeenInTime, absent_forgotten}
use communication_in_critica.SmartData.Tracker.Service.{shortest_repeated}
use communication_in_critica.SmartData.Tracker.Stopping.{unwanted_stopped}

abbrev vehicle : ℕ → Mac
vehicle n = record { b0 = 2; b1 = 0; b2 = 0; b3 = 0; b4 = 1; b5 = n }

abbrev port : ℕ → ℕ → Address
port n p = record { paddr = vehicle n; port = p }

key : mac_key (vehicle 7) ≡ 0x020000000107
unfolding mac_key key_of
key = refl

vehicle-IsBytes : (n : ℕ) → n < 256 → IsBytes (vehicle n)
vehicle-IsBytes n h = record {
  is0 = omega arith;
  is1 = omega arith;
  is2 = omega arith;
  is3 = omega arith;
  is4 = omega arith;
  is5 = h;
}

abbrev wanting : InterestMessage
wanting = record { header = record { kind = 0; unit = speed }; period_us = 100000; disinterest = 0 }

packed : interest_bytes wanting ≡ 0 ∷ 2 ∷ 0 ∷ 0 ∷ 0 ∷ 160 ∷ 134 ∷ 1 ∷ 0 ∷ 0 ∷ 0 ∷ 0 ∷ 0 ∷ 0 ∷ []
unfolding interest_bytes header_bytes to_bytes
packed = refl

-- Two vehicles ask for the speed; the one that asked for the shorter period leaves.
abbrev history : List (ℕ × Call)
history =
    (0, interest speed (port 7 3000) 200000)
    ∷ (1000, interest speed (port 8 3000) 100000)
    ∷ (2000, disinterest speed (port 8 3000))
    ∷ []

abbrev lease_7 : Option (ℕ × ℕ)
lease_7 = some (200000, 3500000000)

leases_refine_example :
    view (run (empty 3500000 4) history) speed (port 7 3000)
    ≡ lease_run 3500000 4 (λ _ _. none) history speed (port 7 3000)
leases_refine_example = leases_refine 3500000 4 history speed (port 7 3000)

lease-history : view (run (empty 3500000 4) history) speed (port 7 3000) ≡ lease_7
unfolding run find_binding address_eq mac_eq
lease-history = refl

thread-history : find_thread speed (run (empty 3500000 4) history).threads ≡ some 200000
unfolding run find_thread address_eq mac_eq
thread-history = refl

lease_answered_example :
    (q : ℕ) × (find_thread speed (run (empty 3500000 4) history).threads ≡ some q)
    × (0 < q)
    × (q ≤ 200000)
lease_answered_example =
    lease_answered 3500000 4 history speed (port 7 3000) 200000 3500000000 lease-history

thread_wanted_example :
    (address : Address) × (expiry : ℕ) × (view (run (empty 3500000 4) history) speed address
      ≡ some (200000, expiry))
thread_wanted_example = thread_wanted 3500000 4 history speed 200000 thread-history

-- A vehicle is interested, and then silent for five seconds.
abbrev asked : List ℕ
asked = 0 ∷ 2 ∷ 0 ∷ 0 ∷ 0 ∷ 160 ∷ 134 ∷ 1 ∷ 0 ∷ 0 ∷ 0 ∷ 0 ∷ 0 ∷ 0 ∷ []

abbrev asked_at_1 : List (ℕ × Event)
asked_at_1 = (1, message (port 7 3000) asked) ∷ []

abbrev heard_at_1 : List (ℕ × Event)
heard_at_1 = asked_at_1 ++ (1000000000, tick) ∷ []

abbrev entry : Entry
entry = record { unit = speed; address = port 7 3000; period_us = 100000 }

tracked : (run_tracker start heard_at_1).interests ≡ entry ∷ []
unfolding run_tracker heard read_header read_interest from_bytes mac_key key_of purge
tracked = refl

absent_forgotten_example :
    Elem entry (broker_tick (run_tracker start heard_at_1) 5000000000).0.interests ↔ (
      Elem entry (run_tracker start heard_at_1).interests
      × SeenInTime heard_at_1 5000000000 (vehicle_of entry))
absent_forgotten_example = absent_forgotten heard_at_1 5000000000 entry

shortest_repeated_example :
    Elem
      (interest_message speed 100000 false)
      (broker_tick (run_tracker start heard_at_1) 2000000000).1
    ↔ (Bounds speed 100000 (broker_tick (run_tracker start heard_at_1) 2000000000).0.interests
        × Asked speed 100000 (broker_tick (run_tracker start heard_at_1) 2000000000).0.interests)
shortest_repeated_example = shortest_repeated heard_at_1 2000000000 speed 100000

unwanted_stopped_example :
    Elem (interest_message speed 0 true) (broker_tick (run_tracker start heard_at_1) 5000000000).1
    ↔ (((p : ℕ) × Elem
            (interest_message speed p false)
            (broker_tick (run_tracker start asked_at_1) 1000000000).1)
        × ((p : ℕ)
            → Asked speed p (broker_tick (run_tracker start heard_at_1) 5000000000).0.interests
            → ⊥))
unwanted_stopped_example = unwanted_stopped asked_at_1 [] 1000000000 5000000000 speed tt

told_to_stop :
    (broker_tick (run_tracker start heard_at_1) 5000000000).1 ≡ interest_message speed 0 true ∷ []
unfolding broker_tick run_tracker heard read_header read_interest from_bytes mac_key key_of
told_to_stop = refl
