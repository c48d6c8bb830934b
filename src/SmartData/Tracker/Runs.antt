-- ===== src/SmartData/Tracker/Runs.antt =====
-- Any history of presences, messages and ticks, each at its time, and what it keeps of the broker's
-- tables.
use communication_in_critica.Prelude.{
  ℕ, ◌≡◌, refl, ◌∙◌, inl, inr, List, [], ◌∷◌, some, ◌==◌, ◌&&◌, leb, arith, All, All-Elem, Elem-All,
  All-remove_if, length, Bool-cases, Map, lookup, assign, IsSorted, assign-IsSorted, lookup-assign,
}
use communication_in_critica.Channel.Address.{Address}
use communication_in_critica.SmartData.Helpers.{mac_key}
use communication_in_critica.SmartData.Wire.{
  InterestMessage, kind_interest, interest_message_size, read_header, read_interest,
}
use communication_in_critica.SmartData.Tracker.{
  Entry, Tracker, start, on_presence, heard, update, register, is_from, dead, purge, vehicle_of,
  broker_tick,
}
use communication_in_critica.SmartData.Tracker.Absence.{lookup-purge, purge-IsSorted, Elem-purge}

pub data Event : Type 0 where
  presence : (from : Address) → Event
  message : (from : Address) (payload : List ℕ) → Event
  tick : Event

unfoldable pub step : Tracker → ℕ → Event → Tracker
unfolding on_presence update broker_tick
step t now (presence from) = on_presence t now from
step t now (message from payload) = update t now from payload
step t now tick = (broker_tick t now).0

unfoldable pub run : Tracker → List (ℕ × Event) → Tracker
unfolding step
run t [] = t
run t ((now, e) ∷ es) = run (step t now e) es

abbrev IsKnown : Map → Entry → Type 0
IsKnown m e = (seen : ℕ) × (lookup (vehicle_of e) m ≡ some seen)

-- The table of presences is in order, and the vehicle of each interest is in it.
pub record IsValid (t : Tracker) : Type 0 where
  pub sorted : IsSorted t.presence
  pub known : All (IsKnown t.presence) t.interests

IsKnown-assign : (mac now : ℕ) (m : Map) (e : Entry) → IsKnown m e → IsKnown (assign mac now m) e
IsKnown-assign mac now m e (seen, k) = elim (Bool-cases (mac == vehicle_of e)) [
  | inl s ↦ (now, lookup-assign mac now (vehicle_of e) m ∙ rw s refl)
  | inr s ↦ (seen, lookup-assign mac now (vehicle_of e) m ∙ rw s k)
]

all-IsKnown :
    (mac now : ℕ) (m : Map) (es : List Entry)
    → All (IsKnown m) es
    → All (IsKnown (assign mac now m)) es
all-IsKnown mac now m [] h = tt
all-IsKnown mac now m (e ∷ es) h = (IsKnown-assign mac now m e h.0, all-IsKnown mac now m es h.1)

IsKnown-register :
    (u : ℕ) (a : Address) (p : ℕ) (m : Map) (es : List Entry)
    → (seen : ℕ) × (lookup (mac_key a.paddr) m ≡ some seen)
    → All (IsKnown m) es
    → All (IsKnown m) (register u a p es)
unfolding register
IsKnown-register u a p m [] k h = (k, tt)
IsKnown-register u a p m (e ∷ es) k h = elim (Bool-cases (is_from u a e)) [
  | inl s ↦ rw s h
  | inr s ↦ rw s (h.0, IsKnown-register u a p m es k h.1)
]

assigned : (mac now : ℕ) (m : Map) → lookup mac (assign mac now m) ≡ some now
assigned mac now m = ground (arith, lookup-assign mac now mac m)

heard-IsValid :
    (t : Tracker) (now : ℕ) (a : Address) (im : InterestMessage)
    → IsValid t
    → IsValid (heard t now a im)
unfolding heard
heard-IsValid t now a im v = elim (Bool-cases (im.disinterest == 0)) [
  | inl s ↦
      rw (s, heard)
        (record {
          sorted = assign-IsSorted (mac_key a.paddr) now t.presence v.sorted;
          known =
              IsKnown-register im.header.unit a im.period_us _ t.interests
                (now, assigned (mac_key a.paddr) now t.presence)
                (all-IsKnown (mac_key a.paddr) now t.presence t.interests v.known);
        })
  | inr s ↦
      rw (s, heard) (record { sorted = v.sorted; known = All-remove_if _ _ t.interests v.known })
]

tick-IsValid : (t : Tracker) (now : ℕ) → IsValid t → IsValid (broker_tick t now).0
unfolding broker_tick
tick-IsValid t now v = record {
  sorted = purge-IsSorted (dead now t.presence) t v.sorted;
  known = Elem-All _ (purge (dead now t.presence) t).interests λ e m.
      let (m', present) = (Elem-purge (dead now t.presence) t e).0 m in
      let (seen, k) = All-Elem _ e t.interests v.known m' in
      (seen, lookup-purge (dead now t.presence) t (vehicle_of e) present ∙ k);
}

-- Every event keeps the invariant.
step-IsValid : (t : Tracker) (now : ℕ) (e : Event) → IsValid t → IsValid (step t now e)
unfolding step
step-IsValid t now (presence from) v = record {
  sorted = assign-IsSorted (mac_key from.paddr) now t.presence v.sorted;
  known = all-IsKnown (mac_key from.paddr) now t.presence t.interests v.known;
}
step-IsValid t now (message from payload) v =
    let is_interest =
      leb interest_message_size (length payload) && (read_header payload).kind == kind_interest in
    elim (Bool-cases is_interest) [
      | inl s ↦ rw (s, update) (heard-IsValid t now from (read_interest payload) v)
      | inr s ↦ rw (s, update) v
    ]
step-IsValid t now tick v = tick-IsValid t now v

pub run-IsValid : (t : Tracker) (es : List (ℕ × Event)) → IsValid t → IsValid (run t es)
unfolding run
run-IsValid t [] v = v
run-IsValid t ((now, e) ∷ es) v = run-IsValid (step t now e) es (step-IsValid t now e v)

pub start-IsValid : IsValid start
start-IsValid = record { sorted = tt; known = tt }
