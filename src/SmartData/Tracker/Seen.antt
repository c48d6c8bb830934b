-- ===== src/SmartData/Tracker/Seen.antt =====
-- When a vehicle was last heard of, read off the history of the broker's events.
use communication_in_critica.Prelude.{
  ℕ, ◌+◌, ◌≡◌, ◌≤◌, refl, sym, ap, ◌∙◌, ◌↔◌, inl, inr, List, [], ◌∷◌, Bool, false, Option, none,
  some, if◌then◌else◌, ◌==◌, ◌&&◌, leb, arith, Elem, All-Elem, length, Bool-cases, lookup, assign,
  lookup-assign, lookup-erase,
}
use communication_in_critica.Channel.Address.{Address}
use communication_in_critica.SmartData.Helpers.{mac_key}
use communication_in_critica.SmartData.Wire.{
  InterestMessage, kind_interest, interest_message_size, read_header, read_interest,
}
use communication_in_critica.SmartData.Tracker.{
  Entry, Tracker, start, heard, update, dead, purge, vehicle_of, on_presence, broker_tick,
  presence_lease_ns,
}
use communication_in_critica.SmartData.Tracker.Runs.{
  Event, presence, message, tick, step, run, run-IsValid, start-IsValid,
}
use communication_in_critica.SmartData.Tracker.Service.{absent-purged}

-- The event is a presence of the vehicle, or an interest that it sends.
unfoldable pub is_sign : ℕ → Event → Bool
is_sign mac (presence from) = mac_key from.paddr == mac
is_sign mac (message from payload) =
    (leb interest_message_size (length payload) && (read_header payload).kind == kind_interest)
    && ((read_interest payload).disinterest == 0 && mac_key from.paddr == mac)
is_sign mac tick = false

-- The time of the last sign of the vehicle.
unfoldable pub last_seen : ℕ → Option ℕ → List (ℕ × Event) → Option ℕ
unfolding is_sign
last_seen mac o [] = o
last_seen mac o ((now, e) ∷ es) = last_seen mac (if is_sign mac e then some now else o) es

lookup-purged :
    (macs : List ℕ) (t : Tracker) (mac seen : ℕ)
    → lookup mac (purge macs t).presence ≡ some seen
    → lookup mac t.presence ≡ some seen
unfolding purge
lookup-purged [] t mac seen h = h
lookup-purged (x ∷ macs) t mac seen h =
    let kept = sym (lookup-erase x mac t.presence) ∙ lookup-purged macs _ mac seen h in
    elim (Bool-cases (x == mac)) [
      | inl s ↦ absurd (ground (arith, s, kept))
      | inr s ↦ ground (arith, s, kept)
    ]

-- What the table of presences knows of the vehicle is the time given.
abbrev AgreesWith : ℕ → Tracker → Option ℕ → Type 0
AgreesWith mac t o = (seen : ℕ) → lookup mac t.presence ≡ some seen → o ≡ some seen

assigned-AgreesWith :
    (mac now : ℕ) (t : Tracker) (o : Option ℕ) (from : Address)
    → AgreesWith mac t o
    → (seen : ℕ)
    → (if mac_key from.paddr == mac then some now else lookup mac t.presence) ≡ some seen
    → (if mac_key from.paddr == mac then some now else o) ≡ some seen
assigned-AgreesWith mac now t o from h seen k = elim (Bool-cases (mac_key from.paddr == mac)) [
  | inl s ↦ rw s (ground (arith, s, k))
  | inr s ↦ rw s (h seen (ground (arith, s, k)))
]

heard-AgreesWith :
    (mac now : ℕ) (t : Tracker) (o : Option ℕ) (from : Address) (im : InterestMessage)
    → AgreesWith mac t o
    → AgreesWith mac
        (heard t now from im)
        (if im.disinterest == 0 && mac_key from.paddr == mac then some now else o)
unfolding heard
heard-AgreesWith mac now t o from im h seen k = elim (Bool-cases (im.disinterest == 0)) [
  | inr d ↦
      let kept : (heard t now from im).presence ≡ t.presence = rw (d, heard) refl in
      rw d (h seen (ap (lookup mac) (sym kept) ∙ k))
  | inl d ↦
      let put : (heard t now from im).presence ≡ assign (mac_key from.paddr) now t.presence =
        rw (d, heard) refl in
      let k' =
        sym (lookup-assign (mac_key from.paddr) now mac t.presence)
        ∙ ap (lookup mac) (sym put)
        ∙ k in
      rw d (assigned-AgreesWith mac now t o from h seen k')
]

step-AgreesWith :
    (mac now : ℕ) (t : Tracker) (o : Option ℕ) (e : Event)
    → AgreesWith mac t o
    → AgreesWith mac (step t now e) (if is_sign mac e then some now else o)
unfolding step is_sign on_presence broker_tick
step-AgreesWith mac now t o (presence from) h seen k =
    assigned-AgreesWith mac now t o from h seen
      (sym (lookup-assign (mac_key from.paddr) now mac t.presence) ∙ k)
step-AgreesWith mac now t o (message from payload) h seen k =
    let im = read_interest payload in
    let is_interest =
      leb interest_message_size (length payload) && (read_header payload).kind == kind_interest in
    elim (Bool-cases is_interest) [
      | inr a ↦
          let kept : update t now from payload ≡ t = rw (a, update) refl in
          rw a (h seen (ap (λ x. lookup mac x.presence) (sym kept) ∙ k))
      | inl a ↦
          let got : update t now from payload ≡ heard t now from im = rw (a, update) refl in
          let k' = ap (λ x. lookup mac x.presence) (sym got) ∙ k in
          rw a (heard-AgreesWith mac now t o from im h seen k')
    ]
step-AgreesWith mac now t o tick h seen k =
    h seen (lookup-purged (dead now t.presence) t mac seen k)

run-AgreesWith :
    (mac : ℕ) (t : Tracker) (o : Option ℕ) (es : List (ℕ × Event))
    → AgreesWith mac t o
    → AgreesWith mac (run t es) (last_seen mac o es)
unfolding run last_seen
run-AgreesWith mac t o [] h = h
run-AgreesWith mac t o ((now, e) ∷ es) h =
    run-AgreesWith mac (step t now e) _ es (step-AgreesWith mac now t o e h)

-- The vehicle gave its last sign at most the presence lease ago.
abbrev pub SeenInTime : List (ℕ × Event) → ℕ → ℕ → Type 0
SeenInTime history now mac =
    (seen : ℕ) × (last_seen mac none history ≡ some seen) × (now ≤ seen + presence_lease_ns)

-- After any history, a tick keeps an interest if and only if it was there and its vehicle gave its
-- last sign in that history (a presence, or an interest that it sent) at most the presence lease
-- ago.
pub absent_forgotten :
    (history : List (ℕ × Event)) (now : ℕ) (e : Entry)
    → Elem e (broker_tick (run start history) now).0.interests
      ↔ (Elem e (run start history).interests × SeenInTime history now (vehicle_of e))
unfolding lookup
absent_forgotten history now e =
    let agrees = run-AgreesWith (vehicle_of e) start none history (λ seen k. k) in
    let (to, from) = absent-purged history now e in
    let known = (run-IsValid start history start-IsValid).known in
    (
      λ m. let (m', (seen, k, l)) = to m in (m', (seen, agrees seen k, l)),
      λ (m, (seen, k, l)).
          let (seen', k') = All-Elem _ e (run start history).interests known m in
          from (m, (seen', k', ground (arith, sym k ∙ agrees seen' k', l))),
    )
