-- ===== src/SmartData/Tracker/Stopping.antt =====
-- Which units a tick stops, told by what the tick before it repeated.
use communication_in_critica.Prelude.{
  ℕ, ◌≡◌, refl, ap, sym, ◌∙◌, subst, inl, inr, ◌↔◌, List, [], ◌∷◌, ◌++◌, Bool, true, false, ◌==◌,
  ◌&&◌, leb, map, arith, length, All, Elem, Elem-append, Elem-map, Bool-cases,
}
use communication_in_critica.Channel.Address.{Address}
use communication_in_critica.SmartData.Wire.{
  InterestMessage, kind_interest, interest_message_size, read_header, read_interest,
}
use communication_in_critica.SmartData.Tracker.{
  Tracker, start, on_presence, heard, update, dead, purge, note_all, stopped, broker_tick,
  interest_message,
}
use communication_in_critica.SmartData.Tracker.Active.{Asked}
use communication_in_critica.SmartData.Tracker.Runs.{Event, presence, message, tick, step, run}
use communication_in_critica.SmartData.Tracker.Service.{Elem-tick-stopped}

unfoldable pub is_tick : Event → Bool
is_tick (presence from) = false
is_tick (message from payload) = false
is_tick tick = true

run-append :
    (t : Tracker) (before : List (ℕ × Event)) (at : ℕ) (e : Event) (after : List (ℕ × Event))
    → run t (before ++ (at, e) ∷ after) ≡ run (step (run t before) at e) after
unfolding run
run-append t [] at e after = refl
run-append t ((now, first) ∷ before) at e after = run-append (step t now first) before at e after

-- The units that a tick leaves as active are those that it repeats an interest in.
Elem-active_units :
    (t : Tracker) (at u : ℕ)
    → Elem u (broker_tick t at).0.active_units
      ↔ ((p : ℕ) × Elem (interest_message u p false) (broker_tick t at).1)
unfolding broker_tick
Elem-active_units t at u =
    let left = purge (dead at t.presence) t in
    let active = note_all [] left.interests in
    let stops = map (λ u. interest_message u 0 true) (stopped active left.active_units) in
    let repeats = map (λ kv. interest_message kv.0 kv.1 false) active in
    (
      λ m.
          let (kv, n, q) = (Elem-map _ _ active).0 m in
          (
            kv.1,
            (Elem-append (interest_message u kv.1 false) stops repeats).1
                (inr ((Elem-map _ _ active).1 (kv, n, ap (λ v. interest_message v kv.1 false) q))),
          ),
      λ (p, m). elim ((Elem-append (interest_message u p false) stops repeats).0 m) [
        | inl k ↦
            let (x, n, q) = (Elem-map _ _ (stopped active left.active_units)).0 k in
            absurd (omega (arith, ap (λ i. i.disinterest) q))
        | inr k ↦
            let (kv, n, q) = (Elem-map _ _ active).0 k in
            (Elem-map _ _ active).1 (kv, n, ap (λ i. i.header.unit) q)
      ],
    )

active_units-heard :
    (t : Tracker) (now : ℕ) (from : Address) (im : InterestMessage)
    → (heard t now from im).active_units ≡ t.active_units
unfolding heard
active_units-heard t now from im = elim (Bool-cases (im.disinterest == 0)) [
  | inl d ↦ rw (d, heard) refl
  | inr d ↦ rw (d, heard) refl
]

true≢false : true ≡ false → ⊥
true≢false e = ground (arith, e)

-- Only a tick changes the active units.
active_units-run :
    (t : Tracker) (es : List (ℕ × Event))
    → All (λ x. is_tick x.1 ≡ false) es
    → (run t es).active_units ≡ t.active_units
unfolding run step on_presence is_tick
active_units-run t [] h = refl
active_units-run t ((now, presence from) ∷ es) h = active_units-run _ es h.1
active_units-run t ((now, message from payload) ∷ es) h =
    let is_interest =
      leb interest_message_size (length payload) && (read_header payload).kind == kind_interest in
    active_units-run (update t now from payload) es h.1 ∙ elim (Bool-cases is_interest) [
      | inl a ↦ rw (a, update) (active_units-heard t now from (read_interest payload))
      | inr a ↦ rw (a, update) refl
    ]
active_units-run t ((now, tick) ∷ es) h = absurd (true≢false h.0)

-- At any tick that follows another, whatever came before, and with presences and messages but no
-- tick between, the broker tells the producers of a unit to stop if and only if the tick before repeated
-- an interest in the unit and none of the interests that now remain is in it.
pub unwanted_stopped :
    (before between : List (ℕ × Event)) (at now u : ℕ)
    → All (λ x. is_tick x.1 ≡ false) between
    → let t = run start (before ++ (at, tick) ∷ between) in
      Elem (interest_message u 0 true) (broker_tick t now).1 ↔ (
        ((p : ℕ) × Elem (interest_message u p false) (broker_tick (run start before) at).1)
        × ((p : ℕ) → Asked u p (broker_tick t now).0.interests → ⊥))
unfolding step
unwanted_stopped before between at now u quiet =
    let (to, from) = Elem-tick-stopped (before ++ (at, tick) ∷ between) now u in
    let (wanted, back) = Elem-active_units (run start before) at u in
    let same =
      ap (λ x. x.active_units) (run-append start before at tick between)
      ∙ active_units-run (broker_tick (run start before) at).0 between quiet in
    (
      λ m. let (n, none_asks) = to m in (wanted (subst (Elem u) same n), none_asks),
      λ (w, none_asks). from (subst (Elem u) (sym same) (back w), none_asks),
    )
