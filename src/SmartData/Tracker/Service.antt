-- ===== src/SmartData/Tracker/Service.antt =====
-- What the broker does at a tick, after any history.
use communication_in_critica.Prelude.{
  ℕ, ◌≡◌, refl, sym, ap, ◌∙◌, subst, inl, inr, ◌↔◌, List, [], ◌∷◌, map, arith, Elem, All-Elem,
  Elem-append, Elem-map, Bool-cases, ==_iff, true, false, Map, Elem-lookup,
}
use communication_in_critica.SmartData.Tracker.{
  Entry, start, dead, purge, vehicle_of, note_all, stopped, missing, broker_tick, interest_message,
}
use communication_in_critica.SmartData.Tracker.Active.{
  Asked, Bounds, active-cases, note_all-IsSorted,
}
use communication_in_critica.SmartData.Tracker.Absence.{
  active_units-purge, IsPresent, Elem-purge-dead,
}
use communication_in_critica.SmartData.Tracker.Runs.{Event, run, run-IsValid, start-IsValid}

-- A tick drops exactly the interests of the vehicles that the table of presences has not kept.
pub absent-purged :
    (history : List (ℕ × Event)) (now : ℕ) (e : Entry)
    → Elem e (broker_tick (run start history) now).0.interests ↔ (
        Elem e (run start history).interests
        × IsPresent (run start history).presence now (vehicle_of e))
unfolding broker_tick
absent-purged history now e =
    let v = run-IsValid start history start-IsValid in
    Elem-purge-dead (run start history) now e v.sorted v.known

Elem-stopped :
    (active : Map) (u : ℕ) (us : List ℕ)
    → Elem u (stopped active us) ↔ (Elem u us × (missing active u ≡ true))
Elem-stopped active u [] = (λ m. absurd m, λ h. h.0)
Elem-stopped active u (x ∷ us) =
    let (to, from) = Elem-stopped active u us in
    elim (Bool-cases (missing active x)) [
      | inl e ↦ rw e (
        λ m. elim m [
          | inl q ↦ (inl q, ap (missing active) q ∙ e)
          | inr n ↦ let (k, s) = to n in (inr k, s)
        ],
        λ (m, s). elim m [ inl q ↦ inl q | inr n ↦ inr (from (n, s)) ],
      )
      | inr e ↦ rw e (
        λ m. let (k, s) = to m in (inr k, s),
        λ (m, s). elim m [
          | inl q ↦ absurd (ground (arith, e, s, ap (missing active) q))
          | inr n ↦ from (n, s)
        ],
      )
    ]

Elem-active :
    (es : List Entry) (u p : ℕ) → Elem (u, p) (note_all [] es) ↔ (Bounds u p es × Asked u p es)
Elem-active es u p =
    let (to, from) = Elem-lookup u p (note_all [] es) (note_all-IsSorted [] es tt) in
    elim (active-cases u es) [
      | inl (nothing, all) ↦ (
        λ m. absurd (ground (arith, nothing, to m)),
        λ (b, (e, m, same, k)).
            absurd (ground (arith, All-Elem _ e es all m, (==_iff e.unit u).1 same)),
      )
      | inr (q, found, bounds, asked) ↦ (
        λ m.
            let same : q ≡ p = ground (arith, found, to m) in
            subst (λ r. Bounds u r es × Asked u r es) same (bounds, asked),
        λ (b, (e, m, same, k)).
            let (e', m', same', k') = asked in
            from (
              ground
                (arith, found, k, k', All-Elem _ e es bounds m same, All-Elem _ e' es b m' same')),
      )
    ]

missing_iff :
    (es : List Entry) (u : ℕ) → (missing (note_all [] es) u ≡ true) ↔ ((p : ℕ) → Asked u p es → ⊥)
missing_iff es u = elim (active-cases u es) [
  | inl (nothing, all) ↦ (
    λ h. λ p (e, m, same, k).
        absurd (ground (arith, All-Elem _ e es all m, (==_iff e.unit u).1 same)),
    λ h. rw (nothing, missing) refl,
  )
  | inr (q, found, bounds, asked) ↦
      (λ h. absurd (ground (arith, found, h)), λ h. absurd (h q asked))
]

-- At any tick, whatever the history, the broker repeats the interest in a unit, at a period, if and
-- only if that is the shortest period that one of the remaining interests asks for the unit.
pub shortest_repeated :
    (history : List (ℕ × Event)) (now u p : ℕ)
    → Elem (interest_message u p false) (broker_tick (run start history) now).1 ↔ (
        Bounds u p (broker_tick (run start history) now).0.interests
        × Asked u p (broker_tick (run start history) now).0.interests)
unfolding broker_tick
shortest_repeated history now u p =
    let t = run start history in
    let left = purge (dead now t.presence) t in
    let active = note_all [] left.interests in
    let (to, from) = Elem-active left.interests u p in
    let (split, join) =
      Elem-append (interest_message u p false)
        (map (λ u. interest_message u 0 true) (stopped active left.active_units))
        (map (λ kv. interest_message kv.0 kv.1 false) active) in
    (
      λ m. elim (split m) [
        | inl k ↦
            let (x, n, q) = (Elem-map _ _ (stopped active left.active_units)).0 k in
            absurd (omega (arith, ap (λ i. i.disinterest) q))
        | inr k ↦
            let (kv, n, q) = (Elem-map _ _ active).0 k in
            let same : kv ≡ (u, p) =
              ground (arith, ap (λ i. i.header.unit) q, ap (λ i. i.period_us) q) in
            to (subst (λ y. Elem y active) same n)
      ],
      λ h. join (inr ((Elem-map _ _ active).1 ((u, p), from h, refl))),
    )

-- A tick stops the units of `active_units` that none of the remaining interests is in.
pub Elem-tick-stopped :
    (history : List (ℕ × Event)) (now u : ℕ)
    → Elem (interest_message u 0 true) (broker_tick (run start history) now).1 ↔ (
        Elem u (run start history).active_units
        × ((p : ℕ) → Asked u p (broker_tick (run start history) now).0.interests → ⊥))
unfolding broker_tick
Elem-tick-stopped history now u =
    let t = run start history in
    let left = purge (dead now t.presence) t in
    let active = note_all [] left.interests in
    let units = active_units-purge (dead now t.presence) t in
    let (to, from) = Elem-stopped active u left.active_units in
    let (gone, back) = missing_iff left.interests u in
    let (split, join) =
      Elem-append (interest_message u 0 true)
        (map (λ u. interest_message u 0 true) (stopped active left.active_units))
        (map (λ kv. interest_message kv.0 kv.1 false) active) in
    (
      λ m. elim (split m) [
        | inl k ↦
            let (x, n, q) = (Elem-map _ _ (stopped active left.active_units)).0 k in
            let (n', miss) = to (
              subst (λ y. Elem y (stopped active left.active_units))
                (sym (ap (λ i. i.header.unit) q)) n) in
            (subst (Elem u) units n', gone miss)
        | inr k ↦
            let (kv, n, q) = (Elem-map _ _ active).0 k in
            absurd (omega (arith, ap (λ i. i.disinterest) q))
      ],
      λ (m, none_asks). join (
          inl (
            (Elem-map _ _ (stopped active left.active_units)).1
              (u, from (subst (Elem u) (sym units) m, back none_asks), refl))),
    )
