-- ===== src/SmartData/Tracker/Absence.antt =====
-- The first part of `broker_tick`: which vehicles are absent, and what is dropped with them.
use communication_in_critica.Prelude.{
  ℕ, ◌+◌, ◌≡◌, ◌≤◌, ◌<◌, refl, sym, ap, ◌∙◌, inl, inr, ◌↔◌, List, [], ◌∷◌, some, ltb, ◌==◌, arith,
  All, Elem, All-Elem, All-remove_if, Elem-remove_if, remove_if, Bool-cases, ==_iff, Map, lookup,
  erase, IsSorted, Elem-lookup, lookup-erase, erase-IsSorted,
}
use communication_in_critica.SmartData.Tracker.{
  Entry, Tracker, dead, purge, vehicle_of, presence_lease_ns,
}

Elem-dead :
    (now mac : ℕ) (m : Map)
    → Elem mac (dead now m) ↔ ((seen : ℕ) × Elem (mac, seen) m × (seen + presence_lease_ns < now))
unfolding dead
Elem-dead now mac [] = (λ h. absurd h, λ h. h.1)
Elem-dead now mac ((i, w) ∷ m) =
    let (to, from) = Elem-dead now mac m in
    elim (Bool-cases (ltb (w + presence_lease_ns) now)) [
      | inl e ↦ rw e (
        λ h. elim h [
          | inl q ↦ (w, inl (ap (λ k. (k, w)) q), ground (arith, e))
          | inr n ↦ let (seen, k, l) = to n in (seen, inr k, l)
        ],
        λ (seen, k, l). elim k [ inl q ↦ inl (ap (λ x. x.0) q) | inr n ↦ inr (from (seen, n, l)) ],
      )
      | inr e ↦ rw e (
        λ h. let (seen, k, l) = to h in (seen, inr k, l),
        λ (seen, k, l). elim k [
          | inl q ↦ absurd (ground (arith, e, q, l))
          | inr n ↦ from (seen, n, l)
        ],
      )
    ]

-- Exactly the interests of the vehicles of the list are dropped.
pub Elem-purge :
    (macs : List ℕ) (t : Tracker) (e : Entry)
    → Elem e (purge macs t).interests ↔ (Elem e t.interests × (Elem (vehicle_of e) macs → ⊥))
unfolding purge
Elem-purge [] t e = (λ m. (m, λ h. h), λ h. h.0)
Elem-purge (mac ∷ macs) t e =
    let kept = record t {
      presence = erase mac t.presence;
      interests = remove_if (λ x. vehicle_of x == mac) t.interests;
    } in
    let (to, from) = Elem-purge macs kept e in
    let (to', from') = Elem-remove_if (λ x. vehicle_of x == mac) e t.interests in
    (
      λ m.
          let (m', n) = to m in
          let (m'', differs) = to' m' in
          (m'', λ h. elim h [ inl q ↦ ground (arith, q, differs) | inr k ↦ n k ]),
      λ h. from (
        from' (
          h.0,
          elim (Bool-cases (vehicle_of e == mac)) [
            | inl k ↦ absurd (h.1 (inl ((==_iff (vehicle_of e) mac).0 k)))
            | inr k ↦ k
          ],
        ),
        λ k. h.1 (inr k),
      ),
    )

-- The vehicles that are not in the list stay present, and the others are forgotten.
pub lookup-purge :
    (macs : List ℕ) (t : Tracker) (mac : ℕ)
    → (Elem mac macs → ⊥)
    → lookup mac (purge macs t).presence ≡ lookup mac t.presence
unfolding purge
lookup-purge [] t mac n = refl
lookup-purge (x ∷ macs) t mac n =
    lookup-purge macs _ mac (λ k. n (inr k))
    ∙ lookup-erase x mac t.presence
    ∙ elim (Bool-cases (x == mac)) [
      | inl k ↦ absurd (n (inl (sym ((==_iff x mac).0 k))))
      | inr k ↦ rw k
    ]

pub purge-IsSorted :
    (macs : List ℕ) (t : Tracker) → IsSorted t.presence → IsSorted (purge macs t).presence
unfolding purge
purge-IsSorted [] t s = s
purge-IsSorted (mac ∷ macs) t s = purge-IsSorted macs _ (erase-IsSorted mac t.presence s)

-- What holds of every interest holds of those that stay.
pub All-purge :
    (P : Entry → Type 0) (macs : List ℕ) (t : Tracker)
    → All P t.interests
    → All P (purge macs t).interests
unfolding purge
All-purge P [] t h = h
All-purge P (mac ∷ macs) t h = All-purge P macs _ (All-remove_if P _ t.interests h)

pub active_units-purge :
    (macs : List ℕ) (t : Tracker) → (purge macs t).active_units ≡ t.active_units
unfolding purge
active_units-purge [] t = refl
active_units-purge (mac ∷ macs) t = active_units-purge macs _

-- The vehicle was last seen at most the lease ago.
abbrev pub IsPresent : Map → ℕ → ℕ → Type 0
IsPresent presence now mac =
    (seen : ℕ) × (lookup mac presence ≡ some seen) × (now ≤ seen + presence_lease_ns)

-- Over a table in order, what stays is the interests of those that were seen in time.
pub Elem-purge-dead :
    (t : Tracker) (now : ℕ) (e : Entry)
    → IsSorted t.presence
    → All (λ x. (seen : ℕ) × (lookup (vehicle_of x) t.presence ≡ some seen)) t.interests
    → Elem e (purge (dead now t.presence) t).interests
      ↔ (Elem e t.interests × IsPresent t.presence now (vehicle_of e))
Elem-purge-dead t now e s known =
    let (to, from) = Elem-purge (dead now t.presence) t e in
    let (to', from') = Elem-dead now (vehicle_of e) t.presence in
    (
      λ m.
          let (m', n) = to m in
          let (seen, k) = All-Elem _ e t.interests known m' in
          (
            m',
            (
              seen,
              k,
              elim (Bool-cases (ltb (seen + presence_lease_ns) now)) [
                | inl l ↦
                    absurd
                      (n (from' (seen, (Elem-lookup _ seen t.presence s).1 k, ground (arith, l))))
                | inr l ↦ ground (arith, l)
              ],
            ),
          ),
      λ (m, (seen, k, l)). from (
        m,
        λ d.
            let (seen', n, late) = to' d in
            let k' = (Elem-lookup _ seen' t.presence s).0 n in
            absurd (ground (arith, k, k', l, late)),
      ),
    )
