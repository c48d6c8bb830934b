-- ===== src/SmartData/BindingCache/Shortest.antt =====
-- `shortest_locked` is the least period that is asked for a unit, and 0 if nobody asks.
use communication_in_critica.Prelude.{
  ℕ, ◌≤◌, ◌<◌, ◌≡◌, refl, sym, ap, ◌∙◌, ◌⊎◌, inl, inr, List, [], ◌∷◌, ◌||◌, if◌then◌else◌, ltb,
  ◌==◌, arith, All, Elem, Bool-cases, ==_iff, Bool, true,
}
use communication_in_critica.SmartData.BindingCache.{
  Binding, filter, shortest_from, shortest_locked,
}

abbrev pub IsPositive : Binding → Type 0
IsPositive b = 0 < b.period_us

Elem-filter :
    (p : Binding → Bool) (b : Binding) (bs : List Binding)
    → p b ≡ true
    → Elem b bs
    → Elem b (filter p bs)
Elem-filter p b [] e m = m
Elem-filter p b (x ∷ bs) e (inl q) = ground (arith, Elem-filter p b bs e)
Elem-filter p b (x ∷ bs) e (inr m) = elim (Bool-cases (p x)) [
  | inl t ↦ rw t (inr (Elem-filter p b bs e m))
  | inr t ↦ rw t (Elem-filter p b bs e m)
]

filter-Elem :
    (p : Binding → Bool) (b : Binding) (bs : List Binding)
    → Elem b (filter p bs)
    → (p b ≡ true) × Elem b bs
filter-Elem p b [] m = absurd m
filter-Elem p b (x ∷ bs) m = elim (Bool-cases (p x)) [
  | inl e ↦
      let m' : (b ≡ x) ⊎ Elem b (filter p bs) = rw e at m in
      elim m' [
        | inl q ↦ (ap p q ∙ e, inl q)
        | inr n ↦ let (t, k) = filter-Elem p b bs n in (t, inr k)
      ]
  | inr e ↦ let (t, k) = filter-Elem p b bs (rw e at m) in (t, inr k)
]

All-filter :
    (p : Binding → Bool) (bs : List Binding) → All IsPositive bs → All IsPositive (filter p bs)
All-filter p [] h = tt
All-filter p (b ∷ bs) h = ground (arith, All-filter p bs h.1)

shortest_from-le :
    (best : ℕ) (bs : List Binding)
    → All IsPositive bs
    → 0 < best
    → (0 < shortest_from best bs) × (shortest_from best bs ≤ best)
unfolding shortest_from
shortest_from-le best [] h p = omega arith
shortest_from-le best (b ∷ bs) h p =
    ground (arith, shortest_from-le best bs h.1 p, shortest_from-le b.period_us bs h.1 h.0)

shortest_from-Elem :
    (best : ℕ) (bs : List Binding) (b : Binding)
    → All IsPositive bs
    → Elem b bs
    → (0 < shortest_from best bs) × (shortest_from best bs ≤ b.period_us)
unfolding shortest_from
shortest_from-Elem best [] b h m = absurd m
shortest_from-Elem best (x ∷ bs) b h (inl e) =
    ground (arith, shortest_from-le best bs h.1, shortest_from-le x.period_us bs h.1 h.0)
shortest_from-Elem best (x ∷ bs) b h (inr m) =
    shortest_from-Elem (if best == 0 || ltb x.period_us best then x.period_us else best) bs b h.1 m

-- What `shortest_from` returns is where it started or the period of an entry.
shortest_from-attained :
    (best : ℕ) (bs : List Binding)
    → (shortest_from best bs ≡ best)
      ⊎ ((b : Binding) × Elem b bs × (b.period_us ≡ shortest_from best bs))
unfolding shortest_from
shortest_from-attained best [] = inl refl
shortest_from-attained best (x ∷ bs) = elim (Bool-cases (best == 0 || ltb x.period_us best)) [
  | inl t ↦ rw t (elim (shortest_from-attained x.period_us bs) [
    | inl e ↦ inr (x, inl refl, sym e)
    | inr (b, m, e) ↦ inr (b, inr m, e)
  ])
  | inr t ↦
      rw t (elim (shortest_from-attained best bs) [
        | inl e ↦ inl e
        | inr (b, m, e) ↦ inr (b, inr m, e)
      ])
]

-- The period of a unit's thread is positive and at most what any of its interested addresses asks.
pub shortest_locked-le :
    (bs : List Binding) (b : Binding)
    → All IsPositive bs
    → Elem b bs
    → (0 < shortest_locked bs b.unit) × (shortest_locked bs b.unit ≤ b.period_us)
unfolding shortest_locked
shortest_locked-le bs b h m =
    shortest_from-Elem 0 (filter (λ x. x.unit == b.unit) bs) b (All-filter _ bs h)
      (Elem-filter _ b bs ((==_iff b.unit b.unit).1 refl) m)

-- It is what one of them asks, or 0.
pub shortest_locked-attained :
    (bs : List Binding) (unit : ℕ)
    → 0 < shortest_locked bs unit
    → (b : Binding) × Elem b bs × (b.unit ≡ unit) × (b.period_us ≡ shortest_locked bs unit)
unfolding shortest_locked
shortest_locked-attained bs unit h =
    elim (shortest_from-attained 0 (filter (λ x. x.unit == unit) bs)) [
      | inl e ↦ absurd (omega arith)
      | inr (b, m, e) ↦
          let (q, m') = filter-Elem (λ x. x.unit == unit) b bs m in
          (b, m', (==_iff b.unit unit).0 q, e)
    ]
