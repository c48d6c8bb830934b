-- ===== src/SmartData/Tracker/Active.antt =====
-- The map `active` of `broker_tick`: each unit of an entry, with the shortest period asked for.
use communication_in_critica.Prelude.{
  ℕ, ◌≡◌, ◌≤◌, refl, ap, ◌∙◌, ◌⊎◌, inl, inr, List, [], ◌∷◌, Option, none, some, if◌then◌else◌, ltb,
  ◌==◌, arith, All, Elem, Bool-cases, Option-cases, ==_iff, false, Map, lookup, lookup-assign,
  IsSorted, assign-IsSorted,
}
use communication_in_critica.SmartData.Tracker.{Entry, note, note_all}

-- Both periods are asked for.
abbrev least : Option ℕ → ℕ → Option ℕ
least none p = some p
least (some q) p = if ltb p q then some p else some q

-- The shortest period of a unit, in a list of entries after what is known.
abbrev least_of : ℕ → Option ℕ → List Entry → Option ℕ
least_of u o [] = o
least_of u o (e ∷ es) = least_of u (if e.unit == u then least o e.period_us else o) es

lookup-note :
    (u : ℕ) (active : Map) (e : Entry)
    → lookup u (note active e)
      ≡ (if e.unit == u then least (lookup u active) e.period_us else lookup u active)
unfolding note
lookup-note u active e = elim (Option-cases (lookup e.unit active)) [
  | inl n ↦ rw (n, note) (ground (arith, n, lookup-assign e.unit e.period_us u active))
  | inr (p, n) ↦ rw (n, note) (ground (arith, n, lookup-assign e.unit e.period_us u active))
]

lookup-note_all :
    (u : ℕ) (active : Map) (es : List Entry)
    → lookup u (note_all active es) ≡ least_of u (lookup u active) es
unfolding note_all
lookup-note_all u active [] = refl
lookup-note_all u active (e ∷ es) =
    lookup-note_all u (note active e) es ∙ ap (λ o. least_of u o es) (lookup-note u active e)

-- Some entry asks for the unit at the period.
abbrev pub Asked : ℕ → ℕ → List Entry → Type 0
Asked u p es = (e : Entry) × Elem e es × (e.unit ≡ u) × (e.period_us ≡ p)

-- The period is at most what any entry asks for the unit.
abbrev pub Bounds : ℕ → ℕ → List Entry → Type 0
Bounds u p es = All (λ e. e.unit ≡ u → p ≤ e.period_us) es

least_of-some :
    (u q : ℕ) (es : List Entry)
    → (p : ℕ) × (least_of u (some q) es ≡ some p)
      × (p ≤ q)
      × Bounds u p es
      × ((q ≡ p) ⊎ Asked u p es)
least_of-some u q [] = (q, refl, omega arith, tt, inl refl)
least_of-some u q (e ∷ es) = elim (Bool-cases (e.unit == u)) [
  | inr n ↦
      let (p, same, le, b, why) = least_of-some u q es in
      (
        p,
        rw n same,
        le,
        (λ s. absurd (ground (arith, n, s)), b),
        elim why [ inl k ↦ inl k | inr (x, m, s, k) ↦ inr (x, inr m, s, k) ],
      )
  | inl n ↦ elim (Bool-cases (ltb e.period_us q)) [
    | inl t ↦
        let (p, same, le, b, why) = least_of-some u e.period_us es in
        (
          p,
          rw (n, t) same,
          ground arith,
          (λ s. le, b),
          elim why [
            | inl k ↦ inr (e, inl refl, (==_iff e.unit u).0 n, k)
            | inr (x, m, s, k) ↦ inr (x, inr m, s, k)
          ],
        )
    | inr t ↦
        let (p, same, le, b, why) = least_of-some u q es in
        (
          p,
          rw (n, t) same,
          le,
          (λ s. ground arith, b),
          elim why [ inl k ↦ inl k | inr (x, m, s, k) ↦ inr (x, inr m, s, k) ],
        )
  ]
]

least_of-none :
    (u : ℕ) (es : List Entry)
    → ((least_of u none es ≡ none) × All (λ e. (e.unit == u) ≡ false) es)
      ⊎ ((p : ℕ) × (least_of u none es ≡ some p) × Bounds u p es × Asked u p es)
least_of-none u [] = inl (refl, tt)
least_of-none u (e ∷ es) = elim (Bool-cases (e.unit == u)) [
  | inl n ↦
      let (p, same, le, b, why) = least_of-some u e.period_us es in
      inr (
        p,
        rw n same,
        (λ s. le, b),
        elim why [
          | inl k ↦ (e, inl refl, (==_iff e.unit u).0 n, k)
          | inr (x, m, s, k) ↦ (x, inr m, s, k)
        ],
      )
  | inr n ↦ elim (least_of-none u es) [
    | inl (same, all) ↦ inl (rw n same, (n, all))
    | inr (p, same, b, (x, m, s, k)) ↦
        inr (p, rw n same, (λ s. absurd (ground (arith, n, s)), b), (x, inr m, s, k))
  ]
]

-- Either no entry asks for the unit, and it is not in the map, or the map has the shortest period
-- that one asks.
pub active-cases :
    (u : ℕ) (es : List Entry)
    → ((lookup u (note_all [] es) ≡ none) × All (λ e. (e.unit == u) ≡ false) es)
      ⊎ ((p : ℕ) × (lookup u (note_all [] es) ≡ some p) × Bounds u p es × Asked u p es)
unfolding lookup
active-cases u es =
    let same = lookup-note_all u [] es in
    elim (least_of-none u es) [
      | inl (k, all) ↦ inl (same ∙ k, all)
      | inr (p, k, b, asked) ↦ inr (p, same ∙ k, b, asked)
    ]

pub note_all-IsSorted :
    (active : Map) (es : List Entry) → IsSorted active → IsSorted (note_all active es)
unfolding note_all note
note_all-IsSorted active [] s = s
note_all-IsSorted active (e ∷ es) s =
    note_all-IsSorted (note active e) es (elim (Option-cases (lookup e.unit active)) [
      | inl n ↦ rw (n, note) (assign-IsSorted e.unit e.period_us active s)
      | inr (p, n) ↦ rw (n, note) (ground (arith, assign-IsSorted e.unit e.period_us active s))
    ])
