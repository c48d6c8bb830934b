-- ===== src/SmartData/BindingCache/Service.antt =====
-- What the cache does over any history of calls: the leases that the specification says, and one
-- thread for each unit that somebody has a lease for, at the shortest period.
use mathlib.Core.Path.{fun_ext}
use communication_in_critica.Prelude.{
  ℕ, ◌≡◌, ◌<◌, ◌≤◌, refl, ap, ◌∙◌, inl, inr, List, [], ◌∷◌, none, some, arith, Elem, Bool-cases,
  Option-cases,
}
use communication_in_critica.Channel.Address.{Address, address_eq_iff}
use communication_in_critica.SmartData.BindingCache.{
  Binding, Cache, empty, is_for, find_binding, find_thread, shortest_from, shortest_locked,
}
use communication_in_critica.SmartData.BindingCache.Shortest.{
  shortest_locked-le, shortest_locked-attained,
}
use communication_in_critica.SmartData.BindingCache.Find.{
  find_binding-cons, find_binding-nil, find_binding-is_for,
}
use communication_in_critica.SmartData.BindingCache.Refine.{
  Call, interest, disinterest, clears, reaps, lease, view, step, run, lease_run, IsValid, Unique,
  step-IsValid, view-step,
}

lifetimes-step :
    (c : Cache) (now : ℕ) (call : Call)
    → ((step c now call).lifetime_min_us ≡ c.lifetime_min_us)
      × ((step c now call).lifetime_factor ≡ c.lifetime_factor)
unfolding step
lifetimes-step c now (interest u a asked) = ground arith
lifetimes-step c now (disinterest u a) = (refl, refl)
lifetimes-step c now clears = (refl, refl)
lifetimes-step c now reaps = (refl, refl)

pub empty-IsValid : (m f : ℕ) → IsValid (empty m f)
unfolding find_thread shortest_locked shortest_from
empty-IsValid m f = record { positive = tt; unique = tt; synced = λ u. refl }

pub run-IsValid : {c : Cache} (calls : List (ℕ × Call)) → IsValid c → IsValid (run c calls)
unfolding run
run-IsValid [] v = v
run-IsValid {c} ((now, call) ∷ calls) v =
    run-IsValid {c = step c now call} calls (step-IsValid now call v)

view-run :
    {c : Cache} (calls : List (ℕ × Call))
    → IsValid c
    → view (run c calls) ≡ lease_run c.lifetime_min_us c.lifetime_factor (view c) calls
unfolding run
view-run [] v = refl
view-run {c} ((now, call) ∷ calls) v =
    let (same_min, same_factor) = lifetimes-step c now call in
    view-run {c = step c now call} calls (step-IsValid now call v)
    ∙ rw (same_min, same_factor)
        (ap (λ t. lease_run c.lifetime_min_us c.lifetime_factor t calls)
          (fun_ext λ u. fun_ext λ a. view-step now call u a v))

-- After any history of interests, disinterests, clearings and reaps, each with its time, the cache
-- holds for every unit and address the lease that the specification gives.
pub leases_refine :
    (lifetime_min_us factor : ℕ) (calls : List (ℕ × Call)) (unit : ℕ) (address : Address)
    → view (run (empty lifetime_min_us factor) calls) unit address
      ≡ lease_run lifetime_min_us factor (λ _ _. none) calls unit address
leases_refine m f calls unit address =
    ap (λ t. t unit address)
      (view-run calls (empty-IsValid m f)
        ∙ ap (λ t. lease_run m f t calls)
            (fun_ext λ u. fun_ext λ a. ap lease (find_binding-nil u a)))

Elem-find_binding :
    (u : ℕ) (a : Address) (bs : List Binding) (b : Binding)
    → find_binding u a bs ≡ some b
    → Elem b bs
Elem-find_binding u a [] b h = cc (find_binding-nil u a)
Elem-find_binding u a (x ∷ bs) b h = elim (Bool-cases (is_for u a x)) [
  | inl t ↦ inl (ground (arith, t, h, find_binding-cons u a x bs))
  | inr t ↦ inr (Elem-find_binding u a bs b (ground (arith, t, h, find_binding-cons u a x bs)))
]

find_binding-Elem :
    (bs : List Binding) (b : Binding)
    → Unique bs
    → Elem b bs
    → find_binding b.unit b.address bs ≡ some b
find_binding-Elem [] b h m = absurd m
find_binding-Elem (x ∷ bs) b h (inl e) =
    ground (arith, find_binding-cons b.unit b.address x bs, address_eq_iff x.address b.address)
find_binding-Elem (x ∷ bs) b h (inr m) = ground (
  arith,
  h.0,
  find_binding-cons b.unit b.address x bs,
  address_eq_iff x.address b.address,
  find_binding-Elem bs b h.1 m,
)

answered :
    {c : Cache} (unit : ℕ) (address : Address) (period expiry : ℕ)
    → IsValid c
    → view c unit address ≡ some (period, expiry)
    → (q : ℕ) × (find_thread unit c.threads ≡ some q) × (0 < q) × (q ≤ period)
answered {c} unit address period expiry v h =
    elim (Option-cases (find_binding unit address c.bindings)) [
      | inl e ↦ absurd (cc (ap lease e))
      | inr (b, e) ↦
          let (same, _) = find_binding-is_for unit address c.bindings b e in
          let (pos, le) =
            shortest_locked-le c.bindings b v.positive
              (Elem-find_binding unit address c.bindings b e) in
          let is_period : b.period_us ≡ period = ground (arith, ap lease e, h) in
          let bounds : (0 < shortest_locked c.bindings unit)
              × (shortest_locked c.bindings unit ≤ period) =
            rw (← same, ← is_period) (pos, le) in
          (
            shortest_locked c.bindings unit,
            v.synced unit ∙ ground (arith, bounds),
            bounds.0,
            bounds.1,
          )
    ]

wanted :
    {c : Cache} (unit q : ℕ)
    → IsValid c
    → find_thread unit c.threads ≡ some q
    → (address : Address) × (expiry : ℕ) × (view c unit address ≡ some (q, expiry))
wanted {c} unit q v h =
    let (is_q, pos) : (shortest_locked c.bindings unit ≡ q)
        × (0 < shortest_locked c.bindings unit) =
      ground (arith, h, v.synced unit) in
    let (b, m, same, e) = shortest_locked-attained c.bindings unit pos in
    (
      b.address,
      b.expiry_ns,
      rw (← same, ← is_q, ← e) (ap lease (find_binding-Elem c.bindings b v.unique m)),
    )

-- After any history, whoever has a lease for a unit is answered: the unit has a thread, and its
-- period is positive and at most the period of the lease.
pub lease_answered :
    (lifetime_min_us factor : ℕ) (calls : List (ℕ × Call)) (unit : ℕ) (address : Address)
    (period expiry : ℕ)
    → view (run (empty lifetime_min_us factor) calls) unit address ≡ some (period, expiry)
    → (q : ℕ) × (find_thread unit (run (empty lifetime_min_us factor) calls).threads ≡ some q)
      × (0 < q)
      × (q ≤ period)
lease_answered m f calls unit address period expiry h =
    answered unit address period expiry (run-IsValid calls (empty-IsValid m f)) h

-- After any history, a thread runs only for a unit that some address has a lease for, at the period
-- of that lease.
pub thread_wanted :
    (lifetime_min_us factor : ℕ) (calls : List (ℕ × Call)) (unit q : ℕ)
    → find_thread unit (run (empty lifetime_min_us factor) calls).threads ≡ some q
    → (address : Address) × (expiry : ℕ) × (view
          (run (empty lifetime_min_us factor) calls)
          unit
          address
        ≡ some (q, expiry))
thread_wanted m f calls unit q h = wanted unit q (run-IsValid calls (empty-IsValid m f)) h
