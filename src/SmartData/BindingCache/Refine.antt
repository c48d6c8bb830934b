-- ===== src/SmartData/BindingCache/Refine.antt =====
-- The cache as a table of leases, (unit, address) to a period and an expiry, and the invariant of
-- its two containers.
use communication_in_critica.Prelude.{
  ℕ, ◌≡◌, ◌<◌, ◌*◌, ◌+◌, ◌%◌, ◌^◌, refl, ap, ◌∙◌, inl, inr, List, [], ◌∷◌, ◌++◌, Option, none, some,
  if◌then◌else◌, ltb, ◌==◌, ◌&&◌, arith, All, Bool-cases, Option-cases, Bool, remove_if,
  All-remove_if,
}
use communication_in_critica.Channel.Address.{Address, address_eq, address_eq_iff}
use communication_in_critica.SmartData.BindingCache.{
  Binding, Cache, is_for, find_binding, renew, expiry_for, on_interest, on_disinterest, clear, reap,
}
use communication_in_critica.SmartData.BindingCache.Shortest.{IsPositive}
use communication_in_critica.SmartData.BindingCache.Synced.{IsSynced, resync_threads-IsSynced}
use communication_in_critica.SmartData.BindingCache.Find.{
  find_binding-cons, find_binding-nil, is_for_symm, find_binding-renew, find_binding-renew-none,
  find_binding-append, find_binding-append_some, find_binding-remove_if-none, find_binding-remove,
}

-- Who is to be answered: the period asked for and when the interest expires.
abbrev pub Leases : Type 0
Leases = ℕ → Address → Option (ℕ × ℕ)

abbrev pub lease : Option Binding → Option (ℕ × ℕ)
lease none = none
lease (some b) = some (b.period_us, b.expiry_ns)

abbrev pub view : Cache → Leases
view c unit address = lease (find_binding unit address c.bindings)

-- The calls on the cache, each at a time.
pub data Call : Type 0 where
  interest : (unit : ℕ) (address : Address) (period_us : ℕ) → Call
  disinterest : (unit : ℕ) (address : Address) → Call
  clears : Call
  reaps : Call

unfoldable pub step : Cache → ℕ → Call → Cache
unfolding on_interest on_disinterest clear reap
step c now (interest u a p) = on_interest c now u a p
step c now (disinterest u a) = on_disinterest c u a
step c now clears = clear c
step c now reaps = reap c now

-- A lease that has not run out.
abbrev pub live : ℕ → Option (ℕ × ℕ) → Option (ℕ × ℕ)
live now none = none
live now (some (p, e)) = if ltb e now then none else some (p, e)

-- What a call means for the table: the lease of an interested address is made or renewed for
-- `factor` periods, or for `lifetime_min_us` if that is longer.
unfoldable pub lease_step : ℕ → ℕ → Leases → ℕ → Call → Leases
lease_step lifetime_min_us factor t now (interest u a asked) v c =
    let period = if asked == 0 then 1 else asked in
    let life = factor * period % 2 ^ 64 in
    if u == v && address_eq a c
    then some (period, now + (if ltb life lifetime_min_us then lifetime_min_us else life) * 1000)
    else t v c
lease_step lifetime_min_us factor t now (disinterest u a) v c =
    if u == v && address_eq a c then none else t v c
lease_step lifetime_min_us factor t now clears v c = none
lease_step lifetime_min_us factor t now reaps v c = live now (t v c)

-- No two entries for one unit and address.
abbrev pub Unique : List Binding → Type 0
Unique [] = Unit
Unique (b ∷ bs) = (find_binding b.unit b.address bs ≡ none) × Unique bs

pub record IsValid (c : Cache) : Type 0 where
  pub positive : All IsPositive c.bindings
  pub unique : Unique c.bindings
  pub synced : IsSynced c.bindings c.threads

Unique-renew :
    (u : ℕ) (a : Address) (p e : ℕ) (bs : List Binding) → Unique bs → Unique (renew u a p e bs)
unfolding renew
Unique-renew u a p e [] h = tt
Unique-renew u a p e (x ∷ bs) h = elim (Bool-cases (is_for u a x)) [
  | inl t ↦ rw t h
  | inr t ↦
      rw t (find_binding-renew-none u x.unit a x.address p e bs h.0, Unique-renew u a p e bs h.1)
]

Unique-append :
    (bs : List Binding) (y : Binding)
    → Unique bs
    → find_binding y.unit y.address bs ≡ none
    → Unique (bs ++ y ∷ [])
Unique-append [] y h n = (find_binding-nil y.unit y.address, tt)
Unique-append (x ∷ bs) y h n = (
  ground (
    arith,
    find_binding-append x.unit x.address bs y h.0,
    find_binding-cons y.unit y.address x bs,
    is_for_symm x y,
  ),
  Unique-append bs y h.1 (ground (arith, find_binding-cons y.unit y.address x bs)),
)

Unique-remove_if : (q : Binding → Bool) (bs : List Binding) → Unique bs → Unique (remove_if q bs)
Unique-remove_if q [] h = tt
Unique-remove_if q (x ∷ bs) h = elim (Bool-cases (q x)) [
  | inl t ↦ rw t (Unique-remove_if q bs h.1)
  | inr t ↦ rw t (find_binding-remove_if-none q x.unit x.address bs h.0, Unique-remove_if q bs h.1)
]

IsPositive-renew :
    (u : ℕ) (a : Address) (p e : ℕ) (bs : List Binding)
    → 0 < p
    → All IsPositive bs
    → All IsPositive (renew u a p e bs)
unfolding renew
IsPositive-renew u a p e [] q h = tt
IsPositive-renew u a p e (x ∷ bs) q h = ground (arith, IsPositive-renew u a p e bs q h.1)

IsPositive-append :
    (bs : List Binding) (y : Binding)
    → 0 < y.period_us
    → All IsPositive bs
    → All IsPositive (bs ++ y ∷ [])
IsPositive-append [] y q h = (q, tt)
IsPositive-append (x ∷ bs) y q h = (h.0, IsPositive-append bs y q h.1)

-- Over unique entries, what stays of a lease depends on the entry alone.
find_binding-reap :
    (now v : ℕ) (c : Address) (bs : List Binding)
    → Unique bs
    → lease (find_binding v c (remove_if (λ b. ltb b.expiry_ns now) bs))
      ≡ live now (lease (find_binding v c bs))
find_binding-reap now v c [] h = rw find_binding-nil
find_binding-reap now v c (x ∷ bs) h = elim (Bool-cases (ltb x.expiry_ns now)) [
  | inl t ↦ rw t (
      ground (
        arith,
        t,
        h.0,
        find_binding-cons v c x bs,
        address_eq_iff x.address c,
        find_binding-reap now v c bs h.1,
        find_binding-remove_if-none (λ b. ltb b.expiry_ns now) v c bs,
      ))
  | inr t ↦ rw t (
      ground (
        arith,
        t,
        find_binding-cons v c x bs,
        find_binding-cons v c x (remove_if (λ b. ltb b.expiry_ns now) bs),
        find_binding-reap now v c bs h.1,
      ))
]

-- Every call keeps the periods positive, the entries unique and the threads in step with them.
pub step-IsValid : {c : Cache} (now : ℕ) (call : Call) → IsValid c → IsValid (step c now call)
unfolding step
step-IsValid {c} now (interest u a asked) v =
    let period = if asked == 0 then 1 else asked in
    let expiry = expiry_for c now period in
    elim (Option-cases (find_binding u a c.bindings)) [
      | inl e ↦
          rw (e, on_interest)
            (record {
              positive = IsPositive-append c.bindings _ (ground arith) v.positive;
              unique = Unique-append c.bindings _ v.unique e;
              synced = resync_threads-IsSynced _ c.threads;
            })
      | inr (b, e) ↦
          rw (e, on_interest)
            (record {
              positive = IsPositive-renew u a period expiry c.bindings (ground arith) v.positive;
              unique = Unique-renew u a period expiry c.bindings v.unique;
              synced = resync_threads-IsSynced _ c.threads;
            })
    ]
step-IsValid {c} now (disinterest u a) v = record {
  positive = All-remove_if IsPositive (is_for u a) c.bindings v.positive;
  unique = Unique-remove_if (is_for u a) c.bindings v.unique;
  synced = resync_threads-IsSynced _ c.threads;
}
step-IsValid {c} now clears v = record { positive = tt; unique = tt; synced = λ u. refl }
step-IsValid {c} now reaps v = record {
  positive = All-remove_if IsPositive _ c.bindings v.positive;
  unique = Unique-remove_if _ c.bindings v.unique;
  synced = resync_threads-IsSynced _ c.threads;
}

-- Every call does to the table of leases what the specification says.
pub view-step :
    {c : Cache} (now : ℕ) (call : Call) (v : ℕ) (a : Address)
    → IsValid c
    → view (step c now call) v a
      ≡ lease_step c.lifetime_min_us c.lifetime_factor (view c) now call v a
unfolding step lease_step
view-step {c} now (interest u a asked) w d v =
    let period = if asked == 0 then 1 else asked in
    let expiry = expiry_for c now period in
    elim (Option-cases (find_binding u a c.bindings)) [
      | inl e ↦
          rw (e, on_interest)
            (elim (Option-cases (find_binding w d c.bindings)) [
              | inl n ↦
                  ap lease (find_binding-append w d c.bindings _ n)
                  ∙ elim (Bool-cases (u == w && address_eq a d)) [
                    | inl t ↦ rw t
                    | inr t ↦ rw (t, n)
                  ]
              | inr (b, n) ↦
                  ap lease (find_binding-append_some w d c.bindings _ b n)
                  ∙ elim (Bool-cases (u == w && address_eq a d)) [
                    | inl t ↦ absurd (ground (arith, e, n, t, address_eq_iff a d))
                    | inr t ↦ rw (t, n)
                  ]
            ])
      | inr (b, e) ↦
          rw (e, on_interest)
            (ap lease (find_binding-renew u a period expiry c.bindings b e w d)
              ∙ elim (Bool-cases (u == w && address_eq a d)) [ inl t ↦ rw t | inr t ↦ rw t ])
    ]
view-step {c} now (disinterest u a) w d v =
    ap lease (find_binding-remove u a w d c.bindings) ∙ ground arith
view-step {c} now clears w d v = ap lease (find_binding-nil w d)
view-step {c} now reaps w d v = find_binding-reap now w d c.bindings v.unique

-- A history of calls, each at its time.
unfoldable pub run : Cache → List (ℕ × Call) → Cache
unfolding step
run c [] = c
run c ((now, call) ∷ calls) = run (step c now call) calls

abbrev pub lease_run : ℕ → ℕ → Leases → List (ℕ × Call) → Leases
lease_run m f t [] = t
lease_run m f t ((now, call) ∷ calls) = lease_run m f (lease_step m f t now call) calls
