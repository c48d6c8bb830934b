-- ===== src/SmartData/BindingCache/Synced.antt =====
-- After `resync_threads` exactly the units that somebody is interested in have a thread, each at
-- the shortest period asked for, whatever threads there were.
use communication_in_critica.Prelude.{
  ℕ, ◌≡◌, ap, ◌∙◌, inl, inr, List, [], ◌∷◌, none, some, if◌then◌else◌, ◌==◌, arith, Elem,
  Bool-cases, Option-cases, Bool, remove_if,
}
use communication_in_critica.SmartData.BindingCache.{
  Binding, Threads, find_thread, set_period, start_thread, start_threads, resync_threads,
  shortest_locked,
}
use communication_in_critica.SmartData.BindingCache.Shortest.{shortest_locked-attained}

find_thread-set_period :
    (u p v : ℕ) (ts : Threads) (q : ℕ)
    → find_thread u ts ≡ some q
    → find_thread v (set_period u p ts) ≡ (if u == v then some p else find_thread v ts)
unfolding find_thread set_period
find_thread-set_period u p v [] q h = cc
find_thread-set_period u p v ((w, r) ∷ ts) q h = ground (arith, find_thread-set_period u p v ts q)

-- One round of the first loop sets the thread of its unit, and no other.
find_thread-start_thread :
    (bs : List Binding) (b : Binding) (v : ℕ) (ts : Threads)
    → find_thread v (start_thread bs b ts)
      ≡ (if b.unit == v then some (shortest_locked bs b.unit) else find_thread v ts)
unfolding start_thread find_thread
find_thread-start_thread bs b v ts = elim (Option-cases (find_thread b.unit ts)) [
  | inl e ↦ rw (e, start_thread)
  | inr (q, e) ↦
      rw (e, start_thread) (find_thread-set_period b.unit (shortest_locked bs b.unit) v ts q e)
]

find_thread-remove_if :
    (p : ℕ → Bool) (v : ℕ) (ts : Threads)
    → find_thread v (remove_if (λ t. p t.0) ts) ≡ (if p v then none else find_thread v ts)
unfolding find_thread
find_thread-remove_if p v [] = ground arith
find_thread-remove_if p v ((u, q) ∷ ts) = elim (Bool-cases (p u)) [
  | inl t ↦ rw t (ground (arith, find_thread-remove_if p v ts, ap p {x = u} {y = v}))
  | inr t ↦ rw t (ground (arith, find_thread-remove_if p v ts))
]

-- The first loop leaves each unit as it was, or sets it to its shortest period; it does set a unit
-- of an entry that it came by.
start_threads-cases :
    (bs rest : List Binding) (v : ℕ) (ts : Threads)
    → (find_thread v ts ≡ some (shortest_locked bs v))
    → find_thread v (start_threads bs rest ts) ≡ some (shortest_locked bs v)
unfolding start_threads
start_threads-cases bs [] v ts h = h
start_threads-cases bs (b ∷ rest) v ts h =
    start_threads-cases bs rest v (start_thread bs b ts)
      (ground (arith, find_thread-start_thread bs b v ts))

start_threads-Elem :
    (bs rest : List Binding) (b : Binding) (ts : Threads)
    → Elem b rest
    → find_thread b.unit (start_threads bs rest ts) ≡ some (shortest_locked bs b.unit)
unfolding start_threads
start_threads-Elem bs [] b ts m = absurd m
start_threads-Elem bs (x ∷ rest) b ts (inl e) =
    start_threads-cases bs rest b.unit (start_thread bs x ts)
      (ground (arith, find_thread-start_thread bs x b.unit ts))
start_threads-Elem bs (x ∷ rest) b ts (inr m) =
    start_threads-Elem bs rest b (start_thread bs x ts) m

-- The threads that the bindings call for.
abbrev pub IsSynced : List Binding → Threads → Type 0
IsSynced bs ts =
    (u : ℕ)
    → find_thread u ts ≡ (if shortest_locked bs u == 0 then none else some (shortest_locked bs u))

pub resync_threads-IsSynced :
    (bs : List Binding) (ts : Threads) → IsSynced bs (resync_threads bs ts)
unfolding resync_threads
resync_threads-IsSynced bs ts u =
    find_thread-remove_if (λ v. shortest_locked bs v == 0) u (start_threads bs bs ts)
    ∙ elim (Bool-cases (shortest_locked bs u == 0)) [
      | inl e ↦ rw e
      | inr e ↦
          let (b, m, same, _) = shortest_locked-attained bs u (ground arith) in
          rw (e, ← same) (start_threads-Elem bs bs b ts m)
    ]
