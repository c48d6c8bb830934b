-- ===== src/SmartData/BindingCache.antt =====
-- src/communication/smart_data/binding_cache.h: who wants which unit, until when, and the periodic
-- threads that answer them. The methods run under `_mtx`, so each is one step. Time is an argument;
-- the conversions to `int64_t` and the product with 1000 are taken not to overflow.
pub mod Shortest
pub mod Synced
pub mod Find
pub mod Refine
pub mod Service
use communication_in_critica.Prelude.{
  ℕ, ◌+◌, ◌*◌, ◌%◌, ◌^◌, Bool, true, false, ◌&&◌, ◌||◌, List, [], ◌∷◌, ◌++◌, Option, none, some,
  if◌then◌else◌, ltb, ◌==◌, remove_if,
}
use communication_in_critica.Channel.Address.{Address, address_eq}

pub record Binding : Type 0 where
  pub unit : ℕ
  pub address : Address
  pub period_us : ℕ
  pub expiry_ns : ℕ

-- `_threads`: the units that have a `Periodic_Thread`, each with the period it runs at
abbrev pub Threads : Type 0
Threads = List (ℕ × ℕ)

pub record Cache : Type 0 where
  pub lifetime_min_us : ℕ
  pub lifetime_factor : ℕ
  pub bindings : List Binding
  pub threads : Threads

abbrev pub empty : ℕ → ℕ → Cache
empty lifetime_min_us lifetime_factor = record {
  lifetime_min_us = lifetime_min_us;
  lifetime_factor = lifetime_factor;
  bindings = [];
  threads = [];
}

-- the test of `find_binding` and of `on_disinterest`
abbrev pub is_for : ℕ → Address → Binding → Bool
is_for unit address b = b.unit == unit && address_eq b.address address

abbrev pub filter : (Binding → Bool) → List Binding → List Binding
filter p [] = []
filter p (b ∷ bs) = let rest = filter p bs in if p b then b ∷ rest else rest

abbrev pub front : List Binding → Option Binding
front [] = none
front (b ∷ bs) = some b

unfoldable pub find_binding : ℕ → Address → List Binding → Option Binding
find_binding unit address bs = front (filter (is_for unit address) bs)

-- the write through the pointer that `find_binding` returned: to the first entry of the address
unfoldable pub renew : ℕ → Address → ℕ → ℕ → List Binding → List Binding
renew unit address period expiry [] = []
renew unit address period expiry (b ∷ bs) =
    let rest = renew unit address period expiry bs in
    if is_for unit address b
    then record b { period_us = period; expiry_ns = expiry } ∷ bs
    else b ∷ rest

-- the loop of `shortest_locked`
unfoldable pub shortest_from : ℕ → List Binding → ℕ
shortest_from best [] = best
shortest_from best (b ∷ bs) =
    shortest_from (if best == 0 || ltb b.period_us best then b.period_us else best) bs

unfoldable pub shortest_locked : List Binding → ℕ → ℕ
unfolding shortest_from
shortest_locked bs unit = shortest_from 0 (filter (λ b. b.unit == unit) bs)

unfoldable pub find_thread : ℕ → Threads → Option ℕ
find_thread unit [] = none
find_thread unit ((u, p) ∷ ts) = if u == unit then some p else find_thread unit ts

unfoldable pub set_period : ℕ → ℕ → Threads → Threads
set_period unit period [] = []
set_period unit period ((u, p) ∷ ts) =
    let rest = set_period unit period ts in if u == unit then (u, period) ∷ ts else (u, p) ∷ rest

-- the body of the first loop of `resync_threads`
unfoldable pub start_thread : List Binding → Binding → Threads → Threads
unfolding find_thread shortest_locked set_period
start_thread bs b ts =
    let period = shortest_locked bs b.unit in
    elim (find_thread b.unit ts) [
      | none ↦ (b.unit, period) ∷ ts
      | some _ ↦ set_period b.unit period ts
    ]

unfoldable pub start_threads : List Binding → List Binding → Threads → Threads
unfolding start_thread
start_threads bs [] ts = ts
start_threads bs (b ∷ rest) ts = start_threads bs rest (start_thread bs b ts)

unfoldable pub resync_threads : List Binding → Threads → Threads
unfolding start_threads
resync_threads bs ts = remove_if (λ t. shortest_locked bs t.0 == 0) (start_threads bs bs ts)

unfoldable pub expiry_for : Cache → ℕ → ℕ → ℕ
expiry_for c now period_us =
    let life = c.lifetime_factor * period_us % 2 ^ 64 in
    now + (if ltb life c.lifetime_min_us then c.lifetime_min_us else life) * 1000

abbrev pub resynced : Cache → List Binding → Cache
resynced c bs = record c { bindings = bs; threads = resync_threads bs c.threads }

unfoldable pub on_interest : Cache → ℕ → ℕ → Address → ℕ → Cache
unfolding find_binding renew expiry_for resync_threads
on_interest c now unit address asked =
    let period = if asked == 0 then 1 else asked in
    let expiry = expiry_for c now period in
    elim (find_binding unit address c.bindings) [
      | some _ ↦ resynced c (renew unit address period expiry c.bindings)
      | none ↦ resynced c (
          c.bindings
          ++ record { unit = unit; address = address; period_us = period; expiry_ns = expiry } ∷ [])
    ]

unfoldable pub on_disinterest : Cache → ℕ → Address → Cache
unfolding resync_threads
on_disinterest c unit address = resynced c (remove_if (is_for unit address) c.bindings)

unfoldable pub clear : Cache → Cache
clear c = record c { bindings = []; threads = [] }

-- one round of `reap_loop`
unfoldable pub reap : Cache → ℕ → Cache
unfolding resync_threads
reap c now = resynced c (remove_if (λ b. ltb b.expiry_ns now) c.bindings)
