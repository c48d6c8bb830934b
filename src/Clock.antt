-- ===== src/Clock.antt =====
-- src/core/clock.h: `monotonic_stamp`, called by any number of threads. The load of `last` and each
-- compare-and-exchange are atomic, so a run is an interleaving of them; the clock's readings are
-- arbitrary. Stamps are nanoseconds after 1970 and are taken not to overflow.
mod Tests
use communication_in_critica.Prelude.{
  ℕ, ◌+◌, ◌≤◌, ◌<◌, ◌≡◌, ◌≢◌, refl, ◌↔◌, List, [], ◌∷◌, if◌then◌else◌, ltb, ◌==◌, arith, All,
  Bool-cases, inl, inr,
}

-- the value that the loop tries to store
unfoldable pub stamp : ℕ → ℕ → ℕ
stamp now prev = if ltb prev now then now else prev + 1

-- Where a thread is: outside, or in the loop with its reading of the clock and of `last`.
pub data Phase : Type 0 where
  outside : Phase
  trying : (now prev : ℕ) → Phase

-- What was returned, the latest first, each with the reading of the clock.
pub record State : Type 0 where
  pub last : ℕ
  pub threads : ℕ → Phase
  pub returned : List (ℕ × ℕ)

abbrev pub start : State
start = record { last = 0; threads = λ _. outside; returned = [] }

abbrev pub set : ℕ → Phase → (ℕ → Phase) → ℕ → Phase
set t p threads u = if u == t then p else threads u

-- The exchange is weak, so it may fail where `last` is what was read.
pub data Step (s : State) : State → Type 0 where
  load :
      (t now : ℕ)
      → s.threads t ≡ outside
      → Step s (record s { threads = set t (trying now s.last) s.threads })
  win :
      (t now prev : ℕ)
      → s.threads t ≡ trying now prev
      → s.last ≡ prev
      → Step s (record {
        last = stamp now prev;
        threads = set t outside s.threads;
        returned = (now, stamp now prev) ∷ s.returned;
      })
  fail :
      (t now prev : ℕ)
      → s.threads t ≡ trying now prev
      → Step s (record s { threads = set t (trying now s.last) s.threads })

pub data Reach : State → Type 0 where
  here : Reach start
  later : {s u : State} → Reach s → Step s u → Reach u

-- Each stamp is below the later ones, at most `bound`, and not before the clock's reading.
abbrev pub Increasing : ℕ → List (ℕ × ℕ) → Type 0
Increasing bound [] = Unit
Increasing bound ((now, ts) ∷ earlier) =
    (ts ≤ bound) × (now ≤ ts) × (0 < ts) × All (λ e. e.1 < ts) earlier × Increasing bound earlier

below : (b c : ℕ) (xs : List (ℕ × ℕ)) → b < c → Increasing b xs → All (λ e. e.1 < c) xs
below b c [] h i = tt
below b c ((now, ts) ∷ xs) h (le, _, _, _, i) = (omega arith, below b c xs h i)

raise : (b c : ℕ) (xs : List (ℕ × ℕ)) → b ≤ c → Increasing b xs → Increasing c xs
raise b c [] h i = tt
raise b c ((now, ts) ∷ xs) h (le, n, p, a, i) = (omega arith, n, p, a, raise b c xs h i)

stamp-bounds : (now prev : ℕ) → (prev < stamp now prev) × (now ≤ stamp now prev)
unfolding stamp
stamp-bounds now prev = ground arith

-- In any interleaving of the callers the stamps returned are strictly increasing in the order of
-- the exchanges, so no two are the same, and none is before the clock's reading by its caller.
pub stamps_increase : {s : State} → Reach s → Increasing s.last s.returned
stamps_increase here = tt
stamps_increase (later r (load t now e)) = stamps_increase r
stamps_increase (later r (fail t now prev e)) = stamps_increase r
stamps_increase (later {s} r (win t now prev e same)) =
    let (above, reads) = stamp-bounds now prev in
    let i = stamps_increase r in
    (
      omega arith,
      reads,
      omega (arith, above),
      below s.last (stamp now prev) s.returned (omega (arith, same, above)) i,
      raise s.last (stamp now prev) s.returned (omega (arith, same, above)) i,
    )
