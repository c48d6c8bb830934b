-- ===== src/Observers/Handoff.antt =====
-- What an observer promises to the threads that push and take.
use communication_in_critica.Prelude.{
  ℕ, ◌≡◌, refl, ap, ◌∙◌, List, [], ◌∷◌, ◌++◌, length, append-nil, All, arith,
}
use communication_in_critica.Observers.{
  Phase, outside, entering, pushing, posting, leaving, waiting, claimed, taking, Observer, Reach,
}
use communication_in_critica.Observers.Accounts.{Reach-Good, data_of, NotEmpty, owing, total}

-- In any interleaving of any number of threads, what was pushed is what the threads were given and
-- then the queue, in the same order, and nobody who got past the semaphore found the queue empty.
pub handed_in_order :
    {n : ℕ} {o : Observer}
    → Reach n o
    → (o.pushed ≡ data_of o.returned ++ o.queue) × All NotEmpty o.returned
handed_in_order r = let g = Reach-Good r in (g.order, g.served)

-- A thread that is neither outside nor waiting on the semaphore
abbrev pub Idle : Phase → Type 0
Idle outside = Unit
Idle (waiting timed) = Unit
Idle _ = ⊥

owing-Idle : (ps : List Phase) → All Idle ps → total owing ps ≡ 0
owing-Idle [] h = refl
owing-Idle (outside ∷ ps) h = omega (arith, owing-Idle ps h.1)
owing-Idle (waiting timed ∷ ps) h = omega (arith, owing-Idle ps h.1)
owing-Idle (entering d ∷ ps) h = absurd h.0
owing-Idle (pushing d ∷ ps) h = absurd h.0
owing-Idle (posting ∷ ps) h = absurd h.0
owing-Idle (leaving ∷ ps) h = absurd h.0
owing-Idle (claimed ∷ ps) h = absurd h.0
owing-Idle (taking ∷ ps) h = absurd h.0

length-nil : (xs : List ℕ) → length xs ≡ 0 → xs ≡ []
length-nil [] h = refl
length-nil (x ∷ xs) h = absurd (omega (arith, h))

-- No wake-up is lost: when every thread is outside or waits on the semaphore, and the semaphore
-- lets nobody past, everything pushed was given to a thread.
pub nothing_left :
    {n : ℕ} {o : Observer}
    → Reach n o
    → All Idle o.threads
    → o.semaphore ≡ 0
    → o.pushed ≡ data_of o.returned
nothing_left {o = o} r idle none_left =
    let g = Reach-Good r in
    let short : length o.queue ≡ 0 = omega (arith, g.owed, none_left, owing-Idle o.threads idle) in
    g.order
    ∙ ap (λ ds. data_of o.returned ++ ds) (length-nil o.queue short)
    ∙ append-nil (data_of o.returned)
