-- ===== src/Observers/Conditional/Detached.antt =====
-- What becomes of an observer that is detached while a notification runs.
use communication_in_critica.Prelude.{
  ℕ, ◌≡◌, refl, ap, sym, ◌∙◌, true, List, [], ◌∷◌, ◌++◌, append-nil, append_assoc, ◌==◌, Bool-cases,
  inl, inr, eq_self, Elem, Elem-append, Elem-remove_if, subst, arith,
}
use communication_in_critica.Observers.Conditional.{
  attaching, beginning, Entry, Notification, Observed, detach, visited, Step, detaching, visiting,
  returning, Reach, here, next,
}
use communication_in_critica.Observers.Conditional.Snapshot.{observers_of}

-- A round of a loop that runs, or the return of it: nobody attaches, detaches or calls `notify`.
abbrev pub IsRound : {o p : Observed} → Step o p → Type 0
IsRound (attaching x c) = ⊥
IsRound (detaching x c) = ⊥
IsRound (beginning c d) = ⊥
IsRound (visiting before after n e rest at more) = Unit
IsRound (returning before after n at done) = Unit

abbrev pub IsRounds : {o p : Observed} → Reach o p → Type 0
IsRounds here = Unit
IsRounds (next r st) = IsRounds r × IsRound st

abbrev first : {o p q : Observed} → Step o p → Reach p q → Reach o q
first st here = next here st
first st (next r u) = next (first st r) u

first-IsRounds :
    {o p q : Observed} (st : Step o p) (r : Reach p q)
    → IsRound st
    → IsRounds r
    → IsRounds (first st r)
first-IsRounds st here own others = (tt, own)
first-IsRounds st (next r u) own others = (first-IsRounds st r own others.0, others.1)

-- The body of the loop leaves the condition, and updates the observer of the entry if it is for it.
visited-rest :
    (n : Notification) (e : Entry) (rest : List Entry)
    → let m = visited n e rest in
      (m.rest ≡ rest)
      × (m.updated ++ observers_of m.condition rest
          ≡ n.updated ++ observers_of n.condition (e ∷ rest))
unfolding visited observers_of
visited-rest n e rest = elim (Bool-cases (e.condition == n.condition)) [
  | inl own ↦
      rw own (refl, append_assoc n.updated (e.observer ∷ []) (observers_of n.condition rest))
  | inr other ↦ rw other (refl, refl)
]

-- The loop of the notification can go on to its end by its own rounds, and returns.
Completed : Observed → List Notification → List ℕ → Type 0
Completed o others updated =
    (q : Observed) × (r : Reach o q) × (m : Notification) × IsRounds r
    × (q.entries ≡ o.entries)
    × (q.running ≡ others)
    × (q.returned ≡ m ∷ o.returned)
    × (m.updated ≡ updated)

completes :
    (rest : List Entry) (o : Observed) (before after : List Notification) (n : Notification)
    → o.running ≡ before ++ n ∷ after
    → n.rest ≡ rest
    → Completed o (before ++ after) (n.updated ++ observers_of n.condition rest)
unfolding Completed observers_of
completes [] o before after n at done = (
  record o { running = before ++ after; returned = n ∷ o.returned },
  next here (returning before after n at done),
  n,
  (tt, tt),
  refl,
  refl,
  refl,
  sym (append-nil n.updated),
)
completes (e ∷ rest) o before after n at more =
    let m = visited n e rest in
    let p = record o { running = before ++ m ∷ after } in
    let (left, so_far) = visited-rest n e rest in
    let st : Step o p = visiting before after n e rest at more in
    let (q, r, k, rounds, same, others, got, all) = completes rest p before after m refl left in
    (q, first st r, k, first-IsRounds st r tt rounds, same, others, got, all ∙ so_far)

Elem-observers_of :
    (e : Entry) (es : List Entry) → Elem e es → Elem e.observer (observers_of e.condition es)
unfolding observers_of
Elem-observers_of e [] m = absurd m
Elem-observers_of e (x ∷ es) (inl q) =
    let same : x.condition == e.condition ≡ true =
      ap (λ y. y.condition == e.condition) (sym q) ∙ eq_self e.condition in
    rw same (inl (ap (λ y. y.observer) q))
Elem-observers_of e (x ∷ es) (inr m) = elim (Bool-cases (x.condition == e.condition)) [
  | inl own ↦ rw own (inr (Elem-observers_of e es m))
  | inr other ↦ rw other (Elem-observers_of e es m)
]

detach-gone : (e : Entry) (es : List Entry) → ¬ Elem e (detach e.observer e.condition es)
unfolding detach
detach-gone e es m =
    let found = (Elem-remove_if _ e es).0 m in
    absurd (ground (arith, found.1, eq_self e.observer, eq_self e.condition))

-- An observer that a running notification has copied and not yet reached can be detached and no
-- longer be in the list, and is updated by the same notification all the same, as the copy is not
-- looked up again: from then on nobody attaches, detaches or calls `notify`, and what returns, of the
-- notifications that run, is this one only. So its owner cannot free it when `detach` has returned.
pub detached_still_updated :
    (o : Observed) (before after : List Notification) (n : Notification) (e : Entry)
    → o.running ≡ before ++ n ∷ after
    → Elem e n.rest
    → e.condition ≡ n.condition
    → let detached = record o { entries = detach e.observer e.condition o.entries } in
      Step o detached
      × ((q : Observed) × (r : Reach detached q) × (m : Notification) × IsRounds r
          × (¬ Elem e q.entries)
          × (q.running ≡ before ++ after)
          × (q.returned ≡ m ∷ o.returned)
          × Elem e.observer m.updated)
unfolding Completed
detached_still_updated o before after n e at ahead same =
    let detached = record o { entries = detach e.observer e.condition o.entries } in
    let (q, r, m, rounds, kept, others, got, all) =
      completes n.rest detached before after n at refl in
    let reached =
      subst (λ c. Elem e.observer (observers_of c n.rest)) same
        (Elem-observers_of e n.rest ahead) in
    (
      detaching e.observer e.condition,
      (
        q,
        r,
        m,
        rounds,
        (λ k. detach-gone e o.entries (subst (Elem e) kept k)),
        others,
        got,
        subst (Elem e.observer) (sym all)
            ((Elem-append e.observer n.updated (observers_of n.condition n.rest)).1 (inr reached)),
      ),
    )
