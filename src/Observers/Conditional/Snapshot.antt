-- ===== src/Observers/Conditional/Snapshot.antt =====
-- Whom a notification has updated when it returns.
use communication_in_critica.Prelude.{
  ℕ, ◌≡◌, refl, sym, ◌∙◌, Bool, true, false, List, [], ◌∷◌, ◌++◌, append-nil, append_assoc,
  if◌then◌else◌, ◌==◌, Bool-cases, inl, inr, All, All-removed, All-inserted, subst,
}
use communication_in_critica.Observers.Conditional.{
  Entry, Notification, Observed, observed, begun, visited, Step, attaching, detaching, beginning,
  visiting, returning, Reach, here, next,
}

-- The observers of a condition, in the order in which they were attached.
unfoldable pub observers_of : ℕ → List Entry → List ℕ
observers_of c [] = []
observers_of c (e ∷ es) =
    let rest = observers_of c es in if e.condition == c then e.observer ∷ rest else rest

abbrev pub is_any : List ℕ → Bool
is_any [] = false
is_any (x ∷ xs) = true

is_any-append : (xs : List ℕ) (x : ℕ) → is_any (xs ++ x ∷ []) ≡ true
is_any-append [] x = refl
is_any-append (y ∷ ys) x = refl

-- What was updated, and what is still to be, are the observers of the copy.
abbrev IsUnderway : Notification → Type 0
IsUnderway n =
    (n.updated ++ observers_of n.condition n.rest ≡ observers_of n.condition n.snapshot)
    × (n.notified ≡ is_any n.updated)

abbrev pub IsComplete : Notification → Type 0
IsComplete n = (n.updated ≡ observers_of n.condition n.snapshot) × (n.notified ≡ is_any n.updated)

begun-IsUnderway : (c d : ℕ) (entries : List Entry) → IsUnderway (begun c d entries)
unfolding begun
begun-IsUnderway c d entries = (refl, refl)

visited-IsUnderway :
    (n : Notification) (e : Entry) (rest : List Entry)
    → n.rest ≡ e ∷ rest
    → IsUnderway n
    → IsUnderway (visited n e rest)
unfolding visited observers_of
visited-IsUnderway n e rest at u =
    let upto =
      subst (λ r. n.updated ++ observers_of n.condition r ≡ observers_of n.condition n.snapshot) at
        u.0 in
    elim (Bool-cases (e.condition == n.condition)) [
      | inl own ↦ rw own (
        append_assoc n.updated (e.observer ∷ []) (observers_of n.condition rest) ∙ rw own at upto,
        sym (is_any-append n.updated e.observer),
      )
      | inr other ↦ rw other (rw other at upto, u.1)
    ]

returning-IsComplete : (n : Notification) → n.rest ≡ [] → IsUnderway n → IsComplete n
unfolding observers_of
returning-IsComplete n done u = (
  sym (append-nil n.updated)
      ∙ subst (λ r. n.updated ++ observers_of n.condition r ≡ observers_of n.condition n.snapshot)
          done u.0,
  u.1,
)

abbrev IsSound : Observed → Type 0
IsSound o = All IsUnderway o.running × All IsComplete o.returned

Step-IsSound : {o p : Observed} → Step o p → IsSound o → IsSound p
Step-IsSound (attaching x c) s = s
Step-IsSound (detaching x c) s = s
Step-IsSound {o} (beginning c d) s = ((begun-IsUnderway c d o.entries, s.0), s.1)
Step-IsSound (visiting before after n e rest at first) s =
    let (own, others) = All-removed IsUnderway before n after (subst (All IsUnderway) at s.0) in
    (
      All-inserted IsUnderway before (visited n e rest) after
          (visited-IsUnderway n e rest first own) others,
      s.1,
    )
Step-IsSound (returning before after n at done) s =
    let (own, others) = All-removed IsUnderway before n after (subst (All IsUnderway) at s.0) in
    (others, (returning-IsComplete n done own, s.1))

Reach-IsSound : {o : Observed} → Reach observed o → IsSound o
Reach-IsSound here = (tt, tt)
Reach-IsSound (next r st) = Step-IsSound st (Reach-IsSound r)

-- Whoever attaches and detaches meanwhile, a notification that has returned has updated exactly the
-- observers that its condition had when it took its copy, once for each entry and in the order in
-- which they were attached, and it answered whether there were any.
pub notified_as_copied : {o : Observed} → Reach observed o → All IsComplete o.returned
notified_as_copied r = (Reach-IsSound r).1
