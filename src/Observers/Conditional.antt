-- ===== src/Observers/Conditional.antt =====
-- src/core/observers/conditional_data_observer.h, which a NIC is: the list of observers with their
-- conditions, and the notifications that run while others attach and detach. The mutex is held for
-- a whole `attach` or `detach` and for the copy that a notification takes, so each of these is one
-- step, as is each round of the loop over the copy, in which an observer may itself attach or detach.
pub mod Snapshot
pub mod Detached
mod Tests
use communication_in_critica.Prelude.{
  ℕ, ◌≡◌, Bool, true, false, ◌&&◌, List, [], ◌∷◌, ◌++◌, if◌then◌else◌, ◌==◌, remove_if,
}

-- `Conditional_Data_Observer_Entry`: an observer and its condition, both numbers here
pub record Entry : Type 0 where
  pub observer : ℕ
  pub condition : ℕ

unfoldable pub attach : ℕ → ℕ → List Entry → List Entry
attach o c entries = entries ++ record { observer = o; condition = c } ∷ []

unfoldable pub detach : ℕ → ℕ → List Entry → List Entry
detach o c entries = remove_if (λ e. e.observer == o && e.condition == c) entries

-- A call of `notify`: its arguments, its copy of the list, the part of it that the loop has not yet
-- reached, and the flag. For the proofs, the observers that it has updated, the first one first.
pub record Notification : Type 0 where
  pub condition : ℕ
  pub datum : ℕ
  pub snapshot : List Entry
  pub rest : List Entry
  pub notified : Bool
  pub updated : List ℕ

unfoldable pub begun : ℕ → ℕ → List Entry → Notification
begun c d entries = record {
  condition = c;
  datum = d;
  snapshot = entries;
  rest = entries;
  notified = false;
  updated = [];
}

-- the body of the loop
unfoldable pub visited : Notification → Entry → List Entry → Notification
visited n e rest =
    if e.condition == n.condition
    then record n { rest = rest; notified = true; updated = n.updated ++ e.observer ∷ [] }
    else record n { rest = rest }

-- `_observers`, the calls that run, and those that have returned
pub record Observed : Type 0 where
  pub entries : List Entry
  pub running : List Notification
  pub returned : List Notification

abbrev pub observed : Observed
observed = record { entries = []; running = []; returned = [] }

pub data Step (o : Observed) : Observed → Type 0 where
  attaching : (x c : ℕ) → Step o (record o { entries = attach x c o.entries })
  detaching : (x c : ℕ) → Step o (record o { entries = detach x c o.entries })
  beginning : (c d : ℕ) → Step o (record o { running = begun c d o.entries ∷ o.running })
  visiting :
      (before after : List Notification) (n : Notification) (e : Entry) (rest : List Entry)
      → o.running ≡ before ++ n ∷ after
      → n.rest ≡ e ∷ rest
      → Step o (record o { running = before ++ visited n e rest ∷ after })
  returning :
      (before after : List Notification) (n : Notification)
      → o.running ≡ before ++ n ∷ after
      → n.rest ≡ []
      → Step o (record o { running = before ++ after; returned = n ∷ o.returned })

pub data Reach (o : Observed) : Observed → Type 0 where
  here : Reach o o
  next : {p q : Observed} → Reach o p → Step p q → Reach o q
