-- ===== src/Observers.antt =====
-- src/core/observers/concurrent_observer.h and src/core/posix_semaphore.h: the queue that an
-- observed hands its data to, and the threads that push to it by `update` and take from it by
-- `updated`. The mutex, the semaphore and the queue are touched one step of one thread at a time,
-- so a run is an interleaving of such steps. Data are pointers, here numbers.
pub mod Accounts
pub mod Handoff
pub mod Deadline
pub mod Conditional
mod Tests
use communication_in_critica.Prelude.{
  ℕ, zero, suc, ◌+◌, ◌-◌, ◌*◌, ◌/◌, ◌%◌, leb, if◌then◌else◌, Option, none, some, ◌≡◌, Bool, true,
  false, List, [], ◌∷◌, ◌++◌, Option, none, some,
}

-- Where a thread is: in `update` before the lock, the push, the `v` and the unlocking, or in
-- `updated` before the semaphore, the lock and the test of the queue.
pub data Phase : Type 0 where
  outside : Phase
  entering : (datum : ℕ) → Phase
  pushing : (datum : ℕ) → Phase
  posting : Phase
  leaving : Phase
  waiting : (timed : Bool) → Phase
  claimed : Phase
  taking : Phase

-- What `updated` returned: a datum, nothing after a timeout, or nothing as the queue was empty.
pub data Answer : Type 0 where
  datum_of : (datum : ℕ) → Answer
  timed_out : Answer
  found_empty : Answer

-- `_semaphore`, `_mtx`, `_data`, and for the proofs what was pushed and what was returned, the
-- oldest first.
pub record Observer : Type 0 where
  pub semaphore : ℕ
  pub locked : Bool
  pub queue : List ℕ
  pub threads : List Phase
  pub pushed : List ℕ
  pub returned : List Answer

abbrev pub outsiders : ℕ → List Phase
outsiders zero = []
outsiders (suc n) = outside ∷ outsiders n

-- the constructor, and so many threads
abbrev pub observer : ℕ → Observer
observer n = record {
  semaphore = 0;
  locked = false;
  queue = [];
  threads = outsiders n;
  pushed = [];
  returned = [];
}

-- the front of the queue, if it is not empty, and what is left
abbrev pub pop : List ℕ → Answer × List ℕ
pop [] = (found_empty, [])
pop (d ∷ ds) = (datum_of d, ds)

-- the deadline of `p_for`, in seconds and nanoseconds, from a reading of the clock
unfoldable pub deadline : ℕ → ℕ × ℕ → ℕ × ℕ
deadline timeout_ms (sec, nsec) =
    let s = sec + timeout_ms / 1000 in
    let n = nsec + (timeout_ms % 1000) * 1000000 in
    if leb 1000000000 n then (s + 1, n - 1000000000) else (s, n)

-- `p_for`, by the answers of `sem_timedwait`, the first one first; none while it waits
pub data TimedWait : Type 0 where
  decremented : TimedWait
  interrupted : TimedWait
  refused : TimedWait

unfoldable pub p_for : List TimedWait → Option Bool
p_for [] = none
p_for (decremented ∷ answers) = some true
p_for (interrupted ∷ answers) = p_for answers
p_for (refused ∷ answers) = some false

-- One thread's next step, the threads before and after it being as they were.
pub data Step (o : Observer) : Observer → Type 0 where
  call_update :
      (before after : List Phase) (d : ℕ)
      → o.threads ≡ before ++ outside ∷ after
      → Step o (record o { threads = before ++ entering d ∷ after })
  lock_update :
      (before after : List Phase) (d : ℕ)
      → o.threads ≡ before ++ entering d ∷ after
      → o.locked ≡ false
      → Step o (record o { locked = true; threads = before ++ pushing d ∷ after })
  push :
      (before after : List Phase) (d : ℕ)
      → o.threads ≡ before ++ pushing d ∷ after
      → Step o (record o {
        queue = o.queue ++ d ∷ [];
        pushed = o.pushed ++ d ∷ [];
        threads = before ++ posting ∷ after;
      })
  post :
      (before after : List Phase)
      → o.threads ≡ before ++ posting ∷ after
      → Step o (record o { semaphore = o.semaphore + 1; threads = before ++ leaving ∷ after })
  unlock :
      (before after : List Phase)
      → o.threads ≡ before ++ leaving ∷ after
      → Step o (record o { locked = false; threads = before ++ outside ∷ after })
  call_updated :
      (before after : List Phase) (timed : Bool)
      → o.threads ≡ before ++ outside ∷ after
      → Step o (record o { threads = before ++ waiting timed ∷ after })
  claim :
      (before after : List Phase) (timed : Bool) (left : ℕ)
      → o.threads ≡ before ++ waiting timed ∷ after
      → o.semaphore ≡ suc left
      → Step o (record o { semaphore = left; threads = before ++ claimed ∷ after })
  time_out :
      (before after : List Phase)
      → o.threads ≡ before ++ waiting true ∷ after
      → Step o (record o {
        threads = before ++ outside ∷ after;
        returned = o.returned ++ timed_out ∷ [];
      })
  lock_updated :
      (before after : List Phase)
      → o.threads ≡ before ++ claimed ∷ after
      → o.locked ≡ false
      → Step o (record o { locked = true; threads = before ++ taking ∷ after })
  take_front :
      (before after : List Phase)
      → o.threads ≡ before ++ taking ∷ after
      → Step o (record o {
        locked = false;
        queue = (pop o.queue).1;
        threads = before ++ outside ∷ after;
        returned = o.returned ++ (pop o.queue).0 ∷ [];
      })

pub data Reach (n : ℕ) : Observer → Type 0 where
  begin : Reach n (observer n)
  later : {o p : Observer} → Reach n o → Step o p → Reach n p
