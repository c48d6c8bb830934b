-- ===== src/Observers/Accounts.antt =====
-- The account that an observer keeps: what its steps preserve.
use communication_in_critica.Prelude.{
  ℕ, zero, suc, ◌+◌, ◌≡◌, refl, ap, ◌∙◌, sym, true, false, List, [], ◌∷◌, ◌++◌, if◌then◌else◌,
  length, length-append, append-nil, append_assoc, All, arith, Bool-cases, inl, inr,
}
use communication_in_critica.Observers.{
  Phase, outside, entering, pushing, posting, leaving, waiting, claimed, taking, Answer, datum_of,
  timed_out, found_empty, Observer, outsiders, pop, Step, Reach, call_update, lock_update, push,
  post, unlock, call_updated, claim, time_out, lock_updated, take_front, begin, later,
}

-- 1 for a thread that holds the mutex
abbrev pub inside : Phase → ℕ
inside (pushing _) = 1
inside posting = 1
inside leaving = 1
inside taking = 1
inside _ = 0

-- 1 for a thread that stands for an entry of the queue that the semaphore does not count: it was
-- pushed and not posted, or claimed and not taken
abbrev pub owing : Phase → ℕ
owing posting = 1
owing claimed = 1
owing taking = 1
owing _ = 0

abbrev pub total : (Phase → ℕ) → List Phase → ℕ
total w [] = 0
total w (p ∷ ps) = w p + total w ps

total-append : (w : Phase → ℕ) (ps qs : List Phase) → total w (ps ++ qs) ≡ total w ps + total w qs
total-append w [] qs = omega arith
total-append w (p ∷ ps) qs = omega (arith, total-append w ps qs)

-- A step of one thread changes a total by what that thread counts.
total-moved :
    (w : Phase → ℕ) (ts before after : List Phase) (p q : Phase)
    → ts ≡ before ++ p ∷ after
    → total w (before ++ q ∷ after) + w p ≡ total w ts + w q
total-moved w ts before after p q e =
    rw e (omega (arith, total-append w before (p ∷ after), total-append w before (q ∷ after)))

-- what the threads were given, in order
abbrev pub data_of : List Answer → List ℕ
data_of [] = []
data_of (datum_of d ∷ rs) = d ∷ data_of rs
data_of (timed_out ∷ rs) = data_of rs
data_of (found_empty ∷ rs) = data_of rs

abbrev pub NotEmpty : Answer → Type 0
NotEmpty found_empty = ⊥
NotEmpty _ = Unit

data_of-append : (rs bs : List Answer) → data_of (rs ++ bs) ≡ data_of rs ++ data_of bs
data_of-append [] bs = refl
data_of-append (datum_of d ∷ rs) bs = ap (λ ds. d ∷ ds) (data_of-append rs bs)
data_of-append (timed_out ∷ rs) bs = data_of-append rs bs
data_of-append (found_empty ∷ rs) bs = data_of-append rs bs

-- At most one thread has the mutex, the semaphore and the threads under way account for every entry
-- of the queue, and what was pushed is what was returned and then the queue.
pub record Good (o : Observer) : Type 0 where
  pub mutex : total inside o.threads ≡ (if o.locked then 1 else 0)
  pub owed : length o.queue ≡ o.semaphore + total owing o.threads
  pub order : o.pushed ≡ data_of o.returned ++ o.queue
  pub served : All NotEmpty o.returned

total-outsiders : (w : Phase → ℕ) (n : ℕ) → w outside ≡ 0 → total w (outsiders n) ≡ 0
total-outsiders w zero e = refl
total-outsiders w (suc n) e = omega (arith, e, total-outsiders w n e)

All-append :
    (P : Answer → Type 0) (rs : List Answer) (r : Answer) → All P rs → P r → All P (rs ++ r ∷ [])
All-append P [] r a h = (h, tt)
All-append P (x ∷ rs) r a h = (a.0, All-append P rs r a.1 h)

-- Of a step of one thread it is left to see that the mutex, the semaphore and the queue change with
-- what the thread counts.
module _ (o : Observer) (g : Good o) (before after : List Phase) (p q : Phase)
    (e : o.threads ≡ before ++ p ∷ after) where
  mutex_moved :
      total inside (before ++ q ∷ after) + inside p ≡ (if o.locked then 1 else 0) + inside q
  mutex_moved = omega (arith, total-moved inside o.threads before after p q e, g.mutex)

  owed_moved : o.semaphore + total owing (before ++ q ∷ after) + owing p ≡ length o.queue + owing q
  owed_moved = omega (arith, total-moved owing o.threads before after p q e, g.owed)

  -- A thread inside has the mutex.
  locked_of : inside p ≡ 1 → o.locked ≡ true
  locked_of i = elim (Bool-cases o.locked) [
    | inl l ↦ l
    | inr f ↦
        absurd
          (ground (arith, f, i, g.mutex, total-moved inside o.threads before after p outside e))
  ]

-- A thread that takes finds an entry.
taken_Good :
    (o : Observer) (before after : List Phase) (g : Good o)
    (e : o.threads ≡ before ++ taking ∷ after) (ds : List ℕ)
    → o.queue ≡ ds
    → Good (record o {
      locked = false;
      queue = (pop ds).1;
      threads = before ++ outside ∷ after;
      returned = o.returned ++ (pop ds).0 ∷ [];
    })
taken_Good o before after g e [] h =
    absurd (omega (arith, owed_moved o g before after taking outside e, ap length h))
taken_Good o before after g e (d ∷ ds) h = record {
  mutex = ground (
    arith,
    mutex_moved o g before after taking outside e,
    locked_of o g before after taking outside e refl,
  );
  owed = omega (arith, owed_moved o g before after taking outside e, ap length h);
  order =
      g.order
      ∙ ap (λ qs. data_of o.returned ++ qs) h
      ∙ sym (append_assoc (data_of o.returned) (d ∷ []) ds)
      ∙ ap (λ rs. rs ++ ds) (sym (data_of-append o.returned (datum_of d ∷ [])));
  served = All-append NotEmpty o.returned (datum_of d) g.served tt;
}

Step-Good : (o p : Observer) → Step o p → Good o → Good p
Step-Good o p (call_update before after d e) g = record {
  mutex = omega (arith, mutex_moved o g before after outside (entering d) e);
  owed = omega (arith, owed_moved o g before after outside (entering d) e);
  order = g.order;
  served = g.served;
}
Step-Good o p (lock_update before after d e free) g = record {
  mutex = ground (arith, free, mutex_moved o g before after (entering d) (pushing d) e);
  owed = omega (arith, owed_moved o g before after (entering d) (pushing d) e);
  order = g.order;
  served = g.served;
}
Step-Good o p (push before after d e) g = record {
  mutex = omega (arith, mutex_moved o g before after (pushing d) posting e);
  owed =
      omega
        (arith, owed_moved o g before after (pushing d) posting e, length-append o.queue (d ∷ []));
  order = ap (λ xs. xs ++ d ∷ []) g.order ∙ append_assoc (data_of o.returned) o.queue (d ∷ []);
  served = g.served;
}
Step-Good o p (post before after e) g = record {
  mutex = omega (arith, mutex_moved o g before after posting leaving e);
  owed = omega (arith, owed_moved o g before after posting leaving e);
  order = g.order;
  served = g.served;
}
Step-Good o p (unlock before after e) g = record {
  mutex = ground (
    arith,
    mutex_moved o g before after leaving outside e,
    locked_of o g before after leaving outside e refl,
  );
  owed = omega (arith, owed_moved o g before after leaving outside e);
  order = g.order;
  served = g.served;
}
Step-Good o p (call_updated before after timed e) g = record {
  mutex = omega (arith, mutex_moved o g before after outside (waiting timed) e);
  owed = omega (arith, owed_moved o g before after outside (waiting timed) e);
  order = g.order;
  served = g.served;
}
Step-Good o p (claim before after timed left e some_left) g = record {
  mutex = omega (arith, mutex_moved o g before after (waiting timed) claimed e);
  owed = omega (arith, owed_moved o g before after (waiting timed) claimed e, some_left);
  order = g.order;
  served = g.served;
}
Step-Good o p (time_out before after e) g = record {
  mutex = omega (arith, mutex_moved o g before after (waiting true) outside e);
  owed = omega (arith, owed_moved o g before after (waiting true) outside e);
  order =
      g.order
      ∙ ap (λ ds. ds ++ o.queue)
          (sym (append-nil (data_of o.returned))
            ∙ sym (data_of-append o.returned (timed_out ∷ [])));
  served = All-append NotEmpty o.returned timed_out g.served tt;
}
Step-Good o p (lock_updated before after e free) g = record {
  mutex = ground (arith, free, mutex_moved o g before after claimed taking e);
  owed = omega (arith, owed_moved o g before after claimed taking e);
  order = g.order;
  served = g.served;
}
Step-Good o p (take_front before after e) g = taken_Good o before after g e o.queue refl

pub Reach-Good : {n : ℕ} {o : Observer} → Reach n o → Good o
Reach-Good {n} begin = record {
  mutex = total-outsiders inside n refl;
  owed = omega (arith, total-outsiders owing n refl);
  order = refl;
  served = tt;
}
Reach-Good (later {o} {p} r s) = Step-Good o p s (Reach-Good r)
