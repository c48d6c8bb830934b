-- ===== src/Observers/Tests.antt =====
-- Two threads, of which one pushes a datum while the other waits for it and takes it.
use communication_in_critica.Prelude.{◌≡◌, refl, false, [], ◌∷◌, ◌++◌, All}
use communication_in_critica.Observers.{
  Observer, Reach, begin, later, outside, call_update, lock_update, push, post, unlock,
  call_updated, claim, lock_updated, take_front, datum_of, waiting,
}
use communication_in_critica.Observers.Accounts.{data_of, NotEmpty}
use communication_in_critica.Observers.Handoff.{handed_in_order}

abbrev done : Observer
done = record {
  semaphore = 0;
  locked = false;
  queue = [];
  threads = outside ∷ outside ∷ [];
  pushed = 7 ∷ [];
  returned = datum_of 7 ∷ [];
}

done-Reach : Reach 2 done
done-Reach =
    later
      (later
        (later
          (later
            (later
              (later
                (later
                  (later (later begin (call_updated (outside ∷ []) [] false refl))
                    (call_update [] (waiting false ∷ []) 7 refl))
                  (lock_update [] (waiting false ∷ []) 7 refl refl))
                (push [] (waiting false ∷ []) 7 refl))
              (post [] (waiting false ∷ []) refl))
            (unlock [] (waiting false ∷ []) refl))
          (claim (outside ∷ []) [] false 0 refl refl))
        (lock_updated (outside ∷ []) [] refl refl))
      (take_front (outside ∷ []) [] refl)

handed_in_order_example :
    (done.pushed ≡ data_of done.returned ++ done.queue) × All NotEmpty done.returned
handed_in_order_example = handed_in_order done-Reach
