-- ===== src/Observers/Conditional/Tests.antt =====
-- Observers 7 and 8 of condition 0x8888, and 9 of another; 7 is detached while a notification of
-- datum 5 runs.
use communication_in_critica.Prelude.{◌≡◌, refl, [], ◌∷◌, inl, All, Elem, List}
use communication_in_critica.Observers.Conditional.{
  Entry, Notification, Observed, observed, attach, detach, begun, visited, Step, attaching,
  detaching, beginning, visiting, returning, Reach, here, next,
}
use communication_in_critica.Observers.Conditional.Snapshot.{IsComplete, notified_as_copied}
use communication_in_critica.Observers.Conditional.Detached.{IsRounds, detached_still_updated}

abbrev seven : Entry
seven = record { observer = 7; condition = 0x8888 }

abbrev eight : Entry
eight = record { observer = 8; condition = 0x8888 }

abbrev nine : Entry
nine = record { observer = 9; condition = 3 }

abbrev entries : List Entry
entries = seven ∷ nine ∷ eight ∷ []

abbrev notification : Notification
notification = begun 0x8888 5 entries

abbrev underway : Observed
underway = record { entries = entries; running = notification ∷ []; returned = [] }

-- The notification has returned, after 7 was detached.
abbrev after_seven : Notification
after_seven = visited notification seven (nine ∷ eight ∷ [])

abbrev after_nine : Notification
after_nine = visited after_seven nine (eight ∷ [])

abbrev finished : Notification
finished = visited after_nine eight []

abbrev all_returned : Observed
all_returned = record { entries = detach 7 0x8888 entries; running = []; returned = finished ∷ [] }

all_returned_reached : Reach observed all_returned
unfolding attach begun visited
all_returned_reached =
    next
      (next
        (next
          (next
            (next
              (next
                (next (next (next here (attaching 7 0x8888)) (attaching 9 3)) (attaching 8 0x8888))
                (beginning 0x8888 5))
              (detaching 7 0x8888))
            (visiting [] [] notification seven (nine ∷ eight ∷ []) refl refl))
          (visiting [] [] after_seven nine (eight ∷ []) refl refl))
        (visiting [] [] after_nine eight [] refl refl))
      (returning [] [] finished refl refl)

notified_as_copied_example : All IsComplete (finished ∷ [])
notified_as_copied_example = notified_as_copied all_returned_reached

finished_updated : finished.updated ≡ 7 ∷ 8 ∷ []
unfolding begun visited
finished_updated = refl

detached_still_updated_example :
    Step underway (record underway { entries = detach 7 0x8888 entries })
    × ((q : Observed) × (r : Reach (record underway { entries = detach 7 0x8888 entries }) q)
        × (m : Notification) × IsRounds r
        × (¬ Elem seven q.entries)
        × (q.running ≡ [])
        × (q.returned ≡ m ∷ [])
        × Elem 7 m.updated)
unfolding begun
detached_still_updated_example =
    detached_still_updated underway [] [] notification seven refl (inl refl) refl
