-- ===== src/Clock/Tests.antt =====
-- Two threads that read the same time.
use communication_in_critica.Prelude.{◌≡◌, refl, [], ◌∷◌}
use communication_in_critica.Clock.{
  State, start, set, trying, outside, load, win, fail, Reach, here, later, stamp, Increasing,
  stamps_increase,
}

abbrev both : State
both = record start { threads = set 1 (trying 50 0) (set 0 (trying 50 0) (λ _. outside)) }

abbrev one : State
one = record {
  last = stamp 50 0;
  threads = set 0 outside both.threads;
  returned = (50, stamp 50 0) ∷ [];
}

Reach-one : Reach one
Reach-one = later (later (later here (load 0 50 refl)) (load 1 50 refl)) (win 0 50 0 refl refl)

abbrev again : State
again = record one { threads = set 1 (trying 50 one.last) one.threads }

abbrev two : State
two = record {
  last = stamp 50 one.last;
  threads = set 1 outside again.threads;
  returned = (50, stamp 50 one.last) ∷ one.returned;
}

Reach-two : Reach two
Reach-two = later (later Reach-one (fail 1 50 0 refl)) (win 1 50 one.last refl refl)

values : (two.last ≡ 51) × (one.last ≡ 50)
unfolding stamp
values = (refl, refl)

stamps_increase_example : Increasing two.last two.returned
stamps_increase_example = stamps_increase Reach-two
