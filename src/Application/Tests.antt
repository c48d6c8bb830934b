-- ===== src/Application/Tests.antt =====
-- A vehicle of two components that starts and ends well, with processes 11 and 12.
use communication_in_critica.Prelude.{
  ℕ, zero, suc, ◌+◌, ◌<◌, ◌≡◌, ◌↔◌, [], ◌∷◌, Option, none, some, true, false,
}
use communication_in_critica.SharedMemory.Create.{Calls, nothing_left}
use communication_in_critica.Application.Vehicle.{Vehicle, Component, is_missing}
use communication_in_critica.Application.Processes.{exited, run_gateway_process, run}
use communication_in_critica.Application.Launch.{context_of, EndsWell, run_succeeds}
use communication_in_critica.Application.Reaping.{awaited_of, forked_of, nothing_left_behind}

abbrev lidar : Component
lidar = record { logical_port = 0x102; subscribes = false }

abbrev braking : Component
braking = record { logical_port = 0x201; subscribes = true }

abbrev car : Vehicle
car = record { is_master = false; components = (lidar, 0x102) ∷ (braking, 0x201) ∷ [] }

abbrev granted : Calls
granted = record { shmget = some 5; semget = some 6; shmat = true; setall = true }

abbrev forks : ℕ → Option ℕ
forks i = some (11 + i)

run_succeeds_example :
    (run (some 10) (exited (run_gateway_process car granted forks (λ _. exited 0)).code) ≡ 0) ↔ (
      (is_missing (context_of car granted).0 ≡ false)
      × ((i : ℕ) → i < 2 → EndsWell forks (λ _. exited 0) i))
run_succeeds_example = run_succeeds car granted forks (λ _. exited 0) 10

-- The second component cannot be forked.
abbrev one_fork : ℕ → Option ℕ
one_fork zero = some 11
one_fork (suc i) = none

nothing_left_behind_example :
    let out = run_gateway_process car granted one_fork (λ _. exited 0) in
    (awaited_of out.log ≡ forked_of out.log) × (out.kernel ≡ nothing_left)
nothing_left_behind_example = nothing_left_behind car granted one_fork (λ _. exited 0)
