-- ===== src/Application/Launch.antt =====
-- How the processes of a vehicle start and end.
use communication_in_critica.Prelude.{
  ℕ, zero, suc, ◌+◌, ◌≤◌, ◌<◌, ◌≡◌, refl, sym, ap, ◌∙◌, inl, inr, ◌↔◌, Bool, false, List, ◌∷◌,
  Option, none, some, ◌==◌, length, Bool-cases, arith,
}
use communication_in_critica.SharedMemory.Create.{Context, Calls, Kernel}
use communication_in_critica.Application.Vehicle.{
  Vehicle, component_ports, at_index, Gateway, gateway, set_master, set_context, create_context,
  is_missing,
}
use communication_in_critica.Application.Processes.{
  Status, exited, signalled, is_failure, spawn_components, any_failed, run_with_context,
  run_gateway_process, run,
}

exited_well : (s : Status) → (is_failure s ≡ false) ↔ (s ≡ exited 0)
exited_well (exited code) = (λ e. ap exited (ground (arith, e)), λ e. ap is_failure e)
exited_well (signalled n) = (λ e. ground (arith, e), λ e. ap is_failure e)

some_inj : (a b : ℕ) → some a ≡ some b → a ≡ b
some_inj a b e = ground (arith, e)

-- The fork for the component at an index succeeds, and its process exits with 0.
abbrev pub EndsWell : (ℕ → Option ℕ) → (ℕ → Status) → ℕ → Type 0
EndsWell forks statuses i = (pid : ℕ) × (forks i ≡ some pid) × (statuses pid ≡ exited 0)

module _ (forks : ℕ → Option ℕ) (statuses : ℕ → Status) where
  abbrev Clean : List ℕ × Bool → Type 0
  Clean (pids, failed) = (failed ≡ false) × (any_failed statuses pids ≡ false)

  any_failed-cons :
      (pid : ℕ) (pids : List ℕ)
      → (any_failed statuses (pid ∷ pids) ≡ false)
        ↔ ((statuses pid ≡ exited 0) × (any_failed statuses pids ≡ false))
  unfolding any_failed
  any_failed-cons pid pids = elim (Bool-cases (is_failure (statuses pid))) [
    | inl e ↦ rw e (
      λ h. absurd (ground (arith, h)),
      λ (s, h). absurd (ground (arith, e, (exited_well (statuses pid)).1 s)),
    )
    | inr e ↦ rw e (λ h. ((exited_well (statuses pid)).0 e, h), λ (s, h). h)
  ]

  -- The loop ends well if and only if every fork succeeds and every process exits with 0.
  abbrev Agrees : ℕ → ℕ → Type 0
  Agrees left i =
      Clean (spawn_components forks i left)
      ↔ ((j : ℕ) → i ≤ j → j < i + left → EndsWell forks statuses j)

  spawned_clean : (left i : ℕ) → Agrees left i
  unfolding spawn_components any_failed
  spawned_clean zero i = (λ _ j lo hi. absurd (omega (arith, lo, hi)), λ _. (refl, refl))
  spawned_clean (suc left) i = go (forks i) refl (spawned_clean left (suc i))
    where
      go : (o : Option ℕ) → forks i ≡ o → Agrees left (suc i) → Agrees (suc left) i
      go none e later =
          rw (e, spawn_components)
            (
              λ h. ground (arith, h.0),
              λ h.
                  let (pid, made, _) = h i (omega arith) (omega arith) in
                  ground (arith, sym e ∙ made),
            )
      go (some pid) e (to, from) =
          let (split, join) = any_failed-cons pid (spawn_components forks (suc i) left).0 in
          rw (e, spawn_components)
            (
              λ (spawned, ended) j lo hi. elim (Bool-cases (j == i)) [
                | inl here ↦
                    let same : j ≡ i = ground (arith, here) in
                    (pid, ap forks same ∙ e, (split ended).0)
                | inr there ↦
                    to (spawned, (split ended).1) j (ground (arith, there, lo)) (omega (arith, hi))
              ],
              λ h.
                  let (made, is_made, well) = h i (omega arith) (omega arith) in
                  let (spawned, ended) =
                    from (λ j lo hi. h j (omega (arith, lo)) (omega (arith, hi))) in
                  (spawned, join (ap statuses (some_inj pid made (sym e ∙ is_made)) ∙ well, ended)),
            )

-- What `create` answers to the gateway's process.
abbrev pub context_of : Vehicle → Calls → Context × Kernel
context_of v calls =
    create_context (some (at_index (component_ports v))) (length v.components) calls

run_with_context-code :
    (v : Vehicle) (forks : ℕ → Option ℕ) (statuses : ℕ → Status) (g : Gateway) (context : Context)
    (k : Kernel)
    → ((run_with_context v forks statuses g context k).code ≡ 0)
      ↔ Clean forks statuses (spawn_components forks 0 (length v.components))
unfolding run_with_context
run_with_context-code v forks statuses g context k =
    let r = spawn_components forks 0 (length v.components) in
    elim (Bool-cases r.1) [
      | inl e ↦ rw e (λ h. ground (arith, h), λ h. ground (arith, h.0))
      | inr e ↦ elim (Bool-cases (any_failed statuses r.0)) [
        | inl f ↦ rw (e, f) (λ h. ground (arith, h), λ h. ground (arith, h.1))
        | inr f ↦ rw (e, f) (λ _. (refl, refl), λ _. refl)
      ]
    ]

run_gateway_process-code :
    (v : Vehicle) (calls : Calls) (forks : ℕ → Option ℕ) (statuses : ℕ → Status)
    → ((run_gateway_process v calls forks statuses).code ≡ 0) ↔ (
        (is_missing (context_of v calls).0 ≡ false)
        × Clean forks statuses (spawn_components forks 0 (length v.components)))
unfolding run_gateway_process run_with_context
run_gateway_process-code v calls forks statuses =
    let (context, k) = context_of v calls in
    let g = set_context context (set_master v.is_master gateway) in
    let (to, from) = run_with_context-code v forks statuses g context k in
    elim (Bool-cases (is_missing context)) [
      | inl e ↦ rw e (λ h. ground (arith, h), λ h. ground (arith, h.0))
      | inr e ↦ rw e (λ h. (refl, to h), λ (_, h). from h)
    ]

run-code : (pid code : ℕ) → (run (some pid) (exited code) ≡ 0) ↔ (code ≡ 0)
unfolding run
run-code pid code = (λ h. ground (arith, h), λ h. ground (arith, h))

-- The vehicle ends with 0 if and only if its shared memory could be created, every fork of a
-- component succeeded, and every component ended by exiting with 0.
pub run_succeeds :
    (v : Vehicle) (calls : Calls) (forks : ℕ → Option ℕ) (statuses : ℕ → Status) (pid : ℕ)
    → (run (some pid) (exited (run_gateway_process v calls forks statuses).code) ≡ 0) ↔ (
        (is_missing (context_of v calls).0 ≡ false)
        × ((i : ℕ) → i < length v.components → EndsWell forks statuses i))
run_succeeds v calls forks statuses pid =
    let (made, make) = run_gateway_process-code v calls forks statuses in
    let (each, all) = spawned_clean forks statuses (length v.components) 0 in
    let (zero_of, of_zero) = run-code pid (run_gateway_process v calls forks statuses).code in
    (
      λ h.
          let (there, clean) = made (zero_of h) in
          (there, λ i below. each clean i (omega arith) (omega (arith, below))),
      λ (there, well). of_zero (make (there, all (λ j _ below. well j (omega (arith, below))))),
    )
