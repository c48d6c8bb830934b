-- ===== src/Application/Reaping.antt =====
-- What the processes of a vehicle leave behind.
use communication_in_critica.Prelude.{
  ℕ, ◌≡◌, refl, sym, ap, ◌∙◌, inl, inr, true, false, List, [], ◌∷◌, ◌++◌, Option, none, some, map,
  length, Bool-cases, arith,
}
use communication_in_critica.SharedMemory.Create.{
  Context, Calls, Kernel, destroy, nothing_left, is_some,
}
use communication_in_critica.SharedMemory.Created.{create-IsCreated}
use communication_in_critica.Application.Vehicle.{
  Vehicle, at_index, component_ports, Gateway, gateway, set_master, set_context, is_missing,
}
use communication_in_critica.Application.Processes.{
  Status, Action, forked, terminated, awaited, gateway_ran, gateway_stopped, destroyed,
  spawn_components, run_with_context, run_gateway_process,
}
use communication_in_critica.Application.Launch.{context_of}

-- the processes made and the processes waited for, in order
abbrev pub forked_of : List Action → List ℕ
forked_of [] = []
forked_of (forked pid ∷ log) = pid ∷ forked_of log
forked_of (_ ∷ log) = forked_of log

abbrev pub awaited_of : List Action → List ℕ
awaited_of [] = []
awaited_of (awaited pid ∷ log) = pid ∷ awaited_of log
awaited_of (_ ∷ log) = awaited_of log

forked_of-forked :
    (pids : List ℕ) (rest : List Action)
    → (forked_of (map forked pids ++ rest) ≡ pids ++ forked_of rest)
      × (awaited_of (map forked pids ++ rest) ≡ awaited_of rest)
forked_of-forked [] rest = (refl, refl)
forked_of-forked (p ∷ pids) rest =
    let (f, a) = forked_of-forked pids rest in (ap (λ ps. p ∷ ps) f, a)

forked_of-terminated :
    (pids : List ℕ) (rest : List Action)
    → (forked_of (map terminated pids ++ rest) ≡ forked_of rest)
      × (awaited_of (map terminated pids ++ rest) ≡ awaited_of rest)
forked_of-terminated [] rest = (refl, refl)
forked_of-terminated (p ∷ pids) rest = forked_of-terminated pids rest

forked_of-awaited :
    (pids : List ℕ) (rest : List Action)
    → (forked_of (map awaited pids ++ rest) ≡ forked_of rest)
      × (awaited_of (map awaited pids ++ rest) ≡ pids ++ awaited_of rest)
forked_of-awaited [] rest = (refl, refl)
forked_of-awaited (p ∷ pids) rest =
    let (f, a) = forked_of-awaited pids rest in (f, ap (λ ps. p ∷ ps) a)

-- The log of a vehicle whose processes all started, and of one where a fork failed.
balanced-started :
    (pids : List ℕ)
    → let log =
        map forked pids ++ gateway_ran ∷ (map awaited pids ++ gateway_stopped ∷ destroyed ∷ []) in
      awaited_of log ≡ forked_of log
balanced-started pids =
    let rest = map awaited pids ++ gateway_stopped ∷ destroyed ∷ [] in
    let (f, a) = forked_of-forked pids (gateway_ran ∷ rest) in
    let (g, b) = forked_of-awaited pids (gateway_stopped ∷ destroyed ∷ []) in
    a ∙ b ∙ sym (f ∙ ap (λ ps. pids ++ ps) g)

balanced-failed :
    (pids : List ℕ)
    → let log = map forked pids ++ (map terminated pids ++ (map awaited pids ++ destroyed ∷ [])) in
      awaited_of log ≡ forked_of log
balanced-failed pids =
    let rest = map awaited pids ++ destroyed ∷ [] in
    let (f, a) = forked_of-forked pids (map terminated pids ++ rest) in
    let (g, b) = forked_of-terminated pids rest in
    let (h, c) = forked_of-awaited pids (destroyed ∷ []) in
    a ∙ b ∙ c ∙ sym (f ∙ ap (λ ps. pids ++ ps) (g ∙ h))

run_with_context-reaped :
    (v : Vehicle) (forks : ℕ → Option ℕ) (statuses : ℕ → Status) (g : Gateway) (context : Context)
    (k : Kernel)
    → let out = run_with_context v forks statuses g context k in
      (awaited_of out.log ≡ forked_of out.log) × (out.kernel ≡ destroy context k)
unfolding run_with_context
run_with_context-reaped v forks statuses g context k =
    let (pids, failed) = spawn_components forks 0 (length v.components) in
    elim (Bool-cases failed) [
      | inl e ↦ rw e (balanced-failed pids, refl)
      | inr e ↦ rw e (balanced-started pids, refl)
    ]

-- What `create` left is removed by `destroy`, if there is a whole context.
destroy-created :
    (context : Context) (k : Kernel)
    → is_some context.shmid ≡ true
    → is_some context.semid ≡ true
    → destroy context k ≡ nothing_left
unfolding destroy
destroy-created context k shm sem = go context.shmid context.semid refl refl shm sem
  where
    go :
        (a b : Option ℕ)
        → context.shmid ≡ a
        → context.semid ≡ b
        → is_some a ≡ true
        → is_some b ≡ true
        → destroy context k ≡ nothing_left
    go none b e f s t = ground (arith, s)
    go (some a) none e f s t = ground (arith, t)
    go (some a) (some b) e f s t = rw (e, f, destroy) refl

not_missing : (c : Context) → is_some c.shmid ≡ true → is_some c.semid ≡ true → is_missing c ≡ false
not_missing c s t = ground (arith, s, t)

-- Whatever the kernel answers to the calls, every process that was made for a component is waited
-- for, once and in the same order, and nothing is left of the shared memory and its semaphores.
pub nothing_left_behind :
    (v : Vehicle) (calls : Calls) (forks : ℕ → Option ℕ) (statuses : ℕ → Status)
    → let out = run_gateway_process v calls forks statuses in
      (awaited_of out.log ≡ forked_of out.log) × (out.kernel ≡ nothing_left)
unfolding run_gateway_process run_with_context
nothing_left_behind v calls forks statuses =
    let (context, k) = context_of v calls in
    let g = set_context context (set_master v.is_master gateway) in
    let (reaped, left) = run_with_context-reaped v forks statuses g context k in
    elim (create-IsCreated (at_index (component_ports v)) (length v.components) calls) [
      | inl failed ↦ rw failed (refl, refl)
      | inr (shm, sem, _, _) ↦
          rw (not_missing context shm sem) (reaped, left ∙ destroy-created context k shm sem)
    ]
