-- ===== src/SharedMemory/Created.antt =====
-- What a vehicle finds in the region that `SharedMemoryEngine::create` made for it.
use communication_in_critica.Prelude.{
  eq_true, eq_false, ℕ, zero, suc, ◌+◌, ◌<◌, ◌≡◌, refl, ◌⊎◌, inl, inr, Bool, true, false, ◌&&◌,
  ◌||◌, not, Option, none, some, ltb, leb, ◌==◌, Bool-cases, arith,
}
use communication_in_critica.SharedMemory.Region.{max_components}
use communication_in_critica.SharedMemory.Create.{
  Context, Calls, Kernel, nothing_left, no_context, is_some, register, fresh_region, create_objects,
  create,
}

-- Both objects are there, the segment with a fresh region for the ports.
abbrev pub IsCreated : (ℕ → ℕ) → ℕ → Context × Kernel → Type 0
IsCreated ports n out =
    (is_some out.0.shmid ≡ true)
    × (is_some out.0.semid ≡ true)
    × (out.1.segment ≡ some (fresh_region ports n))
    × (n < max_components)

create_objects-IsCreated :
    (ports : ℕ → ℕ) (n : ℕ) (shmid semid : Option ℕ) (shmat setall : Bool)
    → n < max_components
    → let out = create_objects ports n nothing_left shmid semid shmat setall in
      (out ≡ (no_context, nothing_left)) ⊎ IsCreated ports n out
unfolding create_objects
create_objects-IsCreated ports n none semid shmat setall h = inl refl
create_objects-IsCreated ports n (some a) none shmat setall h = inl refl
create_objects-IsCreated ports n (some a) (some b) false setall h = inl refl
create_objects-IsCreated ports n (some a) (some b) true false h = inl refl
create_objects-IsCreated ports n (some a) (some b) true true h = inr (refl, refl, refl, h)

pub create-IsCreated :
    (ports : ℕ → ℕ) (n : ℕ) (calls : Calls)
    → (create (some ports) n calls ≡ (no_context, nothing_left))
      ⊎ IsCreated ports n (create (some ports) n calls)
unfolding create
create-IsCreated ports n calls =
    elim (Bool-cases (leb max_components n || (ltb 0 n && not (is_some (some ports))))) [
      | inl e ↦ inl (rw e refl)
      | inr e ↦ rw e (create_objects-IsCreated ports n _ _ _ _ (ground (arith, e)))
    ]

-- A component's slot is the one after its index, with its port.
pub register-entry :
    (ports : ℕ → ℕ) (n i : ℕ)
    → i < n
    → register ports n (i + 1) ≡ record { port = ports i; slot = i + 1; active = 0; read_seq = 0 }
unfolding register
register-entry ports zero i h = absurd (omega (arith, h))
register-entry ports (suc n) i h = elim (Bool-cases (n == i)) [
  | inl e ↦
      let same : n ≡ i = ground (arith, e) in
      let slot : suc n ≡ i + 1 = omega (arith, same) in
      rw (eq_true (suc n) (i + 1) slot)
        (λ t. record { port = ports (same t); slot = slot t; active = 0; read_seq = 0 })
  | inr e ↦
      rw (eq_false (suc n) (i + 1) (λ q. ground (arith, e, q)))
        (register-entry ports n i (ground (arith, e, h)))
]
