-- ===== src/Communication/Communicator/Ownership.antt =====
-- What becomes of the buffers and messages that a communicator is handed.
use communication_in_critica.Prelude.{
  ℕ, ◌≡◌, ◌≢◌, refl, ◌⊎◌, inl, inr, true, false, List, [], ◌∷◌, ◌++◌, Option, none, some,
  if◌then◌else◌, leb, length, Bool-cases, arith,
}
use communication_in_critica.Channel.Protocol.{notify, has_observer}
use communication_in_critica.Channel.Protocol.Endpoint.{
  Received, receive_packet, receive_packet-IsPool,
}
use communication_in_critica.Communication.Message.{max_size}
use communication_in_critica.Communication.Communicator.{
  Communicator, Updated, passed_on, unpacked, update,
}
use communication_in_critica.Network.Nic.{Nic}
use communication_in_critica.Network.Nic.Pool.{IsPool}

-- The buffer is kept in the queue, or given back and its message is deleted or with an observer.
abbrev pub Owned : Communicator → ℕ → ℕ → List ℕ → Updated → Type 0
Owned c condition idx held u =
    ((has_observer condition c.observers ≡ false)
      × (u.communicator.queue ≡ c.queue ++ idx ∷ [])
      × IsPool u.nic (idx ∷ held)
      × (u.notified ≡ [])
      × (u.deleted ≡ false))
    ⊎ ((has_observer condition c.observers ≡ true)
        × (u.communicator ≡ c)
        × IsPool u.nic held
        × (((u.notified ≡ []) × (u.deleted ≡ true)) ⊎ ((u.notified ≢ []) × (u.deleted ≡ false))))

-- A message that was unpacked is deleted if and only if nobody is given it.
passed_on-deleted :
    (c : Communicator) (condition : ℕ) (n : Nic) (r : Received)
    → let u = passed_on c condition n r in
      ((u.notified ≡ []) × (u.deleted ≡ true)) ⊎ ((u.notified ≢ []) × (u.deleted ≡ false))
unfolding passed_on
passed_on-deleted c condition n r =
    go (if leb (length r.payload) 0 then [] else notify condition c.observers)
  where
    go :
        (who : List ℕ)
        → ((who ≡ []) × ((elim who [ [] ↦ true | _ ∷ _ ↦ false ]) ≡ true))
          ⊎ ((who ≢ []) × ((elim who [ [] ↦ true | _ ∷ _ ↦ false ]) ≡ false))
    go [] = inl (refl, refl)
    go (o ∷ os) = inr (λ e. ground (arith, e), refl)

unpacked-deleted :
    (c : Communicator) (condition : ℕ) (held : List ℕ) (got : Nic × Option Received)
    → IsPool got.0 held
    → let u = unpacked c condition got in
      (u.communicator ≡ c)
      × IsPool u.nic held
      × (((u.notified ≡ []) × (u.deleted ≡ true)) ⊎ ((u.notified ≢ []) × (u.deleted ≡ false)))
unfolding unpacked passed_on
unpacked-deleted c condition held (n, none) pool = (refl, pool, inl (refl, refl))
unpacked-deleted c condition held (n, some r) pool = (refl, pool, passed_on-deleted c condition n r)

-- Whatever the buffer and the observers, either nobody observes the condition and the buffer is kept
-- at the end of the queue, or the buffer is given back and its message is deleted, and then nobody
-- has it, or not deleted, and then an observer has it.
pub update-Owned :
    (data_offset : ℕ) (c : Communicator) (condition : ℕ) (n : Nic) (idx : ℕ) (held : List ℕ)
    → IsPool n (idx ∷ held)
    → Owned c condition idx held (update data_offset c condition n idx)
unfolding update
update-Owned data_offset c condition n idx held pool =
    elim (Bool-cases (has_observer condition c.observers)) [
      | inl e ↦
          let (same, given_back, done) =
            unpacked-deleted c condition held (receive_packet data_offset n idx max_size)
              (receive_packet-IsPool data_offset n idx max_size held pool) in
          rw e (inr (refl, same, given_back, done))
      | inr e ↦ rw e (inl (refl, refl, pool, refl, refl))
    ]
