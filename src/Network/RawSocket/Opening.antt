-- ===== src/Network/RawSocket/Opening.antt =====
-- The descriptors of the raw socket.
use communication_in_critica.Prelude.{
  eq_self, ℕ, ◌≡◌, refl, ap, ◌⊎◌, inl, inr, Bool, true, not, List, [], ◌∷◌, Option, none, some,
  ◌==◌, remove_if, Elem, Bool-cases, arith,
}
use communication_in_critica.Network.RawSocket.{raw_socket, init, is_open, send, close}

remove_if-fresh : (fd : ℕ) (fds : List ℕ) → (Elem fd fds → ⊥) → remove_if (λ f. f == fd) fds ≡ fds
remove_if-fresh fd [] fresh = refl
remove_if-fresh fd (f ∷ fds) fresh =
    let kept = remove_if-fresh fd fds (λ m. fresh (inr m)) in
    elim (Bool-cases (f == fd)) [
      | inl e ↦ absurd (fresh (inl (ground (arith, e))))
      | inr e ↦ rw e (ap (λ rest. f ∷ rest) kept)
    ]

-- Removing a descriptor that was not there before leaves the others.
closed-opened :
    (fd : ℕ) (fds : List ℕ) → (Elem fd fds → ⊥) → remove_if (λ f. f == fd) (fd ∷ fds) ≡ fds
closed-opened fd fds fresh = rw (eq_self fd) (remove_if-fresh fd fds fresh)

-- A socket is opened whole or not at all: it is open and has its descriptor, or no descriptor is left
-- and sending answers -1; and closing leaves the descriptors that were open before, whatever the
-- kernel answered.
pub open_or_none :
    (fds : List ℕ) (socket : Option ℕ) (index : ℕ) (binds : Bool) (sendto : Option ℕ)
    → ((fd : ℕ) → socket ≡ some fd → Elem fd fds → ⊥)
    → let s = init socket index binds (raw_socket fds) in
      (((is_open s ≡ true) × (fd : ℕ) × (s.sockfd ≡ some fd) × (s.open_fds ≡ fd ∷ fds))
        ⊎ ((s.sockfd ≡ none) × (s.open_fds ≡ fds) × (send s sendto ≡ none)))
      × ((close s).open_fds ≡ fds)
unfolding init send close
open_or_none fds none index binds sendto fresh = (inr (refl, refl, refl), refl)
open_or_none fds (some fd) index binds sendto fresh =
    let shut = closed-opened fd fds (fresh fd refl) in
    elim (Bool-cases (index == 0)) [
      | inl absent ↦ rw absent (inr (refl, shut, refl), shut)
      | inr there ↦ elim (Bool-cases binds) [
        | inl bound ↦ rw (there, bound) (inl (ap not there, fd, refl, refl), shut)
        | inr unbound ↦ rw (there, unbound) (inr (refl, shut, refl), shut)
      ]
    ]
