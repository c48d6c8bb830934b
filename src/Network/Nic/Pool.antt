-- ===== src/Network/Nic/Pool.antt =====
-- The pool of a NIC: each of its buffers is free or held by somebody, once.
use communication_in_critica.Prelude.{
  ℕ, ◌+◌, ◌≡◌, ◌⊎◌, inl, inr, refl, ap, Bool, ◌||◌, List, [], ◌∷◌, Option, none, some,
  if◌then◌else◌, ltb, ◌==◌, arith, Bool-cases, length, take,
}
use communication_in_critica.Ethernet.{Mac, header_size, mtu}
use communication_in_critica.Network.Nic.{
  Nic, buffer_size, alloc_buf, alloc, prepared, free, send, arrived, receive, overlay, frame_bytes,
}

-- how often a buffer is in a list
abbrev pub count : ℕ → List ℕ → ℕ
count i [] = 0
count i (x ∷ xs) = (if x == i then 1 else 0) + count i xs

-- The buffers that are in use are those of `held`.
abbrev pub IsPool : Nic → List ℕ → Type 0
IsPool n held = (i : ℕ) → count i n.free_list + count i held ≡ (if ltb i buffer_size then 1 else 0)

-- Freeing a held buffer, and taking the first free one.
pub free-IsPool :
    (n : Nic) (idx : ℕ) (held : List ℕ) → IsPool n (idx ∷ held) → IsPool (free idx n) held
free-IsPool n idx held p i = omega (arith, p i)

pub alloc_buf-IsPool :
    (n : Nic) (held : List ℕ)
    → IsPool n held
    → (alloc_buf n ≡ none)
      ⊎ ((idx : ℕ) × (m : Nic) × (alloc_buf n ≡ some (idx, m)) × IsPool m (idx ∷ held))
unfolding alloc_buf
alloc_buf-IsPool n held p = go n.free_list refl
  where
    go :
        (xs : List ℕ)
        → n.free_list ≡ xs
        → (alloc_buf n ≡ none)
          ⊎ ((idx : ℕ) × (m : Nic) × (alloc_buf n ≡ some (idx, m)) × IsPool m (idx ∷ held))
    go [] e = inl (rw (e, alloc_buf) refl)
    go (idx ∷ rest) e = inr (
      idx,
      record n { free_list = rest },
      rw (e, alloc_buf) refl,
      λ i. omega (arith, p i, ap (count i) e),
    )

-- A buffer that is allocated is held; nothing else changes hands.
pub alloc-IsPool :
    (n : Nic) (dst : Mac) (prot size : ℕ) (held : List ℕ)
    → IsPool n held
    → (alloc n dst prot size ≡ none)
      ⊎ ((idx : ℕ) × (m : Nic) × (alloc n dst prot size ≡ some (idx, m)) × IsPool m (idx ∷ held))
unfolding alloc
alloc-IsPool n dst prot size held p = elim (Bool-cases (ltb mtu size)) [
  | inl e ↦ inl (rw e refl)
  | inr e ↦ elim (alloc_buf-IsPool n held p) [
    | inl nothing ↦ inl (rw (e, nothing) refl)
    | inr (idx, m, got, q) ↦ inr (idx, (prepared dst prot size (idx, m)).1, rw (e, got) refl, q)
  ]
]

-- Sending frees the buffer, whether or not the engine sent it.
pub send-IsPool :
    (n : Nic) (idx q : ℕ) (bytes : Option ℕ) (held : List ℕ)
    → IsPool n (idx ∷ held)
    → IsPool (send n idx q bytes).nic held
unfolding send
send-IsPool n idx q bytes held p i = omega (arith, p i)

-- What comes of a frame: nothing, and the pool as it was, or one more buffer is held.
abbrev Received : Nic × Option ℕ → List ℕ → Type 0
Received r held =
    ((r.1 ≡ none) × IsPool r.0 held) ⊎ ((idx : ℕ) × (r.1 ≡ some idx) × IsPool r.0 (idx ∷ held))

arrived-IsPool :
    (n : Nic) (idx : ℕ) (bytes : List ℕ) (drops : List ℕ → Bool) (held : List ℕ)
    → IsPool n (idx ∷ held)
    → Received (arrived n idx bytes drops) held
unfolding arrived
arrived-IsPool n idx bytes drops held p =
    let size = if ltb frame_bytes (length bytes) then frame_bytes else length bytes in
    let filled = overlay 0 (take size bytes) (n.buffers idx).frame in
    elim (Bool-cases (ltb size header_size || drops filled)) [
      | inl e ↦ rw e (inl (refl, λ i. omega (arith, p i)))
      | inr e ↦ rw e (inr (idx, refl, p))
    ]

-- What arrives is dropped and its buffer free again, or one more buffer is held, the observers'.
pub receive-IsPool :
    (n : Nic) (bytes : List ℕ) (drops : List ℕ → Bool) (held : List ℕ)
    → IsPool n held
    → (((receive n bytes drops).1 ≡ none) × IsPool (receive n bytes drops).0 held)
      ⊎ ((idx : ℕ) × ((receive n bytes drops).1 ≡ some idx)
          × IsPool (receive n bytes drops).0 (idx ∷ held))
unfolding receive
receive-IsPool n bytes drops held p = elim (alloc_buf-IsPool n held p) [
  | inl nothing ↦ rw (nothing, receive) (inl (refl, p))
  | inr (idx, m, got, q) ↦ rw (got, receive) (arrived-IsPool m idx bytes drops held q)
]
