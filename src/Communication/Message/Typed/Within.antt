-- ===== src/Communication/Message/Typed/Within.antt =====
-- When a message stays within the memory of its payload.
use communication_in_critica.Prelude.{
  ℕ, zero, suc, ◌+◌, ◌-◌, ◌≤◌, ◌<◌, ◌≡◌, ◌↔◌, refl, sym, ap, ◌∙◌, List, true, some, if◌then◌else◌,
  ltb, leb, length, length-append, take, drop, length-take, length-drop, take-append-before,
  take-all, lt→ltb, arith,
}
use communication_in_critica.Network.Nic.{overlay}
use communication_in_critica.Communication.Message.{max_size}
use communication_in_critica.Communication.Message.Typed.{MessageHeader, cleared, typed_from_memory}

length-cleared : (n : ℕ) → length (cleared n) ≡ n
unfolding cleared
length-cleared zero = refl
length-cleared (suc n) = ap suc (length-cleared n)

-- what is copied
abbrev pub clip : ℕ → ℕ
clip size = if leb size max_size then size else max_size

-- A message is made from `size` bytes in memory, and its payload has room for `capacity`. It takes at
-- most 1400 of them, and these are the first of its payload; the size in its header is their number,
-- and is within the payload exactly if the copy has stayed within its memory.
pub within_memory :
    (capacity size : ℕ) (held : MessageHeader) (bytes : List ℕ)
    → 0 < size
    → size ≤ length bytes
    → let m = typed_from_memory capacity held (some bytes) size in
      (m.header.size ≡ clip size)
      × (take m.header.size m.payload ≡ take (clip size) bytes)
      × ((m.header.size ≤ capacity) ↔ (length m.payload ≡ capacity))
unfolding typed_from_memory
within_memory capacity size held bytes some_bytes whole =
    let n = clip size in
    let short : n ≤ length bytes = ground (arith, whole) in
    let taken = length-take n bytes short in
    let rest = drop (0 + length (take n bytes)) (cleared capacity) in
    let positive : ltb 0 size ≡ true = lt→ltb 0 size some_bytes in
    let grown : length (overlay 0 (take n bytes) (cleared capacity)) ≡ n + (capacity - n) = omega (
      arith,
      length-append (take n bytes) rest,
      taken,
      length-drop (0 + length (take n bytes)) (cleared capacity),
      length-cleared capacity,
    ) in
    rw positive (
      refl,
      take-append-before n (take n bytes) rest (omega (arith, taken))
          ∙ ap (λ k. take k (take n bytes)) (sym taken)
          ∙ take-all (take n bytes),
      (λ h. omega (arith, h, grown), λ h. omega (arith, h, grown)),
    )
