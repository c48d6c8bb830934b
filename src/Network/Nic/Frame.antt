-- ===== src/Network/Nic/Frame.antt =====
-- What is read of a frame that was written to in parts.
use communication_in_critica.Prelude.{
  ℕ, ◌+◌, ◌-◌, ◌≤◌, ◌≡◌, ap, ◌∙◌, List, ◌++◌, length, length-append, take, drop, chunk, length-take,
  length-drop, take-append-before, drop-append-before, drop-append-after, drop-drop, from_bytes,
  from_bytes-take, sym, take-take, drop-take, arith,
}
use communication_in_critica.Network.Nic.{overlay}

module _ (k : ℕ) (bytes old : List ℕ) where
  -- A write within the frame leaves its length.
  pub length-overlay : k + length bytes ≤ length old → length (overlay k bytes old) ≡ length old
  length-overlay h = omega (
    arith,
    length-append (take k old) (bytes ++ drop (k + length bytes) old),
    length-append bytes (drop (k + length bytes) old),
    length-take k old (omega (arith, h)),
    length-drop (k + length bytes) old,
  )

  from_there :
      (i : ℕ)
      → k ≤ length old
      → drop (k + i) (overlay k bytes old) ≡ drop i (bytes ++ drop (k + length bytes) old)
  from_there i h =
      let l = length-take k old h in
      drop-append-after (k + i) (take k old) (bytes ++ drop (k + length bytes) old)
        (omega (arith, l))
      ∙ ap (λ m. drop m (bytes ++ drop (k + length bytes) old)) (omega (arith, l))

  -- A part of what was written is read back.
  pub chunk-overlay :
      (i n : ℕ)
      → k ≤ length old
      → i + n ≤ length bytes
      → chunk (k + i) n (overlay k bytes old) ≡ chunk i n bytes
  chunk-overlay i n h within =
      ap (take n) (
        from_there i h
        ∙ drop-append-before i bytes (drop (k + length bytes) old) (omega (arith, within)))
      ∙ take-append-before n (drop i bytes) (drop (k + length bytes) old)
          (omega (arith, length-drop i bytes, within))

  -- A part before or after the write is as it was.
  pub chunk-overlay_before :
      (i n : ℕ) → k ≤ length old → i + n ≤ k → chunk i n (overlay k bytes old) ≡ chunk i n old
  chunk-overlay_before i n h before =
      let l = length-take k old h in
      let rest = bytes ++ drop (k + length bytes) old in
      ap (take n) (drop-append-before i (take k old) rest (omega (arith, l, before)))
      ∙ take-append-before n (drop i (take k old)) rest
          (omega (arith, length-drop i (take k old), l, before))
      ∙ ap (take n) (drop-take i k old (omega (arith, before)))
      ∙ take-take n (k - i) (drop i old) (omega (arith, before))

  pub chunk-overlay_after :
      (i n : ℕ)
      → k ≤ length old
      → k + length bytes ≤ i
      → chunk i n (overlay k bytes old) ≡ chunk i n old
  chunk-overlay_after i n h after =
      ap (λ m. chunk m n (overlay k bytes old)) (omega (arith, after))
      ∙ ap (take n) (
          from_there (i - k) h
          ∙ drop-append-after (i - k) bytes (drop (k + length bytes) old) (omega (arith, after))
          ∙ drop-drop (i - k - length bytes) (k + length bytes) old
          ∙ ap (λ m. drop m old) (omega (arith, after)))

-- A part of the frame that is sent is that part of the buffer.
pub chunk-take : (i n m : ℕ) (xs : List ℕ) → i + n ≤ m → chunk i n (take m xs) ≡ chunk i n xs
chunk-take i n m xs h =
    ap (take n) (drop-take i m xs (omega (arith, h)))
    ∙ take-take n (m - i) (drop i xs) (omega (arith, h))

-- A number or a byte that stands within a part.
pub from_bytes-chunk :
    (i m j n : ℕ) (xs : List ℕ)
    → j + n ≤ m
    → from_bytes n (drop j (drop i xs)) ≡ from_bytes n (drop j (chunk i m xs))
from_bytes-chunk i m j n xs h = sym (
    ap (from_bytes n) (drop-take j m (drop i xs) (omega (arith, h)))
    ∙ from_bytes-take n (m - j) (drop j (drop i xs)) (omega (arith, h)))
