-- ===== src/Prelude/Chunks.antt =====
-- Taking and dropping native numbers of entries of lists that were put together.
use Prim.Native.Nat.{ℕ, zero, suc, ◌+◌, ◌-◌, ◌*◌, ◌≤◌}
use mathlib.Core.Path.{◌≡◌, refl, sym, ap, ◌∙◌}
use mathlib.Core.List.{List, [], ◌∷◌, ◌++◌}
use native.Mathlib.Omega.{arith}
use communication_in_critica.Prelude.Lists.{length, take, drop}
use communication_in_critica.Prelude.Bytes.{from_bytes}

suc_add : (m n : ℕ) → suc (m + n) ≡ suc m + n
suc_add m n = omega arith

module _ {ℓ} {A : Type ℓ} where
  -- `n` entries from the `i`-th on
  abbrev pub chunk : ℕ → ℕ → List A → List A
  chunk i n xs = take n (drop i xs)

  pub length-take : (n : ℕ) (xs : List A) → n ≤ length xs → length (take n xs) ≡ n
  length-take zero xs h = refl
  length-take (suc n) [] h = absurd (omega (arith, h))
  length-take (suc n) (x ∷ xs) h = ap suc (length-take n xs (omega (arith, h)))

  pub length-drop : (n : ℕ) (xs : List A) → length (drop n xs) ≡ length xs - n
  length-drop zero xs = omega arith
  length-drop (suc n) [] = omega arith
  length-drop (suc n) (x ∷ xs) = omega (arith, length-drop n xs)

  pub take-append-before : (n : ℕ) (xs ys : List A) → n ≤ length xs → take n (xs ++ ys) ≡ take n xs
  take-append-before zero xs ys h = refl
  take-append-before (suc n) [] ys h = absurd (omega (arith, h))
  take-append-before (suc n) (x ∷ xs) ys h =
      ap (λ zs. x ∷ zs) (take-append-before n xs ys (omega (arith, h)))

  pub take-all : (xs : List A) → take (length xs) xs ≡ xs
  take-all [] = refl
  take-all (x ∷ xs) = ap (λ zs. x ∷ zs) (take-all xs)

  pub take_long : (n : ℕ) (xs : List A) → length xs ≤ n → take n xs ≡ xs
  take_long zero [] h = refl
  take_long zero (x ∷ xs) h = absurd (omega (arith, h))
  take_long (suc n) [] h = refl
  take_long (suc n) (x ∷ xs) h = ap (λ zs. x ∷ zs) (take_long n xs (omega (arith, h)))

  pub drop-append-before :
      (n : ℕ) (xs ys : List A) → n ≤ length xs → drop n (xs ++ ys) ≡ drop n xs ++ ys
  drop-append-before zero xs ys h = refl
  drop-append-before (suc n) [] ys h = absurd (omega (arith, h))
  drop-append-before (suc n) (x ∷ xs) ys h = drop-append-before n xs ys (omega (arith, h))

  -- Past the first list, what is dropped is dropped from the second.
  pub drop-append-after :
      (n : ℕ) (xs ys : List A) → length xs ≤ n → drop n (xs ++ ys) ≡ drop (n - length xs) ys
  drop-append-after n [] ys h = ap (λ m. drop m ys) (omega arith)
  drop-append-after zero (x ∷ xs) ys h = absurd (omega (arith, h))
  drop-append-after (suc n) (x ∷ xs) ys h =
      drop-append-after n xs ys (omega (arith, h)) ∙ ap (λ m. drop m ys) (omega arith)

  drop-nil : (n : ℕ) → drop {A = A} n [] ≡ []
  drop-nil zero = refl
  drop-nil (suc n) = refl

  take-nil : (n : ℕ) → take {A = A} n [] ≡ []
  take-nil zero = refl
  take-nil (suc n) = refl

  pub drop-drop : (n m : ℕ) (xs : List A) → drop n (drop m xs) ≡ drop (m + n) xs
  drop-drop n zero xs = ap (λ k. drop k xs) (omega arith)
  drop-drop n (suc m) [] = drop-nil n ∙ sym (drop-nil (suc m + n))
  drop-drop n (suc m) (x ∷ xs) = drop-drop n m xs ∙ ap (λ k. drop k (x ∷ xs)) (suc_add m n)

  pub take-take : (n m : ℕ) (xs : List A) → n ≤ m → take n (take m xs) ≡ take n xs
  take-take zero m xs h = refl
  take-take (suc n) zero xs h = absurd (omega (arith, h))
  take-take (suc n) (suc m) [] h = refl
  take-take (suc n) (suc m) (x ∷ xs) h = ap (λ zs. x ∷ zs) (take-take n m xs (omega (arith, h)))

  pub drop-take : (n m : ℕ) (xs : List A) → n ≤ m → drop n (take m xs) ≡ take (m - n) (drop n xs)
  drop-take zero m xs h = ap (λ k. take k xs) (omega arith)
  drop-take (suc n) zero xs h = absurd (omega (arith, h))
  drop-take (suc n) (suc m) [] h = sym (take-nil (suc m - suc n))
  drop-take (suc n) (suc m) (x ∷ xs) h =
      drop-take n m xs (omega (arith, h)) ∙ ap (λ k. take k (drop n xs)) (omega arith)

pub from_bytes-take : (n m : ℕ) (xs : List ℕ) → n ≤ m → from_bytes n (take m xs) ≡ from_bytes n xs
unfolding from_bytes
from_bytes-take zero m xs h = refl
from_bytes-take (suc n) zero xs h = absurd (omega (arith, h))
from_bytes-take (suc n) (suc m) [] h = refl
from_bytes-take (suc n) (suc m) (x ∷ xs) h =
    ap (λ k. x + 256 * k) (from_bytes-take n m xs (omega (arith, h)))
