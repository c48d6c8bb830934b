-- ===== src/Prelude/Signed.antt =====
-- The signed integers over the native numbers, for `int64_t` values that do not overflow.
use Prim.Native.Nat.{ℕ, ◌+◌, ◌-◌, ◌/◌, ◌^◌}
use mathlib.Core.Bool.{Bool, false}
use communication_in_critica.Prelude.Tests.{if◌then◌else◌, ltb, leb, ◌==◌}

-- `negsuc n` is `-(n + 1)`.
pub data ℤ : Type 0 where
  pos : (n : ℕ) → ℤ
  negsuc : (n : ℕ) → ℤ

-- `a - b`
abbrev pub diff : ℕ → ℕ → ℤ
diff a b = if leb b a then pos (a - b) else negsuc (b - a - 1)

abbrev pub neg : ℤ → ℤ
neg (pos n) = diff 0 n
neg (negsuc n) = pos (n + 1)

infixl 60 ◌+ℤ◌ ◌-ℤ◌
abbrev pub ◌+ℤ◌ : ℤ → ℤ → ℤ
pos a +ℤ pos b = pos (a + b)
pos a +ℤ negsuc b = diff a (b + 1)
negsuc a +ℤ pos b = diff b (a + 1)
negsuc a +ℤ negsuc b = negsuc (a + b + 1)

abbrev pub ◌-ℤ◌ : ℤ → ℤ → ℤ
pos a -ℤ pos b = diff a b
pos a -ℤ negsuc b = pos (a + b + 1)
negsuc a -ℤ pos b = negsuc (a + b)
negsuc a -ℤ negsuc b = diff b a

-- `x / 2`, towards zero
abbrev pub half : ℤ → ℤ
half (pos n) = pos (n / 2)
half (negsuc n) = neg (pos ((n + 1) / 2))

-- `llabs(x)`
abbrev pub abs : ℤ → ℕ
abs (pos n) = n
abs (negsuc n) = n + 1

-- the value as bits, read as an `int64_t`
abbrev pub int64_of : ℕ → ℤ
int64_of n = if ltb n (2 ^ 63) then pos n else negsuc (2 ^ 64 - n - 1)

abbrev pub is_zero : ℤ → Bool
is_zero (pos n) = n == 0
is_zero (negsuc n) = false
