-- ===== src/Prelude/Bytes.antt =====
-- Integers as bytes, the least first, as on the machines that the program runs on.
use native.Mathlib.Nat.{pow-suc}
use Prim.Native.Nat.{ℕ, zero, suc, ◌+◌, ◌*◌, ◌/◌, ◌%◌, ◌^◌, ◌<◌}
use mathlib.Core.Path.{◌≡◌, refl, ap}
use mathlib.Core.List.{List, [], ◌∷◌, ◌++◌}
use native.Mathlib.Omega.{arith}
use communication_in_critica.Prelude.Lists.{length, drop}

-- the `n` bytes of an integer
unfoldable pub to_bytes : ℕ → ℕ → List ℕ
to_bytes zero x = []
to_bytes (suc n) x = (x % 256) ∷ to_bytes n (x / 256)

-- the integer in the first `n` bytes
unfoldable pub from_bytes : ℕ → List ℕ → ℕ
from_bytes zero xs = 0
from_bytes (suc n) [] = 0
from_bytes (suc n) (x ∷ xs) = x + 256 * from_bytes n xs

pub length-to_bytes : (n x : ℕ) → length (to_bytes n x) ≡ n
unfolding to_bytes
length-to_bytes zero x = refl
length-to_bytes (suc n) x = ap suc (length-to_bytes n (x / 256))

pub from_bytes-to_bytes :
    (n x : ℕ) (rest : List ℕ) → x < 256 ^ n → from_bytes n (to_bytes n x ++ rest) ≡ x
unfolding from_bytes to_bytes
from_bytes-to_bytes zero x rest h = omega arith
from_bytes-to_bytes (suc n) x rest h =
    omega (arith, from_bytes-to_bytes n (x / 256) rest (omega (arith, pow-suc 256 n)))

pub drop-to_bytes : (n x : ℕ) (rest : List ℕ) → drop n (to_bytes n x ++ rest) ≡ rest
unfolding to_bytes
drop-to_bytes zero x rest = refl
drop-to_bytes (suc n) x rest = drop-to_bytes n (x / 256) rest
