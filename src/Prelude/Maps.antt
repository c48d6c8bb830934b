-- ===== src/Prelude/Maps.antt =====
-- `std::map` with integer keys, as the list that an iteration sees: its entries in the order of the
-- keys. Assignment, lookup and erasure, and how they see each other.
use Prim.Native.Nat.{ℕ, ◌<◌}
use mathlib.Core.Path.{◌≡◌, refl, subst}
use mathlib.Core.Logic.{◌↔◌, inl, inr}
use mathlib.Core.Option.{Option, none, some}
use mathlib.Core.List.{List, [], ◌∷◌}
use native.Mathlib.Omega.{arith}
use communication_in_critica.Prelude.Tests.{if◌then◌else◌, ltb, ◌==◌, Bool-cases, ==_iff}
use communication_in_critica.Prelude.Lists.{remove_if, All, All-remove_if, Elem, All-Elem}

abbrev pub Map : Type 0
Map = List (ℕ × ℕ)

unfoldable pub lookup : ℕ → Map → Option ℕ
lookup k [] = none
lookup k ((i, v) ∷ m) = if i == k then some v else lookup k m

-- `m[k] = v`
unfoldable pub assign : ℕ → ℕ → Map → Map
assign k v [] = (k, v) ∷ []
assign k v ((i, w) ∷ m) =
    let rest = assign k v m in
    if i == k then (k, v) ∷ m else (if ltb k i then (k, v) ∷ (i, w) ∷ m else (i, w) ∷ rest)

unfoldable pub erase : ℕ → Map → Map
erase k m = remove_if (λ e. e.0 == k) m

pub lookup-assign :
    (k v l : ℕ) (m : Map) → lookup l (assign k v m) ≡ (if k == l then some v else lookup l m)
unfolding lookup assign
lookup-assign k v l [] = refl
lookup-assign k v l ((i, w) ∷ m) = ground (arith, lookup-assign k v l m)

pub lookup-erase :
    (k l : ℕ) (m : Map) → lookup l (erase k m) ≡ (if k == l then none else lookup l m)
unfolding lookup erase
lookup-erase k l [] = ground arith
lookup-erase k l ((i, w) ∷ m) = elim (Bool-cases (i == k)) [
  | inl e ↦ rw e (ground (arith, lookup-erase k l m))
  | inr e ↦ rw e (ground (arith, lookup-erase k l m))
]

-- The keys are in order, each once.
abbrev pub IsSorted : Map → Type 0
IsSorted [] = Unit
IsSorted ((i, v) ∷ m) = All (λ e. i < e.0) m × IsSorted m

after : (i j : ℕ) (m : Map) → i < j → All (λ e. j < e.0) m → All (λ e. i < e.0) m
after i j [] h a = tt
after i j ((k, v) ∷ m) h a = (omega (arith, a.0), after i j m h a.1)

after-assign :
    (i k v : ℕ) (m : Map) → i < k → All (λ e. i < e.0) m → All (λ e. i < e.0) (assign k v m)
unfolding assign
after-assign i k v [] h a = (h, tt)
after-assign i k v ((j, w) ∷ m) h a = ground (arith, after-assign i k v m h a.1)

pub assign-IsSorted : (k v : ℕ) (m : Map) → IsSorted m → IsSorted (assign k v m)
unfolding assign
assign-IsSorted k v [] s = (tt, tt)
assign-IsSorted k v ((i, w) ∷ m) s = elim (Bool-cases (i == k)) [
  | inl e ↦ rw e (subst (λ j. All (λ x. j < x.0) m) ((==_iff i k).0 e) s.0, s.1)
  | inr e ↦ elim (Bool-cases (ltb k i)) [
    | inl l ↦ rw (e, l) ((ground (arith, l), after k i m (ground (arith, l)) s.0), s)
    | inr l ↦ rw (e, l) (after-assign i k v m (ground (arith, e, l)) s.0, assign-IsSorted k v m s.1)
  ]
]

pub erase-IsSorted : (k : ℕ) (m : Map) → IsSorted m → IsSorted (erase k m)
unfolding erase
erase-IsSorted k [] s = tt
erase-IsSorted k ((i, w) ∷ m) s = elim (Bool-cases (i == k)) [
  | inl e ↦ rw e (erase-IsSorted k m s.1)
  | inr e ↦ rw e (All-remove_if _ _ m s.0, erase-IsSorted k m s.1)
]

-- In a sorted map the entries are what `lookup` finds.
pub Elem-lookup : (k v : ℕ) (m : Map) → IsSorted m → Elem (k, v) m ↔ (lookup k m ≡ some v)
unfolding lookup
Elem-lookup k v [] s = (λ h. absurd h, λ h. ground (arith, h))
Elem-lookup k v ((i, w) ∷ m) s =
    let (to, from) = Elem-lookup k v m s.1 in
    elim (Bool-cases (i == k)) [
      | inl e ↦ rw e (
        λ h. elim h [
          | inl q ↦ ground (arith, q)
          | inr n ↦ absurd (ground (arith, e, All-Elem _ (k, v) m s.0 n))
        ],
        λ h. inl (ground (arith, e, h)),
      )
      | inr e ↦
          rw e (
            λ h. elim h [ inl q ↦ absurd (ground (arith, e, q)) | inr n ↦ to n ],
            λ h. inr (from h),
          )
    ]
