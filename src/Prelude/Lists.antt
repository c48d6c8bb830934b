-- ===== src/Prelude/Lists.antt =====
-- Lists measured and searched by native numbers, and the loops over a `std::vector` that the
-- components share: `remove_if`, a filter, and quantifiers over the entries.
use Prim.Native.Nat.{ℕ, zero, suc, ◌+◌, ◌≤◌}
use mathlib.Core.Path.{◌≡◌, refl, ap, ◌∙◌}
use mathlib.Core.Bool.{Bool, false}
use mathlib.Core.List.{List, [], ◌∷◌, ◌++◌, map}
use mathlib.Core.Logic.{◌⊎◌, ◌↔◌, inl, inr}
use native.Mathlib.Omega.{arith}
use communication_in_critica.Prelude.Tests.{if◌then◌else◌, Bool-cases}

module _ {ℓ} {A : Type ℓ} where
  abbrev pub length : List A → ℕ
  length [] = 0
  length (x ∷ xs) = suc (length xs)

  -- A predicate of every entry.
  abbrev pub All {κ} : (A → Type κ) → List A → Type κ
  All P [] = Unit
  All P (x ∷ xs) = P x × All P xs

  -- `v.erase(std::remove_if(v.begin(), v.end(), p), v.end())`
  abbrev pub remove_if : (A → Bool) → List A → List A
  remove_if p [] = []
  remove_if p (x ∷ xs) = let rest = remove_if p xs in if p x then rest else x ∷ rest

  pub All-remove_if {κ} :
      (P : A → Type κ) (p : A → Bool) (xs : List A) → All P xs → All P (remove_if p xs)
  All-remove_if P p [] h = tt
  All-remove_if P p (x ∷ xs) h = elim (Bool-cases (p x)) [
    | inl e ↦ rw e (All-remove_if P p xs h.1)
    | inr e ↦ rw e (h.0, All-remove_if P p xs h.1)
  ]

  -- One entry of a list, taken out or replaced.
  pub All-removed {κ} :
      (P : A → Type κ) (before : List A) (x : A) (after : List A)
      → All P (before ++ x ∷ after)
      → P x × All P (before ++ after)
  All-removed P [] x after h = h
  All-removed P (y ∷ before) x after h =
      let (own, others) = All-removed P before x after h.1 in (own, (h.0, others))

  pub All-inserted {κ} :
      (P : A → Type κ) (before : List A) (x : A) (after : List A)
      → P x
      → All P (before ++ after)
      → All P (before ++ x ∷ after)
  All-inserted P [] x after own h = (own, h)
  All-inserted P (y ∷ before) x after own h = (h.0, All-inserted P before x after own h.1)

  -- What `remove_if` keeps fails the test.
  pub All-not-remove_if : (p : A → Bool) (xs : List A) → All (λ x. p x ≡ false) (remove_if p xs)
  All-not-remove_if p [] = tt
  All-not-remove_if p (x ∷ xs) = elim (Bool-cases (p x)) [
    | inl e ↦ rw e (All-not-remove_if p xs)
    | inr e ↦ rw e (e, All-not-remove_if p xs)
  ]

  pub length-remove_if-le : (p : A → Bool) (xs : List A) → length (remove_if p xs) ≤ length xs
  length-remove_if-le p [] = omega arith
  length-remove_if-le p (x ∷ xs) = ground (arith, length-remove_if-le p xs)

  pub length-append : (xs ys : List A) → length (xs ++ ys) ≡ length xs + length ys
  length-append [] ys = omega arith
  length-append (x ∷ xs) ys = omega (arith, length-append xs ys)

  abbrev pub take : ℕ → List A → List A
  take zero xs = []
  take (suc n) [] = []
  take (suc n) (x ∷ xs) = x ∷ take n xs

  abbrev pub drop : ℕ → List A → List A
  drop zero xs = xs
  drop (suc n) [] = []
  drop (suc n) (x ∷ xs) = drop n xs

module _ {ℓ κ} {A : Type ℓ} (P : A → Type κ) where
  pub All-append : (xs ys : List A) → All P xs → All P ys → All P (xs ++ ys)
  All-append [] ys hx hy = hy
  All-append (x ∷ xs) ys hx hy = (hx.0, All-append xs ys hx.1 hy)

  pub All-take : (n : ℕ) (xs : List A) → All P xs → All P (take n xs)
  All-take zero xs h = tt
  All-take (suc n) [] h = tt
  All-take (suc n) (x ∷ xs) h = (h.0, All-take n xs h.1)

  pub All-drop : (n : ℕ) (xs : List A) → All P xs → All P (drop n xs)
  All-drop zero xs h = h
  All-drop (suc n) [] h = tt
  All-drop (suc n) (x ∷ xs) h = All-drop n xs h.1

pub length-take-le {ℓ} : {A : Type ℓ} (n : ℕ) (xs : List A) → length (take n xs) ≤ n
length-take-le zero xs = omega arith
length-take-le (suc n) [] = omega arith
length-take-le (suc n) (x ∷ xs) = omega (arith, length-take-le n xs)

-- The entry is in the list.
abbrev pub Elem : {A : Type 0} → A → List A → Type 0
Elem a [] = ⊥
Elem a (x ∷ xs) = (a ≡ x) ⊎ Elem a xs

pub All-Elem {κ} : {A : Type 0} (P : A → Type κ) (a : A) (xs : List A) → All P xs → Elem a xs → P a
All-Elem P a (x ∷ xs) h (inl e) = rw e h.0
All-Elem P a (x ∷ xs) h (inr m) = All-Elem P a xs h.1 m
All-Elem P a [] h m = absurd m

-- `remove_if` keeps the entries that fail the test, and no other.
pub Elem-remove_if :
    {A : Type 0} (p : A → Bool) (a : A) (xs : List A)
    → Elem a (remove_if p xs) ↔ (Elem a xs × (p a ≡ false))
Elem-remove_if p a [] = (λ m. absurd m, λ h. h.0)
Elem-remove_if p a (x ∷ xs) =
    let (to, from) = Elem-remove_if p a xs in
    elim (Bool-cases (p x)) [
      | inl e ↦ rw e (
        λ m. (inr (to m).0, (to m).1),
        λ h. elim h.0 [ inl q ↦ absurd (ground (arith, e, h.1, ap p q)) | inr m ↦ from (m, h.1) ],
      )
      | inr e ↦ rw e (
        λ m. elim m [ inl q ↦ (inl q, ap p q ∙ e) | inr n ↦ (inr (to n).0, (to n).1) ],
        λ h. elim h.0 [ inl q ↦ inl q | inr m ↦ inr (from (m, h.1)) ],
      )
    ]

pub Elem-append :
    {A : Type 0} (a : A) (xs ys : List A) → Elem a (xs ++ ys) ↔ (Elem a xs ⊎ Elem a ys)
Elem-append a [] ys = (inr, λ h. elim h [ inl m ↦ absurd m | inr m ↦ m ])
Elem-append a (x ∷ xs) ys =
    let (to, from) = Elem-append a xs ys in
    (
      λ m. elim m [
        | inl q ↦ inl (inl q)
        | inr n ↦ elim (to n) [ inl k ↦ inl (inr k) | inr k ↦ inr k ]
      ],
      λ h. elim h [
        | inl (inl q) ↦ inl q
        | inl (inr m) ↦ inr (from (inl m))
        | inr m ↦ inr (from (inr m))
      ],
    )

pub Elem-map :
    {A B : Type 0} (f : A → B) (b : B) (xs : List A)
    → Elem b (map f xs) ↔ ((a : A) × Elem a xs × (b ≡ f a))
Elem-map f b [] = (λ m. absurd m, λ h. h.1)
Elem-map f b (x ∷ xs) =
    let (to, from) = Elem-map f b xs in
    (
      λ m. elim m [ inl q ↦ (x, inl refl, q) | inr n ↦ let (a, k, q) = to n in (a, inr k, q) ],
      λ (a, m, q). elim m [ inl k ↦ inl (q ∙ ap f k) | inr k ↦ inr (from (a, k, q)) ],
    )

-- What holds of each entry holds of all.
pub Elem-All {κ} :
    {A : Type 0} (P : A → Type κ) (xs : List A) → ((a : A) → Elem a xs → P a) → All P xs
Elem-All P [] h = tt
Elem-All P (x ∷ xs) h = (h x (inl refl), Elem-All P xs λ a m. h a (inr m))
