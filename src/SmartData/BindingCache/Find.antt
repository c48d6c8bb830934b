-- ===== src/SmartData/BindingCache/Find.antt =====
-- How `find_binding` sees the changes to the list of bindings.
use communication_in_critica.Prelude.{
  ℕ, ◌≡◌, refl, sym, ◌∙◌, inl, inr, List, [], ◌∷◌, ◌++◌, none, some, if◌then◌else◌, ◌==◌, ◌&&◌,
  arith, Bool-cases, Bool, remove_if,
}
use communication_in_critica.Channel.Address.{Address, address_eq, address_eq_iff}
use communication_in_critica.SmartData.BindingCache.{Binding, is_for, find_binding, renew}

pub find_binding-cons :
    (u : ℕ) (a : Address) (x : Binding) (bs : List Binding)
    → find_binding u a (x ∷ bs) ≡ (if is_for u a x then some x else find_binding u a bs)
unfolding find_binding
find_binding-cons u a x bs = elim (Bool-cases (is_for u a x)) [ inl e ↦ rw e | inr e ↦ rw e ]

pub find_binding-nil : (u : ℕ) (a : Address) → find_binding u a [] ≡ none
unfolding find_binding
find_binding-nil u a = refl

-- The entry found is for the key.
pub find_binding-is_for :
    (u : ℕ) (a : Address) (bs : List Binding) (b : Binding)
    → find_binding u a bs ≡ some b
    → (b.unit ≡ u) × (b.address ≡ a)
find_binding-is_for u a [] b h = cc (find_binding-nil u a)
find_binding-is_for u a (x ∷ bs) b h =
    ground
      (arith, find_binding-cons u a x bs, find_binding-is_for u a bs b, address_eq_iff x.address a)

-- Two entries are for each other's key, or neither is.
pub is_for_symm : (x y : Binding) → is_for x.unit x.address y ≡ is_for y.unit y.address x
is_for_symm x y =
    ground (arith, address_eq_iff x.address y.address, address_eq_iff y.address x.address)

pub find_binding-renew :
    (u : ℕ) (a : Address) (p e : ℕ) (bs : List Binding) (b : Binding)
    → find_binding u a bs ≡ some b
    → (v : ℕ) (c : Address)
    → find_binding v c (renew u a p e bs) ≡ (
        if u == v && address_eq a c
        then some (record b { period_us = p; expiry_ns = e })
        else find_binding v c bs)
unfolding renew
find_binding-renew u a p e [] b h v c = cc (find_binding-nil u a)
find_binding-renew u a p e (x ∷ bs) b h v c = elim (Bool-cases (is_for u a x)) [
  | inl t ↦ rw t (
      ground (
        arith,
        t,
        find_binding-cons v c (record x { period_us = p; expiry_ns = e }) bs,
        find_binding-cons v c x bs,
        find_binding-cons u a x bs,
        address_eq_iff x.address a,
        address_eq_iff x.address c,
        address_eq_iff a c,
      ))
  | inr t ↦ rw t (
      ground (
        arith,
        t,
        find_binding-cons v c x (renew u a p e bs),
        find_binding-cons v c x bs,
        find_binding-cons u a x bs,
        find_binding-renew u a p e bs b (sym (find_binding-cons u a x bs ∙ rw t refl) ∙ h) v c,
        address_eq_iff x.address a,
        address_eq_iff x.address c,
        address_eq_iff a c,
      ))
]

pub find_binding-renew-none :
    (u v : ℕ) (a c : Address) (p e : ℕ) (bs : List Binding)
    → find_binding v c bs ≡ none
    → find_binding v c (renew u a p e bs) ≡ none
unfolding renew
find_binding-renew-none u v a c p e [] h = h
find_binding-renew-none u v a c p e (x ∷ bs) h = elim (Bool-cases (is_for u a x)) [
  | inl t ↦ rw t (
      ground (
        arith,
        find_binding-cons v c (record x { period_us = p; expiry_ns = e }) bs,
        find_binding-cons v c x bs,
      ))
  | inr t ↦ rw t (
      ground (
        arith,
        find_binding-cons v c x (renew u a p e bs),
        find_binding-cons v c x bs,
        find_binding-renew-none u v a c p e bs,
      ))
]

pub find_binding-append :
    (v : ℕ) (c : Address) (bs : List Binding) (y : Binding)
    → find_binding v c bs ≡ none
    → find_binding v c (bs ++ y ∷ []) ≡ (if is_for v c y then some y else none)
find_binding-append v c [] y h = ground (arith, find_binding-cons v c y [], find_binding-nil v c)
find_binding-append v c (x ∷ bs) y h = ground (
  arith,
  find_binding-cons v c x bs,
  find_binding-cons v c x (bs ++ y ∷ []),
  find_binding-append v c bs y,
)

pub find_binding-append_some :
    (v : ℕ) (c : Address) (bs : List Binding) (y b : Binding)
    → find_binding v c bs ≡ some b
    → find_binding v c (bs ++ y ∷ []) ≡ some b
find_binding-append_some v c [] y b h = cc (find_binding-nil v c)
find_binding-append_some v c (x ∷ bs) y b h = ground (
  arith,
  find_binding-cons v c x bs,
  find_binding-cons v c x (bs ++ y ∷ []),
  find_binding-append_some v c bs y b,
)

pub find_binding-remove_if-none :
    (q : Binding → Bool) (v : ℕ) (c : Address) (bs : List Binding)
    → find_binding v c bs ≡ none
    → find_binding v c (remove_if q bs) ≡ none
find_binding-remove_if-none q v c [] h = h
find_binding-remove_if-none q v c (x ∷ bs) h = elim (Bool-cases (q x)) [
  | inl t ↦ rw t (ground (arith, find_binding-cons v c x bs, find_binding-remove_if-none q v c bs))
  | inr t ↦ rw t (
      ground (
        arith,
        find_binding-cons v c x bs,
        find_binding-cons v c x (remove_if q bs),
        find_binding-remove_if-none q v c bs,
      ))
]

-- Removing all entries of a key removes that key only.
pub find_binding-remove :
    (u : ℕ) (a : Address) (v : ℕ) (c : Address) (bs : List Binding)
    → find_binding v c (remove_if (is_for u a) bs)
      ≡ (if u == v && address_eq a c then none else find_binding v c bs)
find_binding-remove u a v c [] = ground (arith, find_binding-nil v c)
find_binding-remove u a v c (x ∷ bs) = elim (Bool-cases (is_for u a x)) [
  | inl t ↦ rw t (
      ground (
        arith,
        t,
        find_binding-cons v c x bs,
        find_binding-remove u a v c bs,
        address_eq_iff x.address a,
        address_eq_iff x.address c,
        address_eq_iff a c,
      ))
  | inr t ↦ rw t (
      ground (
        arith,
        t,
        find_binding-cons v c x (remove_if (is_for u a) bs),
        find_binding-cons v c x bs,
        find_binding-remove u a v c bs,
        address_eq_iff x.address a,
        address_eq_iff x.address c,
        address_eq_iff a c,
      ))
]
