-- ===== src/SharedMemory/Least.antt =====
-- The least `read_seq`, with and without one reader, and sums over the readers.
use communication_in_critica.Prelude.{
  ◌⊎◌, inl, ℕ, zero, suc, ◌+◌, ◌^◌, ◌≤◌, ◌<◌, ◌≡◌, refl, min, arith, dec_lt,
}
use communication_in_critica.SharedMemory.Region.{ComponentEntry, update}
use communication_in_critica.SharedMemory.Engine.{least_read_seq_not_me}

-- the least `read_seq` among the first `n` components
pub least_read_seq : ℕ → (ℕ → ComponentEntry) → ℕ
least_read_seq zero c = 0xffffffffffffffff
least_read_seq (suc k) c = min (least_read_seq k c) (c k).read_seq

absent :
    (me n : ℕ) (c : ℕ → ComponentEntry) → n ≤ me → least_read_seq_not_me me c n ≡ least_read_seq n c
unfolding least_read_seq least_read_seq_not_me
absent me zero c h = refl
absent me (suc k) c h = ground (arith, absent me k c)

pub least_read_seq-split :
    (me n : ℕ) (c : ℕ → ComponentEntry)
    → me < n
    → least_read_seq n c ≡ min (c me).read_seq (least_read_seq_not_me me c n)
unfolding least_read_seq least_read_seq_not_me
least_read_seq-split me zero c h = absurd (omega arith)
least_read_seq-split me (suc k) c h = ground (arith, absent me k c, least_read_seq-split me k c)

pub least_read_seq_not_me-update :
    (me n : ℕ) (c : ℕ → ComponentEntry) (e : ComponentEntry)
    → least_read_seq_not_me me (update c me e) n ≡ least_read_seq_not_me me c n
unfolding least_read_seq_not_me
least_read_seq_not_me-update me zero c e = refl
least_read_seq_not_me-update me (suc k) c e = ground (arith, least_read_seq_not_me-update me k c e)

pub least_read_seq-eq :
    (n : ℕ) (c d : ℕ → ComponentEntry)
    → ((j : ℕ) → (c j).read_seq ≡ (d j).read_seq)
    → least_read_seq n c ≡ least_read_seq n d
unfolding least_read_seq
least_read_seq-eq zero c d h = refl
least_read_seq-eq (suc k) c d h = ground (arith, least_read_seq-eq k c d h, h k)

-- The least after reader `me` moved.
pub least_read_seq-update :
    (me n : ℕ) (c : ℕ → ComponentEntry) (e : ComponentEntry)
    → me < n
    → least_read_seq n (update c me e) ≡ min e.read_seq (least_read_seq_not_me me c n)
least_read_seq-update me n c e h =
    ground
      (arith, least_read_seq-split me n (update c me e) h, least_read_seq_not_me-update me n c e)

-- Some reader is the least, if the sequence numbers are below the 64-bit limit.
pub least_attained :
    (n : ℕ) (c : ℕ → ComponentEntry)
    → 0 < n
    → ((i : ℕ) → i < n → (c i).read_seq < 2 ^ 64)
    → (i : ℕ) × (i < n) × ((c i).read_seq ≡ least_read_seq n c)
unfolding least_read_seq
least_attained zero c h b = absurd (omega arith)
least_attained (suc zero) c h b = (0, omega arith, omega (arith, b 0))
least_attained (suc (suc k)) c h b =
    let (i, p, e) = least_attained (suc k) c (omega arith) (λ i q. b i (omega arith)) in
    elim (dec_lt (c (suc k)).read_seq (c i).read_seq) [
      | yes lt ↦ (suc k, omega arith, omega arith)
      | no ge ↦ (i, omega arith, omega arith)
    ]

pub update_self {ℓ} : {A : Type ℓ} (f : ℕ → A) (i : ℕ) (a : A) → update f i a i ≡ a
update_self f i a = ground arith

-- What the first `k` members of a family weigh together.
pub weight_below {ℓ} : {A : Type ℓ} (weight : A → ℕ) (family : ℕ → A) (k : ℕ) → ℕ
weight_below weight family zero = 0
weight_below weight family (suc k) = weight (family k) + weight_below weight family k

-- A write beyond them leaves it, and one among them changes it by what it changes there.
pub weight_below-update {ℓ} :
    {A : Type ℓ} (weight : A → ℕ) (family : ℕ → A) (place : ℕ) (new : A) (k : ℕ)
    → ((k ≤ place)
        × (weight_below weight (update family place new) k ≡ weight_below weight family k))
      ⊎ ((place < k)
          × (weight_below weight (update family place new) k + weight (family place)
              ≡ weight new + weight_below weight family k))
unfolding weight_below
weight_below-update weight family place new zero = inl (omega arith, refl)
weight_below-update weight family place new (suc k) =
    ground (arith, weight_below-update weight family place new k)

pub weight_below-zero {ℓ} :
    {A : Type ℓ} (weight : A → ℕ) (family : ℕ → A) (k : ℕ)
    → ((j : ℕ) → j < k → weight (family j) ≡ 0)
    → weight_below weight family k ≡ 0
unfolding weight_below
weight_below-zero weight family zero light = refl
weight_below-zero weight family (suc k) light =
    omega (
      arith,
      light k (omega arith),
      weight_below-zero weight family k (λ j h. light j (omega arith)),
    )

pub weight_below-attained {ℓ} :
    {A : Type ℓ} (weight : A → ℕ) (family : ℕ → A) (k : ℕ)
    → 0 < weight_below weight family k
    → (j : ℕ) × (j < k) × (0 < weight (family j))
unfolding weight_below
weight_below-attained weight family zero heavy = absurd (omega arith)
weight_below-attained weight family (suc k) heavy = elim (dec_lt 0 (weight (family k))) [
  | yes here ↦ (k, omega arith, here)
  | no light ↦
      let (j, below, found) = weight_below-attained weight family k (omega arith) in
      (j, omega arith, found)
]
