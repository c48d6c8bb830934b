-- ===== src/Gps/Grid.antt =====
-- The quadrants are the cells of a grid of two rows and two columns.
use communication_in_critica.Prelude.{ℕ, ◌/◌, ◌%◌, ◌<◌, ◌≡◌, ◌≢◌, ◌⊎◌, inl, refl, false, arith}
use communication_in_critica.Gps.{
  Gps, Command, advance, neighbors, ioctl, quadrants, get_quadrant, set_fixed, other,
}

-- The cells share a side: they differ in the row or in the column, not in both.
abbrev pub Adjacent : ℕ → ℕ → Type 0
Adjacent p q = ((p / 2 ≡ q / 2) × (p % 2 ≢ q % 2)) ⊎ ((p / 2 ≢ q / 2) × (p % 2 ≡ q % 2))

neighbors-Adjacent :
    (q i : ℕ) → q < quadrants → (neighbors q i < quadrants) × Adjacent q (neighbors q i)
neighbors-Adjacent q i h = ground arith

-- Whatever the call and what the kernel supplies, the quadrant stays one of the four, and it stays
-- the same or becomes one that shares a side with it; a fixed device does not move.
pub ioctl-Adjacent :
    (hz jiffies random : ℕ) (g : Gps) (c : Command)
    → g.quadrant < quadrants
    → ((ioctl hz jiffies random g c).0.quadrant < quadrants)
      × (((ioctl hz jiffies random g c).0.quadrant ≡ g.quadrant)
          ⊎ ((g.is_fixed ≡ false) × Adjacent g.quadrant (ioctl hz jiffies random g c).0.quadrant))
unfolding ioctl advance
ioctl-Adjacent hz jiffies random g (get_quadrant copies) h =
    ground (arith, neighbors-Adjacent g.quadrant (random % 2) h)
ioctl-Adjacent hz jiffies random g set_fixed h = (h, inl refl)
ioctl-Adjacent hz jiffies random g other h = (h, inl refl)
