-- ===== src/SharedMemory/Attach.antt =====
-- A process that attaches to the ring (`engine_init`) when frames were already published.
use communication_in_critica.Prelude.{ℕ, ◌%◌, ◌<◌, ◌≡◌, ap, ◌∙◌, arith}
use communication_in_critica.SharedMemory.Region.{Region, slot_count}
use communication_in_critica.SharedMemory.Engine.{engine_init, read_slot, received}
use communication_in_critica.SharedMemory.Least.{least_read_seq-eq}
use communication_in_critica.SharedMemory.System.{System}
use communication_in_critica.SharedMemory.Invariant.{claims, Inv}

abbrev pub attached : System → ℕ → System
attached s i = record s { region = engine_init s.region i }

engine_init-eq :
    (r : Region) (i j : ℕ)
    → (r.components i).read_seq ≡ r.next_write_seq
    → ((engine_init r i).component_count ≡ r.component_count)
      × ((engine_init r i).next_write_seq ≡ r.next_write_seq)
      × (((engine_init r i).components j).read_seq ≡ (r.components j).read_seq)
      × ((engine_init r i).slots ≡ r.slots)
unfolding engine_init
engine_init-eq r i j h = ground arith

-- A registered process that attaches before any frame is pending for it changes no account.
pub attach-Inv :
    {s : System} (i : ℕ)
    → Inv s
    → i < s.region.component_count
    → claims (s.reader i) ≡ 0
    → s.pending i ≡ 0
    → Inv (attached s i)
attach-Inv {s} i v h e p = record {
  registered = rw (same 0).0 v.registered;
  counted = (same 0).1 ∙ v.counted;
  space =
      rw
        (
          (same 0).0,
          least_read_seq-eq s.region.component_count (engine_init s.region i).components
              s.region.components (λ j. (same j).2),
        )
        v.space;
  queued = λ j hj. ground (arith, v.queued j, same j);
  kept = λ k q q'. ground (arith, v.kept k q q', same 0);
  given = λ j hj. ground (arith, v.given j, same j);
}
  where
    caught_up : (s.region.components i).read_seq ≡ s.region.next_write_seq
    caught_up = ground (arith, v.queued i h, v.counted)

    same :
        (j : ℕ)
        → ((engine_init s.region i).component_count ≡ s.region.component_count)
          × ((engine_init s.region i).next_write_seq ≡ s.region.next_write_seq)
          × (((engine_init s.region i).components j).read_seq ≡ (s.region.components j).read_seq)
          × ((engine_init s.region i).slots ≡ s.region.slots)
    same j = engine_init-eq s.region i j caught_up

-- `engine_init` moves a registered process to the next frame to be written.
pub engine_init-moves :
    (r : Region) (i : ℕ)
    → i < r.component_count
    → (((engine_init r i).components i).read_seq ≡ r.next_write_seq)
      × ((engine_init r i).component_count ≡ r.component_count)
      × ((engine_init r i).slots ≡ r.slots)
unfolding engine_init
engine_init-moves r i h = ground arith

-- A registered process that attaches when frames are pending for it keeps their tokens but skips
-- the frames: the next read takes the slot at `next_write_seq`, which is not yet published, and the
-- accounts of the ring are broken.
pub late_attach_breaks :
    {s : System} (i size : ℕ)
    → Inv s
    → i < s.region.component_count
    → 0 < s.pending i
    → ((read_slot (engine_init s.region i) i size).frame
        ≡ received i size (s.region.slots (s.published % slot_count)))
      × (¬ Inv (attached s i))
unfolding read_slot
late_attach_breaks {s} i size v h p = (
  ap (received i size) (
      ap (λ k. (engine_init s.region i).slots (k % slot_count)) (moved.0 ∙ v.counted)
      ∙ ap (λ f. f (s.published % slot_count)) moved.2),
  λ w. ground (arith, w.queued i (rw moved.1 h), moved.0, v.counted),
)
  where
    moved :
        (((engine_init s.region i).components i).read_seq ≡ s.region.next_write_seq)
        × ((engine_init s.region i).component_count ≡ s.region.component_count)
        × ((engine_init s.region i).slots ≡ s.region.slots)
    moved = engine_init-moves s.region i h
