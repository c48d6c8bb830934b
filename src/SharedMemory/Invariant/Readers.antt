-- ===== src/SharedMemory/Invariant/Readers.antt =====
-- What the steps of a reader keep of the accounting.
use communication_in_critica.Prelude.{
  ℕ, suc, ◌-◌, ◌^◌, ◌<◌, ◌≡◌, ap, if◌then◌else◌, arith, ℕ_discrete,
}
use communication_in_critica.SharedMemory.Region.{ComponentEntry, Region, update, next64}
use communication_in_critica.SharedMemory.Engine.{engine_close, read_slot}
use communication_in_critica.SharedMemory.Least.{
  least_read_seq-split, least_read_seq_not_me-update, weight_below-update, least_read_seq-eq,
  least_read_seq-update,
}
use communication_in_critica.SharedMemory.System.{
  idle, awake, posting, stopped, System, deliver, read_of,
}
use communication_in_critica.SharedMemory.Invariant.{owes, deliveries, Inv, published-le}

pub wake-Inv :
    {s : System} (i : ℕ)
    → i < s.region.component_count
    → s.reader i ≡ idle
    → 0 < s.pending i
    → Inv s
    → Inv (record s {
      pending = update s.pending i (s.pending i - 1);
      reader = update s.reader i awake;
    })
wake-Inv {s} i h e p v = record {
  registered = v.registered;
  counted = v.counted;
  space =
      ground (arith, v.space, weight_below-update owes s.reader i awake s.region.component_count);
  queued = λ j hj. ground (arith, v.queued j hj);
  kept = v.kept;
  given = v.given;
}

pub post-Inv :
    {s : System} (i : ℕ)
    → i < s.region.component_count
    → s.reader i ≡ posting
    → Inv s
    → Inv (record s { empty = suc s.empty; reader = update s.reader i idle })
post-Inv {s} i h e v = record {
  registered = v.registered;
  counted = v.counted;
  space =
      ground (arith, v.space, weight_below-update owes s.reader i idle s.region.component_count);
  queued = λ j hj. ground (arith, v.queued j hj);
  kept = v.kept;
  given = v.given;
}

-- `engine_close` leaves the sequence numbers, the slots and the registration alone.
pub closed-eq :
    (r : Region) (me : ℕ) (j : ℕ)
    → ((engine_close r me).component_count ≡ r.component_count)
      × ((engine_close r me).next_write_seq ≡ r.next_write_seq)
      × (((engine_close r me).components j).read_seq ≡ (r.components j).read_seq)
      × ((engine_close r me).slots ≡ r.slots)
unfolding engine_close
closed-eq r me j = ground arith

pub close-Inv :
    {s : System} (i : ℕ)
    → i < s.region.component_count
    → s.reader i ≡ idle
    → Inv s
    → Inv (record s { region = engine_close s.region i; reader = update s.reader i stopped })
close-Inv {s} i h e v = record {
  registered = ground (arith, v.registered, closed-eq s.region i 0);
  counted = ground (arith, v.counted, closed-eq s.region i 0);
  space =
      rw
        (
          (closed-eq s.region i 0).0,
          least_read_seq-eq s.region.component_count (engine_close s.region i).components
              s.region.components (λ j. (closed-eq s.region i j).2),
        )
        (ground
          (arith, v.space, weight_below-update owes s.reader i stopped s.region.component_count));
  queued = λ j hj. ground (arith, v.queued j, closed-eq s.region i j);
  kept = λ k p q. ground (arith, v.kept k p q, closed-eq s.region i 0);
  given = λ j hj. ground (arith, v.given j, closed-eq s.region i j);
}

-- A reader with a token is behind the writers.
behind :
    {s : System} (i : ℕ)
    → i < s.region.component_count
    → s.reader i ≡ awake
    → s.published < 2 ^ 64
    → Inv s
    → ((s.region.components i).read_seq < s.published)
      × (next64 (s.region.components i).read_seq ≡ suc (s.region.components i).read_seq)
behind {s} i h e small v = ground (arith, v.queued i h)

pub consume-Inv :
    {s : System} (i : ℕ)
    → i < s.region.component_count
    → s.reader i ≡ awake
    → s.published < 2 ^ 64
    → Inv s
    → Inv (record s {
      region = (read_of s i).region;
      reader = update s.reader i (if (read_of s i).should_post_empty then posting else idle);
      inbox = update s.inbox i (deliver (read_of s i).frame (s.inbox i));
    })
unfolding read_slot deliveries
consume-Inv {s} i h e small v = record {
  registered = v.registered;
  counted = v.counted;
  space = ground (
    arith,
    v.space,
    b,
    least_read_seq_not_me-update i n c moved,
    least_read_seq-update i n c moved h,
    least_read_seq-split i n c h,
    weight_below-update owes s.reader i posting n,
    weight_below-update owes s.reader i idle n,
  );
  queued = λ j hj. ground (arith, b, v.queued j hj);
  kept = v.kept;
  given = λ j hj. elim (ℕ_discrete i j) [
    | yes p ↦ ground (
      arith,
      b,
      v.given j hj,
      ap (deliveries j s.log) b.1,
      v.kept (c i).read_seq b.0 (published-le v i h),
    )
    | no p ↦ ground (arith, v.given j hj)
  ];
}
  where
    n : ℕ
    n = s.region.component_count

    c : ℕ → ComponentEntry
    c = s.region.components

    moved : ComponentEntry
    moved = record (c i) { read_seq = next64 (c i).read_seq }

    b : ((c i).read_seq < s.published) × (next64 (c i).read_seq ≡ suc (c i).read_seq)
    b = behind i h e small v
