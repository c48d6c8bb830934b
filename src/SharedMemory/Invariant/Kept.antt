-- ===== src/SharedMemory/Invariant/Kept.antt =====
-- What a write keeps of the accounting, and with the other steps every run of the processes.
use Prim.Native.Nat.{bit_or}
use communication_in_critica.Prelude.{
  ℕ, suc, ◌+◌, ◌-◌, ◌%◌, ◌^◌, ◌≤◌, ◌<◌, ◌≡◌, ◌≢◌, refl, sym, ap, ◌∙◌, inl, inr, List, arith,
  Bool-cases, dec_lt,
}
use communication_in_critica.SharedMemory.Region.{
  Region, update, slot_count, gateway_writer, deliver_to_components, deliver_to_gateway,
}
use communication_in_critica.SharedMemory.Engine.{
  engine_init, write_slot, engine_send, read_slot, is_gateway,
}
use communication_in_critica.SharedMemory.Least.{weight_below-update, weight_below-zero}
use communication_in_critica.SharedMemory.Attach.{attach-Inv, engine_init-moves}
use communication_in_critica.SharedMemory.System.{
  outside, attach, IsEarly, IsOnTime, idle, System, post_all, Step, reserve, publish, wake, consume,
  post, close, init, IsFresh, Reach, here, later,
}
use communication_in_critica.SharedMemory.Invariant.{
  owes, claims, deliveries, deliveries-update, Inv, least-le,
}
use communication_in_critica.SharedMemory.Invariant.Readers.{
  wake-Inv, post-Inv, closed-eq, close-Inv, consume-Inv,
}

reserve-Inv :
    {s : System}
    → 0 < s.empty
    → Inv s
    → Inv (record s { empty = s.empty - 1; reserved = suc s.reserved })
reserve-Inv {s} h v = record {
  registered = v.registered;
  counted = v.counted;
  space = omega (arith, v.space);
  queued = v.queued;
  kept = v.kept;
  given = v.given;
}

-- Frames that are in the ring together have slots of their own.
slots_apart : (k p : ℕ) → k < p → suc p ≤ k + slot_count → p % slot_count ≢ k % slot_count
slots_apart k p h q = omega arith

-- What `write_slot` does to the parts of the region.
module _ (s : System) (frame : List ℕ) (size writer flags : ℕ) where
  abbrev pub written : Region
  written = write_slot s.region frame size writer flags

  publish-Inv :
      suc s.published < 2 ^ 64
      → 0 < s.reserved
      → Inv s
      → Inv (record s {
        region = written;
        reserved = s.reserved - 1;
        pending = post_all s.region.component_count s.pending;
        published = suc s.published;
        log = update s.log s.published (written.slots (s.region.next_write_seq % slot_count));
      })
  unfolding write_slot
  publish-Inv small h v = record {
    registered = v.registered;
    counted = ground (arith, v.counted);
    space = ground (arith, v.space);
    queued = λ j hj. ground (arith, v.queued j hj);
    kept = λ k p q. elim (dec_lt k s.published) [
      | yes old ↦ ground (
        arith,
        v.counted,
        v.kept k old (omega arith),
        slots_apart k s.published old (omega arith),
      )
      | no new ↦ let e : s.published ≡ k = omega arith in ground (arith, v.counted)
    ];
    given = λ j hj.
        v.given j hj
        ∙ sym (
            deliveries-update j s.log s.published _ (s.region.components j).read_seq
              (omega (arith, v.queued j hj)));
  }

-- A process that has not attached took no token, so it is up to date before the first frame.
attaching-Inv :
    {s : System} (i : ℕ)
    → i < s.region.component_count
    → s.reader i ≡ outside
    → s.published ≡ 0
    → Inv s
    → Inv (record s { region = engine_init s.region i; reader = update s.reader i idle })
attaching-Inv {s} i h e early v =
    let w = attach-Inv i v h (ap claims e) (omega (arith, v.queued i h, early)) in
    record {
      registered = w.registered;
      counted = w.counted;
      space = ground (
        arith,
        w.space,
        weight_below-update owes s.reader i idle (engine_init s.region i).component_count,
      );
      queued = λ j hj. ground (arith, w.queued j hj);
      kept = w.kept;
      given = w.given;
    }

pub init-Inv : {r : Region} → IsFresh r → Inv (init r)
unfolding deliveries
init-Inv {r} f = record {
  registered = f.registered;
  counted = f.unwritten;
  space = ground (
    arith,
    least-le r.component_count r.components 0 f.registered,
    f.unread 0,
    weight_below-zero owes (λ _. outside) r.component_count (λ _ _. refl),
  );
  queued = λ i h. ground (arith, f.unread i);
  kept = λ k p q. absurd (omega arith);
  given = λ i h. ground (arith, ap (deliveries i r.slots) (f.unread i));
}

engine_send-eq-write_slot :
    (r : Region) (me : ℕ) (frame : List ℕ) (size : ℕ)
    → (writer flags : ℕ) × (engine_send r me frame size ≡ write_slot r frame size writer flags)
unfolding engine_send
engine_send-eq-write_slot r me frame size = elim (Bool-cases (is_gateway me)) [
  | inl e ↦ (gateway_writer, deliver_to_components, rw e)
  | inr e ↦ (me, bit_or deliver_to_components deliver_to_gateway, rw e)
]

-- Every step keeps the accounting, as long as fewer than 2 ^ 64 frames were written and no process
-- attaches late.
pub Step-Inv : {s t : System} (st : Step s t) → IsEarly st → t.published < 2 ^ 64 → Inv s → Inv t
Step-Inv (attach i h e) early small v = attaching-Inv i h e early v
Step-Inv (reserve h) early small v = reserve-Inv h v
Step-Inv {s} (publish me size frame ne h) early small v =
    let (writer, flags, e) = engine_send-eq-write_slot s.region me frame size in
    rw e (publish-Inv s frame size writer flags small h v)
Step-Inv (wake i h e p) early small v = wake-Inv i h e p v
Step-Inv (consume i h e) early small v = consume-Inv i h e small v
Step-Inv (post i h e) early small v = post-Inv i h e v
Step-Inv (close i h e) early small v = close-Inv i h e v

-- Registration is fixed when the region is created.
pub count-Step : {s t : System} → Step s t → t.region.component_count ≡ s.region.component_count
unfolding read_slot write_slot
count-Step {s} (attach i h e) = (engine_init-moves s.region i h).1
count-Step (reserve h) = refl
count-Step {s} (publish me size frame ne h) =
    let (writer, flags, e) = engine_send-eq-write_slot s.region me frame size in rw e
count-Step (wake i h e p) = refl
count-Step (consume i h e) = refl
count-Step (post i h e) = refl
count-Step {s} (close i h e) = (closed-eq s.region i 0).0

-- A write changes no reader's entry.
pub components-engine_send :
    (r : Region) (me : ℕ) (frame : List ℕ) (size : ℕ)
    → (engine_send r me frame size).components ≡ r.components
unfolding write_slot
components-engine_send r me frame size =
    let (writer, flags, e) = engine_send-eq-write_slot r me frame size in rw e

pub published_mono : {s t : System} → Step s t → s.published ≤ t.published
published_mono (attach i h e) = omega arith
published_mono (reserve h) = omega arith
published_mono (publish me size frame ne h) = omega arith
published_mono (wake i h e p) = omega arith
published_mono (consume i h e) = omega arith
published_mono (post i h e) = omega arith
published_mono (close i h e) = omega arith

pub Reach-Inv :
    {r : Region} {s : System}
    → IsFresh r
    → s.published < 2 ^ 64
    → (p : Reach r s) → IsOnTime p
    → Inv s
Reach-Inv f small here on_time = init-Inv f
Reach-Inv f small (later p st) on_time =
    Step-Inv st on_time.1 small (Reach-Inv f (omega (arith, published_mono st)) p on_time.0)
