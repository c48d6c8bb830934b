-- ===== src/SharedMemory/Progress.antt =====
-- When the ring moves on: freedom from deadlock, the quiescent state, and what a closed reader does
-- to the writers.
use communication_in_critica.Prelude.{
  ℕ, ◌+◌, ◌^◌, ◌≤◌, ◌<◌, ◌≡◌, ◌≢◌, refl, ap, ◌∙◌, [], arith, dec_lt,
}
use communication_in_critica.SharedMemory.Region.{Region, slot_count}
use communication_in_critica.SharedMemory.Engine.{engine_init, read_slot}
use communication_in_critica.SharedMemory.Least.{
  least_attained, weight_below, weight_below-attained, weight_below-zero,
}
use communication_in_critica.SharedMemory.System.{
  Reader, outside, idle, awake, posting, stopped, System, Step, attach, IsOnTime, reserve, publish,
  wake, consume, post, close, Steps, here, later, IsFresh, Reach,
}
use communication_in_critica.SharedMemory.Invariant.{owes, claims, deliveries, published-le}
use communication_in_critica.SharedMemory.Invariant.Readers.{closed-eq}
use communication_in_critica.SharedMemory.Invariant.Kept.{
  Reach-Inv, count-Step, components-engine_send,
}

-- `engine_init` of another process.
engine_init-kept :
    (r : Region) (j i : ℕ)
    → j ≢ i
    → ((engine_init r j).components i).read_seq ≡ (r.components i).read_seq
unfolding engine_init
engine_init-kept r j i other = ground (arith, other)

-- A registered reader that stopped never reads again.
stopped-Step :
    {s t : System} (i : ℕ)
    → Step s t
    → s.reader i ≡ stopped
    → (t.reader i ≡ stopped) × ((t.region.components i).read_seq ≡ (s.region.components i).read_seq)
unfolding read_slot
stopped-Step {s} i (attach j h q) e = (ground arith, ground (arith, engine_init-kept s.region j i))
stopped-Step i (reserve h) e = (e, refl)
stopped-Step {s} i (publish me size frame ne h) e =
    (e, ap (λ c. (c i).read_seq) (components-engine_send s.region me frame size))
stopped-Step i (wake j h q p) e = (ground arith, refl)
stopped-Step i (consume j h q) e = (ground arith, ground arith)
stopped-Step i (post j h q) e = (ground arith, refl)
stopped-Step {s} i (close j h q) e = (ground arith, (closed-eq s.region j i).2)

stopped-Steps :
    {s t : System} (i : ℕ)
    → Steps s t
    → s.reader i ≡ stopped
    → (t.reader i ≡ stopped)
      × ((t.region.components i).read_seq ≡ (s.region.components i).read_seq)
      × (t.region.component_count ≡ s.region.component_count)
stopped-Steps i here e = (e, refl, refl)
stopped-Steps i (later p st) e =
    let (still, same, n) = stopped-Steps i p e in
    let (still', same') = stopped-Step i st still in (still', same' ∙ same, count-Step st ∙ n)

Steps-append : {r s t : System} → Steps r s → Steps s t → Steps r t
Steps-append p here = p
Steps-append p (later q st) = later (Steps-append p q) st

append-IsOnTime :
    {r s t : System} (p : Steps r s) (q : Steps s t)
    → IsOnTime p
    → IsOnTime q
    → IsOnTime (Steps-append p q)
unfolding Steps-append
append-IsOnTime p here early early' = early
append-IsOnTime p (later q st) early early' = (append-IsOnTime p q early early'.0, early'.1)

-- In a run where no process attaches after the first frame, and which publishes less than 2 ^ 64
-- frames: after a registered component has closed, at most `slot_count` frames can ever be published beyond
-- what it had read: the writers never count it out.
pub closed_reader_blocks :
    {r : Region} {s t : System} (i : ℕ)
    → IsFresh r
    → t.published < 2 ^ 64
    → (p : Reach r s) → i < s.region.component_count
    → s.reader i ≡ stopped
    → (q : Steps s t) → IsOnTime p
    → IsOnTime q
    → t.published ≤ (s.region.components i).read_seq + slot_count
closed_reader_blocks {r} {s} {t} i f small p h e q early early' =
    let (_, same, n) = stopped-Steps i q e in
    omega (
      arith,
      published-le (Reach-Inv f small (Steps-append p q) (append-IsOnTime p q early early')) i
          (rw n h),
      same,
    )

-- What the thread of slot `i` can do next, if its pending semaphore or its place lets it.
reader-Step :
    (s : System) (i : ℕ) (p : Reader)
    → s.reader i ≡ p
    → (p ≢ outside) × (p ≢ stopped)
    → i < s.region.component_count
    → 0 < s.pending i + claims p
    → (t : System) × Step s t
reader-Step s i outside e ne h q = absurd (ne.0 refl)
reader-Step s i idle e ne h q = (_, wake i h e (omega arith))
reader-Step s i awake e ne h q = (_, consume i h e)
reader-Step s i posting e ne h q = (_, post i h e)
reader-Step s i stopped e ne h q = absurd (ne.1 refl)

posting-Step :
    (s : System) (i : ℕ) (p : Reader)
    → s.reader i ≡ p
    → i < s.region.component_count
    → 0 < owes p
    → (t : System) × Step s t
posting-Step s i posting e h q = (_, post i h e)
posting-Step s i _ e h q = absurd (omega arith)

-- If no process attached after the first frame, and less than 2 ^ 64 frames were published, the
-- processes do not deadlock while every registered reader has attached and none has stopped: some
-- thread can move.
pub deadlock_free :
    {r : Region} {s : System}
    → IsFresh r
    → s.published < 2 ^ 64
    → (p : Reach r s) → IsOnTime p
    → ((i : ℕ) → i < s.region.component_count → (s.reader i ≢ outside) × (s.reader i ≢ stopped))
    → (t : System) × Step s t
deadlock_free {r} {s} f small p early running =
    let v = Reach-Inv f small p early in
    let n = s.region.component_count in
    let (i, h, e) =
      least_attained n s.region.components v.registered (λ j q. omega (arith, v.queued j q)) in
    elim (dec_lt 0 s.empty) [
      | yes room ↦ (_, reserve room)
      | no full ↦ elim (dec_lt 0 s.reserved) [
        | yes ready ↦ (_, publish 0 1 [] (λ e. omega arith) ready)
        | no none_ready ↦ elim (dec_lt 0 (weight_below owes s.reader n)) [
          | yes owed ↦
              let (j, hj, q) = weight_below-attained owes s.reader n owed in
              posting-Step s j (s.reader j) refl hj q
          | no settled ↦
              reader-Step s i (s.reader i) refl (running i h) h
                (omega (arith, v.space, v.queued i h))
        ]
      ]
    ]

-- If no process attached after the first frame, and less than 2 ^ 64 frames were published: when
-- every token is spent and every registered thread is back at its semaphore, the ring is free again
-- and each reader was given all frames that were for it.
pub quiescent_delivered :
    {r : Region} {s : System}
    → IsFresh r
    → s.published < 2 ^ 64
    → (p : Reach r s) → IsOnTime p
    → s.reserved ≡ 0
    → ((i : ℕ) → i < s.region.component_count → (s.reader i ≡ idle) × (s.pending i ≡ 0))
    → (s.empty ≡ slot_count)
      × ((i : ℕ) → i < s.region.component_count → s.inbox i ≡ deliveries i s.log s.published)
quiescent_delivered {r} {s} f small p early none quiet =
    let v = Reach-Inv f small p early in
    let n = s.region.component_count in
    let (i, h, e) =
      least_attained n s.region.components v.registered (λ j q. omega (arith, v.queued j q)) in
    (
      ground (
        arith,
        v.space,
        v.queued i h,
        quiet i h,
        weight_below-zero owes s.reader n (λ j k. ap owes (quiet j k).0),
      ),
      λ j hj. v.given j hj ∙ ap (deliveries j s.log) (ground (arith, v.queued j hj, quiet j hj)),
    )
