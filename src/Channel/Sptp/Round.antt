-- ===== src/Channel/Sptp/Round.antt =====
-- One round of synchronisation: the vehicle's request, the reply of the road-side unit, and what
-- the vehicle makes of it.
use communication_in_critica.Prelude.{
  ℕ, ◌+◌, ◌*◌, ◌^◌, ◌<◌, ◌≤◌, ◌≡◌, inl, inr, refl, sym, ap, subst, ◌∙◌, false, if◌then◌else◌, ltb,
  leb, arith, List, [], ◌∷◌, Bool-cases, ℤ, pos, negsuc, ◌+ℤ◌, ◌-ℤ◌, neg, abs, diff, is_zero,
}
use communication_in_critica.Channel.Address.{Address}
use communication_in_critica.Channel.Sptp.{
  Sptp, Effect, sends, presence, jumps, send_sync_request, receive_request, receive_sync,
  apply_measure, raw_offset, raw_delay, sync_kind, request_kind, min_offset_ns, max_offset_ns,
}
use communication_in_critica.Channel.Sptp.Wire.{
  request_bytes, sync_bytes, seq_of-request_bytes, seq_of-sync_bytes, t2_prime_of-sync_bytes,
  length-request_bytes, length-sync_bytes,
}
use communication_in_critica.Channel.Sptp.Measure.{slave_clock, raw_offset-error}

-- The payload of the packet sent, empty if there is none.
abbrev payload_sent : List Effect → List ℕ
payload_sent (sends to kind payload ∷ es) = payload
payload_sent _ = []

-- By how much the calls moved the clock.
abbrev pub jumped : List Effect → ℤ
jumped (jumps delta ∷ es) = delta
jumped _ = pos 0

-- The request leaves at the slave's `tx` and arrives at the master's `t2'`; the reply leaves at `t1`
-- and arrives at the slave's `t1'`.
unfoldable pub round : Sptp → Sptp → Address → ℤ → ℤ → ℕ → ℤ → ℤ → ℕ → Sptp × List Effect
unfolding send_sync_request receive_request receive_sync
round slave master vehicle now tx t2' t1 t1' steady =
    let (waiting, request) = send_sync_request slave now tx in
    let (_, reply) = receive_request master request_kind vehicle (payload_sent request) t2' in
    receive_sync waiting sync_kind t1 (payload_sent reply) t1' steady

request_answered :
    (master : Sptp) (vehicle : Address) (seq t2' : ℕ)
    → seq < 2 ^ 32
    → receive_request master request_kind vehicle (request_bytes seq) t2'
      ≡ (master, sends vehicle sync_kind (sync_bytes seq t2') ∷ presence vehicle ∷ [])
unfolding receive_request
request_answered master vehicle seq t2' small =
    rw (length-request_bytes, seq_of-request_bytes seq small) refl

reply_applied :
    (s : Sptp) (t2' : ℕ) (t1 t1' : ℤ) (steady : ℕ)
    → s.pending_seq < 2 ^ 32
    → t2' < 2 ^ 63
    → is_zero s.pending_t2_ns ≡ false
    → receive_sync s sync_kind t1 (sync_bytes s.pending_seq t2') t1' steady
      ≡ apply_measure s
          (raw_offset t1 t1' s.pending_t2_ns (pos t2'))
          (raw_delay t1 t1' s.pending_t2_ns (pos t2'))
          steady
unfolding receive_sync
reply_applied s t2' t1 t1' steady small stamp sent =
    rw
      (
        length-sync_bytes,
        seq_of-sync_bytes s.pending_seq t2' small,
        t2_prime_of-sync_bytes s.pending_seq t2' stamp,
        sent,
      )
      (ground arith)

-- Over the two codecs the round comes to the measures, on the four stamps of the round.
round-apply_measure :
    (slave master : Sptp) (vehicle : Address) (now tx : ℤ) (t2' : ℕ) (t1 t1' : ℤ) (steady : ℕ)
    → slave.next_seq < 2 ^ 32
    → t2' < 2 ^ 63
    → is_zero tx ≡ false
    → round slave master vehicle now tx t2' t1 t1' steady
      ≡ apply_measure
          (send_sync_request slave now tx).0
          (raw_offset t1 t1' tx (pos t2'))
          (raw_delay t1 t1' tx (pos t2'))
          steady
unfolding round send_sync_request receive_request receive_sync
round-apply_measure slave master vehicle now tx t2' t1 t1' steady small stamp sent =
    let same : (if is_zero tx then now else tx) ≡ tx = rw sent refl in
    ap
      (λ x.
        receive_sync (send_sync_request slave now tx).0 sync_kind t1 (payload_sent x.1) t1' steady)
      (request_answered master vehicle slave.next_seq t2' small)
    ∙ reply_applied (send_sync_request slave now tx).0 t2' t1 t1' steady small stamp
        (ap is_zero same ∙ sent)
    ∙ ap
        (λ x.
          apply_measure (send_sync_request slave now tx).0 (raw_offset t1 t1' x (pos t2'))
            (raw_delay t1 t1' x (pos t2')) steady)
        same

abs-neg : (a b : ℤ) → abs (a +ℤ neg b) ≡ abs (b -ℤ a)
abs-neg (pos n) (pos m) = ground arith
abs-neg (pos n) (negsuc m) = ground arith
abs-neg (negsuc n) (pos m) = ground arith
abs-neg (negsuc n) (negsuc m) = ground arith

abs-triangle : (a b : ℤ) → abs (a +ℤ pos 0) ≤ abs b + abs (b -ℤ a)
abs-triangle (pos n) (pos m) = ground arith
abs-triangle (pos n) (negsuc m) = ground arith
abs-triangle (negsuc n) (pos m) = ground arith
abs-triangle (negsuc n) (negsuc m) = ground arith

triangle : (a b : ℤ) → abs b ≤ abs a + abs (b -ℤ a)
triangle (pos n) (pos m) = ground arith
triangle (pos n) (negsuc m) = ground arith
triangle (negsuc n) (pos m) = ground arith
triangle (negsuc n) (negsuc m) = ground arith

-- What a measure does to a clock that is off by `a`, when the measure is off by at most `k / 2`.
apply_measure-error :
    (s : Sptp) (a offset delay : ℤ) (steady k : ℕ)
    → 2 * abs (offset -ℤ a) ≤ k
    → 2 * abs a + k < 2 * max_offset_ns
    → ((apply_measure s offset delay steady).0.sync_count ≡ s.sync_count + 1)
      × (2 * abs (a +ℤ jumped (apply_measure s offset delay steady).1) ≤ 2 * min_offset_ns + k)
unfolding apply_measure
apply_measure-error s a offset delay steady k near small =
    let below : abs offset < max_offset_ns = omega (arith, triangle a offset) in
    elim (Bool-cases (leb max_offset_ns (abs offset))) [
      | inl e ↦ absurd (ground (arith, e, below))
      | inr e ↦ elim (Bool-cases (ltb min_offset_ns (abs offset))) [
        | inl t ↦
            rw (e, t)
              (
                refl,
                subst (λ x. 2 * x ≤ 2 * min_offset_ns + k) (sym (abs-neg a offset)) (omega arith),
              )
        | inr t ↦
            let fine : abs offset ≤ min_offset_ns = ground (arith, t) in
            rw (e, t) (refl, omega (arith, abs-triangle a offset, fine, near))
      ]
    ]

-- A round in which the request takes `d1` and the reply `d2` is accepted, if the clock is off by less
-- than a second less half the difference, and it leaves the clock off by at most 100 microseconds
-- and half the difference of the two, rounded: `ahead` is how far the vehicle's clock is ahead of
-- the master's before, and the sum with the jump is how far it is after.
pub round-error :
    (slave master : Sptp) (vehicle : Address) (now ahead : ℤ) (s d1 r d2 steady : ℕ)
    → slave.next_seq < 2 ^ 32
    → s + d1 < 2 ^ 63
    → is_zero (slave_clock ahead s) ≡ false
    → 2 * abs ahead + (abs (diff d2 d1) + 1) < 2 * max_offset_ns
    → let (after, effects) =
        round slave master vehicle now
          (slave_clock ahead s)
          (s + d1)
          (pos r)
          (slave_clock ahead (r + d2))
          steady in
      (after.sync_count ≡ slave.sync_count + 1)
      × (2 * abs (ahead +ℤ jumped effects) ≤ 2 * min_offset_ns + (abs (diff d2 d1) + 1))
unfolding send_sync_request
round-error slave master vehicle now ahead s d1 r d2 steady small stamp sent near =
    subst
      (λ x.
        (x.0.sync_count ≡ slave.sync_count + 1)
        × (2 * abs (ahead +ℤ jumped x.1) ≤ 2 * min_offset_ns + (abs (diff d2 d1) + 1)))
      (sym (
        round-apply_measure slave master vehicle now (slave_clock ahead s) (s + d1) (pos r)
          (slave_clock ahead (r + d2)) steady small stamp sent))
      (apply_measure-error _ ahead _ _ steady _ (raw_offset-error ahead s d1 r d2) near)
