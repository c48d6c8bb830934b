-- ===== src/Channel/Sptp/Stale.antt =====
-- Which packets a slave acts on, and when the clock may jump.
use communication_in_critica.Prelude.{
  ℕ, ◌+◌, ◌%◌, ◌^◌, ◌<◌, ◌≤◌, ◌≡◌, ◌⊎◌, inl, inr, refl, sym, ap, subst, ◌↔◌, ◌∙◌, Bool, true, false,
  not, ◌&&◌, ltb, leb, ◌==◌, arith, List, [], ◌∷◌, length, Bool-cases, ℤ, pos, negsuc, neg, abs,
  is_zero,
}
use communication_in_critica.Channel.Sptp.{
  Sptp, Effect, jumps, send_sync_request, receive_sync, apply_measure, raw_offset, raw_delay,
  averaged, sync_kind, min_offset_ns, max_offset_ns,
}
use communication_in_critica.Channel.Sptp.Wire.{
  seq_of, t2_prime_of, sync_size, sync_bytes, seq_of-sync_bytes,
}

-- A reply is acted on if it is one, whole, and answers the request that is pending.
abbrev pub Answers : Sptp → ℕ → List ℕ → Type 0
Answers s kind payload =
    (kind ≡ sync_kind)
    × (sync_size ≤ length payload)
    × (is_zero s.pending_t2_ns ≡ false)
    × (seq_of payload ≡ s.pending_seq)

-- The guards of `receive_sync`.
abbrev guards : Sptp → ℕ → List ℕ → Bool
guards s kind payload =
    kind == sync_kind
    && (leb sync_size (length payload)
        && (not (is_zero s.pending_t2_ns) && seq_of payload == s.pending_seq))

guards-Answers :
    (s : Sptp) (kind : ℕ) (payload : List ℕ)
    → (guards s kind payload ≡ true) ↔ Answers s kind payload
guards-Answers s kind payload = ground arith

-- What a slave does with the packet that it waits for.
abbrev measured : Sptp → ℤ → List ℕ → ℤ → ℕ → Sptp × List Effect
measured s t1 payload t1' steady =
    apply_measure s (raw_offset t1 t1' s.pending_t2_ns (t2_prime_of payload))
      (raw_delay t1 t1' s.pending_t2_ns (t2_prime_of payload)) steady

module _ (s : Sptp) (kind : ℕ) (t1 : ℤ) (payload : List ℕ) (t1' : ℤ) (steady : ℕ) where
  taken :
      Answers s kind payload
      → receive_sync s kind t1 payload t1' steady ≡ measured s t1 payload t1' steady
  unfolding receive_sync
  taken h = rw ((guards-Answers s kind payload).1 h) refl

  taken-cases : (receive_sync s kind t1 payload t1' steady ≡ (s, [])) ⊎ Answers s kind payload
  unfolding receive_sync
  taken-cases = elim (Bool-cases (guards s kind payload)) [
    | inl e ↦ inr ((guards-Answers s kind payload).0 e)
    | inr e ↦ inl (rw e refl)
  ]

module _ (s : Sptp) (offset delay : ℤ) (steady : ℕ) where
  apply_measure-pending : (apply_measure s offset delay steady).0.pending_t2_ns ≡ pos 0
  unfolding apply_measure
  apply_measure-pending = elim (Bool-cases (leb max_offset_ns (abs offset))) [
    | inl e ↦ rw e refl
    | inr e ↦ rw e refl
  ]

  apply_measure-jump :
      (delta : ℤ)
      → (apply_measure s offset delay steady).1 ≡ jumps delta ∷ []
      → (delta ≡ neg offset)
        × (min_offset_ns < abs offset)
        × (abs offset < max_offset_ns)
        × ((apply_measure s offset delay steady).0.sync_count ≡ s.sync_count + 1)
  unfolding apply_measure
  apply_measure-jump delta h = elim (Bool-cases (leb max_offset_ns (abs offset))) [
    | inl e ↦ absurd (ground (arith, (rw e at h)))
    | inr e ↦ elim (Bool-cases (ltb min_offset_ns (abs offset))) [
      | inl t ↦ rw e (ground (arith, (rw (e, t) at h)), ground (arith, t), ground (arith, e), refl)
      | inr t ↦ absurd (ground (arith, (rw (e, t) at h)))
    ]
  ]

abs-neg : (x : ℤ) → abs (neg x) ≡ abs x
abs-neg (pos n) = ground arith
abs-neg (negsuc n) = ground arith

true≢false : true ≡ false → ⊥
true≢false e = ground (arith, e)

nothing_sent : (delta : ℤ) → [] ≡ jumps delta ∷ [] → ⊥
nothing_sent delta e = ground (arith, e)

other_seq : (n : ℕ) → n < 2 ^ 32 → n ≡ (n + 1) % 2 ^ 32 → ⊥
other_seq n h e = omega arith

-- Of a reply that comes twice, the second does nothing, whatever came of the first.
replay_ignored :
    (s : Sptp) (kind kind' : ℕ) (t1 u1 t1' u1' : ℤ) (payload payload' : List ℕ) (steady steady' : ℕ)
    → Answers s kind payload
    → let after = (receive_sync s kind t1 payload t1' steady).0 in
      receive_sync after kind' u1 payload' u1' steady' ≡ (after, [])
replay_ignored s kind kind' t1 u1 t1' u1' payload payload' steady steady' h =
    let after = (receive_sync s kind t1 payload t1' steady).0 in
    let none_pending : after.pending_t2_ns ≡ pos 0 =
      ap (λ x. x.0.pending_t2_ns) (taken s kind t1 payload t1' steady h)
      ∙ apply_measure-pending s _ _ steady in
    elim (taken-cases after kind' u1 payload' u1' steady') [
      | inl e ↦ e
      | inr (_, _, waits, _) ↦ absurd (true≢false (sym (ap is_zero none_pending) ∙ waits))
    ]

-- The clock jumps only by the negative of the measured offset, and only if that is more than 100
-- microseconds and less than a second; then the round counts.
pub jump_bounded :
    (s : Sptp) (kind : ℕ) (t1 : ℤ) (payload : List ℕ) (t1' : ℤ) (steady : ℕ) (delta : ℤ)
    → (receive_sync s kind t1 payload t1' steady).1 ≡ jumps delta ∷ []
    → (delta ≡ neg (raw_offset t1 t1' s.pending_t2_ns (t2_prime_of payload)))
      × (min_offset_ns < abs delta)
      × (abs delta < max_offset_ns)
      × ((receive_sync s kind t1 payload t1' steady).0.sync_count ≡ s.sync_count + 1)
      × Answers s kind payload
jump_bounded s kind t1 payload t1' steady delta h =
    elim (taken-cases s kind t1 payload t1' steady) [
      | inl e ↦ absurd (nothing_sent delta (sym (ap (λ x. x.1) e) ∙ h))
      | inr answers ↦
          let same = taken s kind t1 payload t1' steady answers in
          let (is_neg, above, below, counts) =
            apply_measure-jump s _ _ steady delta (sym (ap (λ x. x.1) same) ∙ h) in
          let size =
            ap abs is_neg ∙ abs-neg (raw_offset t1 t1' s.pending_t2_ns (t2_prime_of payload)) in
          (
            is_neg,
            subst (λ n. min_offset_ns < n) (sym size) above,
            subst (λ n. n < max_offset_ns) (sym size) below,
            ap (λ x. x.0.sync_count) same ∙ counts,
            answers,
          )
    ]

-- The average of the delay stays under any bound of the average so far and the sample.
pub averaged-le :
    (current bound : ℕ) (raw : ℤ) → current ≤ bound → abs raw ≤ bound → averaged current raw ≤ bound
averaged-le current bound (pos raw) h k = ground arith
averaged-le current bound (negsuc raw) h k = h

-- Once a second request is sent, a reply to the first does nothing.
pub superseded_ignored :
    (s : Sptp) (now tx now' tx' : ℤ) (kind : ℕ) (t1 : ℤ) (t2' : ℕ) (t1' : ℤ) (steady : ℕ)
    → s.next_seq < 2 ^ 32
    → let first = (send_sync_request s now tx).0 in
      let second = (send_sync_request first now' tx').0 in
      receive_sync second kind t1 (sync_bytes first.pending_seq t2') t1' steady ≡ (second, [])
unfolding send_sync_request
superseded_ignored s now tx now' tx' kind t1 t2' t1' steady small =
    let first = (send_sync_request s now tx).0 in
    let second = (send_sync_request first now' tx').0 in
    elim (taken-cases second kind t1 (sync_bytes first.pending_seq t2') t1' steady) [
      | inl e ↦ e
      | inr (_, _, _, same) ↦
          absurd (other_seq s.next_seq small (sym (seq_of-sync_bytes s.next_seq t2' small) ∙ same))
    ]
