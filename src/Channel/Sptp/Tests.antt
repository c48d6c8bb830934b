-- ===== src/Channel/Sptp/Tests.antt =====
-- A vehicle whose clock is 1500 microseconds ahead, and a road-side unit.
use communication_in_critica.Prelude.{
  ℕ, ◌+◌, ◌*◌, ◌<◌, ◌≤◌, ◌≡◌, refl, List, [], ◌∷◌, true, false, arith, pos, negsuc, ◌+ℤ◌, neg, abs,
  diff, to_bytes, from_bytes,
}
use communication_in_critica.Channel.Address.{Address}
use communication_in_critica.Channel.Sptp.{
  Sptp, create, receive_sync, apply_measure, jumps, sync_kind, min_offset_ns, max_offset_ns,
  raw_offset,
}
use communication_in_critica.Channel.Sptp.Wire.{sync_bytes, seq_of, t2_prime_of}
use communication_in_critica.Channel.Sptp.Measure.{slave_clock}
use communication_in_critica.Channel.Sptp.Round.{round, jumped, round-error}
use communication_in_critica.Channel.Sptp.Stale.{Answers, jump_bounded}

abbrev vehicle : Address
vehicle = record { paddr = record { b0 = 2; b1 = 0; b2 = 0; b3 = 0; b4 = 0; b5 = 9 }; port = 0 }

abbrev slave : Sptp
slave = record {
  is_master = false;
  current_delay_ns = 100000;
  current_offset_ns = pos 0;
  pending_t2_ns = pos 0;
  pending_seq = 0;
  next_seq = 1;
  last_sync_steady_ns = 0;
  running = true;
  sync_count = 0;
  resync_requests = 0;
  first_sync_done = false;
}

created : create false ≡ record slave { running = false }
unfolding create
created = refl

-- The request takes 200 microseconds, the reply 300.
round-error_example :
    let (after, effects) =
      round slave slave vehicle
        (pos 1)
        (slave_clock (pos 1500000) 5000000)
        (5000000 + 200000)
        (pos 6000000)
        (slave_clock (pos 1500000) (6000000 + 300000))
        7 in
    (after.sync_count ≡ 0 + 1)
    × (2 * abs (pos 1500000 +ℤ jumped effects) ≤ 2 * min_offset_ns + (abs (diff 300000 200000) + 1))
round-error_example =
    round-error slave slave vehicle (pos 1) (pos 1500000) 5000000 200000 6000000 300000 7
      (omega arith) (omega arith) refl (omega arith)

-- It waits for the reply to its request 1.
abbrev waiting : Sptp
waiting = record slave { pending_t2_ns = pos 6500000; pending_seq = 1; next_seq = 2 }

abbrev reply : List ℕ
reply = 1 ∷ 0 ∷ 0 ∷ 0 ∷ 128 ∷ 88 ∷ 79 ∷ 0 ∷ 0 ∷ 0 ∷ 0 ∷ 0 ∷ []

reply-bytes : sync_bytes 1 5200000 ≡ reply
unfolding sync_bytes to_bytes
reply-bytes = refl

answers : Answers waiting sync_kind reply
unfolding seq_of from_bytes
answers = (refl, omega arith, refl, refl)

jump :
    (receive_sync waiting sync_kind (pos 6000000) reply (pos 7800000) 7).1
    ≡ jumps (negsuc 1549999) ∷ []
unfolding receive_sync apply_measure seq_of t2_prime_of from_bytes
jump = refl

jump_bounded_example :
    (negsuc 1549999
      ≡ neg (raw_offset (pos 6000000) (pos 7800000) (pos 6500000) (t2_prime_of reply)))
    × (min_offset_ns < 1550000)
    × (1550000 < max_offset_ns)
    × ((receive_sync waiting sync_kind (pos 6000000) reply (pos 7800000) 7).0.sync_count ≡ 0 + 1)
    × Answers waiting sync_kind reply
jump_bounded_example =
    jump_bounded waiting sync_kind (pos 6000000) reply (pos 7800000) 7 (negsuc 1549999) jump
