-- ===== src/Channel/Sptp/Measure.antt =====
-- What the two measures are, for a slave whose clock is ahead of the master's by `ahead`, when the
-- request travels for `d1` and the reply for `d2`.
use communication_in_critica.Prelude.{
  ℕ, ◌+◌, ◌*◌, ◌/◌, ◌≤◌, ◌≡◌, sym, ap, subst, ◌∙◌, arith, ℤ, pos, negsuc, ◌+ℤ◌, ◌-ℤ◌, half, abs,
  diff,
}
use communication_in_critica.Channel.Sptp.{raw_offset, raw_delay}

-- The reading of the slave's clock at a time of the master's.
abbrev pub slave_clock : ℤ → ℕ → ℤ
slave_clock ahead time = pos time +ℤ ahead

diff-sub : (a b c d : ℕ) → diff a b -ℤ diff c d ≡ diff (a + d) (b + c)
diff-sub a b c d = ground arith

diff-sub_pos : (a b c : ℕ) → diff a b -ℤ pos c ≡ diff a (b + c)
diff-sub_pos a b c = ground arith

pos_sub-diff : (c a b : ℕ) → pos c -ℤ diff a b ≡ diff (c + b) a
pos_sub-diff c a b = ground arith

negsuc_add-diff : (m a b : ℕ) → negsuc m +ℤ diff a b ≡ diff a (b + m + 1)
negsuc_add-diff m a b = ground arith

diff-cong : (a b c d : ℕ) → a + d ≡ c + b → diff a b ≡ diff c d
diff-cong a b c d e = ground arith

double_difference :
    (ahead : ℤ) (s d1 r d2 : ℕ)
    → (slave_clock ahead (r + d2) -ℤ pos r) -ℤ (pos (s + d1) -ℤ slave_clock ahead s)
      ≡ (ahead +ℤ ahead) +ℤ diff d2 d1
double_difference (pos n) s d1 r d2 = ground arith
double_difference (negsuc n) s d1 r d2 =
    ap (λ x. x -ℤ (pos (s + d1) -ℤ diff s (n + 1))) (diff-sub_pos (r + d2) (n + 1) r)
    ∙ ap (λ x. diff (r + d2) (n + 1 + r) -ℤ x) (pos_sub-diff (s + d1) s (n + 1))
    ∙ diff-sub (r + d2) (n + 1 + r) (s + d1 + (n + 1)) s
    ∙ diff-cong (r + d2 + s) (n + 1 + r + (s + d1 + (n + 1))) d2 (d1 + (n + n + 1) + 1)
        (omega arith)
    ∙ sym (negsuc_add-diff (n + n + 1) d2 d1)

half-error : (a e : ℤ) → 2 * abs (half ((a +ℤ a) +ℤ e) -ℤ a) ≤ abs e + 1
half-error (pos n) (pos m) = ground arith
half-error (pos n) (negsuc m) = ground arith
half-error (negsuc n) (pos m) = ground arith
half-error (negsuc n) (negsuc m) = ground arith

half-double : (a : ℤ) (d : ℕ) → half ((a +ℤ a) +ℤ diff d d) ≡ a
half-double (pos n) d = ground arith
half-double (negsuc n) d = ground arith

module _ (ahead : ℤ) (s d1 r d2 : ℕ) where
  -- With the same delay both ways the measured offset is exact.
  pub raw_offset-symmetric :
      d1 ≡ d2
      → raw_offset (pos r) (slave_clock ahead (r + d2)) (slave_clock ahead s) (pos (s + d1)) ≡ ahead
  raw_offset-symmetric e =
      ap half (double_difference ahead s d1 r d2)
      ∙ ap half (ap (λ d. (ahead +ℤ ahead) +ℤ diff d2 d) e)
      ∙ half-double ahead d2

  -- Otherwise it is off by half the difference of the delays, rounded.
  pub raw_offset-error :
      2
        * abs (
            raw_offset (pos r) (slave_clock ahead (r + d2)) (slave_clock ahead s) (pos (s + d1))
            -ℤ ahead)
      ≤ abs (diff d2 d1) + 1
  raw_offset-error =
      subst (λ x. 2 * abs (half x -ℤ ahead) ≤ abs (diff d2 d1) + 1)
        (sym (double_difference ahead s d1 r d2)) (half-error ahead (diff d2 d1))

  -- The measured delay does not depend on the clocks.
  pub raw_delay-mean :
      raw_delay (pos r) (slave_clock ahead (r + d2)) (slave_clock ahead s) (pos (s + d1))
      ≡ pos ((d1 + d2) / 2)
  raw_delay-mean = elim ahead [ pos n ↦ ground arith | negsuc n ↦ ground arith ]
