-- ===== src/Channel/Protocol/Session/History.antt =====
-- What the gateway's clock synchronisation lives through once it is started: frames that the socket's
-- NIC sends, rounds of the watchdog's thread, and packets for the synchronisation.
use communication_in_critica.Prelude.{
  ℕ, ◌+◌, is_zero, length, abs, ◌≡◌, refl, sym, subst, ap, ◌∙◌, Bool, true, false, not, ◌&&◌, ◌||◌,
  List, [], ◌∷◌, Option, none, some, if◌then◌else◌, ◌==◌, ltb, leb, ℤ, Bool-cases, inl, inr,
}
use communication_in_critica.Gps.Device.{quadrant_none}
use communication_in_critica.Network.Nic.{Nic, send, detect_quadrant_change}
use communication_in_critica.Channel.Address.{Address}
use communication_in_critica.Channel.Sptp.Wire.{request_size, sync_size, seq_of, t2_prime_of}
use communication_in_critica.Channel.Sptp.{
  Sptp, raw_offset, raw_delay, send_sync_request, watch, request_resync, on_receive,
  receive_request, receive_sync, apply_measure, max_silence_ns, max_offset_ns, request_kind,
  sync_kind,
}
use communication_in_critica.Channel.Protocol.Session.{Session, send_noticing, on_quadrant_change}

pub data Event : Type 0 where
  sending : (idx q : ℕ) (bytes : Option ℕ) (now tx_ts : ℤ) → Event
  round : (steady : ℕ) (now tx_ts : ℤ) → Event
  packet :
      (kind : ℕ) (sender : Address) (header_ts : ℤ) (payload : List ℕ) (t2' : ℕ) (t1' : ℤ)
      (steady : ℕ)
      → Event

-- A call of the session's SPTP, if there is one.
abbrev pub with_sptp : Session → (Sptp → Sptp) → Session
with_sptp s f = elim s.sptp [ none ↦ s | some p ↦ record s { sptp = some (f p) } ]

unfoldable pub step : Session × Nic → Event → Session × Nic
unfolding send_noticing send
step (s, n) (sending idx q bytes now tx_ts) =
    ((send_noticing s n idx q bytes now tx_ts).0, (send n idx q bytes).nic)
step (s, n) (round steady now tx_ts) = (with_sptp s (λ p. (watch p steady now tx_ts).0), n)
step (s, n) (packet kind sender header_ts payload t2' t1' steady) =
    (with_sptp s (λ p. (on_receive p kind sender header_ts payload t2' t1' steady).0), n)

unfoldable pub run : Session × Nic → List Event → Session × Nic
unfolding step
run x [] = x
run x (e ∷ es) = run (step x e) es

-- The last known quadrant of the frames sent, after `last`.
unfoldable pub last_known : ℕ → List Event → ℕ
last_known last [] = last
last_known last (sending idx q bytes now tx_ts ∷ es) =
    last_known (if q == quadrant_none then last else q) es
last_known last (round steady now tx_ts ∷ es) = last_known last es
last_known last (packet kind sender header_ts payload t2' t1' steady ∷ es) = last_known last es

-- The synchronisation is on, in its role.
abbrev pub RunsAs : Bool → Sptp → Type 0
RunsAs is_master p = (p.is_master ≡ is_master) × (p.running ≡ not is_master)

abbrev pub IsOn : Bool → Session → Type 0
IsOn is_master s = (p : Sptp) × (s.sptp ≡ some p) × RunsAs is_master p

watch-RunsAs :
    (m : Bool) (p : Sptp) (steady : ℕ) (now tx_ts : ℤ)
    → RunsAs m p
    → RunsAs m (watch p steady now tx_ts).0
unfolding watch send_sync_request
watch-RunsAs m p steady now tx_ts h =
    let silent = not p.first_sync_done || ltb (p.last_sync_steady_ns + max_silence_ns) steady in
    elim (Bool-cases (p.running && silent)) [ inl e ↦ rw (e, watch) h | inr e ↦ rw (e, watch) h ]

request_resync-RunsAs :
    (m : Bool) (p : Sptp) (now tx_ts : ℤ) → RunsAs m p → RunsAs m (request_resync p now tx_ts).0
unfolding request_resync send_sync_request
request_resync-RunsAs m p now tx_ts h = elim (Bool-cases (p.is_master || not p.running)) [
  | inl e ↦ rw e h
  | inr e ↦ rw e h
]

receive_request-RunsAs :
    (m : Bool) (p : Sptp) (kind : ℕ) (sender : Address) (payload : List ℕ) (now : ℕ)
    → RunsAs m p
    → RunsAs m (receive_request p kind sender payload now).0
unfolding receive_request
receive_request-RunsAs m p kind sender payload now h =
    elim (Bool-cases (kind == request_kind && leb request_size (length payload))) [
      | inl e ↦ rw (e, receive_request) h
      | inr e ↦ rw (e, receive_request) h
    ]

apply_measure-RunsAs :
    (m : Bool) (p : Sptp) (offset delay : ℤ) (steady : ℕ)
    → RunsAs m p
    → RunsAs m (apply_measure p offset delay steady).0
unfolding apply_measure
apply_measure-RunsAs m p offset delay steady h =
    elim (Bool-cases (leb max_offset_ns (abs offset))) [
      | inl e ↦ rw (e, apply_measure) h
      | inr e ↦ rw (e, apply_measure) h
    ]

receive_sync-RunsAs :
    (m : Bool) (p : Sptp) (kind : ℕ) (t1 : ℤ) (payload : List ℕ) (t1' : ℤ) (steady : ℕ)
    → RunsAs m p
    → RunsAs m (receive_sync p kind t1 payload t1' steady).0
unfolding receive_sync
receive_sync-RunsAs m p kind t1 payload t1' steady h =
    let matches =
      kind == sync_kind
      && (leb sync_size (length payload)
          && (not (is_zero p.pending_t2_ns) && seq_of payload == p.pending_seq)) in
    elim (Bool-cases matches) [
      | inl e ↦
          rw (e, receive_sync)
            (apply_measure-RunsAs m p (raw_offset t1 t1' p.pending_t2_ns (t2_prime_of payload))
              (raw_delay t1 t1' p.pending_t2_ns (t2_prime_of payload)) steady h)
      | inr e ↦ rw (e, receive_sync) h
    ]

on_receive-RunsAs :
    (m : Bool) (p : Sptp) (kind : ℕ) (sender : Address) (header_ts : ℤ) (payload : List ℕ) (t2' : ℕ)
    (t1' : ℤ) (steady : ℕ)
    → RunsAs m p
    → RunsAs m (on_receive p kind sender header_ts payload t2' t1' steady).0
unfolding on_receive
on_receive-RunsAs m p kind sender header_ts payload t2' t1' steady h =
    let master = receive_request p kind sender payload t2' in
    let slave = receive_sync p kind header_ts payload t1' steady in
    let same = λ (b : Bool) (e : p.is_master ≡ b). sym (ap (λ c. if c then master else slave) e) in
    elim (Bool-cases p.is_master) [
      | inl e ↦
          subst (λ x. RunsAs m x.0) (same true e)
            (receive_request-RunsAs m p kind sender payload t2' h)
      | inr e ↦
          subst (λ x. RunsAs m x.0) (same false e)
            (receive_sync-RunsAs m p kind header_ts payload t1' steady h)
    ]

with_sptp-IsOn :
    (m : Bool) (s : Session) (f : Sptp → Sptp)
    → ((p : Sptp) → RunsAs m p → RunsAs m (f p))
    → IsOn m s
    → IsOn m (with_sptp s f)
with_sptp-IsOn m s f keeps (p, on, h) = rw on (f p, refl, keeps p h)

on_quadrant_change-IsOn :
    (m : Bool) (s : Session) (now tx_ts : ℤ) → IsOn m s → IsOn m (on_quadrant_change s now tx_ts).0
unfolding on_quadrant_change
on_quadrant_change-IsOn m s now tx_ts (p, on, h) =
    rw (on, on_quadrant_change)
      ((request_resync p now tx_ts).0, refl, request_resync-RunsAs m p now tx_ts h)

step-IsOn : (m : Bool) (x : Session × Nic) (e : Event) → IsOn m x.0 → IsOn m (step x e).0
unfolding step
step-IsOn m (s, n) (sending idx q bytes now tx_ts) h =
    elim (Bool-cases (send n idx q bytes).quadrant_changed) [
      | inl e ↦ rw (e, send_noticing) (on_quadrant_change-IsOn m s now tx_ts h)
      | inr e ↦ rw (e, send_noticing) h
    ]
step-IsOn m (s, n) (round steady now tx_ts) h =
    with_sptp-IsOn m s _ (λ p k. watch-RunsAs m p steady now tx_ts k) h
step-IsOn m (s, n) (packet kind sender header_ts payload t2' t1' steady) h =
    with_sptp-IsOn m s _
      (λ p k. on_receive-RunsAs m p kind sender header_ts payload t2' t1' steady k) h

pub run-IsOn : (m : Bool) (x : Session × Nic) (es : List Event) → IsOn m x.0 → IsOn m (run x es).0
unfolding run
run-IsOn m x [] h = h
run-IsOn m x (e ∷ es) h = run-IsOn m (step x e) es (step-IsOn m x e h)

last_quadrant-send :
    (n : Nic) (idx q : ℕ) (bytes : Option ℕ)
    → (send n idx q bytes).nic.last_quadrant ≡ (if q == quadrant_none then n.last_quadrant else q)
unfolding send detect_quadrant_change
last_quadrant-send n idx q bytes = elim (Bool-cases (q == quadrant_none)) [
  | inl e ↦ rw e refl
  | inr e ↦ rw e refl
]

-- The NIC remembers the last known quadrant of the frames sent.
pub run-last_quadrant :
    (es : List Event) (s : Session) (n : Nic)
    → (run (s, n) es).1.last_quadrant ≡ last_known n.last_quadrant es
unfolding run step last_known
run-last_quadrant [] s n = refl
run-last_quadrant (sending idx q bytes now tx_ts ∷ es) s n =
    run-last_quadrant es (send_noticing s n idx q bytes now tx_ts).0 (send n idx q bytes).nic
    ∙ ap (λ l. last_known l es) (last_quadrant-send n idx q bytes)
run-last_quadrant (round steady now tx_ts ∷ es) s n =
    run-last_quadrant es (with_sptp s (λ p. (watch p steady now tx_ts).0)) n
run-last_quadrant (packet kind sender header_ts payload t2' t1' steady ∷ es) s n =
    run-last_quadrant es
      (with_sptp s (λ p. (on_receive p kind sender header_ts payload t2' t1' steady).0)) n
