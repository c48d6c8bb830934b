-- ===== src/Channel/Protocol/Session/Resync.antt =====
-- When a gateway asks for a synchronisation of its clock.
use communication_in_critica.Prelude.{
  ℕ, ◌≡◌, refl, ap, subst, ◌∙◌, Bool, true, false, not, ◌&&◌, List, [], ◌∷◌, Option, none, some,
  if◌then◌else◌, ◌==◌, ℤ, Bool-cases, inl, inr,
}
use communication_in_critica.Gps.Device.{quadrant_none}
use communication_in_critica.Network.Nic.{Nic, send, detect_quadrant_change}
use communication_in_critica.Channel.Address.{physical_broadcast}
use communication_in_critica.Channel.Sptp.{
  Effect, sends, create, start, send_sync_request, request_resync, gateway_port, request_kind,
}
use communication_in_critica.Channel.Sptp.Wire.{request_bytes}
use communication_in_critica.Channel.Protocol.{Observed}
use communication_in_critica.Channel.Protocol.Session.History.{
  Event, run, last_known, IsOn, run-IsOn, run-last_quadrant,
}
use communication_in_critica.Channel.Protocol.Session.{
  Session, started, enable_sync, on_quadrant_change, send_noticing,
}

-- A request for a synchronisation, with its number.
abbrev pub request : ℕ → Effect
request seq = sends (physical_broadcast gateway_port) request_kind (request_bytes seq)

-- whether the quadrants of two frames that are sent differ, and both are known
abbrev pub moved : ℕ → ℕ → Bool
moved last q = not (q == quadrant_none) && (not (last == quadrant_none) && not (last == q))

quadrant_changed-send :
    (n : Nic) (idx q : ℕ) (bytes : Option ℕ)
    → (send n idx q bytes).quadrant_changed ≡ moved n.last_quadrant q
unfolding send detect_quadrant_change
quadrant_changed-send n idx q bytes = elim (Bool-cases (q == quadrant_none)) [
  | inl e ↦ rw e refl
  | inr e ↦ rw e refl
]

send_noticing-moved :
    (s : Session) (n : Nic) (idx q : ℕ) (bytes : Option ℕ) (now tx_ts : ℤ)
    → send_noticing s n idx q bytes now tx_ts
      ≡ (if moved n.last_quadrant q then on_quadrant_change s now tx_ts else (s, []))
unfolding send_noticing
send_noticing-moved s n idx q bytes now tx_ts =
    ap (λ b. if b then on_quadrant_change s now tx_ts else (s, []))
      (quadrant_changed-send n idx q bytes)

enable_sync-started :
    (s : Session) (is_master : Bool) (observers : Observed) (steady : ℕ) (now tx_ts : ℤ)
    → s.socket_observers ≡ some observers
    → s.sptp ≡ none
    → enable_sync is_master s steady now tx_ts ≡ started is_master s steady now tx_ts
unfolding enable_sync
enable_sync-started s is_master observers steady now tx_ts sock fresh =
    let running = started is_master s steady now tx_ts in
    ap (λ o. elim o [ none ↦ (s, []) | some _ ↦ elim s.sptp [ none ↦ running | some _ ↦ (s, []) ] ])
      sock
    ∙ ap (λ p. elim p [ none ↦ running | some _ ↦ (s, []) ]) fresh

-- Once it is started, it is on, in its role.
started-IsOn :
    (is_master : Bool) (s : Session) (steady : ℕ) (now tx_ts : ℤ)
    → ((started is_master s steady now tx_ts).1 ≡ (if is_master then [] else request 1 ∷ []))
      × IsOn is_master (started is_master s steady now tx_ts).0
unfolding started create start send_sync_request
started-IsOn true s steady now tx_ts = (refl, (_, refl, (refl, refl)))
started-IsOn false s steady now tx_ts = (refl, (_, refl, (refl, refl)))

-- A change of the quadrant makes one that is on request, unless it is the master.
on_quadrant_change-request :
    (is_master : Bool) (s : Session) (now tx_ts : ℤ)
    → IsOn is_master s
    → (seq : ℕ) × ((on_quadrant_change s now tx_ts).1
        ≡ (if is_master then [] else request seq ∷ []))
unfolding on_quadrant_change request_resync send_sync_request
on_quadrant_change-request true s now tx_ts (p, on, (master, runs)) =
    (0, rw (on, on_quadrant_change, master, request_resync) refl)
on_quadrant_change-request false s now tx_ts (p, on, (slave, runs)) =
    (p.next_seq, rw (on, on_quadrant_change, slave, runs, request_resync) refl)

when_moved :
    (moves is_master : Bool) (s : Session) (seq : ℕ) (out : Session × List Effect)
    → out.1 ≡ (if is_master then [] else request seq ∷ [])
    → (if moves then out else (s, [])).1 ≡ (if not is_master && moves then request seq ∷ [] else [])
when_moved true true s seq out e = e
when_moved true false s seq out e = e
when_moved false true s seq out e = refl
when_moved false false s seq out e = refl

-- A gateway that starts the synchronisation requests one at once if it is not the master. From then
-- on, after any frames sent, rounds of the watchdog and packets for the synchronisation, a frame
-- that it sends makes it request another if and only if it is not the master and the frame's quadrant
-- is known and differs from the last known one of the frames before it. The last is the NIC's at the
-- start if no frame since was at a known quadrant.
pub quadrant_change_resyncs :
    (s : Session) (is_master : Bool) (observers : Observed) (n : Nic) (idx q steady : ℕ)
    (bytes : Option ℕ) (now tx_ts later tx_later : ℤ) (history : List Event)
    → s.socket_observers ≡ some observers
    → s.sptp ≡ none
    → let (running, first) = enable_sync is_master s steady now tx_ts in
      let (s', n') = run (running, n) history in
      (first ≡ (if is_master then [] else request 1 ∷ []))
      × ((seq : ℕ) × ((send_noticing s' n' idx q bytes later tx_later).1 ≡ (
            if not is_master && moved (last_known n.last_quadrant history) q
            then request seq ∷ []
            else [])))
quadrant_change_resyncs s is_master observers n idx q steady bytes now tx_ts later tx_later history
      sock fresh =
    let (first, on) = started-IsOn is_master s steady now tx_ts in
    let running = (started is_master s steady now tx_ts).0 in
    let (s', n') = run (running, n) history in
    let (seq, requests) =
      on_quadrant_change-request is_master s' later tx_later
        (run-IsOn is_master (running, n) history on) in
    let noticed =
      ap (λ x. x.1) (send_noticing-moved s' n' idx q bytes later tx_later)
      ∙ when_moved (moved n'.last_quadrant q) is_master s' seq _ requests in
    rw (enable_sync-started s is_master observers steady now tx_ts sock fresh) (
      first,
      (
        seq,
        subst
            (λ l.
              (send_noticing s' n' idx q bytes later tx_later).1
              ≡ (if not is_master && moved l q then request seq ∷ [] else []))
            (run-last_quadrant history running n) noticed,
      ),
    )
