-- ===== src/Channel/Protocol/Session/Tests.antt =====
-- A vehicle's gateway that starts the synchronisation in quadrant 1 and sends a frame in quadrant 2.
use communication_in_critica.Prelude.{
  ℕ, List, ◌≡◌, refl, false, true, not, ◌&&◌, [], ◌∷◌, some, if◌then◌else◌, pos,
}
use communication_in_critica.Network.Nic.{Nic}
use communication_in_critica.Network.Nic.Fixtures.{clean, vehicle}
use communication_in_critica.Channel.Protocol.Session.{Session, session, enable_sync, send_noticing}
use communication_in_critica.Channel.Protocol.Session.History.{
  Event, sending, round, run, last_known,
}
use communication_in_critica.Channel.Protocol.Session.Resync.{
  request, moved, quadrant_change_resyncs,
}

abbrev here : Nic
here = record clean { last_quadrant = 1 }

abbrev fresh : Session
fresh = session 1 vehicle true []

-- It sent a frame without a fix, and its watchdog found the master silent.
abbrev history : List Event
history =
    sending 3 255 (some 60) (pos 7) (pos 8)
    ∷ round 3000000000 (pos 9) (pos 10)
    ∷ sending 4 3 (some 60) (pos 11) (pos 12)
    ∷ []

quadrant_change_resyncs_example :
    let (running, first) = enable_sync false fresh 5 (pos 6) (pos 7) in
    let (s', n') = run (running, here) history in
    (first ≡ (if false then [] else request 1 ∷ []))
    × ((seq : ℕ) × ((send_noticing s' n' 3 2 (some 60) (pos 13) (pos 14)).1
          ≡ (if not false && moved (last_known 1 history) 2 then request seq ∷ [] else [])))
unfolding session
quadrant_change_resyncs_example =
    quadrant_change_resyncs fresh false ((1, 0x8888) ∷ []) here 3 2 5 (some 60) (pos 6) (pos 7)
      (pos 13) (pos 14) history refl refl
