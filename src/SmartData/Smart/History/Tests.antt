-- ===== src/SmartData/Smart/History/Tests.antt =====
-- A consumer of the speed that hears an interest and a response, which its application takes.
use communication_in_critica.Prelude.{◌≡◌, refl, List, [], ◌∷◌, true, false, pos, from_bytes}
use communication_in_critica.Channel.Address.{Address}
use communication_in_critica.SmartData.Helpers.{speed}
use communication_in_critica.SmartData.Wire.{read_header}
use communication_in_critica.Communication.Message.{Message}
use communication_in_critica.SmartData.Smart.{consumer}
use communication_in_critica.SmartData.Smart.History.{Call, hears, takes, newborn, run}
use communication_in_critica.SmartData.Smart.History.Accounts.{Account, responses_accounted}

abbrev braking : Address
braking = record { paddr = record { b0 = 2; b1 = 0; b2 = 0; b3 = 0; b4 = 1; b5 = 7 }; port = 2002 }

abbrev wish : Message
wish = record {
  payload = 0 ∷ 2 ∷ 0 ∷ 0 ∷ 0 ∷ 160 ∷ 134 ∷ 1 ∷ 0 ∷ 0 ∷ 0 ∷ 0 ∷ 0 ∷ 0 ∷ [];
  address = braking;
  timestamp = pos 5;
  quadrant = 2;
}

abbrev reply : Message
reply = record wish { payload = 1 ∷ 2 ∷ 0 ∷ 0 ∷ 0 ∷ 42 ∷ 7 ∷ [] }

abbrev calls : List Call
calls = hears 8 wish ∷ hears 9 reply ∷ takes ∷ hears 10 reply ∷ []

responses_accounted_example :
    Account speed false (run (newborn (consumer speed 2 100000 true false 1).0) calls)
responses_accounted_example = responses_accounted speed 2 100000 1 true false calls

reply_taken :
    let h = run (newborn (consumer speed 2 100000 true false 1).0) calls in
    (h.taken ≡ reply ∷ []) × (h.freed ≡ wish ∷ []) × (h.smart.queue ≡ reply ∷ [])
unfolding run consumer read_header from_bytes
reply_taken = (refl, refl, refl)
