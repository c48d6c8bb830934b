-- ===== src/SmartData/Exchange/BrokerTests.antt =====
-- A consumer of the speed in a vehicle, and the broker of a road-side unit that has heard another.
use communication_in_critica.Prelude.{ℕ, List, true, false, [], ◌∷◌}
use communication_in_critica.Network.Nic.Fixtures.{vehicle}
use communication_in_critica.Channel.Address.{Address}
use communication_in_critica.Communication.Message.{Message}
use communication_in_critica.Communication.Communicator.{Communicator, communicator}
use communication_in_critica.Communication.Journey.Fixtures.{neighbor}
use communication_in_critica.SmartData.Helpers.{speed}
use communication_in_critica.SmartData.Smart.{Smart, consumer, interest_payload}
use communication_in_critica.SmartData.Tracker.Runs.{Event, message, tick}

abbrev driver : Address
driver = record { paddr = vehicle; port = 0x201 }

abbrev asker : Communicator
asker = (communicator 1 driver true []).0

abbrev slow : Smart
slow = (consumer speed 2 100000 true true 1).0

abbrev quick : Smart
quick = (consumer speed 2 50000 true true 1).0

abbrev unit_address : Address
unit_address = record { paddr = neighbor; port = 0 }

abbrev before : List (ℕ × Event)
before = (40, message driver (interest_payload quick false)) ∷ (60, tick) ∷ []
