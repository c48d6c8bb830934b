-- ===== src/SmartData/Exchange/Brokering.antt =====
-- The way of an interest from a consumer in a vehicle to the broker of a road-side unit.
use communication_in_critica.Network.Nic.{Nic}
use communication_in_critica.Channel.Address.{Address}
use communication_in_critica.Communication.Message.{Message}
use communication_in_critica.Communication.Communicator.{Communicator}
use communication_in_critica.SmartData.Smart.{Smart}
