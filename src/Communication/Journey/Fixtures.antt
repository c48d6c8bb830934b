-- ===== src/Communication/Journey/Fixtures.antt =====
-- Two vehicles whose NICs are idle, for the tests of what crosses between them.
use communication_in_critica.Prelude.{refl, [], some, true, false, Bool}
use communication_in_critica.Ethernet.{Mac, internal}
use communication_in_critica.Network.Nic.{Nic, frame_bytes}
use communication_in_critica.Network.Nic.Fixtures.{clean, down, length-zeros}
use communication_in_critica.Channel.Protocol.{Gateway, Engines}
use communication_in_critica.Communication.Journey.{IsReady}

abbrev pub inner : Nic
inner = record clean { address = internal; writes_quadrant = false }

abbrev pub neighbor : Mac
neighbor = record { b0 = 2; b1 = 0; b2 = 0; b3 = 0; b4 = 0; b5 = 7 }

abbrev pub gateway_at : Mac → Gateway
gateway_at a = record {
  shm = inner;
  socket = record clean { address = a };
  address = internal;
  observed = [];
  has_sptp = true;
}

abbrev pub engines : Engines
engines = record { quadrant = 2; socket_bytes = some 33; shm_bytes = some 33 }

pub ready : (a : Mac) (w : Bool) → IsReady (record clean { address = a; writes_quadrant = w }) 99
ready a w = record { rest = down 99; is_free = refl; whole = length-zeros frame_bytes }
