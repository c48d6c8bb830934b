-- ===== src/Communication/Journey/Tests.antt =====
-- Two vehicles in the same quadrant, and a frame of the second that the first hears.
use communication_in_critica.Prelude.{
  ℕ, ◌≡◌, ◌⊎◌, refl, [], ◌∷◌, some, none, true, false, pos, arith, List, ◌++◌, from_bytes, ◌>>=◌,
}
use communication_in_critica.Ethernet.{internal}
use communication_in_critica.Network.Nic.Fixtures.{zeros, vehicle}
use communication_in_critica.Channel.Address.{Address}
use communication_in_critica.Channel.Protocol.{has_observer}
use communication_in_critica.Communication.Communicator.{Communicator, communicator}
use communication_in_critica.Communication.Communicator.Delivery.{Heard}
use communication_in_critica.Channel.Protocol.Events.{shm_drops}
use communication_in_critica.Communication.Journey.{passes, across, uplink, downlink}
use communication_in_critica.Communication.Journey.Fixtures.{
  inner, neighbor, gateway_at, engines, ready,
}
use communication_in_critica.Communication.Journey.Across.{across_vehicles}
use communication_in_critica.Communication.Journey.Echo.{not_echoed}

abbrev radar : Address
radar = record { paddr = internal; port = 1003 }

abbrev braking : Address
braking = record { paddr = internal; port = 2002 }

abbrev sender : Communicator
sender = (communicator 1 radar true []).0

across_vehicles_example :
    let arrived =
      across 14 sender inner
        (1 ∷ 2 ∷ 3 ∷ [])
        77
        80
        255
        (some 33)
        (gateway_at vehicle)
        engines
        (gateway_at neighbor)
        engines in
    ((passes (some 33) (gateway_at vehicle) engines (gateway_at neighbor) engines ≡ false)
      × (arrived ≡ none))
    ⊎ ((passes (some 33) (gateway_at vehicle) engines (gateway_at neighbor) engines ≡ true)
        × ((f : List ℕ) × (arrived ≡ some f)
            × Heard 14 2 braking [] ((5, 65535) ∷ []) inner shm_drops 99 f (record {
              payload = 1 ∷ 2 ∷ 3 ∷ [];
              address = record { paddr = vehicle; port = 1003 };
              timestamp = pos 77;
              quadrant = 2;
            })))
unfolding has_observer
across_vehicles_example =
    across_vehicles 14 2 sender braking ((5, 65535) ∷ []) [] (1 ∷ 2 ∷ 3 ∷ []) 77 80 255 (some 33)
      inner inner (gateway_at vehicle) (gateway_at neighbor) engines engines 99 99 99 99 99 99
      (omega arith) (omega arith) (omega arith) (omega arith) (omega arith) (omega arith)
      (omega arith) refl refl refl (ready internal false) (ready internal false)
      (ready vehicle true) (ready neighbor true) (ready internal false) (ready internal false) refl

-- A frame of 33 bytes from the first vehicle.
abbrev heard_frame : List ℕ
heard_frame =
    255 ∷ 255 ∷ 255 ∷ 255 ∷ 255 ∷ 255 ∷ 2 ∷ 0 ∷ 0 ∷ 0 ∷ 0 ∷ 9 ∷ 136 ∷ 136 ∷ 77 ∷ zeros 11
    ++ 2 ∷ zeros 7

not_echoed_example :
    ((downlink 14 (gateway_at neighbor) engines heard_frame ≡ none)
      ⊎ (downlink 14 (gateway_at neighbor) engines heard_frame ≡ some heard_frame))
    × ((downlink 14 (gateway_at neighbor) engines heard_frame
          >>= uplink (gateway_at neighbor) engines)
        ≡ none)
unfolding from_bytes
not_echoed_example =
    not_echoed 14 (gateway_at neighbor) (gateway_at neighbor) engines engines heard_frame
      (omega arith) refl (λ e. ground (arith, e))
