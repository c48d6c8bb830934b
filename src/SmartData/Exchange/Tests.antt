-- ===== src/SmartData/Exchange/Tests.antt =====
-- A producer of the speed and a consumer of it, in two vehicles of a network.
use communication_in_critica.Prelude.{
  ◌+◌, ◌*◌, ℕ, List, ◌≡◌, ◌⊎◌, refl, true, false, [], ◌∷◌, some, none, if◌then◌else◌, ltb, ◌==◌,
  arith,
}
use communication_in_critica.Channel.Address.{Address}
use communication_in_critica.Channel.Protocol.{has_observer}
use communication_in_critica.Network.Nic.Fixtures.{vehicle}
use communication_in_critica.Communication.Message.{Message}
use communication_in_critica.Communication.Communicator.{Communicator, communicator}
use communication_in_critica.SmartData.Helpers.{speed}
use communication_in_critica.SmartData.Smart.{
  Smart, producer, consumer, respond, interest_payload, update, expired, value_ttl_factor,
  binding_lifetime_min_us, binding_lifetime_factor,
}
use communication_in_critica.SmartData.BindingCache.Refine.{IsValid, view, lease_step, disinterest}
use communication_in_critica.SmartData.BindingCache.Service.{empty-IsValid}
use communication_in_critica.SmartData.Exchange.Across.{value_across}
use communication_in_critica.Ethernet.{internal}
use communication_in_critica.Communication.Communicator.Delivery.{Heard}
use communication_in_critica.Channel.Protocol.Events.{shm_drops}
use communication_in_critica.Communication.Journey.{passes, across}
use communication_in_critica.Communication.Journey.Fixtures.{
  inner, neighbor, gateway_at, engines, ready,
}
use communication_in_critica.SmartData.Exchange.Asking.{interest_across}

abbrev lidar : Address
lidar = record { paddr = vehicle; port = 0x102 }

abbrev braking : Address
braking = record { paddr = vehicle; port = 0x201 }

abbrev sender : Communicator
sender = (communicator 1 lidar true []).0

abbrev client : Smart
client = (consumer speed 2 100000 true true 1).0

valid : IsValid (producer speed 2).cache
unfolding producer
valid = empty-IsValid binding_lifetime_min_us binding_lifetime_factor

value_across_example :
    let arrived =
      across 14 sender inner
        (respond (producer speed 2) (42 ∷ 7 ∷ [])).1
        77
        80
        255
        (some 37)
        (gateway_at vehicle)
        engines
        (gateway_at neighbor)
        engines in
    ((passes (some 37) (gateway_at vehicle) engines (gateway_at neighbor) engines ≡ false)
      × (arrived ≡ none))
    ⊎ ((passes (some 37) (gateway_at vehicle) engines (gateway_at neighbor) engines ≡ true)
        × ((f : List ℕ) × (message : Message) × (arrived ≡ some f)
            × Heard 14 2 braking [] ((5, 65535) ∷ []) inner shm_drops 99 f message
            × ((update client 90 message).smart.last_value ≡ 42 ∷ 7 ∷ [])
            × (expired (update client 90 message).smart 500
                ≡ ltb (90 + value_ttl_factor * client.period_us * 1000) 500)))
unfolding producer consumer has_observer
value_across_example =
    value_across 14 2 sender braking ((5, 65535) ∷ []) [] 77 80 90 500 255 (some 37) inner inner
      (gateway_at vehicle) (gateway_at neighbor) engines engines 99 99 99 99 99 99
      (producer speed 2) client (42 ∷ 7 ∷ []) (omega arith) (omega arith) (omega arith)
      (omega arith) (omega arith) (omega arith) refl refl refl (ready internal false)
      (ready internal false) (ready vehicle true) (ready neighbor true) (ready internal false)
      (ready internal false) refl refl (omega arith) refl refl

interest_across_example :
    let arrived =
      across 14 sender inner
        (interest_payload client true)
        77
        80
        255
        (some 44)
        (gateway_at vehicle)
        engines
        (gateway_at neighbor)
        engines in
    ((passes (some 44) (gateway_at vehicle) engines (gateway_at neighbor) engines ≡ false)
      × (arrived ≡ none))
    ⊎ ((passes (some 44) (gateway_at vehicle) engines (gateway_at neighbor) engines ≡ true)
        × ((f : List ℕ) × (message : Message) × (arrived ≡ some f)
            × Heard 14 2 braking [] ((5, 65535) ∷ []) inner shm_drops 99 f message
            × (view (update (producer speed 2) 90 message).smart.cache speed lidar
                ≡ lease_step
                    (producer speed 2).cache.lifetime_min_us
                    (producer speed 2).cache.lifetime_factor
                    (if (producer speed 2).last_seen_quad == 2
                      then view (producer speed 2).cache
                      else (λ _ _. none))
                    90
                    (disinterest client.unit lidar)
                    speed
                    lidar)))
unfolding producer consumer has_observer
interest_across_example =
    interest_across 14 2 sender braking ((5, 65535) ∷ []) [] 77 80 90 255 (some 44) inner inner
      (gateway_at vehicle) (gateway_at neighbor) engines engines 99 99 99 99 99 99
      (producer speed 2) client true speed lidar (omega arith) (omega arith) (omega arith)
      (omega arith) (omega arith) refl refl refl (ready internal false) (ready internal false)
      (ready vehicle true) (ready neighbor true) (ready internal false) (ready internal false) refl
      refl (omega arith) (omega arith) refl valid
