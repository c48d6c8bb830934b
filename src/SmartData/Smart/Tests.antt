-- ===== src/SmartData/Smart/Tests.antt =====
-- A producer of the speed that hears an interest.
use communication_in_critica.Prelude.{
  ◌≡◌, refl, [], ◌∷◌, none, if◌then◌else◌, ◌==◌, arith, from_bytes, pos,
}
use communication_in_critica.Channel.Address.{Address}
use communication_in_critica.SmartData.Helpers.{speed}
use communication_in_critica.SmartData.Wire.{read_header}
use communication_in_critica.SmartData.BindingCache.Refine.{IsValid, view, lease_step}
use communication_in_critica.SmartData.BindingCache.Service.{empty-IsValid}
use communication_in_critica.Communication.Message.{Message}
use communication_in_critica.SmartData.Smart.{
  producer, update, binding_lifetime_min_us, binding_lifetime_factor,
}
use communication_in_critica.SmartData.Smart.Service.{call_of, IsHeeded, producer_heeds}

abbrev port : Address
port = record { paddr = record { b0 = 2; b1 = 0; b2 = 0; b3 = 0; b4 = 1; b5 = 7 }; port = 3000 }

abbrev asked : Message
asked = record {
  payload = 0 ∷ 2 ∷ 0 ∷ 0 ∷ 0 ∷ 160 ∷ 134 ∷ 1 ∷ 0 ∷ 0 ∷ 0 ∷ 0 ∷ 0 ∷ 0 ∷ [];
  address = port;
  timestamp = pos 5;
  quadrant = 2;
}

heeded : IsHeeded (producer speed 2) asked
unfolding producer read_header from_bytes
heeded = (refl, omega arith, refl, refl)

valid : IsValid (producer speed 2).cache
unfolding producer
valid = empty-IsValid binding_lifetime_min_us binding_lifetime_factor

producer_heeds_example :
    view (update (producer speed 2) 5 asked).smart.cache speed port
    ≡ lease_step
        (producer speed 2).cache.lifetime_min_us
        (producer speed 2).cache.lifetime_factor
        (if (producer speed 2).last_seen_quad == 2
          then view (producer speed 2).cache
          else (λ _ _. none))
        5
        (call_of (producer speed 2) asked)
        speed
        port
producer_heeds_example = producer_heeds (producer speed 2) 5 asked speed port heeded valid
