-- ===== src/SmartData/Exchange/Across.antt =====
-- The way of a response from a producer in one vehicle to a consumer in another.
use communication_in_critica.Prelude.{
  ℕ, ◌+◌, ◌*◌, ◌^◌, ◌≤◌, ◌<◌, ◌≡◌, ◌⊎◌, refl, ◌∙◌, inl, inr, true, false, List, Option, none, some,
  ltb, length, pos, arith,
}
use communication_in_critica.Network.Nic.{Nic}
use communication_in_critica.Channel.Address.{Address, broadcast_port}
use communication_in_critica.Channel.Protocol.{Gateway, Engines, Observed, has_observer}
use communication_in_critica.Channel.Protocol.Header.{packet_header_size}
use communication_in_critica.Communication.Message.{Message, max_size}
use communication_in_critica.Communication.Communicator.{Communicator}
use communication_in_critica.Communication.Communicator.Delivery.{Heard}
use communication_in_critica.Channel.Protocol.Events.{shm_drops}
use communication_in_critica.Communication.Journey.{passes, across, IsReady}
use communication_in_critica.Communication.Journey.Across.{across_vehicles}
use communication_in_critica.SmartData.Wire.{smart_header_size}
use communication_in_critica.SmartData.Smart.{Smart, respond, update, expired, value_ttl_factor}
use communication_in_critica.SmartData.Smart.Service.{value_fresh}
use communication_in_critica.SmartData.Exchange.Payloads.{length-response, respond-IsAnswer}

-- A response that a producer's communicator broadcasts with a positive stamp, on a way where every
-- NIC has a free buffer, gives no frame in the other vehicle if an engine does not send it or that of
-- the other vehicle's gateway drops it, and otherwise is heard in that vehicle as a message that sets the value of a consumer of the unit to the one produced,
-- which is fresh for three of the consumer's periods from when it is heard.
pub value_across :
    (data_offset self : ℕ) (c : Communicator) (own : Address) (observers channel : Observed)
    (stamp now heard later q : ℕ) (bytes : Option ℕ) (n m : Nic) (here there : Gateway)
    (e e' : Engines) (k1 k2 k3 k4 k5 k6 : ℕ) (p t : Smart) (value : List ℕ)
    → 14 ≤ data_offset
    → data_offset ≤ packet_header_size
    → smart_header_size + length value ≤ max_size
    → c.address.port < 65536
    → 0 < stamp
    → stamp < 2 ^ 63
    → n.address ≡ here.address
    → here.socket.writes_quadrant ≡ true
    → there.shm.writes_quadrant ≡ false
    → IsReady n k1
    → IsReady here.shm k2
    → IsReady here.socket k3
    → IsReady there.socket k4
    → IsReady there.shm k5
    → IsReady m k6
    → has_observer broadcast_port observers ≡ true
    → p.unit ≡ t.unit
    → t.unit < 2 ^ 32
    → length value ≡ t.value_size
    → t.is_producer ≡ false
    → let passed = passes bytes here e there e' in
      let arrived = across data_offset c n (respond p value).1 stamp now q bytes here e there e' in
      ((passed ≡ false) × (arrived ≡ none))
      ⊎ ((passed ≡ true)
          × ((f : List ℕ) × (message : Message) × (arrived ≡ some f)
              × Heard data_offset self own channel observers m shm_drops k6 f message
              × ((update t heard message).smart.last_value ≡ value)
              × (expired (update t heard message).smart later
                  ≡ ltb (heard + value_ttl_factor * t.period_us * 1000) later)))
value_across data_offset self c own observers channel stamp now heard later q bytes n m here there e
      e' k1 k2 k3 k4 k5 k6 p t value past within room port positive early same writes plain r1 r2 r3
      r4 r5 r6 watched of_unit small size consuming =
    let payload = (respond p value).1 in
    let long = length-response p value in
    let message : Message = record {
      payload = payload;
      address = record { paddr = here.socket.address; port = c.address.port };
      timestamp = pos stamp;
      quadrant = e.quadrant;
    } in
    let (answer, holds) = respond-IsAnswer p t value message refl of_unit small size consuming in
    let (valued, lasts) = value_fresh t heard later message answer in
    elim (across_vehicles data_offset self c own observers channel payload stamp now q bytes n m
      here there e e' k1 k2 k3 k4 k5 k6 past within (omega (arith, long))
      (omega (arith, long, room)) port positive early same writes plain r1 r2 r3 r4 r5 r6 watched) [
        | inl lost ↦ inl lost
        | inr (kept, (f, got, hears)) ↦ inr (kept, (f, message, got, hears, valued ∙ holds, lasts))
      ]
