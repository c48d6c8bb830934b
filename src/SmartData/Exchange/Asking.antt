-- ===== src/SmartData/Exchange/Asking.antt =====
-- The way of an interest from a consumer in one vehicle to a producer in another.
use communication_in_critica.Prelude.{
  ℕ, ◌^◌, ◌≤◌, ◌<◌, ◌≡◌, ◌⊎◌, refl, ap, ◌∙◌, Bool, if◌then◌else◌, ◌==◌, inl, inr, true, false, List,
  Option, none, some, pos, arith,
}
use communication_in_critica.Network.Nic.{Nic}
use communication_in_critica.Channel.Address.{Address, broadcast_port}
use communication_in_critica.Channel.Protocol.{Gateway, Engines, Observed, has_observer}
use communication_in_critica.Channel.Protocol.Header.{packet_header_size}
use communication_in_critica.Communication.Message.{Message}
use communication_in_critica.Communication.Communicator.{Communicator}
use communication_in_critica.Communication.Communicator.Delivery.{Heard}
use communication_in_critica.Channel.Protocol.Events.{shm_drops}
use communication_in_critica.Communication.Journey.{passes, across, IsReady}
use communication_in_critica.Communication.Journey.Across.{across_vehicles}
use communication_in_critica.SmartData.Smart.{Smart, interest_payload, update, send_interest}
use communication_in_critica.SmartData.Smart.Service.{producer_heeds}
use communication_in_critica.SmartData.Exchange.Payloads.{interest-IsHeeded, length-interest_bytes}
use communication_in_critica.SmartData.BindingCache.Refine.{
  IsValid, view, lease_step, interest, disinterest,
}

-- An interest, or the end of one, that a consumer's communicator broadcasts with a positive stamp, on
-- a way where every NIC has a free buffer, gives no frame in the other vehicle if an engine does not
-- send it or that of the other vehicle's gateway drops it, and otherwise is heard in that vehicle as a message that does to the table of leases of a producer of
-- the unit what the consumer asks, in the name of the consumer's port at its gateway. The table is
-- first emptied if the consumer's vehicle sent from another quadrant than the last one heard.
pub interest_across :
    (data_offset self : ℕ) (c : Communicator) (own : Address) (observers channel : Observed)
    (stamp now heard q : ℕ) (bytes : Option ℕ) (n m : Nic) (here there : Gateway) (e e' : Engines)
    (k1 k2 k3 k4 k5 k6 : ℕ) (p t : Smart) (ends : Bool) (unit : ℕ) (address : Address)
    → 14 ≤ data_offset
    → data_offset ≤ packet_header_size
    → c.address.port < 65536
    → 0 < stamp
    → stamp < 2 ^ 63
    → n.address ≡ here.address
    → here.socket.writes_quadrant ≡ true
    → there.shm.writes_quadrant ≡ false
    → IsReady n k1
    → IsReady here.shm k2
    → IsReady here.socket k3
    → IsReady there.socket k4
    → IsReady there.shm k5
    → IsReady m k6
    → has_observer broadcast_port observers ≡ true
    → p.unit ≡ t.unit
    → t.unit < 2 ^ 32
    → t.period_us < 2 ^ 64
    → p.is_producer ≡ true
    → IsValid p.cache
    → let from : Address = record { paddr = here.socket.address; port = c.address.port } in
      let passed = passes bytes here e there e' in
      let arrived =
        across data_offset c n (interest_payload t ends) stamp now q bytes here e there e' in
      ((passed ≡ false) × (arrived ≡ none))
      ⊎ ((passed ≡ true)
          × ((f : List ℕ) × (message : Message) × (arrived ≡ some f)
              × Heard data_offset self own channel observers m shm_drops k6 f message
              × (view (update p heard message).smart.cache unit address
                  ≡ lease_step p.cache.lifetime_min_us p.cache.lifetime_factor
                      (if p.last_seen_quad == e.quadrant then view p.cache else (λ _ _. none))
                      heard
                      (if ends then disinterest t.unit from else interest t.unit from t.period_us)
                      unit
                      address)))
interest_across data_offset self c own observers channel stamp now heard q bytes n m here there e e'
      k1 k2 k3 k4 k5 k6 p t ends unit address past within port positive early same writes plain r1
      r2 r3 r4 r5 r6 watched of_unit small period producing valid =
    let payload = interest_payload t ends in
    let long = length-interest_bytes (send_interest t ends) in
    let message : Message = record {
      payload = payload;
      address = record { paddr = here.socket.address; port = c.address.port };
      timestamp = pos stamp;
      quadrant = e.quadrant;
    } in
    let (heeded, asks) = interest-IsHeeded p t ends message refl of_unit small period producing in
    let leases = if p.last_seen_quad == e.quadrant then view p.cache else (λ _ _. none) in
    let leased =
      producer_heeds p heard message unit address heeded valid
      ∙ ap
          (λ call.
            lease_step p.cache.lifetime_min_us p.cache.lifetime_factor leases heard call unit
              address)
          asks in
    elim (across_vehicles data_offset self c own observers channel payload stamp now q bytes n m
      here there e e' k1 k2 k3 k4 k5 k6 past within (omega (arith, long)) (omega (arith, long)) port
      positive early same writes plain r1 r2 r3 r4 r5 r6 watched) [
        | inl lost ↦ inl lost
        | inr (kept, (f, got, hears)) ↦ inr (kept, (f, message, got, hears, leased))
      ]
