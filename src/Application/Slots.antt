-- ===== src/Application/Slots.antt =====
-- The slots and ports of a vehicle's components, in their processes and in the region.
use communication_in_critica.Prelude.{
  ℕ, ◌+◌, ◌%◌, ◌^◌, ◌<◌, ◌≡◌, sym, ap, ◌∙◌, inl, inr, false, some, length, arith,
}
use communication_in_critica.SharedMemory.Create.{Calls, fresh_region}
use communication_in_critica.SharedMemory.Region.{Region}
use communication_in_critica.SharedMemory.Created.{create-IsCreated, register-entry}
use communication_in_critica.Application.Vehicle.{
  component_configuration, Vehicle, at_index, component_ports, is_missing,
}
use communication_in_critica.Application.Launch.{context_of}

-- Each component's process configures the engine with the slot that the region has for its port.
pub configured_as_registered :
    (v : Vehicle) (calls : Calls) (i : ℕ)
    → i < length v.components
    → is_missing (context_of v calls).0 ≡ false
    → let (context, k) = context_of v calls in
      let c = component_configuration v i context in
      (region : Region) × (k.segment ≡ some region)
      × (region.components c.slot
          ≡ record { port = c.port; slot = c.slot; active = 0; read_seq = 0 })
unfolding fresh_region
configured_as_registered v calls i below there =
    elim (create-IsCreated (at_index (component_ports v)) (length v.components) calls) [
      | inl failed ↦ absurd (ground (arith, sym there ∙ ap (λ out. is_missing out.0) failed))
      | inr (shm, sem, segment, room) ↦
          let small : (i + 1) % 2 ^ 16 ≡ i + 1 = omega (arith, below, room) in
          (
            fresh_region (at_index (component_ports v)) (length v.components),
            segment,
            rw small (register-entry (at_index (component_ports v)) (length v.components) i below),
          )
    ]
