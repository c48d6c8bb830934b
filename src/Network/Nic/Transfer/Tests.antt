-- ===== src/Network/Nic/Transfer/Tests.antt =====
-- Three bytes that are sent from memory, and a NIC as the constructor leaves it.
use communication_in_critica.Prelude.{◌≡◌, refl, [], ◌∷◌, false, none, some, arith}
use communication_in_critica.Network.Nic.{Nic, receive, frame_bytes}
use communication_in_critica.Network.Nic.Fixtures.{clean, vehicle, down, length-zeros}
use communication_in_critica.Network.Nic.Transfer.{nic, send_data, unmarshal}
use communication_in_critica.Network.Nic.Transfer.Unmarshal.{
  data_frame, frame_sent, unmarshal_as_sent,
}

abbrev quadrantless : Nic
quadrantless = record clean { writes_quadrant = false }

unmarshal_as_sent_example :
    let f = data_frame quadrantless vehicle 0x88b5 (1 ∷ 2 ∷ 3 ∷ []) 99 in
    (frame_sent (send_data quadrantless vehicle 0x88b5 (1 ∷ 2 ∷ 3 ∷ []) 255 none) ≡ some f)
    × ((receive quadrantless f (λ _. false)).1 ≡ some 99)
    × (unmarshal (receive quadrantless f (λ _. false)).0 99 2
        ≡ (quadrantless.address, vehicle, 1 ∷ 2 ∷ []))
unmarshal_as_sent_example =
    unmarshal_as_sent quadrantless quadrantless vehicle 0x88b5 (1 ∷ 2 ∷ 3 ∷ []) 255 none
      (λ _. false) 99 99 2 (down 99) (down 99) (omega arith) refl refl (length-zeros frame_bytes)
      refl refl

constructed : (nic vehicle clean.buffers).free_list ≡ down 100
unfolding nic
constructed = refl
