-- ===== src/Communication/Message/Typed/Tests.antt =====
-- A payload of two bytes that is made from three.
use communication_in_critica.Prelude.{◌≤◌, ◌≡◌, ◌↔◌, [], ◌∷◌, some, take, length, pos, arith}
use communication_in_critica.Ethernet.{internal}
use communication_in_critica.Communication.Message.Typed.{MessageHeader, typed_from_memory}
use communication_in_critica.Communication.Message.Typed.Within.{clip, within_memory}

abbrev held : MessageHeader
held = record {
  origin_address = record { paddr = internal; port = 0 };
  origin_quadrant = 255;
  timestamp = pos 0;
  type_code = 0;
  size = 0;
}

within_memory_example :
    let m = typed_from_memory 2 held (some (7 ∷ 8 ∷ 9 ∷ [])) 3 in
    (m.header.size ≡ clip 3)
    × (take m.header.size m.payload ≡ take (clip 3) (7 ∷ 8 ∷ 9 ∷ []))
    × ((m.header.size ≤ 2) ↔ (length m.payload ≡ 2))
within_memory_example = within_memory 2 3 held (7 ∷ 8 ∷ 9 ∷ []) (omega arith) (omega arith)
