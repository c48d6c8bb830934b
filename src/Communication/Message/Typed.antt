-- ===== src/Communication/Message/Typed.antt =====
-- `MessageHeader` of src/communication/message/message_header.h and `TypedMessage` of message.h: the
-- memory of a payload of a type, and what the header says of it. What a field held before it is
-- first written is an argument of the constructors.
pub mod Within
mod Tests
use communication_in_critica.Prelude.{
  ℕ, zero, suc, List, [], ◌∷◌, Option, none, some, if◌then◌else◌, ltb, leb, take, length, ℤ,
}
use communication_in_critica.Channel.Address.{Address}
use communication_in_critica.Network.Nic.{overlay}
use communication_in_critica.Communication.Message.{max_size}

-- `Type`
abbrev pub standard : ℕ
standard = 0

-- `_origin`, `_timestamp`, `_type`, `_size`
pub record MessageHeader : Type 0 where
  pub origin_address : Address
  pub origin_quadrant : ℕ
  pub timestamp : ℤ
  pub type_code : ℕ
  pub size : ℕ

-- the constructors of the header, over what its memory held
abbrev pub header_of_size : MessageHeader → ℕ → MessageHeader
header_of_size held size = record held { type_code = standard; size = size }

abbrev pub header_by_default : MessageHeader → MessageHeader
header_by_default held = header_of_size held max_size

abbrev pub set_type : ℕ → MessageHeader → MessageHeader
set_type t h = record h { type_code = t }

abbrev pub set_size : ℕ → MessageHeader → MessageHeader
set_size n h = record h { size = n }

abbrev pub set_origin : Address → ℕ → MessageHeader → MessageHeader
set_origin a q h = record h { origin_address = a; origin_quadrant = q }

-- `address` and `quadrant`, which each set a part of the origin, and `timestamp`
abbrev pub set_address : Address → MessageHeader → MessageHeader
set_address a h = record h { origin_address = a }

abbrev pub set_quadrant : ℕ → MessageHeader → MessageHeader
set_quadrant q h = record h { origin_quadrant = q }

abbrev pub set_timestamp : ℤ → MessageHeader → MessageHeader
set_timestamp ts h = record h { timestamp = ts }

-- the header, and the bytes of `_payload`
pub record TypedMessage : Type 0 where
  pub header : MessageHeader
  pub payload : List ℕ

-- `memset(&_payload, 0, sizeof(_payload))`
unfoldable pub cleared : ℕ → List ℕ
cleared zero = []
cleared (suc n) = 0 ∷ cleared n

-- the constructors, for a payload of `capacity` bytes: by default, from memory, and from a payload
unfoldable pub typed_by_default : ℕ → MessageHeader → TypedMessage
unfolding cleared
typed_by_default capacity held = record {
  header = header_by_default held;
  payload = cleared capacity;
}

unfoldable pub typed_from_memory : ℕ → MessageHeader → Option (List ℕ) → ℕ → TypedMessage
unfolding cleared
typed_from_memory capacity held memory size =
    let sized : TypedMessage = record {
      header = header_of_size held size;
      payload = cleared capacity;
    } in
    elim memory [
      | none ↦ sized
      | some bytes ↦
          let n = if leb size max_size then size else max_size in
          if ltb 0 size
          then record {
            header = set_size n sized.header;
            payload = overlay 0 (take n bytes) sized.payload;
          }
          else sized
    ]

unfoldable pub typed_from_payload : MessageHeader → List ℕ → TypedMessage
typed_from_payload held payload = record {
  header = header_of_size held (length payload);
  payload = payload;
}
