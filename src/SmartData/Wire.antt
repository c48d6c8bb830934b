-- ===== src/SmartData/Wire.antt =====
-- src/communication/smart_data/smart_message.h: the packed structures in the payload of a message,
-- as bytes. An integer is stored with its least byte first, as on the machines the program runs on.
use communication_in_critica.Prelude.{
  ℕ, ◌^◌, ◌<◌, ◌≡◌, refl, List, ◌++◌, drop, to_bytes, from_bytes, arith,
}

abbrev pub kind_interest : ℕ
kind_interest = 0

abbrev pub kind_response : ℕ
kind_response = 1

-- `SmartHeader`
pub record SmartHeader : Type 0 where
  pub kind : ℕ
  pub unit : ℕ

-- `InterestMessage`
pub record InterestMessage : Type 0 where
  pub header : SmartHeader
  pub period_us : ℕ
  pub disinterest : ℕ

-- `sizeof`, packed: 1 + 4, and 5 + 8 + 1
abbrev pub smart_header_size : ℕ
smart_header_size = 5

abbrev pub interest_message_size : ℕ
interest_message_size = 14

unfoldable pub header_bytes : SmartHeader → List ℕ
unfolding to_bytes
header_bytes h = to_bytes 1 h.kind ++ to_bytes 4 h.unit

unfoldable pub interest_bytes : InterestMessage → List ℕ
unfolding header_bytes
interest_bytes m = header_bytes m.header ++ (to_bytes 8 m.period_us ++ to_bytes 1 m.disinterest)

-- `ResponseMessage`, with the bytes of its value
unfoldable pub response_bytes : SmartHeader → List ℕ → List ℕ
unfolding header_bytes
response_bytes h value = header_bytes h ++ value

-- `reinterpret_cast<const SmartHeader *>(data)`
unfoldable pub read_header : List ℕ → SmartHeader
unfolding from_bytes
read_header d = record { kind = from_bytes 1 d; unit = from_bytes 4 (drop 1 d) }

-- `reinterpret_cast<const InterestMessage *>(data)`
unfoldable pub read_interest : List ℕ → InterestMessage
unfolding read_header
read_interest d = record {
  header = read_header d;
  period_us = from_bytes 8 (drop 5 d);
  disinterest = from_bytes 1 (drop 13 d);
}

-- What the sender packs into an interest message is what the receiver reads, for every value of the
-- fields' types, whatever follows in the buffer.
pub read_interest-interest_bytes :
    (m : InterestMessage) (rest : List ℕ)
    → m.header.kind < 2 ^ 8
    → m.header.unit < 2 ^ 32
    → m.period_us < 2 ^ 64
    → m.disinterest < 2 ^ 8
    → read_interest (interest_bytes m ++ rest) ≡ m
unfolding read_interest interest_bytes
read_interest-interest_bytes m rest hk hu hp hd = ground arith

pub read_header-header_bytes :
    (h : SmartHeader) (rest : List ℕ)
    → h.kind < 2 ^ 8
    → h.unit < 2 ^ 32
    → read_header (header_bytes h ++ rest) ≡ h
unfolding read_header header_bytes
read_header-header_bytes h rest hk hu = ground arith

pub drop-header_bytes :
    (h : SmartHeader) (rest : List ℕ) → drop smart_header_size (header_bytes h ++ rest) ≡ rest
unfolding header_bytes
drop-header_bytes h rest = refl
