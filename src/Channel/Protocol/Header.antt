-- ===== src/Channel/Protocol/Header.antt =====
-- The fields of a frame and of the protocol's header, at their offsets: the header has an 8-byte
-- stamp, two ports, the quadrant and the kind, and 16 bytes with its padding.
use communication_in_critica.Prelude.{ℕ, ◌+◌, ◌-◌, List, take, drop, from_bytes, ℤ, int64_of}
use communication_in_critica.Ethernet.{Mac, header_size, type_of}

-- `sizeof(Header)`
abbrev pub packet_header_size : ℕ
packet_header_size = 16

abbrev pub byte : ℕ → List ℕ → ℕ
byte i xs = from_bytes 1 (drop i xs)

abbrev pub mac_at : ℕ → List ℕ → Mac
mac_at i f = record {
  b0 = byte i f;
  b1 = byte (i + 1) f;
  b2 = byte (i + 2) f;
  b3 = byte (i + 3) f;
  b4 = byte (i + 4) f;
  b5 = byte (i + 5) f;
}

abbrev pub dst_of : List ℕ → Mac
dst_of f = mac_at 0 f

abbrev pub src_of : List ℕ → Mac
src_of f = mac_at 6 f

-- `type` of the frame
unfoldable pub prot_of : List ℕ → ℕ
unfolding type_of from_bytes
prot_of f = type_of (byte 12 f) (byte 13 f)

abbrev pub payload_of : List ℕ → List ℕ
payload_of f = drop header_size f

unfoldable pub timestamp_of : List ℕ → ℤ
unfolding from_bytes
timestamp_of f = int64_of (from_bytes 8 (payload_of f))

unfoldable pub src_port_of : List ℕ → ℕ
unfolding from_bytes
src_port_of f = from_bytes 2 (drop 8 (payload_of f))

unfoldable pub dst_port_of : List ℕ → ℕ
unfolding from_bytes
dst_port_of f = from_bytes 2 (drop 10 (payload_of f))

unfoldable pub kind_of : List ℕ → ℕ
unfolding from_bytes
kind_of f = from_bytes 1 (drop 13 (payload_of f))

-- the data, as many bytes as the buffer's size says; the compiler may place them over the padding
-- of the header, so their offset is an argument
abbrev pub data_of : ℕ → List ℕ → ℕ → List ℕ
data_of data_offset f size = take (size - packet_header_size) (drop data_offset (payload_of f))
