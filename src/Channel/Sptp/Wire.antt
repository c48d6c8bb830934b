-- ===== src/Channel/Sptp/Wire.antt =====
-- The packed payloads of src/channel/sptp_protocol.h.
use communication_in_critica.Prelude.{
  ℕ, ◌^◌, ◌<◌, ◌≡◌, refl, List, ◌++◌, drop, length, to_bytes, from_bytes, ℤ, pos, int64_of, arith,
}

-- `sizeof(Request_Payload)`, `sizeof(Sync_Payload)`
abbrev pub request_size : ℕ
request_size = 4

abbrev pub sync_size : ℕ
sync_size = 12

unfoldable pub request_bytes : ℕ → List ℕ
unfolding to_bytes
request_bytes seq = to_bytes 4 seq

-- the stamp is a clock after 1970
unfoldable pub sync_bytes : ℕ → ℕ → List ℕ
unfolding to_bytes
sync_bytes seq t2' = to_bytes 4 seq ++ to_bytes 8 t2'

unfoldable pub seq_of : List ℕ → ℕ
unfolding from_bytes
seq_of payload = from_bytes 4 payload

unfoldable pub t2_prime_of : List ℕ → ℤ
unfolding from_bytes
t2_prime_of payload = int64_of (from_bytes 8 (drop 4 payload))

-- What the parties read is what the other packed, for every value of the fields' types.
pub seq_of-request_bytes : (seq : ℕ) → seq < 2 ^ 32 → seq_of (request_bytes seq) ≡ seq
unfolding seq_of request_bytes
seq_of-request_bytes seq h = ground arith

pub seq_of-sync_bytes : (seq t2' : ℕ) → seq < 2 ^ 32 → seq_of (sync_bytes seq t2') ≡ seq
unfolding seq_of sync_bytes
seq_of-sync_bytes seq t2' h = ground arith

pub t2_prime_of-sync_bytes :
    (seq t2' : ℕ) → t2' < 2 ^ 63 → t2_prime_of (sync_bytes seq t2') ≡ pos t2'
unfolding t2_prime_of sync_bytes
t2_prime_of-sync_bytes seq t2' h = ground arith

pub length-request_bytes : (seq : ℕ) → length (request_bytes seq) ≡ request_size
unfolding request_bytes
length-request_bytes seq = refl

pub length-sync_bytes : (seq t2' : ℕ) → length (sync_bytes seq t2') ≡ sync_size
unfolding sync_bytes
length-sync_bytes seq t2' = refl
