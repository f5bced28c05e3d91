-- ===== src/Record.antt =====
-- src/tls/record.cpp: the record header and the per-record nonce.
pub mod Masks
pub mod Nonce
mod Tests
use xbox360_tls.Base.{
  ℕ, zero, suc, ◌+◌, ◌/◌, ◌%◌, ◌^◌, bit_xor, Bool, List, [], ◌∷◌, ◌++◌, ltb, take, drop,
}
use xbox360_tls.Bytes.{
  Bytes, ByteSpan, size, at, u8, Error, invalid_argument, buffer_too_small, bad_record, Result, ok,
  err, ◌>>=◌, ◌>>◌, fail_if, load_be16,
}

-- `enum ContentType`
abbrev pub content_change_cipher_spec : ℕ
content_change_cipher_spec = 20

abbrev pub content_alert : ℕ
content_alert = 21

abbrev pub content_handshake : ℕ
content_handshake = 22

abbrev pub content_application_data : ℕ
content_application_data = 23

pub record RecordHeader : Type 0 where
  pub type : ℕ
  pub legacy_version : ℕ
  pub length : ℕ

unfoldable pub parse_record_header : ByteSpan → Result RecordHeader
parse_record_header input = do
  fail_if input.is_null invalid_argument
  fail_if (ltb (size input) 5) buffer_too_small
  let p = input.bytes
  fail_if (ltb 16640 (load_be16 p 3)) bad_record
  ok (record { type = at p 0; legacy_version = load_be16 p 1; length = load_be16 p 3 })

-- The loop `s[i] = (xt_u8)seq; seq >>= 8` from the last byte down, `i` bytes to go.
unfoldable pub seq_bytes : ℕ → ℕ → Bytes → Bytes
seq_bytes zero seq s = s
seq_bytes (suc i) seq s = seq_bytes i (seq / 2 ^ 8) (u8 seq ∷ s)

-- `a[i] ^= b[i]` over the length of the shorter one; both have the same length in every call.
unfoldable pub xor_each : Bytes → Bytes → Bytes
xor_each [] b = []
xor_each (x ∷ a) [] = []
xor_each (x ∷ a) (y ∷ b) = bit_xor x y ∷ xor_each a b

-- `nonce[4 + i] ^= s[i]` for the eight bytes of the sequence number
unfoldable pub make_record_nonce : Bytes → ℕ → Bytes
unfolding seq_bytes xor_each
make_record_nonce iv seq = take 4 iv ++ xor_each (drop 4 iv) (seq_bytes 8 seq [])
