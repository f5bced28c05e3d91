-- ===== src/ProtectedRecord.antt =====
-- src/tls/protected_record.cpp: a record's content under AES-128-GCM, and the traffic keys.
pub mod Framing
pub mod RoundTrip
pub mod Rejection
mod Tests
use xbox360_tls.Base.{
  ℕ, zero, suc, ◌+◌, ◌-◌, ◌/◌, ◌^◌, Bool, not, ◌&&◌, ◌||◌, false, [], ◌∷◌, ◌++◌, ltb, ◌==◌,
  if◌then◌else◌, length, take, drop, replicate,
}
use xbox360_tls.Bytes.{
  Bytes, ByteSpan, MutableByteSpan, span, size, at, slice, u8, u64, Error, invalid_argument,
  buffer_too_small, bad_record, crypto, Result, ok, err, ◌>>=◌, ◌>>◌, fail_if,
}
use xbox360_tls.Record.{
  content_application_data, RecordHeader, parse_record_header, make_record_nonce,
}
use xbox360_tls.Crypto.Gcm.{aes128_gcm_encrypt, aes128_gcm_decrypt}
use xbox360_tls.Crypto.Hkdf.{hkdf_expand_label_sha256}

pub record TrafficKeys : Type 0 where
  pub key : Bytes
  pub iv : Bytes
  pub sequence_number : ℕ

-- "key" and "iv"
abbrev pub label_key : Bytes
label_key = 0x6b ∷ 0x65 ∷ 0x79 ∷ []

abbrev pub label_iv : Bytes
label_iv = 0x69 ∷ 0x76 ∷ []

unfoldable pub derive_traffic_keys_sha256 : ByteSpan → Result TrafficKeys
derive_traffic_keys_sha256 secret = do
  fail_if (secret.is_null || not (size secret == 32)) invalid_argument
  key ← hkdf_expand_label_sha256 secret.bytes label_key [] 16
  iv ← hkdf_expand_label_sha256 secret.bytes label_iv [] 12
  ok (record { key = key; iv = iv; sequence_number = 0 })

-- The five bytes in front of a fragment of `n` bytes.
unfoldable pub fragment_header : ℕ → Bytes
fragment_header n = content_application_data ∷ 0x03 ∷ 0x03 ∷ u8 (n / 2 ^ 8) ∷ u8 n ∷ []

-- The keys with the next sequence number, and the record. `allocated` says whether `malloc` gave
-- the scratch buffer.
unfoldable pub protect_record_aes128_gcm :
    Bool → TrafficKeys → ℕ → ByteSpan → ℕ → MutableByteSpan → Result (TrafficKeys × Bytes)
protect_record_aes128_gcm allocated keys inner_type content padding out = do
  fail_if ((not (size content == 0) && content.is_null) || out.is_null) invalid_argument
  fail_if (ltb inner_type 20 || ltb 23 inner_type) invalid_argument
  fail_if (ltb 16384 (size content) || ltb 255 padding) bad_record
  let inner_len = size content + 1 + padding
  let frag_len = inner_len + 16
  let total = 5 + frag_len
  fail_if (ltb 16640 frag_len) bad_record
  fail_if (ltb out.capacity total) buffer_too_small
  fail_if (not allocated) crypto
  let inner = content.bytes ++ (inner_type ∷ replicate padding 0)
  let header = fragment_header frag_len
  let nonce = make_record_nonce keys.iv keys.sequence_number
  (ciphertext, tag) ←
      aes128_gcm_encrypt keys.key nonce (span header) (span inner)
        (record { is_null = false; capacity = inner_len })
  ok (
    record keys { sequence_number = u64 (keys.sequence_number + 1) },
    header ++ (ciphertext ++ tag),
  )

-- `while (n > 0 && plaintext.data[n - 1] == 0) --n;`
unfoldable pub strip_zeros : Bytes → ℕ → ℕ
strip_zeros p zero = zero
strip_zeros p (suc n) = let less = strip_zeros p n in if at p n == 0 then less else suc n

-- The type, and the content that goes to `plaintext`, beside the keys for the next record.
-- A refused record leaves the keys as they were.
unfoldable pub unprotect_record_aes128_gcm :
    TrafficKeys → ByteSpan → MutableByteSpan → Result (TrafficKeys × ℕ × Bytes)
unprotect_record_aes128_gcm keys rec plaintext = do
  fail_if (rec.is_null || plaintext.is_null) invalid_argument
  h ← parse_record_header rec
  fail_if (not (h.type == content_application_data) || not (h.legacy_version == 0x0303)) bad_record
  fail_if (ltb (size rec) (5 + h.length) || ltb h.length 17) bad_record
  let ct_len = h.length - 16
  fail_if (ltb plaintext.capacity ct_len) buffer_too_small
  let nonce = make_record_nonce keys.iv keys.sequence_number
  p ←
      aes128_gcm_decrypt keys.key nonce (span (take 5 rec.bytes)) (span (slice rec.bytes 5 ct_len))
        (slice rec.bytes (5 + ct_len) 16)
        (record { is_null = plaintext.is_null; capacity = ct_len })
  let n = strip_zeros p ct_len
  fail_if (n == 0) bad_record
  let t = at p (n - 1)
  fail_if (ltb t 20 || ltb 23 t) bad_record
  ok (record keys { sequence_number = u64 (keys.sequence_number + 1) }, t, take (n - 1) p)
