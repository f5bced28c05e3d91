-- ===== src/Handshake/Finished.antt =====
-- src/tls/handshake.cpp: the Finished message, `finished_key_sha256` to `build_finished_sha256`.
pub mod Laws
mod Tests
use xbox360_tls.Base.{ℕ, Bool, not, ◌||◌, [], ◌∷◌, ◌++◌, ltb, ◌==◌}
use xbox360_tls.Bytes.{
  Bytes, ByteSpan, MutableByteSpan, size, Error, invalid_argument, buffer_too_small, bad_handshake,
  verify, Result, ok, err, ◌>>=◌, ◌>>◌, fail_if,
}
use xbox360_tls.Crypto.Gcm.{tag_equal}
use xbox360_tls.Crypto.Hkdf.{hmac_sha256, hkdf_expand_label_sha256}
use xbox360_tls.Handshake.Message.{HandshakeMessage, hs_finished}

-- "finished"
abbrev pub label_finished : Bytes
label_finished = 0x66 ∷ 0x69 ∷ 0x6e ∷ 0x69 ∷ 0x73 ∷ 0x68 ∷ 0x65 ∷ 0x64 ∷ []

unfoldable pub finished_key_sha256 : ByteSpan → Result Bytes
finished_key_sha256 traffic_secret = do
  fail_if (traffic_secret.is_null || not (size traffic_secret == 32)) invalid_argument
  hkdf_expand_label_sha256 traffic_secret.bytes label_finished [] 32

unfoldable pub compute_finished_verify_data_sha256 : ByteSpan → ByteSpan → Result Bytes
compute_finished_verify_data_sha256 traffic_secret transcript_hash = do
  fail_if (transcript_hash.is_null || not (size transcript_hash == 32)) invalid_argument
  finished_key ← finished_key_sha256 traffic_secret
  ok (hmac_sha256 finished_key transcript_hash.bytes)

-- handshake.cpp's own copy of the loop that compares tags, on buffers of one length
abbrev pub constant_time_equal : Bytes → Bytes → Bool
constant_time_equal = tag_equal

unfoldable pub verify_finished_sha256 : ByteSpan → ByteSpan → HandshakeMessage → Result (Unit {0})
verify_finished_sha256 traffic_secret transcript_hash msg = do
  fail_if (not (msg.type == hs_finished) || msg.body.is_null || not (size msg.body == 32))
      bad_handshake
  expected ← compute_finished_verify_data_sha256 traffic_secret transcript_hash
  fail_if (not (constant_time_equal expected msg.body.bytes)) verify

-- The 36 bytes that are written.
unfoldable pub build_finished_sha256 : ByteSpan → ByteSpan → MutableByteSpan → Result Bytes
build_finished_sha256 traffic_secret transcript_hash out = do
  fail_if out.is_null invalid_argument
  fail_if (ltb out.capacity 36) buffer_too_small
  verify_data ← compute_finished_verify_data_sha256 traffic_secret transcript_hash
  ok ((hs_finished ∷ 0 ∷ 0 ∷ 32 ∷ []) ++ verify_data)
