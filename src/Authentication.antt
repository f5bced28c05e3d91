-- ===== src/Authentication.antt =====
-- src/tls/authentication.cpp: the certificate chain, and the message that CertificateVerify signs.
pub mod Chain
pub mod Server
mod Tests
use xbox360_tls.Base.{
  ℕ, zero, suc, ◌+◌, not, ◌||◌, List, [], ◌∷◌, ◌++◌, ltb, ◌==◌, length, take, drop, replicate,
}
use xbox360_tls.Bytes.{
  Bytes, ByteSpan, MutableByteSpan, span, size, Error, invalid_argument, buffer_too_small,
  bad_handshake, verify, Result, ok, err, ◌>>=◌, ◌>>◌, fail_if, load_be24, size_be16,
}
use xbox360_tls.Handshake.Flight.{CertificateInfo}

pub record CertificateChainEntry : Type 0 where
  pub der : ByteSpan
  pub extensions : ByteSpan

-- `entries[0]` to `entries[count - 1]`
abbrev pub CertificateChainView : Type 0
CertificateChainView = List CertificateChainEntry

-- authentication.cpp's own copy of the 24-bit load
abbrev pub read_u24 : Bytes → ℕ → ℕ
read_u24 = load_be24

-- A round of the loop, behind the test of the count: the entry, and the bytes behind it.
unfoldable pub read_entry : Bytes → Result (CertificateChainEntry × Bytes)
read_entry p = do
  fail_if (ltb (length p) 3) bad_handshake
  let cert_len = read_u24 p 0
  let q = drop 3 p
  fail_if (cert_len == 0 || ltb (length q) cert_len) bad_handshake
  let r = drop cert_len q
  fail_if (ltb (length r) 2) bad_handshake
  let ext_len = size_be16 r 0
  let t = drop 2 r
  fail_if (ltb (length t) ext_len) bad_handshake
  ok (record { der = span (take cert_len q); extensions = span (take ext_len t) }, drop ext_len t)

-- `while (p < s.size)`: a round reads a byte at least, so `s.size` rounds are enough.
unfoldable pub chain_loop : ℕ → Bytes → CertificateChainView → Result CertificateChainView
chain_loop n [] out = ok out
chain_loop zero (x ∷ p) out = ok out
chain_loop (suc n) (x ∷ p) out = do
  fail_if (not (ltb (length out) 8)) bad_handshake
  (entry, rest) ← read_entry (x ∷ p)
  chain_loop n rest (out ++ (entry ∷ []))

unfoldable pub parse_certificate_chain : CertificateInfo → Result CertificateChainView
parse_certificate_chain info = do
  let s = info.certificate_list.bytes
  chain ← chain_loop (length s) s []
  fail_if (length chain == 0) verify
  ok chain

-- "TLS 1.3, server CertificateVerify"
abbrev pub context : Bytes
context =
    0x54 ∷ 0x4c ∷ 0x53 ∷ 0x20 ∷ 0x31 ∷ 0x2e ∷ 0x33 ∷ 0x2c ∷ 0x20 ∷ 0x73 ∷ 0x65 ∷ 0x72 ∷ 0x76 ∷ 0x65
    ∷ 0x72 ∷ 0x20 ∷ 0x43 ∷ 0x65 ∷ 0x72 ∷ 0x74 ∷ 0x69 ∷ 0x66 ∷ 0x69 ∷ 0x63 ∷ 0x61 ∷ 0x74 ∷ 0x65
    ∷ 0x56 ∷ 0x65 ∷ 0x72 ∷ 0x69 ∷ 0x66 ∷ 0x79 ∷ []

unfoldable pub build_server_certificate_verify_message : ByteSpan → MutableByteSpan → Result Bytes
build_server_certificate_verify_message transcript_hash out = do
  fail_if (not (size transcript_hash == 32) || transcript_hash.is_null) invalid_argument
  let need = 64 + length context + 1 + 32
  fail_if (out.is_null || ltb out.capacity need) buffer_too_small
  ok (replicate 64 0x20 ++ (context ++ (0 ∷ transcript_hash.bytes)))
