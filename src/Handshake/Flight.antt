-- ===== src/Handshake/Flight.antt =====
-- src/tls/handshake.cpp: the bodies of the server's flight, from `parse_encrypted_extensions` to
-- `parse_certificate_verify`. The pointer `p` with `remain` bytes is the list of these bytes.
pub mod Extensions
pub mod Certificates
mod Tests
use xbox360_tls.Base.{
  ℕ, zero, suc, ◌+◌, Bool, false, true, not, ◌||◌, [], ◌∷◌, ltb, ◌==◌, if◌then◌else◌, length, drop,
  take,
}
use xbox360_tls.Bytes.{
  Bytes, ByteSpan, span, null_span, size, at, slice, Error, bad_handshake, Result, ok, err, ◌>>=◌,
  ◌>>◌, fail_if, load_be16, size_be16,
}
use xbox360_tls.Handshake.Message.{
  HandshakeMessage, hs_encrypted_extensions, hs_certificate, hs_certificate_verify, load_u24,
}

pub record EncryptedExtensionsInfo : Type 0 where
  pub alpn : ByteSpan
  pub has_alpn : Bool

abbrev pub no_extensions : EncryptedExtensionsInfo
no_extensions = record { alpn = null_span; has_alpn = false }

-- The case `type == 0x0010`: `p` is behind the extension's header, `len` the length in it.
unfoldable pub alpn_extension : Bytes → ℕ → Result EncryptedExtensionsInfo
alpn_extension p len = do
  fail_if (ltb len 3) bad_handshake
  let list_len = size_be16 p 0
  fail_if (not (list_len + 2 == len) || ltb list_len 1) bad_handshake
  let proto_len = at p 2
  fail_if (proto_len == 0 || not (proto_len + 1 == list_len)) bad_handshake
  ok (record { alpn = span (slice p 3 proto_len); has_alpn = true })

-- `while (remain)`: a round reads four bytes at least, so `remain` rounds are enough.
unfoldable pub extensions_loop :
    ℕ → Bytes → EncryptedExtensionsInfo → Result EncryptedExtensionsInfo
extensions_loop n [] out = ok out
extensions_loop zero (x ∷ p) out = ok out
extensions_loop (suc n) (x ∷ p) out = do
  fail_if (ltb (length (x ∷ p)) 4) bad_handshake
  let type = load_be16 (x ∷ p) 0
  let len = size_be16 (x ∷ p) 2
  let q = drop 4 (x ∷ p)
  fail_if (ltb (length q) len) bad_handshake
  out' ← if type == 0x0010 then alpn_extension q len else ok out
  extensions_loop n (drop len q) out'

unfoldable pub parse_encrypted_extensions : HandshakeMessage → Result EncryptedExtensionsInfo
parse_encrypted_extensions msg = do
  fail_if (not (msg.type == hs_encrypted_extensions) || msg.body.is_null || ltb (size msg.body) 2)
      bad_handshake
  let extensions_len = size_be16 msg.body.bytes 0
  let p = drop 2 msg.body.bytes
  fail_if (not (extensions_len == length p)) bad_handshake
  extensions_loop (length p) p no_extensions

pub record CertificateInfo : Type 0 where
  pub request_context : ByteSpan
  pub certificate_list : ByteSpan

unfoldable pub parse_certificate : HandshakeMessage → Result CertificateInfo
parse_certificate msg = do
  fail_if (not (msg.type == hs_certificate) || msg.body.is_null || ltb (size msg.body) 4)
      bad_handshake
  let context_len = at msg.body.bytes 0
  let p = drop 1 msg.body.bytes
  fail_if (ltb (length p) context_len) bad_handshake
  let q = drop context_len p
  fail_if (ltb (length q) 3) bad_handshake
  let list_len = load_u24 q 0
  let r = drop 3 q
  fail_if (not (list_len == length r)) bad_handshake
  ok (record {
    request_context = span (take context_len p);
    certificate_list = span (take list_len r);
  })

-- The certificate, and its extensions.
unfoldable pub first_certificate_der : CertificateInfo → Result (ByteSpan × ByteSpan)
first_certificate_der info = do
  fail_if (info.certificate_list.is_null || ltb (size info.certificate_list) 5) bad_handshake
  let cert_len = load_u24 info.certificate_list.bytes 0
  let p = drop 3 info.certificate_list.bytes
  fail_if (cert_len == 0 || ltb (length p) cert_len) bad_handshake
  let q = drop cert_len p
  fail_if (ltb (length q) 2) bad_handshake
  let ext_len = size_be16 q 0
  let r = drop 2 q
  fail_if (ltb (length r) ext_len) bad_handshake
  ok (span (take cert_len p), span (take ext_len r))

pub record CertificateVerifyInfo : Type 0 where
  pub algorithm : ℕ
  pub signature : ByteSpan

unfoldable pub parse_certificate_verify : HandshakeMessage → Result CertificateVerifyInfo
parse_certificate_verify msg = do
  fail_if (not (msg.type == hs_certificate_verify) || msg.body.is_null || ltb (size msg.body) 4)
      bad_handshake
  let p = msg.body.bytes
  let sig_len = size_be16 p 2
  fail_if (sig_len == 0 || not (sig_len + 4 == size msg.body)) bad_handshake
  ok (record { algorithm = load_be16 p 0; signature = span (slice p 4 sig_len) })
