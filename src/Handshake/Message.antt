-- ===== src/Handshake/Message.antt =====
-- `HandshakeMessage` and `parse_handshake_message`.
pub mod Laws
mod Tests
use xbox360_tls.Base.{ℕ, ◌+◌, ◌∷◌, ◌++◌, not, ◌&&◌, ltb, ◌==◌, length, take}
use xbox360_tls.Bytes.{
  Bytes, ByteSpan, span, size, at, slice, Error, invalid_argument, buffer_too_small, bad_handshake,
  Result, ok, err, ◌>>=◌, ◌>>◌, fail_if, load_be24, store_be24,
}

-- `enum HandshakeType`
abbrev pub hs_client_hello : ℕ
hs_client_hello = 1

abbrev pub hs_server_hello : ℕ
hs_server_hello = 2

abbrev pub hs_encrypted_extensions : ℕ
hs_encrypted_extensions = 8

abbrev pub hs_certificate : ℕ
hs_certificate = 11

abbrev pub hs_certificate_verify : ℕ
hs_certificate_verify = 15

abbrev pub hs_finished : ℕ
hs_finished = 20

pub record HandshakeMessage : Type 0 where
  pub type : ℕ
  pub body : ByteSpan
  pub encoded : ByteSpan

-- handshake.cpp's own copy of the 24-bit load
abbrev pub load_u24 : Bytes → ℕ → ℕ
load_u24 = load_be24

-- The message, and what goes through `consumed`.
unfoldable pub parse_handshake_message : ByteSpan → Result (HandshakeMessage × ℕ)
parse_handshake_message input = do
  fail_if (input.is_null && not (size input == 0)) invalid_argument
  fail_if (ltb (size input) 4) buffer_too_small
  let p = input.bytes
  let body_len = load_u24 p 1
  fail_if (ltb 0xFFFFFF body_len) bad_handshake
  let total = body_len + 4
  fail_if (ltb (size input) total) buffer_too_small
  ok (
    record { type = at p 0; body = span (slice p 4 body_len); encoded = span (take total p) },
    total,
  )

-- The wire form of a message: its type, the 24-bit length of its body, its body.
abbrev pub encode_message : ℕ → Bytes → Bytes
encode_message t body = t ∷ (store_be24 (length body) ++ body)

-- What the parser returns for that form.
abbrev pub message : ℕ → Bytes → HandshakeMessage
message t body = record { type = t; body = span body; encoded = span (encode_message t body) }
