-- ===== src/Handshake/Flight/Tests.antt =====
-- Small bodies of the server's flight.
use xbox360_tls.Base.{ℕ, ◌≡◌, ◌<◌, ◌↔◌, refl, false, List, [], ◌∷◌, ◌++◌, length, arith}
use xbox360_tls.Bytes.{Bytes, span, null_span, ok, store_be16, load_be24}
use xbox360_tls.Handshake.Message.{HandshakeMessage}
use xbox360_tls.Handshake.Flight.{
  no_extensions, parse_encrypted_extensions, parse_certificate, parse_certificate_verify,
}
use xbox360_tls.Handshake.Flight.Certificates.{
  encode_certificate, parse_certificate_sound, encode_certificate_verify,
  parse_certificate_verify_iff,
}
use xbox360_tls.Handshake.Flight.Extensions.{
  encode_extensions, read_extensions, parse_encrypted_extensions-encode,
}

abbrev with_body : ℕ → Bytes → HandshakeMessage
with_body t body = record { type = t; body = span body; encoded = null_span }

abbrev wire : Bytes
wire = 1 ∷ 8 ∷ 0 ∷ 0 ∷ 2 ∷ 5 ∷ 6 ∷ []

parsed :
    parse_certificate (with_body 11 wire)
    ≡ ok (record { request_context = span (8 ∷ []); certificate_list = span (5 ∷ 6 ∷ []) })
unfolding parse_certificate load_be24
parsed = refl

parse_certificate_sound_example :
    (◌≡◌ {A = ℕ} 11 11) × (wire ≡ encode_certificate (8 ∷ []) (5 ∷ 6 ∷ []))
parse_certificate_sound_example =
    parse_certificate_sound (with_body 11 wire)
      (
        omega arith,
        (
          omega arith,
          (omega arith, (omega arith, (omega arith, (omega arith, (omega arith, tt))))),
        ),
      )
      parsed

abbrev signed : HandshakeMessage
signed = with_body 15 (8 ∷ 4 ∷ 0 ∷ 1 ∷ 7 ∷ [])

parse_certificate_verify_iff_example :
    (parse_certificate_verify signed
      ≡ ok (record { algorithm = 0x0804; signature = span (7 ∷ []) }))
    ↔ ((◌≡◌ {A = ℕ} 15 15)
        × (false ≡ false)
        × (signed.body.bytes ≡ encode_certificate_verify 0x0804 (7 ∷ []))
        × (0 < length {A = ℕ} (7 ∷ [])))
parse_certificate_verify_iff_example =
    parse_certificate_verify_iff signed 0x0804 (7 ∷ [])
      (omega arith, (omega arith, (omega arith, (omega arith, (omega arith, tt))))) (omega arith)
      (omega arith)

-- a supported_groups extension, and ALPN for "h"
abbrev extensions : List (ℕ × Bytes)
extensions = (10, 0 ∷ []) ∷ (16, 0 ∷ 2 ∷ 1 ∷ 0x68 ∷ []) ∷ []

abbrev hello : HandshakeMessage
hello = with_body 8 (0 ∷ 13 ∷ 0 ∷ 10 ∷ 0 ∷ 1 ∷ 0 ∷ 0 ∷ 16 ∷ 0 ∷ 4 ∷ 0 ∷ 2 ∷ 1 ∷ 0x68 ∷ [])

hello_body :
    hello.body
    ≡ span (store_be16 (length (encode_extensions extensions)) ++ encode_extensions extensions)
unfolding store_be16
hello_body = refl

short : length (encode_extensions extensions) < 65536
unfolding store_be16
short = omega arith

parse_encrypted_extensions-encode_example :
    parse_encrypted_extensions hello ≡ read_extensions extensions no_extensions
parse_encrypted_extensions-encode_example =
    parse_encrypted_extensions-encode extensions hello refl hello_body short (
      omega arith,
      omega arith,
      (omega arith, tt),
      (
        omega arith,
        omega arith,
        (omega arith, (omega arith, (omega arith, (omega arith, tt)))),
        tt,
      ),
    )
