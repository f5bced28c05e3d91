-- ===== src/Authentication/Tests.antt =====
-- A list of one certificate of two bytes, without extensions.
use xbox360_tls.Base.{◌≡◌, ◌≤◌, refl, List, [], ◌∷◌, map, length, arith}
use xbox360_tls.Bytes.{Bytes, span, ok, store_be16, store_be24}
use xbox360_tls.Handshake.Flight.{CertificateInfo}
use xbox360_tls.Authentication.{parse_certificate_chain}
use xbox360_tls.Authentication.Chain.{
  encode_chain, entry, parse_certificate_chain-encode, parse_certificate_chain_sound,
}

abbrev wire : Bytes
wire = 0 ∷ 0 ∷ 2 ∷ 5 ∷ 6 ∷ 0 ∷ 0 ∷ []

abbrev info : CertificateInfo
info = record { request_context = span []; certificate_list = span wire }

abbrev certificates : List (Bytes × Bytes)
certificates = (5 ∷ 6 ∷ [], []) ∷ []

encoded : wire ≡ encode_chain certificates
unfolding store_be16 store_be24
encoded = refl

parse_certificate_chain-encode_example : parse_certificate_chain info ≡ ok (map entry certificates)
parse_certificate_chain-encode_example =
    parse_certificate_chain-encode certificates info encoded
      ((omega arith, omega arith, omega arith), tt) (omega arith) (omega arith)

parse_certificate_chain_sound_example :
    (es : List (Bytes × Bytes)) × (wire ≡ encode_chain es)
    × (map entry certificates ≡ map entry es)
    × (1 ≤ length es)
    × (length es ≤ 8)
parse_certificate_chain_sound_example =
    parse_certificate_chain_sound info
      (
        omega arith,
        (
          omega arith,
          (omega arith, (omega arith, (omega arith, (omega arith, (omega arith, tt))))),
        ),
      )
      parse_certificate_chain-encode_example
