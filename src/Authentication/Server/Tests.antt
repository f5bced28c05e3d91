-- ===== src/Authentication/Server/Tests.antt =====
-- A server with one certificate, which names the host `a.b`, and a verifier that trusts it and accepts
-- every signature.
use xbox360_tls.Base.{some, ◌≡◌, ◌↔◌, refl, [], ◌∷◌, ◌++◌, replicate}
use xbox360_tls.Bytes.{Bytes, ByteSpan, span, bytes_equal, ok, load_be24, size_be16}
use xbox360_tls.Handshake.Flight.{CertificateInfo, CertificateVerifyInfo}
use xbox360_tls.X509.Der.{der_tlv, der_length}
use xbox360_tls.X509.Time.{parse_asn1_time, asn1_year, dec2, days_before_year, days_before_month}
use xbox360_tls.X509.Certificate.{parse_validity, oid_eq, key_kind, parse_spki}
use xbox360_tls.X509.Extensions.{
  only_element, parse_san, read_extension, read_critical, parse_extension, parse_extensions_loop,
  parse_extensions,
}
use xbox360_tls.X509.Parse.{skip_version, read_names, tail_loop, parse_tbs, x509_parse_certificate}
use xbox360_tls.X509.Hostname.{ascii_lower, same_lower, dns_equal, names_loop, x509_verify_hostname}
use xbox360_tls.Authentication.{
  read_entry, chain_loop, parse_certificate_chain, build_server_certificate_verify_message,
}
use xbox360_tls.Authentication.Server.{
  ServerAuthVerifier, scheme_of, key_fits, leaf_der, authenticate_server_flight,
}
use xbox360_tls.Authentication.Server.Accepted.{IsAuthenticated, authenticate_server_flight_iff}

abbrev wire : Bytes
wire =
    48 ∷ 82 ∷ 48 ∷ 80 ∷ 2 ∷ 1 ∷ 1 ∷ 48 ∷ 0 ∷ 48 ∷ 0 ∷ 48 ∷ 30 ∷ 23 ∷ 13 ∷ 55 ∷ 48 ∷ 48 ∷ 49 ∷ 48
    ∷ 49 ∷ 48 ∷ 48 ∷ 48 ∷ 48 ∷ 48 ∷ 48 ∷ 90 ∷ 23 ∷ 13 ∷ 55 ∷ 48 ∷ 48 ∷ 49 ∷ 48 ∷ 50 ∷ 48 ∷ 48 ∷ 48
    ∷ 48 ∷ 48 ∷ 48 ∷ 90 ∷ 48 ∷ 0 ∷ 48 ∷ 17 ∷ 48 ∷ 11 ∷ 6 ∷ 9 ∷ 42 ∷ 134 ∷ 72 ∷ 134 ∷ 247 ∷ 13 ∷ 1
    ∷ 1 ∷ 1 ∷ 3 ∷ 2 ∷ 0 ∷ 5 ∷ 163 ∷ 18 ∷ 48 ∷ 16 ∷ 48 ∷ 14 ∷ 6 ∷ 3 ∷ 85 ∷ 29 ∷ 17 ∷ 4 ∷ 7 ∷ 48 ∷ 5
    ∷ 130 ∷ 3 ∷ 97 ∷ 46 ∷ 98 ∷ []

abbrev certificates : CertificateInfo
certificates = record {
  request_context = span [];
  certificate_list = span (0 ∷ 0 ∷ 84 ∷ (wire ++ (0 ∷ 0 ∷ [])));
}

abbrev certificate_verify : CertificateVerifyInfo
certificate_verify = record { algorithm = 0x0804; signature = span (1 ∷ []) }

abbrev trusting : ServerAuthVerifier
trusting = record {
  verify_chain = λ chain host. ok _;
  verify_signature = λ scheme leaf content signature. ok _;
}

abbrev th : ByteSpan
th = span (replicate 32 7)

abbrev host : ByteSpan
host = span (0x61 ∷ 0x2e ∷ 0x62 ∷ [])

accepted : authenticate_server_flight certificates certificate_verify th host (some trusting) ≡ ok _
unfolding authenticate_server_flight parse_certificate_chain chain_loop read_entry leaf_der
    scheme_of key_fits build_server_certificate_verify_message x509_verify_hostname names_loop
    dns_equal same_lower ascii_lower x509_parse_certificate parse_tbs skip_version read_names
    tail_loop only_element der_tlv der_length parse_validity parse_spki key_kind oid_eq bytes_equal
    parse_asn1_time asn1_year dec2 days_before_year days_before_month parse_extensions
    parse_extensions_loop parse_extension read_critical read_extension parse_san load_be24 size_be16
accepted = refl

authenticate_server_flight_iff_example :
    (authenticate_server_flight certificates certificate_verify th host (some trusting) ≡ ok _)
    ↔ IsAuthenticated certificates certificate_verify th host (some trusting)
authenticate_server_flight_iff_example =
    authenticate_server_flight_iff certificates certificate_verify th host (some trusting)
