-- ===== src/X509/Hostname/Tests.antt =====
-- A certificate for `*.b`, and the host `a.B`.
use xbox360_tls.Base.{◌≡◌, refl, [], ◌∷◌, if◌then◌else◌, arith}
use xbox360_tls.Bytes.{Bytes, AreBytes, ByteSpan, span, verify, ok, err}
use xbox360_tls.X509.Der.{der_tlv, der_length}
use xbox360_tls.X509.Der.Lengths.{encode_length}
use xbox360_tls.X509.Der.Sequence.{Elements, encode_all}
use xbox360_tls.X509.Certificate.{X509CertificateView, empty_view}
use xbox360_tls.X509.Hostname.{
  ascii_lower, same_lower, first_dot, wildcard_equal, dns_equal, names_loop, x509_verify_hostname,
}
use xbox360_tls.X509.Hostname.Names.{
  any_name, NamedIn, x509_verify_hostname-encode_all, x509_verify_hostname_sound,
}

abbrev names : Elements
names = (0x82, 0x63 ∷ 0x64 ∷ []) ∷ (0x82, 0x2a ∷ 0x2e ∷ 0x62 ∷ []) ∷ []

abbrev wire : Bytes
wire = 0x82 ∷ 2 ∷ 0x63 ∷ 0x64 ∷ 0x82 ∷ 3 ∷ 0x2a ∷ 0x2e ∷ 0x62 ∷ []

abbrev host : Bytes
host = 0x61 ∷ 0x2e ∷ 0x42 ∷ []

encoded : encode_all names ≡ wire
unfolding encode_all encode_length
encoded = refl

wire_bytes : AreBytes wire
wire_bytes = (
  omega arith,
  (
    omega arith,
    (
      omega arith,
      (omega arith, (omega arith, (omega arith, (omega arith, (omega arith, (omega arith, tt)))))),
    ),
  ),
)

names_bytes : AreBytes (encode_all names)
unfolding encode_all encode_length
names_bytes = wire_bytes

abbrev certificate : ByteSpan → X509CertificateView
certificate san = record empty_view { subject_alt_name = san }

x509_verify_hostname-encode_all_example :
    x509_verify_hostname (certificate (span (encode_all names))) (span host)
    ≡ (if any_name names (span host) then ok _ else err verify)
x509_verify_hostname-encode_all_example =
    x509_verify_hostname-encode_all (certificate (span (encode_all names))) names (span host) refl
      names_bytes (omega arith, (omega arith, tt)) refl (omega arith)

named : x509_verify_hostname (certificate (span wire)) (span host) ≡ ok _
unfolding x509_verify_hostname names_loop der_tlv der_length dns_equal wildcard_equal first_dot
    same_lower ascii_lower
named = refl

x509_verify_hostname_sound_example : NamedIn wire host
x509_verify_hostname_sound_example =
    x509_verify_hostname_sound (certificate (span wire)) host wire_bytes named
