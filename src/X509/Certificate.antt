-- ===== src/X509/Certificate.antt =====
-- `X509CertificateView` and `x509_parse_certificate`. `der_tlv` fails with `bad_handshake` only,
-- so that passing its error on and returning `XT_ERR_BAD_HANDSHAKE` are the same.
use xbox360_tls.Base.{ℕ, Bool, true, false, not, ◌||◌, ltb, ◌==◌, if◌then◌else◌, drop, [], ◌∷◌}
use xbox360_tls.Bytes.{
  Bytes, ByteSpan, null_span, span, size, at, bad_handshake, unsupported, Result, ok, err, ◌>>=◌,
  ◌>>◌, fail_if, bytes_equal,
}
use xbox360_tls.X509.Der.{der_tlv}
use xbox360_tls.X509.Time.{parse_asn1_time}

pub data PublicKeyKind : Type 0 where
  public_key_unknown public_key_rsa public_key_ec_p256 : PublicKeyKind

pub record X509CertificateView : Type 0 where
  pub der : ByteSpan
  pub tbs_certificate : ByteSpan
  pub issuer_name : ByteSpan
  pub subject_name : ByteSpan
  pub subject_public_key_info : ByteSpan
  pub subject_public_key_bits : ByteSpan
  pub subject_alt_name : ByteSpan
  pub public_key_kind : PublicKeyKind
  pub validity_present : Bool
  pub not_before : ℕ
  pub not_after : ℕ
  pub basic_constraints_present : Bool
  pub is_ca : Bool
  pub path_len_present : Bool
  pub path_len_constraint : ℕ
  pub key_usage_present : Bool
  pub key_usage_digital_signature : Bool
  pub key_usage_key_cert_sign : Bool
  pub extended_key_usage_present : Bool
  pub eku_server_auth : Bool

abbrev pub empty_view : X509CertificateView
empty_view = record {
  der = null_span;
  tbs_certificate = null_span;
  issuer_name = null_span;
  subject_name = null_span;
  subject_public_key_info = null_span;
  subject_public_key_bits = null_span;
  subject_alt_name = null_span;
  public_key_kind = public_key_unknown;
  validity_present = false;
  not_before = 0;
  not_after = 0;
  basic_constraints_present = false;
  is_ca = false;
  path_len_present = false;
  path_len_constraint = 0;
  key_usage_present = false;
  key_usage_digital_signature = false;
  key_usage_key_cert_sign = false;
  extended_key_usage_present = false;
  eku_server_auth = false;
}

unfoldable pub parse_validity : ByteSpan → X509CertificateView → Result X509CertificateView
parse_validity full out = do
  (seq, n) ← der_tlv full 0
  fail_if (not (seq.tag == 0x30) || not (n == size full)) bad_handshake
  (a, p) ← der_tlv seq.value 0
  (b, np) ← der_tlv seq.value p
  fail_if (not (np == size seq.value)) bad_handshake
  not_before ← parse_asn1_time a
  not_after ← parse_asn1_time b
  fail_if (ltb not_after not_before) bad_handshake
  ok (record out { not_before = not_before; not_after = not_after; validity_present = true })

unfoldable pub oid_eq : ByteSpan → Bytes → Bool
oid_eq oid bytes = bytes_equal oid.bytes bytes

abbrev pub oid_rsa : Bytes
oid_rsa = 0x2a ∷ 0x86 ∷ 0x48 ∷ 0x86 ∷ 0xf7 ∷ 0x0d ∷ 0x01 ∷ 0x01 ∷ 0x01 ∷ []

abbrev pub oid_ec : Bytes
oid_ec = 0x2a ∷ 0x86 ∷ 0x48 ∷ 0xce ∷ 0x3d ∷ 0x02 ∷ 0x01 ∷ []

abbrev pub oid_p256 : Bytes
oid_p256 = 0x2a ∷ 0x86 ∷ 0x48 ∷ 0xce ∷ 0x3d ∷ 0x03 ∷ 0x01 ∷ 0x07 ∷ []

-- The parameter of an EC key, which has to be P-256.
unfoldable pub ec_parameter : ByteSpan → ℕ → Result (Unit {0})
ec_parameter alg ap = do
  fail_if (not (ltb ap (size alg))) unsupported
  elim (der_tlv alg ap) [
    | ok (param, dummy) ↦
        fail_if (not (param.tag == 0x06) || not (oid_eq param.value oid_p256)) unsupported
    | err e ↦ err unsupported
  ]

unfoldable pub key_kind : ByteSpan → ByteSpan → ℕ → Result PublicKeyKind
key_kind oid alg ap =
    if oid_eq oid oid_rsa
    then ok public_key_rsa
    else if oid_eq oid oid_ec
    then (do ec_parameter alg ap; ok public_key_ec_p256)
    else err unsupported

unfoldable pub parse_spki : ByteSpan → X509CertificateView → Result X509CertificateView
parse_spki spki_full out = do
  (seq, n) ← der_tlv spki_full 0
  fail_if (not (seq.tag == 0x30) || not (n == size spki_full)) bad_handshake
  (alg, p) ← der_tlv seq.value 0
  fail_if (not (alg.tag == 0x30)) bad_handshake
  (oid, ap) ← der_tlv alg.value 0
  fail_if (not (oid.tag == 0x06)) bad_handshake
  kind ← key_kind oid.value alg.value ap
  (bits, bp) ← der_tlv seq.value p
  fail_if
      (not (bits.tag == 0x03)
        || ltb (size bits.value) 1
        || not (at bits.value.bytes 0 == 0)
        || not (bp == size seq.value))
      bad_handshake
  ok (record out {
    public_key_kind = kind;
    subject_public_key_info = spki_full;
    subject_public_key_bits = span (drop 1 bits.value.bytes);
  })
