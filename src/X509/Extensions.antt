-- ===== src/X509/Extensions.antt =====
-- `parse_extensions`: the extensions of a certificate.
pub mod Kept
pub mod Loops
use xbox360_tls.Base.{
  ℕ, zero, suc, bit_and, Bool, true, false, not, ◌||◌, ltb, ◌==◌, if◌then◌else◌, [], ◌∷◌,
}
use xbox360_tls.Bytes.{
  Bytes, ByteSpan, size, at, bad_handshake, unsupported, Result, ok, ◌>>=◌, ◌>>◌, fail_if,
}
use xbox360_tls.X509.Der.{DerTlv, der_tlv, length_loop}
use xbox360_tls.X509.Certificate.{X509CertificateView, oid_eq}

abbrev pub oid_san : Bytes
oid_san = 0x55 ∷ 0x1d ∷ 0x11 ∷ []

abbrev pub oid_bc : Bytes
oid_bc = 0x55 ∷ 0x1d ∷ 0x13 ∷ []

abbrev pub oid_ku : Bytes
oid_ku = 0x55 ∷ 0x1d ∷ 0x0f ∷ []

abbrev pub oid_eku : Bytes
oid_eku = 0x55 ∷ 0x1d ∷ 0x25 ∷ []

abbrev pub oid_server_auth : Bytes
oid_server_auth = 0x2b ∷ 0x06 ∷ 0x01 ∷ 0x05 ∷ 0x05 ∷ 0x07 ∷ 0x03 ∷ 0x01 ∷ []

-- The one element that an octet string has to hold.
unfoldable pub only_element : ByteSpan → ℕ → Result DerTlv
only_element v tag = do
  (inner, n) ← der_tlv v 0
  fail_if (not (inner.tag == tag) || not (n == size v)) bad_handshake
  ok inner

unfoldable pub parse_san : ByteSpan → X509CertificateView → Result X509CertificateView
parse_san v out = do names ← only_element v 0x30; ok (record out { subject_alt_name = names.value })

-- Whether the constraints name a CA, with the place behind what was read of it.
unfoldable pub parse_ca : ByteSpan → Result (Bool × ℕ)
parse_ca bc = if not (ltb 0 (size bc)) then ok (false, 0) else do
  (ca, cn) ← der_tlv bc 0
  if not (ca.tag == 0x01) then ok (false, 0) else do
    fail_if (not (size ca.value == 1)) bad_handshake
    ok (not (at ca.value.bytes 0 == 0), cn)

unfoldable pub parse_path_len : ByteSpan → ℕ → X509CertificateView → Result X509CertificateView
parse_path_len bc bp out = if not (ltb bp (size bc)) then ok out else do
  (pl, pn) ← der_tlv bc bp
  fail_if
      (not (pl.tag == 0x02)
        || size pl.value == 0
        || ltb 4 (size pl.value)
        || not (pn == size bc)
        || not (bit_and (at pl.value.bytes 0) 0x80 == 0))
      bad_handshake
  ok (record out {
    path_len_present = true;
    path_len_constraint = length_loop (size pl.value) pl.value.bytes 0 0;
  })

unfoldable pub parse_basic_constraints : ByteSpan → X509CertificateView → Result X509CertificateView
parse_basic_constraints v out = do
  bc ← only_element v 0x30
  (is_ca, bp) ← parse_ca bc.value
  parse_path_len bc.value bp (record out { basic_constraints_present = true; is_ca = is_ca })

unfoldable pub parse_key_usage : ByteSpan → X509CertificateView → Result X509CertificateView
parse_key_usage v out = do
  ku ← only_element v 0x03
  fail_if (ltb (size ku.value) 2 || ltb 7 (at ku.value.bytes 0)) bad_handshake
  let b0 = at ku.value.bytes 1
  ok (record out {
    key_usage_present = true;
    key_usage_digital_signature = not (bit_and b0 0x80 == 0);
    key_usage_key_cert_sign = not (bit_and b0 0x04 == 0);
  })

-- `while (ep < es.value.size)`: a round reads a byte at least, so `es.value.size` rounds are enough.
unfoldable pub eku_loop : ℕ → ByteSpan → ℕ → X509CertificateView → Result X509CertificateView
eku_loop zero es ep out = ok out
eku_loop (suc n) es ep out = if not (ltb ep (size es)) then ok out else do
  (eo, eon) ← der_tlv es ep
  fail_if (not (eo.tag == 0x06)) bad_handshake
  eku_loop n es eon
      (if oid_eq eo.value oid_server_auth then record out { eku_server_auth = true } else out)

unfoldable pub parse_extended_key_usage :
    ByteSpan → X509CertificateView → Result X509CertificateView
parse_extended_key_usage v out = do
  es ← only_element v 0x30
  eku_loop (size es.value) es.value 0 (record out { extended_key_usage_present = true })

-- What the value of an extension with this identifier gives; one that is not known gives nothing,
-- and is refused if it is critical.
unfoldable pub read_extension :
    ByteSpan → Bool → ByteSpan → X509CertificateView → Result X509CertificateView
read_extension oid critical v out =
    if oid_eq oid oid_san
    then parse_san v out
    else if oid_eq oid oid_bc
    then parse_basic_constraints v out
    else if oid_eq oid oid_ku
    then parse_key_usage v out
    else if oid_eq oid oid_eku
    then parse_extended_key_usage v out
    else (do fail_if critical unsupported; ok out)

-- The flag `critical`, and the element behind it with the offset behind that.
unfoldable pub read_critical : ByteSpan → ℕ → Result (Bool × (DerTlv × ℕ))
read_critical ext q = do
  (v, vn) ← der_tlv ext q
  if not (v.tag == 0x01) then ok (false, (v, vn)) else do
    fail_if (not (size v.value == 1)) bad_handshake
    next ← der_tlv ext vn
    ok (not (at v.value.bytes 0 == 0), next)

-- One round of the loop over the extensions, for the element read.
unfoldable pub parse_extension : DerTlv → X509CertificateView → Result X509CertificateView
parse_extension ext out = do
  fail_if (not (ext.tag == 0x30)) bad_handshake
  (oid, qn) ← der_tlv ext.value 0
  fail_if (not (oid.tag == 0x06)) bad_handshake
  (critical, (v, vn)) ← read_critical ext.value qn
  fail_if (not (v.tag == 0x04) || not (vn == size ext.value)) bad_handshake
  read_extension oid.value critical v.value out

-- `while (p < seq.value.size)`: a round reads a byte at least, so `seq.value.size` rounds are enough.
unfoldable pub parse_extensions_loop :
    ℕ → ByteSpan → ℕ → X509CertificateView → Result X509CertificateView
parse_extensions_loop zero seq p out = ok out
parse_extensions_loop (suc n) seq p out = if not (ltb p (size seq)) then ok out else do
  (ext, np) ← der_tlv seq p
  next ← parse_extension ext out
  parse_extensions_loop n seq np next

unfoldable pub parse_extensions : ByteSpan → X509CertificateView → Result X509CertificateView
parse_extensions extensions_explicit out = do
  exwrap ← only_element extensions_explicit 0xa3
  seq ← only_element exwrap.value 0x30
  parse_extensions_loop (size seq.value) seq.value 0 out
