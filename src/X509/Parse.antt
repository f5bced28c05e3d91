-- ===== src/X509/Parse.antt =====
-- `x509_parse_certificate`.
pub mod Complete
pub mod Accepted
mod Tests
use xbox360_tls.Base.{ℕ, zero, suc, not, ◌||◌, ltb, ◌==◌, if◌then◌else◌}
use xbox360_tls.Bytes.{
  ByteSpan, size, invalid_argument, bad_handshake, Result, ok, ◌>>=◌, ◌>>◌, fail_if,
}
use xbox360_tls.X509.Der.{der_tlv}
use xbox360_tls.X509.Certificate.{X509CertificateView, empty_view, parse_validity, parse_spki}
use xbox360_tls.X509.Extensions.{only_element, parse_extensions}

-- Where the fields of the signed part start: behind the version, if there is one.
unfoldable pub skip_version : ByteSpan → Result ℕ
skip_version tbs = do (f, qn) ← der_tlv tbs 0; ok (if f.tag == 0xa0 then qn else 0)

-- The five rounds of `for (int i = 0; i < 5; ++i)`: serial number, algorithm, issuer, validity and
-- subject. The offset behind them is returned.
unfoldable pub read_names : ByteSpan → ℕ → X509CertificateView → Result (X509CertificateView × ℕ)
read_names tbs q out = do
  (serial, q1) ← der_tlv tbs q
  (algorithm, q2) ← der_tlv tbs q1
  (issuer, q3) ← der_tlv tbs q2
  (validity, q4) ← der_tlv tbs q3
  dated ← parse_validity validity.full (record out { issuer_name = issuer.full })
  (subject, q5) ← der_tlv tbs q4
  ok (record dated { subject_name = subject.full }, q5)

-- `while (q < tbs.value.size)`: a round reads a byte at least, so `tbs.value.size` rounds are enough.
unfoldable pub tail_loop : ℕ → ByteSpan → ℕ → X509CertificateView → Result X509CertificateView
tail_loop zero tbs q out = ok out
tail_loop (suc n) tbs q out = if not (ltb q (size tbs)) then ok out else do
  (f, qn) ← der_tlv tbs q
  next ← if f.tag == 0xa3 then parse_extensions f.full out else ok out
  tail_loop n tbs qn next

unfoldable pub parse_tbs : ByteSpan → X509CertificateView → Result X509CertificateView
parse_tbs tbs out = do
  q ← skip_version tbs
  (named, q5) ← read_names tbs q out
  (spki, qn) ← der_tlv tbs q5
  fail_if (not (spki.tag == 0x30)) bad_handshake
  keyed ← parse_spki spki.full named
  tail_loop (size tbs) tbs qn keyed

unfoldable pub x509_parse_certificate : ByteSpan → Result X509CertificateView
x509_parse_certificate der = do
  fail_if (der.is_null || size der == 0) invalid_argument
  cert ← only_element der 0x30
  (tbs, np) ← der_tlv cert.value 0
  fail_if (not (tbs.tag == 0x30)) bad_handshake
  parse_tbs tbs.value (record empty_view { der = der; tbs_certificate = tbs.full })
