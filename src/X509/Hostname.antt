-- ===== src/X509/Hostname.antt =====
-- `x509_verify_hostname`. A host name is the span of its characters, without the final zero.
pub mod Matching
mod Tests
pub mod Names
use xbox360_tls.Base.{
  ℕ, zero, suc, ◌+◌, ◌-◌, Bool, true, false, not, ◌&&◌, ◌||◌, ltb, ◌==◌, if◌then◌else◌, [], ◌∷◌,
  length, drop, Option, some, none,
}
use xbox360_tls.Bytes.{
  Bytes, ByteSpan, size, at, invalid_argument, verify, Result, ok, err, ◌>>=◌, ◌>>◌, fail_if,
}
use xbox360_tls.X509.Der.{der_tlv}
use xbox360_tls.X509.Certificate.{X509CertificateView}

unfoldable pub ascii_lower : ℕ → ℕ
ascii_lower c = if not (ltb c 0x41) && not (ltb 0x5a c) then c + (0x61 - 0x41) else c

-- The loop that compares two strings of the same length.
unfoldable pub same_lower : Bytes → Bytes → Bool
same_lower [] b = true
same_lower (x ∷ a) [] = true
same_lower (x ∷ a) (y ∷ b) = ascii_lower x == ascii_lower y && same_lower a b

-- `strchr(host, '.')`: the characters from the first dot on.
unfoldable pub first_dot : Bytes → Option Bytes
first_dot [] = none
first_dot (c ∷ host) = if c == 0x2e then some (c ∷ host) else first_dot host

-- Whether the pattern is `*.` and what follows the first label of the host.
unfoldable pub wildcard_equal : Bytes → Bytes → Bool
wildcard_equal pat host =
    if ltb 2 (length pat) && (at pat 0 == 0x2a && at pat 1 == 0x2e)
    then elim (first_dot host) [
      | none ↦ false
      | some dot ↦
          if length dot == length host
          then false
          else length (drop 1 dot) == length pat - 2 && same_lower (drop 2 pat) (drop 1 dot)
    ]
    else false

unfoldable pub dns_equal : ByteSpan → ByteSpan → Bool
dns_equal pat host =
    if host.is_null
    then false
    else if size pat == size host && same_lower pat.bytes host.bytes
    then true
    else wildcard_equal pat.bytes host.bytes

-- `while (p < cert.subject_alt_name.size)`: a round reads a byte at least, so that many rounds are
-- enough.
unfoldable pub names_loop : ℕ → ByteSpan → ℕ → ByteSpan → Result (Unit {0})
names_loop zero names p hostname = err verify
names_loop (suc n) names p hostname = if not (ltb p (size names)) then err verify else do
  (gn, np) ← der_tlv names p
  if gn.tag == 0x82 && dns_equal gn.value hostname then ok _ else names_loop n names np hostname

unfoldable pub x509_verify_hostname : X509CertificateView → ByteSpan → Result (Unit {0})
x509_verify_hostname cert hostname = do
  fail_if (hostname.is_null || size hostname == 0) invalid_argument
  fail_if cert.subject_alt_name.is_null verify
  names_loop (size cert.subject_alt_name) cert.subject_alt_name 0 hostname
