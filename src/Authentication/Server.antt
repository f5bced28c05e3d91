-- ===== src/Authentication/Server.antt =====
-- `authenticate_server_flight`. What verifies the chain and the signature is given by the caller.
pub mod Accepted
mod Tests
use xbox360_tls.Base.{
  Option, none, some, ℕ, Bool, true, false, not, ◌&&◌, ◌||◌, List, [], ◌∷◌, ◌==◌, if◌then◌else◌,
}
use xbox360_tls.Bytes.{
  Bytes, ByteSpan, span, MutableByteSpan, Error, unsupported, verify, Result, ok, err, ◌>>=◌, ◌>>◌,
  fail_if,
}
use xbox360_tls.Handshake.Flight.{CertificateInfo, CertificateVerifyInfo}
use xbox360_tls.X509.Certificate.{
  PublicKeyKind, public_key_rsa, public_key_ec_p256, public_key_unknown, X509CertificateView,
}
use xbox360_tls.X509.Parse.{x509_parse_certificate}
use xbox360_tls.X509.Hostname.{x509_verify_hostname}
use xbox360_tls.Authentication.{
  CertificateChainView, CertificateChainEntry, parse_certificate_chain,
  build_server_certificate_verify_message,
}

-- `enum SignatureScheme`
pub data SignatureScheme : Type 0 where
  sig_ecdsa_secp256r1_sha256 sig_rsa_pss_rsae_sha256 sig_rsa_pss_pss_sha256 : SignatureScheme

-- `ServerAuthVerifier`: an abstract class, of which the two calls are the parameters here.
pub record ServerAuthVerifier : Type 0 where
  pub verify_chain : CertificateChainView → ByteSpan → Result (Unit {0})
  pub verify_signature :
      SignatureScheme → X509CertificateView → ByteSpan → ByteSpan → Result (Unit {0})

unfoldable pub scheme_of : ℕ → Result SignatureScheme
scheme_of algorithm =
    if algorithm == 0x0403
    then ok sig_ecdsa_secp256r1_sha256
    else if algorithm == 0x0804
    then ok sig_rsa_pss_rsae_sha256
    else if algorithm == 0x0809
    then ok sig_rsa_pss_pss_sha256
    else err unsupported

-- Whether a key of this kind makes signatures of this scheme.
unfoldable pub key_fits : SignatureScheme → PublicKeyKind → Bool
key_fits sig_ecdsa_secp256r1_sha256 public_key_ec_p256 = true
key_fits sig_ecdsa_secp256r1_sha256 kind = false
key_fits sig_rsa_pss_rsae_sha256 public_key_rsa = true
key_fits sig_rsa_pss_rsae_sha256 kind = false
key_fits sig_rsa_pss_pss_sha256 public_key_rsa = true
key_fits sig_rsa_pss_pss_sha256 kind = false

-- `chain.entries[0].der`; a chain that was parsed has an entry.
unfoldable pub leaf_der : CertificateChainView → ByteSpan
leaf_der [] = span []
leaf_der (entry ∷ chain) = entry.der

-- A verifier that is a null pointer is `none`.
unfoldable pub authenticate_server_flight :
    CertificateInfo
    → CertificateVerifyInfo
    → ByteSpan
    → ByteSpan
    → Option ServerAuthVerifier
    → Result (Unit {0})
authenticate_server_flight certificates certificate_verify transcript_hash hostname none =
    err verify
authenticate_server_flight certificates certificate_verify transcript_hash hostname
      (some verifier) =
    do
      fail_if hostname.is_null verify
      chain ← parse_certificate_chain certificates
      leaf ← x509_parse_certificate (leaf_der chain)
      x509_verify_hostname leaf hostname
      verifier.verify_chain chain hostname
      scheme ← scheme_of certificate_verify.algorithm
      fail_if (not (key_fits scheme leaf.public_key_kind)) verify
      signed_message ←
          build_server_certificate_verify_message transcript_hash
            (record { is_null = false; capacity = 160 })
      verifier.verify_signature scheme leaf (span signed_message) certificate_verify.signature
