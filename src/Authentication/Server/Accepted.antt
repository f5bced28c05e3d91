-- ===== src/Authentication/Server/Accepted.antt =====
-- When a server is authenticated.
use xbox360_tls.Base.{
  [], Option, none, some, ℕ, true, false, not, ◌||◌, ◌≡◌, refl, sym, ap, ◌∙◌, ◌++◌, ◌∷◌, ◌==◌, ◌↔◌,
  replicate, arith,
}
use xbox360_tls.Bytes.{
  Bytes, ByteSpan, span, size, invalid_argument, verify, ok, fail_if, >>=-eq-ok,
}
use xbox360_tls.Handshake.Flight.{CertificateInfo, CertificateVerifyInfo}
use xbox360_tls.X509.Certificate.{
  PublicKeyKind, public_key_rsa, public_key_ec_p256, public_key_unknown, X509CertificateView,
}
use xbox360_tls.X509.Parse.{x509_parse_certificate}
use xbox360_tls.X509.Hostname.{x509_verify_hostname}
use xbox360_tls.Authentication.{
  CertificateChainView, parse_certificate_chain, build_server_certificate_verify_message,
}
use xbox360_tls.Authentication.Server.{
  SignatureScheme, sig_ecdsa_secp256r1_sha256, sig_rsa_pss_rsae_sha256, sig_rsa_pss_pss_sha256,
  ServerAuthVerifier, scheme_of, key_fits, leaf_der, authenticate_server_flight,
}

-- The number of a scheme, and the kind of key that makes its signatures.
abbrev pub scheme_code : SignatureScheme → ℕ
scheme_code sig_ecdsa_secp256r1_sha256 = 0x0403
scheme_code sig_rsa_pss_rsae_sha256 = 0x0804
scheme_code sig_rsa_pss_pss_sha256 = 0x0809

abbrev pub key_of : SignatureScheme → PublicKeyKind
key_of sig_ecdsa_secp256r1_sha256 = public_key_ec_p256
key_of sig_rsa_pss_rsae_sha256 = public_key_rsa
key_of sig_rsa_pss_pss_sha256 = public_key_rsa

-- What RFC 8446 has the server sign: 64 spaces, the context "TLS 1.3, server CertificateVerify", a
-- zero and the hash.
abbrev rfc_context : Bytes
rfc_context =
    b'T' ∷ b'L' ∷ b'S' ∷ b' ' ∷ b'1' ∷ b'.' ∷ b'3' ∷ b',' ∷ b' ' ∷ b's' ∷ b'e' ∷ b'r' ∷ b'v' ∷ b'e'
    ∷ b'r' ∷ b' ' ∷ b'C' ∷ b'e' ∷ b'r' ∷ b't' ∷ b'i' ∷ b'f' ∷ b'i' ∷ b'c' ∷ b'a' ∷ b't' ∷ b'e'
    ∷ b'V' ∷ b'e' ∷ b'r' ∷ b'i' ∷ b'f' ∷ b'y' ∷ []

abbrev pub signed_content : Bytes → Bytes
signed_content th = replicate 64 0x20 ++ (rfc_context ++ (0 ∷ th))

-- All that is asked of a server.
pub record IsAuthenticated (certificates : CertificateInfo)
    (certificate_verify : CertificateVerifyInfo) (th hostname : ByteSpan)
    (maybe_verifier : Option ServerAuthVerifier) : Type 0 where
  pub verifier : ServerAuthVerifier
  pub given : maybe_verifier ≡ some verifier
  pub chain : CertificateChainView
  pub leaf : X509CertificateView
  pub scheme : SignatureScheme
  pub present : hostname.is_null ≡ false
  pub chain_parsed : parse_certificate_chain certificates ≡ ok chain
  pub leaf_parsed : x509_parse_certificate (leaf_der chain) ≡ ok leaf
  pub named : x509_verify_hostname leaf hostname ≡ ok _
  pub trusted : verifier.verify_chain chain hostname ≡ ok _
  pub announced : certificate_verify.algorithm ≡ scheme_code scheme
  pub key : leaf.public_key_kind ≡ key_of scheme
  pub hashed : (size th ≡ 32) × (th.is_null ≡ false)
  pub signed :
      verifier.verify_signature scheme leaf
        (span (signed_content th.bytes))
        certificate_verify.signature
      ≡ ok _

scheme_of_sound :
    (algorithm : ℕ) (scheme : SignatureScheme)
    → scheme_of algorithm ≡ ok scheme
    → algorithm ≡ scheme_code scheme
unfolding scheme_of
scheme_of_sound algorithm sig_ecdsa_secp256r1_sha256 e = ground (arith, e)
scheme_of_sound algorithm sig_rsa_pss_rsae_sha256 e = ground (arith, e)
scheme_of_sound algorithm sig_rsa_pss_pss_sha256 e = ground (arith, e)

scheme_of-scheme_code : (scheme : SignatureScheme) → scheme_of (scheme_code scheme) ≡ ok scheme
unfolding scheme_of
scheme_of-scheme_code sig_ecdsa_secp256r1_sha256 = refl
scheme_of-scheme_code sig_rsa_pss_rsae_sha256 = refl
scheme_of-scheme_code sig_rsa_pss_pss_sha256 = refl

key_fits_sound :
    (scheme : SignatureScheme) (kind : PublicKeyKind)
    → key_fits scheme kind ≡ true
    → kind ≡ key_of scheme
unfolding key_fits
key_fits_sound sig_ecdsa_secp256r1_sha256 public_key_ec_p256 e = refl
key_fits_sound sig_ecdsa_secp256r1_sha256 public_key_rsa e = cc
key_fits_sound sig_ecdsa_secp256r1_sha256 public_key_unknown e = cc
key_fits_sound sig_rsa_pss_rsae_sha256 public_key_rsa e = refl
key_fits_sound sig_rsa_pss_rsae_sha256 public_key_ec_p256 e = cc
key_fits_sound sig_rsa_pss_rsae_sha256 public_key_unknown e = cc
key_fits_sound sig_rsa_pss_pss_sha256 public_key_rsa e = refl
key_fits_sound sig_rsa_pss_pss_sha256 public_key_ec_p256 e = cc
key_fits_sound sig_rsa_pss_pss_sha256 public_key_unknown e = cc

key_fits-key_of : (scheme : SignatureScheme) → key_fits scheme (key_of scheme) ≡ true
unfolding key_fits
key_fits-key_of sig_ecdsa_secp256r1_sha256 = refl
key_fits-key_of sig_rsa_pss_rsae_sha256 = refl
key_fits-key_of sig_rsa_pss_pss_sha256 = refl

built_sound :
    (th : ByteSpan) {m : Bytes}
    → build_server_certificate_verify_message th (record { is_null = false; capacity = 160 }) ≡ ok m
    → (size th ≡ 32) × (th.is_null ≡ false) × (m ≡ signed_content th.bytes)
unfolding build_server_certificate_verify_message
built_sound th {m} e =
    let (a, g, r) = >>=-eq-ok (fail_if (not (size th == 32) || th.is_null) invalid_argument) _ e in
    (ground (arith, g), ground (arith, g), cc)

built_complete :
    (th : ByteSpan)
    → size th ≡ 32
    → th.is_null ≡ false
    → build_server_certificate_verify_message th (record { is_null = false; capacity = 160 })
      ≡ ok (signed_content th.bytes)
unfolding build_server_certificate_verify_message
built_complete th e f = let q : (size th == 32) ≡ true = ground (arith, e) in rw (q, f) refl

authenticate_server_flight_sound :
    (certificates : CertificateInfo) (certificate_verify : CertificateVerifyInfo)
    (th hostname : ByteSpan) (verifier : Option ServerAuthVerifier)
    → authenticate_server_flight certificates certificate_verify th hostname verifier ≡ ok _
    → IsAuthenticated certificates certificate_verify th hostname verifier
unfolding authenticate_server_flight
authenticate_server_flight_sound certificates certificate_verify th hostname none e =
    absurd (ground (arith, e))
authenticate_server_flight_sound certificates certificate_verify th hostname (some verifier) e =
    let (a, e0, r0) = >>=-eq-ok (fail_if hostname.is_null verify) _ e in
    let (chain, e1, r1) = >>=-eq-ok (parse_certificate_chain certificates) _ r0 in
    let (leaf, e2, r2) = >>=-eq-ok (x509_parse_certificate (leaf_der chain)) _ r1 in
    let (b, e3, r3) = >>=-eq-ok (x509_verify_hostname leaf hostname) _ r2 in
    let (c, e4, r4) = >>=-eq-ok (verifier.verify_chain chain hostname) _ r3 in
    let (scheme, e5, r5) = >>=-eq-ok (scheme_of certificate_verify.algorithm) _ r4 in
    let (d, e6, r6) =
      >>=-eq-ok (fail_if (not (key_fits scheme leaf.public_key_kind)) verify) _ r5 in
    let (m, e7, r7) =
      >>=-eq-ok
        (build_server_certificate_verify_message th (record { is_null = false; capacity = 160 })) _
        r6 in
    let (g, h, built) = built_sound th e7 in
    record {
      verifier = verifier;
      given = refl;
      chain = chain;
      leaf = leaf;
      scheme = scheme;
      present = ground (arith, e0);
      chain_parsed = e1;
      leaf_parsed = e2;
      named = e3;
      trusted = e4;
      announced = scheme_of_sound certificate_verify.algorithm scheme e5;
      key = key_fits_sound scheme leaf.public_key_kind (ground (arith, e6));
      hashed = (g, h);
      signed =
          ap (λ z. verifier.verify_signature scheme leaf (span z) certificate_verify.signature)
            (sym built)
          ∙ r7;
    }

authenticate_server_flight_complete :
    (certificates : CertificateInfo) (certificate_verify : CertificateVerifyInfo)
    (th hostname : ByteSpan) (verifier : Option ServerAuthVerifier)
    → IsAuthenticated certificates certificate_verify th hostname verifier
    → authenticate_server_flight certificates certificate_verify th hostname verifier ≡ ok _
unfolding authenticate_server_flight
authenticate_server_flight_complete certificates certificate_verify th hostname verifier a =
    let scheme_read : scheme_of certificate_verify.algorithm ≡ ok a.scheme =
      ap scheme_of a.announced ∙ scheme_of-scheme_code a.scheme in
    let fits : key_fits a.scheme a.leaf.public_key_kind ≡ true =
      ap (key_fits a.scheme) a.key ∙ key_fits-key_of a.scheme in
    rw
      (
        a.given,
        a.chain_parsed,
        a.leaf_parsed,
        a.named,
        a.trusted,
        scheme_read,
        fits,
        built_complete th (a.hashed.0) (a.hashed.1),
        a.present,
      )
      a.signed

-- A server's flight is accepted exactly when all that is asked of the server holds: there are a
-- verifier and a host name, the chain and its first certificate are parsed, the certificate names the host, the
-- verifier trusts the chain, the scheme is one of the three and fits the certificate's key, and the
-- verifier accepts the signature of the content that RFC 8446 prescribes for the transcript hash.
pub authenticate_server_flight_iff :
    (certificates : CertificateInfo) (certificate_verify : CertificateVerifyInfo)
    (th hostname : ByteSpan) (verifier : Option ServerAuthVerifier)
    → (authenticate_server_flight certificates certificate_verify th hostname verifier ≡ ok _)
      ↔ IsAuthenticated certificates certificate_verify th hostname verifier
authenticate_server_flight_iff certificates certificate_verify th hostname verifier = (
  authenticate_server_flight_sound certificates certificate_verify th hostname verifier,
  authenticate_server_flight_complete certificates certificate_verify th hostname verifier,
)
