-- ===== src/X509/Hostname/Names.antt =====
-- The loop over the alternative names of a certificate.
use xbox360_tls.Base.{
  ℕ, zero, suc, ◌-◌, ◌≤◌, ◌<◌, ◌≡◌, refl, sym, ap, ◌∙◌, inl, inr, [], ◌∷◌, ◌++◌, length, drop, Bool,
  true, false, Bool-cases, ◌&&◌, ◌||◌, ltb, lt→ltb, le→ltb, ◌==◌, ==_iff, if◌then◌else◌, arith,
}
use xbox360_tls.Bytes.{Bytes, AreBytes, ByteSpan, span, size, verify, ok, err, Result-cases}
use xbox360_tls.X509.Der.Laws.{encode_tlv, der_tlv_sound}
use xbox360_tls.X509.Der.Sequence.{Elements, encode_all, AreShort, behind, next_element, no_element}
use xbox360_tls.X509.Der.{der_tlv}
use xbox360_tls.X509.Certificate.{X509CertificateView}
use xbox360_tls.X509.Hostname.{dns_equal, names_loop, x509_verify_hostname}
use xbox360_tls.X509.Hostname.Matching.{Names, dns_equal_sound}

-- Whether one of the names is a dNSName that `dns_equal` accepts.
unfoldable pub any_name : Elements → ByteSpan → Bool
any_name [] hostname = false
any_name ((t, v) ∷ es) hostname = (t == 0x82 && dns_equal (span v) hostname) || any_name es hostname

names_loop-encode_all :
    (n : ℕ) (b : Bytes) (p : ℕ) (es : Elements) (hostname : ByteSpan)
    → AreBytes b
    → AreShort es
    → drop p b ≡ encode_all es
    → length b - p ≤ n
    → names_loop n (span b) p hostname ≡ (if any_name es hostname then ok _ else err verify)
unfolding names_loop any_name
names_loop-encode_all zero b p [] hostname h f d l = refl
names_loop-encode_all (suc n) b p [] hostname h f d l =
    rw (le→ltb p (length b) (no_element b p d)) refl
names_loop-encode_all zero b p ((t, v) ∷ es) hostname h f d l =
    let (read, after, further, inside) = next_element b p t v es h d f.0 in
    absurd (omega (arith, l, further, inside))
names_loop-encode_all (suc n) b p ((t, v) ∷ es) hostname h f d l =
    let (read, after, further, inside) = next_element b p t v es h d f.0 in
    let rest =
      names_loop-encode_all n b (behind p t v) es hostname h f.1 after
        (omega (arith, l, further, inside)) in
    elim (Bool-cases (t == 0x82 && dns_equal (span v) hostname)) [
      | inl e ↦ rw (lt→ltb p (length b) (omega (arith, further, inside)), read, e) refl
      | inr e ↦ rw (lt→ltb p (length b) (omega (arith, further, inside)), read, e, rest) refl
    ]

-- A certificate whose alternative names are these elements is accepted for a host if one of them
-- is a dNSName that `dns_equal` accepts, and is refused with `verify` otherwise.
pub x509_verify_hostname-encode_all :
    (cert : X509CertificateView) (es : Elements) (hostname : ByteSpan)
    → cert.subject_alt_name ≡ span (encode_all es)
    → AreBytes (encode_all es)
    → AreShort es
    → hostname.is_null ≡ false
    → 0 < size hostname
    → x509_verify_hostname cert hostname ≡ (if any_name es hostname then ok _ else err verify)
unfolding x509_verify_hostname
x509_verify_hostname-encode_all cert es hostname e h f present some_host =
    simp (e, present)
      (rw
        (names_loop-encode_all (length (encode_all es)) (encode_all es) 0 es hostname h f refl
          (omega arith))
        (ground arith))

-- Where a dNSName that names the host stands in the alternative names.
abbrev pub NamedIn : Bytes → Bytes → Type 0
NamedIn b host =
    (off : ℕ) × (v : Bytes) × (rest : Bytes) × (drop off b ≡ encode_tlv 0x82 v ++ rest)
    × Names v host

names_loop_sound :
    (n : ℕ) (b : Bytes) (p : ℕ) (host : Bytes)
    → AreBytes b
    → names_loop n (span b) p (span host) ≡ ok _
    → NamedIn b host
unfolding names_loop
names_loop_sound zero b p host h e = cc
names_loop_sound (suc n) b p host h e = elim (Bool-cases (ltb p (length b))) [
  | inr out ↦ absurd (ground (arith, e, out))
  | inl inside ↦ elim (Result-cases (der_tlv (span b) p)) [
    | inr (code, r) ↦ absurd (ground (arith, e, inside, r))
    | inl ((gn, np), r) ↦ elim (Bool-cases (gn.tag == 0x82 && dns_equal gn.value (span host))) [
      | inl m ↦
          let (form, place, bound, further, room) = der_tlv_sound b p h r in
          let tagged : gn.tag ≡ 0x82 = (==_iff _ _).0 (ground (arith, m)) in
          let equal : dns_equal (span gn.value.bytes) (span host) ≡ true =
            sym (ap (λ z. dns_equal z.value (span host)) form) ∙ ground (arith, m) in
          (
            p,
            gn.value.bytes,
            drop np b,
            place ∙ ap (λ t. encode_tlv t gn.value.bytes ++ drop np b) tagged,
            dns_equal_sound gn.value.bytes host equal,
          )
      | inr m ↦ names_loop_sound n b np host h (ground (arith, e, inside, r, m))
    ]
  ]
]

-- A certificate that is accepted for a host has, among the bytes of its alternative names, the
-- encoding of a dNSName that names the host.
pub x509_verify_hostname_sound :
    (cert : X509CertificateView) (host : Bytes)
    → AreBytes cert.subject_alt_name.bytes
    → x509_verify_hostname cert (span host) ≡ ok _
    → NamedIn cert.subject_alt_name.bytes host
unfolding x509_verify_hostname
x509_verify_hostname_sound cert host h e = elim (Bool-cases cert.subject_alt_name.is_null) [
  | inl missing ↦ absurd (ground (arith, e, missing))
  | inr present ↦
      let whole : cert.subject_alt_name ≡ span cert.subject_alt_name.bytes =
        λ i. record { is_null = present i; bytes = cert.subject_alt_name.bytes } in
      names_loop_sound (size cert.subject_alt_name) cert.subject_alt_name.bytes 0 host h (
        sym (ap (λ z. names_loop (size cert.subject_alt_name) z 0 (span host)) whole)
        ∙ ground (arith, e, present))
]
