-- ===== src/X509/Parse/Accepted.antt =====
-- What is known of a certificate that was parsed.
use xbox360_tls.Base.{
  ℕ, ◌≡◌, refl, sym, ap, subst, ◌∙◌, ◌||◌, ◌==◌, Bool-cases, false, [], ◌++◌, drop, length,
  append-nil, inl, inr, drop_all, ap₂, arith,
}
use xbox360_tls.Bytes.{
  Bytes, AreBytes, ByteSpan, span, size, invalid_argument, ok, fail_if, Holds_ok, >>=-eq-ok,
  AreBytes-behind,
}
use xbox360_tls.X509.Der.Laws.{encode_tlv, tlv, der_tlv_sound}
use xbox360_tls.X509.Der.Lengths.{encode_length}
use xbox360_tls.X509.Der.{DerTlv, der_tlv}
use xbox360_tls.X509.Certificate.{X509CertificateView, empty_view}
use xbox360_tls.X509.Extensions.{only_element}
use xbox360_tls.X509.Parse.{parse_tbs, x509_parse_certificate}
use xbox360_tls.X509.Parse.Complete.{IsComplete, tbs-IsComplete}

present_if_read :
    (v : ByteSpan) (off : ℕ) {r : DerTlv × ℕ} → der_tlv v off ≡ ok r → v.is_null ≡ false
unfolding der_tlv
present_if_read v off e = elim (Bool-cases v.is_null) [
  | inl missing ↦ absurd (ground (arith, e, missing))
  | inr present ↦ present
]

only_element_sound :
    (v : ByteSpan) (tag : ℕ) {e : DerTlv}
    → AreBytes v.bytes
    → only_element v tag ≡ ok e
    → (v.bytes ≡ encode_tlv tag e.value.bytes)
      × (e ≡ tlv tag e.value.bytes)
      × AreBytes e.value.bytes
unfolding only_element
only_element_sound v tag {e} h r =
    let ((inner, n), read, q) = >>=-eq-ok (der_tlv v 0) _ r in
    let same : inner ≡ e = ground (arith, q) in
    let tagged : inner.tag ≡ tag = ground (arith, q) in
    let ended : n ≡ size v = ground (arith, q) in
    let present : v.is_null ≡ false = present_if_read v 0 read in
    let whole : v ≡ span v.bytes = λ i. record { is_null = present i; bytes = v.bytes } in
    let (form, place, bound, further, room) =
      der_tlv_sound v.bytes 0 h (sym (ap (λ z. der_tlv z 0) whole) ∙ read) in
    let closed : drop n v.bytes ≡ [] = drop_all n v.bytes (omega (arith, ended)) in
    let enc : v.bytes ≡ encode_tlv tag e.value.bytes =
      place
      ∙ ap₂ (λ x y. encode_tlv x.tag x.value.bytes ++ y) same closed
      ∙ append-nil (encode_tlv e.tag e.value.bytes)
      ∙ ap (λ t. encode_tlv t e.value.bytes) (sym (ap (λ x. x.tag) same) ∙ tagged) in
    (
      enc,
      sym same ∙ form ∙ ap₂ tlv tagged (ap (λ x. x.value.bytes) same),
      AreBytes-behind (encode_length (length e.value.bytes)) e.value.bytes
          ((subst AreBytes enc h).1),
    )

-- What a certificate that is accepted is: the encoding of a sequence whose first element is the
-- signed part, a sequence too; its dates are in order and the kind of its key is known.
abbrev pub IsCertificate : ByteSpan → X509CertificateView → Type 0
IsCertificate der v =
    IsComplete der v.tbs_certificate v
    × (tbs : Bytes) × (rest : Bytes) × (der.bytes
        ≡ encode_tlv 0x30 (v.tbs_certificate.bytes ++ rest))
    × (v.tbs_certificate.bytes ≡ encode_tlv 0x30 tbs)

pub x509_parse_certificate-IsCertificate :
    (der : ByteSpan) {v : X509CertificateView}
    → AreBytes der.bytes
    → x509_parse_certificate der ≡ ok v
    → IsCertificate der v
unfolding x509_parse_certificate
x509_parse_certificate-IsCertificate der {v} h r =
    let (done, _, read) = >>=-eq-ok (fail_if (der.is_null || size der == 0) invalid_argument) _ r in
    let (cert, outer, inside) = >>=-eq-ok (only_element der 0x30) _ read in
    let ((tbs, np), first, last) = >>=-eq-ok (der_tlv cert.value 0) _ inside in
    let (whole, form, bytes) = only_element_sound der 0x30 h outer in
    let present : cert.value ≡ span cert.value.bytes = ap (λ e. e.value) form in
    let (form', place, bound, further, room) =
      der_tlv_sound cert.value.bytes 0 bytes (sym (ap (λ z. der_tlv z 0) present) ∙ first) in
    let start = record empty_view { der = der; tbs_certificate = tbs.full } in
    let tagged : tbs.tag ≡ 0x30 = ground (arith, last) in
    let parsed : parse_tbs tbs.value start ≡ ok v = ground (arith, last) in
    let complete : IsComplete der tbs.full v =
      Holds_ok (IsComplete der tbs.full) (parse_tbs tbs.value start)
        (tbs-IsComplete tbs.value der tbs.full start refl refl) parsed in
    let (dated, known) = complete in
    let cut : v.tbs_certificate.bytes ≡ encode_tlv 0x30 tbs.value.bytes =
      ap (λ z. z.bytes) (dated.1)
      ∙ ap (λ e. e.full.bytes) form'
      ∙ ap (λ t. encode_tlv t tbs.value.bytes) tagged in
    let start_with : cert.value.bytes ≡ v.tbs_certificate.bytes ++ drop np cert.value.bytes =
      place
      ∙ ap (λ t. encode_tlv t tbs.value.bytes ++ drop np cert.value.bytes) tagged
      ∙ ap (λ z. z ++ drop np cert.value.bytes) (sym cut) in
    (
      ((dated.0, refl, dated.2, dated.3), known),
      tbs.value.bytes,
      drop np cert.value.bytes,
      whole ∙ ap (encode_tlv 0x30) start_with,
      cut,
    )
