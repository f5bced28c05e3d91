-- ===== src/X509/Parse/Complete.antt =====
-- What every certificate that is parsed has, whatever its bytes.
use xbox360_tls.Base.{
  ℕ, zero, suc, ◌≤◌, ◌≡◌, refl, sym, ap, subst, ◌∙◌, ltb, not, ◌||◌, ◌==◌, if◌then◌else◌, true,
  drop, arith,
}
use xbox360_tls.Bytes.{
  ByteSpan, span, size, at, bad_handshake, unsupported, ok, Holds, return_Holds, then_Holds,
  next_Holds, guard_Holds, if_Holds, Holds-map, fail_Holds,
}
use xbox360_tls.X509.Der.{der_tlv}
use xbox360_tls.X509.Time.{parse_asn1_time}
use xbox360_tls.X509.Certificate.{
  PublicKeyKind, public_key_unknown, public_key_rsa, public_key_ec_p256, X509CertificateView,
  parse_validity, oid_eq, oid_rsa, oid_ec, ec_parameter, key_kind, parse_spki,
}
use xbox360_tls.X509.Extensions.{parse_extensions}
use xbox360_tls.X509.Extensions.Kept.{identity, extensions_kept}
use xbox360_tls.X509.Parse.{skip_version, read_names, tail_loop, parse_tbs}

-- The certificate was cut out of `der` as these bytes, and its dates are in order.
abbrev pub IsDated : ByteSpan → ByteSpan → X509CertificateView → Type 0
IsDated der tbs v =
    (v.der ≡ der)
    × (v.tbs_certificate ≡ tbs)
    × (v.validity_present ≡ true)
    × (v.not_before ≤ v.not_after)

-- The same, with a key of a kind that is known.
abbrev pub IsComplete : ByteSpan → ByteSpan → X509CertificateView → Type 0
IsComplete der tbs v = IsDated der tbs v × ¬ (v.public_key_kind ≡ public_key_unknown)

validity-IsDated :
    (full : ByteSpan) (out : X509CertificateView)
    → Holds (IsDated out.der out.tbs_certificate) (parse_validity full out)
unfolding parse_validity
validity-IsDated full out =
    let P = IsDated out.der out.tbs_certificate in
    next_Holds P (der_tlv full 0) _ (λ (seq, n).
      guard_Holds P (not (seq.tag == 0x30) || not (n == size full)) bad_handshake _ (λ g.
        next_Holds P (der_tlv seq.value 0) _ (λ (a, p).
          next_Holds P (der_tlv seq.value p) _ (λ (b, np).
            guard_Holds P (not (np == size seq.value)) bad_handshake _ (λ g.
              next_Holds P (parse_asn1_time a) _ (λ not_before.
                next_Holds P (parse_asn1_time b) _ (λ not_after.
                  guard_Holds P (ltb not_after not_before) bad_handshake
                    (ok (record out {
                      not_before = not_before;
                      not_after = not_after;
                      validity_present = true;
                    }))
                    (λ ordered. return_Holds P _ (refl, refl, refl, ground (arith, ordered))))))))))

names-IsDated :
    (tbs : ByteSpan) (q : ℕ) (out : X509CertificateView)
    → Holds (λ (v, q5). IsDated out.der out.tbs_certificate v) (read_names tbs q out)
unfolding read_names
names-IsDated tbs q out =
    let P : X509CertificateView × ℕ → Type 0 = λ (v, q5). IsDated out.der out.tbs_certificate v in
    next_Holds P (der_tlv tbs q) _ (λ (serial, q1).
      next_Holds P (der_tlv tbs q1) _ (λ (algorithm, q2).
        next_Holds P (der_tlv tbs q2) _ (λ (issuer, q3).
          next_Holds P (der_tlv tbs q3) _ (λ (validity, q4).
            then_Holds (IsDated out.der out.tbs_certificate) P
              (parse_validity validity.full (record out { issuer_name = issuer.full })) _
              (validity-IsDated validity.full (record out { issuer_name = issuer.full }))
              (λ dated h. next_Holds P (der_tlv tbs q4) _ (λ (subject, q5).
                return_Holds P (record dated { subject_name = subject.full }, q5) h))))))

abbrev IsKnown : PublicKeyKind → Type 0
IsKnown kind = ¬ (kind ≡ public_key_unknown)

kind-IsKnown : (oid alg : ByteSpan) (p : ℕ) → Holds IsKnown (key_kind oid alg p)
unfolding key_kind
kind-IsKnown oid alg p =
    if_Holds IsKnown (oid_eq oid oid_rsa) _ _ (λ e. return_Holds IsKnown public_key_rsa (λ e. cc))
      (λ e.
        if_Holds IsKnown (oid_eq oid oid_ec) _ _
          (λ e.
            next_Holds IsKnown (ec_parameter alg p) _
              (λ done. return_Holds IsKnown public_key_ec_p256 (λ e. cc)))
          (λ e. fail_Holds IsKnown unsupported))

spki-IsComplete :
    (spki_full der tbs : ByteSpan) (out : X509CertificateView)
    → IsDated der tbs out
    → Holds (IsComplete der tbs) (parse_spki spki_full out)
unfolding parse_spki
spki-IsComplete spki_full der tbs out h =
    let P = IsComplete der tbs in
    next_Holds P (der_tlv spki_full 0) _ (λ (seq, n).
      guard_Holds P (not (seq.tag == 0x30) || not (n == size spki_full)) bad_handshake _ (λ g.
        next_Holds P (der_tlv seq.value 0) _ (λ (alg, p).
          guard_Holds P (not (alg.tag == 0x30)) bad_handshake _ (λ g.
            next_Holds P (der_tlv alg.value 0) _ (λ (oid, ap).
              guard_Holds P (not (oid.tag == 0x06)) bad_handshake _ (λ g.
                then_Holds IsKnown P (key_kind oid.value alg.value ap) _
                  (kind-IsKnown oid.value alg.value ap)
                  (λ kind known. next_Holds P (der_tlv seq.value p) _ (λ (bits, bp).
                    guard_Holds P
                      (not (bits.tag == 0x03)
                        || ltb (size bits.value) 1
                        || not (at bits.value.bytes 0 == 0)
                        || not (bp == size seq.value))
                      bad_handshake
                      (ok (record out {
                        public_key_kind = kind;
                        subject_public_key_info = spki_full;
                        subject_public_key_bits = span (drop 1 bits.value.bytes);
                      }))
                      (λ g. return_Holds P _ (h, known))))))))))

-- Only the identity of a view says whether it is complete.
identity-IsComplete :
    (der tbs : ByteSpan) (out v : X509CertificateView)
    → IsComplete der tbs out
    → identity v ≡ identity out
    → IsComplete der tbs v
identity-IsComplete der tbs out v h e = subst (IsComplete der tbs) (sym e) h

tail-IsComplete :
    (n : ℕ) (tbs_value : ByteSpan) (q : ℕ) (der tbs : ByteSpan) (out : X509CertificateView)
    → IsComplete der tbs out
    → Holds (IsComplete der tbs) (tail_loop n tbs_value q out)
unfolding tail_loop
tail-IsComplete zero tbs_value q der tbs out h = return_Holds (IsComplete der tbs) out h
tail-IsComplete (suc n) tbs_value q der tbs out h =
    let P = IsComplete der tbs in
    if_Holds P (not (ltb q (size tbs_value))) (ok out) _ (λ e. return_Holds P out h)
      (λ e. next_Holds P (der_tlv tbs_value q) _ (λ (f, qn).
        then_Holds P P (if f.tag == 0xa3 then parse_extensions f.full out else ok out) _
          (if_Holds P (f.tag == 0xa3) (parse_extensions f.full out) (ok out)
            (λ e.
              Holds-map (λ v. identity v ≡ identity out) P (parse_extensions f.full out)
                (extensions_kept f.full out) (λ v k. identity-IsComplete der tbs out v h k))
            (λ e. return_Holds P out h))
          (λ next k. tail-IsComplete n tbs_value qn der tbs next k)))

pub tbs-IsComplete :
    (tbs_value der tbs : ByteSpan) (out : X509CertificateView)
    → out.der ≡ der
    → out.tbs_certificate ≡ tbs
    → Holds (IsComplete der tbs) (parse_tbs tbs_value out)
unfolding parse_tbs
tbs-IsComplete tbs_value der tbs out e f =
    let P = IsComplete der tbs in
    next_Holds P (skip_version tbs_value) _ (λ q.
      then_Holds (λ (v, q5). IsDated out.der out.tbs_certificate v) P (read_names tbs_value q out) _
        (names-IsDated tbs_value q out)
        (λ (named, q5) h. next_Holds P (der_tlv tbs_value q5) _ (λ (spki, qn).
          guard_Holds P (not (spki.tag == 0x30)) bad_handshake _ (λ g.
            then_Holds P P (parse_spki spki.full named) _
              (spki-IsComplete spki.full der tbs named (h.0 ∙ e, h.1 ∙ f, h.2, h.3))
              (λ keyed k. tail-IsComplete (size tbs_value) tbs_value qn der tbs keyed k)))))
