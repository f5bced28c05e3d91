-- ===== src/X509/Extensions/Kept.antt =====
-- What the extensions of a certificate cannot change.
use xbox360_tls.Base.{
  ℕ, zero, suc, ◌≡◌, refl, ◌∙◌, Bool, true, false, not, ◌||◌, bit_and, ltb, ◌==◌, if◌then◌else◌,
}
use xbox360_tls.Bytes.{
  ByteSpan, at, null_span, size, bad_handshake, unsupported, ok, Holds, return_Holds, then_Holds,
  next_Holds, guard_Holds, if_Holds,
}
use xbox360_tls.X509.Der.{DerTlv, der_tlv, length_loop}
use xbox360_tls.X509.Certificate.{X509CertificateView, oid_eq}
use xbox360_tls.X509.Extensions.{
  oid_san, oid_bc, oid_ku, oid_eku, oid_server_auth, only_element, parse_san, parse_ca,
  parse_path_len, parse_basic_constraints, parse_key_usage, eku_loop, parse_extended_key_usage,
  read_extension, read_critical, parse_extension, parse_extensions_loop, parse_extensions,
}

-- The view without what extensions say.
abbrev pub identity : X509CertificateView → X509CertificateView
identity v = record v {
  subject_alt_name = null_span;
  basic_constraints_present = false;
  is_ca = false;
  path_len_present = false;
  path_len_constraint = 0;
  key_usage_present = false;
  key_usage_digital_signature = false;
  key_usage_key_cert_sign = false;
  extended_key_usage_present = false;
  eku_server_auth = false;
}

-- A view with the identity of `out`.
abbrev pub Keeps : X509CertificateView → X509CertificateView → Type 0
Keeps out v = identity v ≡ identity out

path_len_kept :
    (bc : ByteSpan) (bp : ℕ) (out : X509CertificateView)
    → Holds (Keeps out) (parse_path_len bc bp out)
unfolding parse_path_len
path_len_kept bc bp out =
    if_Holds (Keeps out) (not (ltb bp (size bc))) (ok out) _
      (λ e. return_Holds (Keeps out) out refl)
      (λ e. next_Holds (Keeps out) (der_tlv bc bp) _ (λ (pl, pn).
        guard_Holds (Keeps out)
          (not (pl.tag == 0x02)
            || size pl.value == 0
            || ltb 4 (size pl.value)
            || not (pn == size bc)
            || not (bit_and (at pl.value.bytes 0) 0x80 == 0))
          bad_handshake
          (ok (record out {
            path_len_present = true;
            path_len_constraint = length_loop (size pl.value) pl.value.bytes 0 0;
          }))
          (λ g. return_Holds (Keeps out) _ refl)))

san_kept : (v : ByteSpan) (out : X509CertificateView) → Holds (Keeps out) (parse_san v out)
unfolding parse_san
san_kept v out =
    next_Holds (Keeps out) (only_element v 0x30) _ (λ names. return_Holds (Keeps out) _ refl)

basic_constraints_kept :
    (v : ByteSpan) (out : X509CertificateView) → Holds (Keeps out) (parse_basic_constraints v out)
unfolding parse_basic_constraints
basic_constraints_kept v out = next_Holds (Keeps out) (only_element v 0x30) _ (λ bc.
    next_Holds (Keeps out) (parse_ca bc.value) _ (λ (is_ca, bp).
      path_len_kept bc.value bp (record out { basic_constraints_present = true; is_ca = is_ca })))

key_usage_kept :
    (v : ByteSpan) (out : X509CertificateView) → Holds (Keeps out) (parse_key_usage v out)
unfolding parse_key_usage
key_usage_kept v out = next_Holds (Keeps out) (only_element v 0x03) _ (λ ku.
    guard_Holds (Keeps out) (ltb (size ku.value) 2 || ltb 7 (at ku.value.bytes 0)) bad_handshake
      (ok (record out {
        key_usage_present = true;
        key_usage_digital_signature = not (bit_and (at ku.value.bytes 1) 0x80 == 0);
        key_usage_key_cert_sign = not (bit_and (at ku.value.bytes 1) 0x04 == 0);
      }))
      (λ g. return_Holds (Keeps out) _ refl))

-- A purpose that is read sets a flag at most.
purpose_kept :
    (test : Bool) (out : X509CertificateView)
    → identity (if test then record out { eku_server_auth = true } else out) ≡ identity out
purpose_kept true out = refl
purpose_kept false out = refl

eku_kept :
    (n : ℕ) (es : ByteSpan) (ep : ℕ) (start out : X509CertificateView)
    → identity out ≡ identity start
    → Holds (Keeps start) (eku_loop n es ep out)
unfolding eku_loop
eku_kept zero es ep start out h = return_Holds (Keeps start) out h
eku_kept (suc n) es ep start out h =
    if_Holds (Keeps start) (not (ltb ep (size es))) (ok out) _
      (λ e. return_Holds (Keeps start) out h)
      (λ e. next_Holds (Keeps start) (der_tlv es ep) _ (λ (eo, eon).
        guard_Holds (Keeps start) (not (eo.tag == 0x06)) bad_handshake _ (λ g.
          eku_kept n es eon start
            (if oid_eq eo.value oid_server_auth then record out { eku_server_auth = true } else out)
            (purpose_kept (oid_eq eo.value oid_server_auth) out ∙ h))))

extended_key_usage_kept :
    (v : ByteSpan) (out : X509CertificateView) → Holds (Keeps out) (parse_extended_key_usage v out)
unfolding parse_extended_key_usage
extended_key_usage_kept v out = next_Holds (Keeps out) (only_element v 0x30) _ (λ es.
    eku_kept (size es.value) es.value 0 out (record out { extended_key_usage_present = true }) refl)

extension_kept :
    (oid : ByteSpan) (critical : Bool) (v : ByteSpan) (out : X509CertificateView)
    → Holds (Keeps out) (read_extension oid critical v out)
unfolding read_extension
extension_kept oid critical v out =
    if_Holds (Keeps out) (oid_eq oid oid_san) (parse_san v out) _ (λ e. san_kept v out)
      (λ e.
        if_Holds (Keeps out) (oid_eq oid oid_bc) (parse_basic_constraints v out) _
          (λ e. basic_constraints_kept v out)
          (λ e.
            if_Holds (Keeps out) (oid_eq oid oid_ku) (parse_key_usage v out) _
              (λ e. key_usage_kept v out)
              (λ e.
                if_Holds (Keeps out) (oid_eq oid oid_eku) (parse_extended_key_usage v out) _
                  (λ e. extended_key_usage_kept v out)
                  (λ e.
                    guard_Holds (Keeps out) critical unsupported (ok out)
                      (λ g. return_Holds (Keeps out) out refl)))))

parse_extension_kept :
    (ext : DerTlv) (out : X509CertificateView) → Holds (Keeps out) (parse_extension ext out)
unfolding parse_extension
parse_extension_kept ext out = guard_Holds (Keeps out) (not (ext.tag == 0x30)) bad_handshake _ (λ g.
    next_Holds (Keeps out) (der_tlv ext.value 0) _ (λ (oid, qn).
      guard_Holds (Keeps out) (not (oid.tag == 0x06)) bad_handshake _ (λ g.
        next_Holds (Keeps out) (read_critical ext.value qn) _ (λ (critical, (v, vn)).
          guard_Holds (Keeps out) _ bad_handshake _
            (λ g. extension_kept oid.value critical v.value out)))))

extensions_loop_kept :
    (n : ℕ) (seq : ByteSpan) (p : ℕ) (start out : X509CertificateView)
    → identity out ≡ identity start
    → Holds (Keeps start) (parse_extensions_loop n seq p out)
unfolding parse_extensions_loop
extensions_loop_kept zero seq p start out h = return_Holds (Keeps start) out h
extensions_loop_kept (suc n) seq p start out h =
    if_Holds (Keeps start) (not (ltb p (size seq))) (ok out) _
      (λ e. return_Holds (Keeps start) out h)
      (λ e. next_Holds (Keeps start) (der_tlv seq p) _ (λ (ext, np).
        then_Holds (Keeps out) (Keeps start) (parse_extension ext out) _
          (parse_extension_kept ext out)
          (λ next k. extensions_loop_kept n seq np start next (k ∙ h))))

-- The extensions that are accepted leave the names, the dates and the key as they are.
pub extensions_kept :
    (extensions_explicit : ByteSpan) (out : X509CertificateView)
    → Holds (Keeps out) (parse_extensions extensions_explicit out)
unfolding parse_extensions
extensions_kept extensions_explicit out =
    next_Holds (Keeps out) (only_element extensions_explicit 0xa3) _ (λ exwrap.
      next_Holds (Keeps out) (only_element exwrap.value 0x30) _
        (λ seq. extensions_loop_kept (size seq.value) seq.value 0 out out refl))
