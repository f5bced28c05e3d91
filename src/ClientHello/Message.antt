-- ===== src/ClientHello/Message.antt =====
-- The message that `build_client_hello` writes.
use xbox360_tls.Base.{ℕ, ◌≡◌, Bool-cases, inl, inr, ◌==◌, length, arith}
use xbox360_tls.Bytes.{Bytes, ByteSpan, size, ok, Result-cases, >>=-eq-ok}
use xbox360_tls.ClientHello.Writing.{Writer, Grows, Grows-refl, Grows-trans, write_all-Grows}
use xbox360_tls.ClientHello.{
  ClientHelloParams, ext_sni, ext_supported_versions, ext_supported_groups, ext_sig_algs,
  ext_key_share, ext_cookie, alpn_names, ext_alpn, sni_fields, cookie_fields, alpn_fields,
  hello_extensions,
}

ext_supported_versions-Grows :
    (w : Writer) {w' : Writer} → ext_supported_versions w ≡ ok w' → Grows w w'
unfolding ext_supported_versions
ext_supported_versions-Grows w e = write_all-Grows _ e

ext_supported_groups-Grows :
    (g : ℕ) (w : Writer) {w' : Writer} → ext_supported_groups g w ≡ ok w' → Grows w w'
unfolding ext_supported_groups
ext_supported_groups-Grows g w e = write_all-Grows _ e

ext_sig_algs-Grows : (w : Writer) {w' : Writer} → ext_sig_algs w ≡ ok w' → Grows w w'
unfolding ext_sig_algs
ext_sig_algs-Grows w e = write_all-Grows _ e

ext_key_share-Grows :
    (g : ℕ) (k : Bytes) (w : Writer) {w' : Writer} → ext_key_share g k w ≡ ok w' → Grows w w'
unfolding ext_key_share
ext_key_share-Grows g k w e = write_all-Grows _ e

ext_sni-Grows : (host : Bytes) (w : Writer) {w' : Writer} → ext_sni host w ≡ ok w' → Grows w w'
unfolding ext_sni
ext_sni-Grows host w {w'} e = elim (Bool-cases (length host == 0)) [
  | inl none ↦ let same : w' ≡ w = ground (arith, e, none) in rw same (Grows-refl w)
  | inr some ↦ write_all-Grows (sni_fields host) (ground (arith, e, some))
]

ext_cookie-Grows :
    (cookie : ByteSpan) (w : Writer) {w' : Writer} → ext_cookie cookie w ≡ ok w' → Grows w w'
unfolding ext_cookie
ext_cookie-Grows cookie w {w'} e = elim (Bool-cases (size cookie == 0)) [
  | inl none ↦ let same : w' ≡ w = ground (arith, e, none) in rw same (Grows-refl w)
  | inr some ↦ write_all-Grows (cookie_fields cookie) (ground (arith, e, some))
]

ext_alpn-Grows : (alpn : Bytes) (w : Writer) {w' : Writer} → ext_alpn alpn w ≡ ok w' → Grows w w'
unfolding ext_alpn
ext_alpn-Grows alpn w {w'} e = elim (Bool-cases (length alpn == 0)) [
  | inl none ↦ let same : w' ≡ w = ground (arith, e, none) in rw same (Grows-refl w)
  | inr some ↦ elim (Result-cases (alpn_names (length alpn) alpn 0)) [
    | inl (names, en) ↦ write_all-Grows (alpn_fields names) (ground (arith, e, some, en))
    | inr (er, en) ↦ absurd (ground (arith, e, some, en))
  ]
]

pub hello_extensions-Grows :
    (p : ClientHelloParams) (w : Writer) {w' : Writer} → hello_extensions p w ≡ ok w' → Grows w w'
unfolding hello_extensions
hello_extensions-Grows p w e =
    let (w₁, e₁, r₁) = >>=-eq-ok (ext_sni p.server_name w) _ e in
    let (w₂, e₂, r₂) = >>=-eq-ok (ext_supported_versions w₁) _ r₁ in
    let (w₃, e₃, r₃) = >>=-eq-ok (ext_supported_groups p.group w₂) _ r₂ in
    let (w₄, e₄, r₄) = >>=-eq-ok (ext_sig_algs w₃) _ r₃ in
    let (w₅, e₅, r₅) = >>=-eq-ok (ext_key_share p.group p.key_share.bytes w₄) _ r₄ in
    let (w₆, e₆, r₆) = >>=-eq-ok (ext_cookie p.cookie w₅) _ r₅ in
    Grows-trans (ext_sni-Grows p.server_name w e₁) (
      Grows-trans (ext_supported_versions-Grows w₁ e₂) (
        Grows-trans (ext_supported_groups-Grows p.group w₂ e₃) (
          Grows-trans (ext_sig_algs-Grows w₃ e₄) (
            Grows-trans (ext_key_share-Grows p.group p.key_share.bytes w₄ e₅)
              (Grows-trans (ext_cookie-Grows p.cookie w₅ e₆) (ext_alpn-Grows p.alpn w₆ r₆))))))
