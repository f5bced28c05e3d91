-- ===== src/Authentication/Chain.antt =====
-- Certificate lists: what is accepted, and as which chain.
use xbox360_tls.Base.{
  ℕ, zero, suc, ◌+◌, ◌≤◌, ◌<◌, ◌≡◌, refl, sym, subst, ap, ap₂, ◌∙◌, ltb, lt→ltb, not, inl, inr,
  List, [], ◌∷◌, ◌++◌, map, length, length-append, length-take, take, drop, take-append,
  drop-append, take-append-drop, append_assoc, append-nil, arith,
}
use xbox360_tls.Bytes.{
  Bytes, AreBytes, AreBytes-behind, AreBytes-drop, span, ok, Result-cases, bad_handshake, fail_if,
  ◌>>=◌, ◌>>◌, store_be16, store_be24, length-store_be16, length-store_be24, load_be24, size_be16,
  load_be24-store_be24_front, store_be24-load_be24_front, size_be16-store_be16,
  store_be16-size_be16,
}
use xbox360_tls.Handshake.Flight.{CertificateInfo}
use xbox360_tls.Authentication.{
  CertificateChainEntry, CertificateChainView, read_entry, chain_loop, parse_certificate_chain,
}

-- A certificate and its extensions, on the wire and as an entry.
abbrev pub encode_entry : Bytes × Bytes → Bytes
encode_entry (der, ext) = store_be24 (length der) ++ (der ++ (store_be16 (length ext) ++ ext))

abbrev pub entry : Bytes × Bytes → CertificateChainEntry
entry (der, ext) = record { der = span der; extensions = span ext }

abbrev pub encode_chain : List (Bytes × Bytes) → Bytes
encode_chain [] = []
encode_chain (e ∷ es) = encode_entry e ++ encode_chain es

-- The lengths fit in their fields, and the certificate is not empty.
abbrev pub Fits : Bytes × Bytes → Type 0
Fits (der, ext) = (0 < length der) × (length der < 16777216) × (length ext < 65536)

abbrev pub AllFit : List (Bytes × Bytes) → Type 0
AllFit [] = Unit
AllFit (e ∷ es) = Fits e × AllFit es

encode_entry-append :
    (der ext rest : Bytes)
    → encode_entry (der, ext) ++ rest
      ≡ store_be24 (length der) ++ (der ++ (store_be16 (length ext) ++ (ext ++ rest)))
encode_entry-append der ext rest =
    append_assoc (store_be24 (length der)) (der ++ (store_be16 (length ext) ++ ext)) rest
    ∙ ap (λ z. store_be24 (length der) ++ z)
        (append_assoc der (store_be16 (length ext) ++ ext) rest
          ∙ ap (λ z. der ++ z) (append_assoc (store_be16 (length ext)) ext rest))

read_entry-encode :
    (e : Bytes × Bytes) (rest : Bytes)
    → Fits e
    → read_entry (encode_entry e ++ rest) ≡ ok (entry e, rest)
unfolding read_entry
read_entry-encode (der, ext) rest (some, d, x) =
    rw
      (
        encode_entry-append der ext rest,
        load_be24-store_be24_front (length der) behind d,
        drop-append 3 (store_be24 (length der)) behind (sym (length-store_be24 (length der))),
        drop-append (length der) der tail refl,
        take-append (length der) der tail refl,
        size_be16-store_be16 (length ext) (ext ++ rest) x,
        drop-append 2 (store_be16 (length ext)) (ext ++ rest)
            (sym (length-store_be16 (length ext))),
        take-append (length ext) ext rest refl,
        drop-append (length ext) ext rest refl,
      )
      (ground (
        arith,
        length-append (store_be24 (length der)) behind,
        length-store_be24 (length der),
        length-append der tail,
        length-append (store_be16 (length ext)) (ext ++ rest),
        length-store_be16 (length ext),
        length-append ext rest,
      ))
  where
    tail : Bytes
    tail = store_be16 (length ext) ++ (ext ++ rest)

    behind : Bytes
    behind = der ++ tail

read_entry_sound :
    (p : Bytes) {v : CertificateChainEntry} {rest : Bytes}
    → AreBytes p
    → read_entry p ≡ ok (v, rest)
    → (v ≡ entry (v.der.bytes, v.extensions.bytes))
      × (p ≡ encode_entry (v.der.bytes, v.extensions.bytes) ++ rest)
      × (0 < length v.der.bytes)
unfolding read_entry
read_entry_sound p {v} {rest} b e = (
  ground arith,
  store_be24-load_be24_front p b (ground arith)
      ∙ ap₂ (λ k z. store_be24 k ++ z) wide
          (sym (take-append-drop n q)
            ∙ ap₂ (λ d z. d ++ z) (sym der)
                (store_be16-size_be16 r (AreBytes-drop n q (AreBytes-drop 3 p b)) (ground arith)
                  ∙ ap₂ (λ k z. store_be16 k ++ z) long
                      (sym (take-append-drop x t) ∙ ap₂ (λ d z. d ++ z) (sym ext) behind)))
      ∙ sym (encode_entry-append v.der.bytes v.extensions.bytes rest),
  omega (arith, wide, some),
)
  where
    n : ℕ
    n = load_be24 p 0

    q : Bytes
    q = drop 3 p

    r : Bytes
    r = drop n q

    x : ℕ
    x = size_be16 r 0

    t : Bytes
    t = drop 2 r

    some : 0 < n
    some = ground arith

    der : v.der.bytes ≡ take n q
    der = ground arith

    ext : v.extensions.bytes ≡ take x t
    ext = ground arith

    behind : drop x t ≡ rest
    behind = ground arith

    inside : n ≤ length q
    inside = ground arith

    within : x ≤ length t
    within = ground arith

    wide : n ≡ length v.der.bytes
    wide = omega (arith, inside, ap length der, length-take n q)

    long : x ≡ length v.extensions.bytes
    long = omega (arith, within, ap length ext, length-take x t)

-- The bytes of an entry are taken off the list.
length-encode_entry :
    (e : Bytes × Bytes) → length (encode_entry e) ≡ 5 + length (e.0) + length (e.1)
length-encode_entry (der, ext) = omega (
  arith,
  length-append (store_be24 (length der)) (der ++ (store_be16 (length ext) ++ ext)),
  length-store_be24 (length der),
  length-append der (store_be16 (length ext) ++ ext),
  length-append (store_be16 (length ext)) ext,
  length-store_be16 (length ext),
)

-- A round on bytes that there are.
chain_loop_step :
    (n : ℕ) (p : Bytes) (out : CertificateChainView)
    → 0 < length p
    → chain_loop (suc n) p out ≡ (
        fail_if (not (ltb (length out) 8)) bad_handshake
        >> (read_entry p >>= λ (v, rest). chain_loop n rest (out ++ (v ∷ []))))
unfolding chain_loop
chain_loop_step n [] out h = absurd (omega arith)
chain_loop_step n (x ∷ p) out h = refl

chain_loop-encode :
    (n : ℕ) (es : List (Bytes × Bytes)) (out : CertificateChainView)
    → length (encode_chain es) ≤ n
    → length out + length es ≤ 8
    → AllFit es
    → chain_loop n (encode_chain es) out ≡ ok (out ++ map entry es)
chain_loop-encode n [] out h l f = unfold chain_loop in ap ok (sym (append-nil out))
chain_loop-encode zero (e ∷ es) out h l f =
    absurd (omega (arith, length-append (encode_entry e) (encode_chain es), length-encode_entry e))
chain_loop-encode (suc n) (e ∷ es) out h l f =
    let sized : length (encode_chain (e ∷ es))
        ≡ 5 + length (e.0) + length (e.1) + length (encode_chain es) =
      omega (arith, length-append (encode_entry e) (encode_chain es), length-encode_entry e) in
    chain_loop_step n (encode_chain (e ∷ es)) out (omega (arith, sized))
    ∙ rw (lt→ltb (length out) 8 (omega arith), read_entry-encode e (encode_chain es) f.0)
        (chain_loop-encode n es (out ++ (entry e ∷ [])) (omega (arith, sized))
            (omega (arith, l, length-append out (entry e ∷ []))) f.1
          ∙ ap ok (append_assoc out (entry e ∷ []) (map entry es)))

-- A list of one to eight certificates, none of them empty and all lengths within their fields, is
-- parsed into the chain of these.
pub parse_certificate_chain-encode :
    (es : List (Bytes × Bytes)) (info : CertificateInfo)
    → info.certificate_list.bytes ≡ encode_chain es
    → AllFit es
    → 1 ≤ length es
    → length es ≤ 8
    → parse_certificate_chain info ≡ ok (map entry es)
unfolding parse_certificate_chain
parse_certificate_chain-encode [] info e f l u = absurd (omega arith)
parse_certificate_chain-encode (d ∷ ds) info e f l u =
    rw
      (
        e,
        chain_loop-encode (length (encode_chain (d ∷ ds))) (d ∷ ds) [] (omega arith)
            (omega (arith, u)) f,
      )
      (ground arith)

length-map-entry : (es : List (Bytes × Bytes)) → length (map entry es) ≡ length es
length-map-entry [] = refl
length-map-entry (e ∷ es) = ap suc (length-map-entry es)

chain_loop_sound :
    (n : ℕ) (p : Bytes) (out : CertificateChainView) {chain : CertificateChainView}
    → AreBytes p
    → length p ≤ n
    → length out ≤ 8
    → chain_loop n p out ≡ ok chain
    → (es : List (Bytes × Bytes)) × (p ≡ encode_chain es)
      × (chain ≡ out ++ map entry es)
      × (length out + length es ≤ 8)
chain_loop_sound n [] out b l u e =
    unfold chain_loop in ([], refl, ground (arith, append-nil out), omega arith)
chain_loop_sound zero (x ∷ p) out b l u e = absurd (omega arith)
chain_loop_sound (suc n) (x ∷ p) out {chain} b l u e = elim (Result-cases (read_entry (x ∷ p))) [
  | inl ((v, rest), re) ↦
      let (is_entry, front, some) = read_entry_sound (x ∷ p) b re in
      let pair : Bytes × Bytes = (v.der.bytes, v.extensions.bytes) in
      let step = sym (chain_loop_step n (x ∷ p) out (omega arith)) ∙ e in
      let more : length out < 8 = ground (arith, re, step) in
      let again : chain_loop n rest (out ++ (v ∷ [])) ≡ ok chain = ground (arith, re, step) in
      let (es, tail, made, count) =
        chain_loop_sound n rest (out ++ (v ∷ []))
          (AreBytes-behind (encode_entry pair) rest (subst AreBytes front b))
          (omega (
            arith,
            ap length front,
            length-append (encode_entry pair) rest,
            length-encode_entry pair,
          ))
          (omega (arith, more, length-append out (v ∷ []))) again in
      (
        pair ∷ es,
        front ∙ ap (λ z. encode_entry pair ++ z) tail,
        made
            ∙ append_assoc out (v ∷ []) (map entry es)
            ∙ ap (λ z. out ++ (z ∷ map entry es)) is_entry,
        omega (arith, count, length-append out (v ∷ [])),
      )
  | inr (er, re) ↦ absurd (ground (arith, re, chain_loop_step n (x ∷ p) out (omega arith), e))
]

-- A list of bytes that is accepted is the encoding of the chain that it is parsed into, which has
-- one to eight certificates.
pub parse_certificate_chain_sound :
    (info : CertificateInfo) {chain : CertificateChainView}
    → AreBytes info.certificate_list.bytes
    → parse_certificate_chain info ≡ ok chain
    → (es : List (Bytes × Bytes)) × (info.certificate_list.bytes ≡ encode_chain es)
      × (chain ≡ map entry es)
      × (1 ≤ length es)
      × (length es ≤ 8)
unfolding parse_certificate_chain
parse_certificate_chain_sound info {chain} b e =
    let s = info.certificate_list.bytes in
    elim (Result-cases (chain_loop (length s) s [])) [
      | inl (found, ec) ↦
          let same : found ≡ chain = ground (arith, ec) in
          let many : 0 < length found = ground (arith, ec) in
          let (es, whole, made, count) =
            chain_loop_sound (length s) s [] b (omega arith) (omega arith) ec in
          (
            es,
            whole,
            sym same ∙ made,
            omega (arith, many, ap length made, length-map-entry es),
            omega (arith, count),
          )
      | inr (er, ec) ↦ absurd (ground (arith, ec))
    ]
