-- ===== src/Handshake/Flight/Certificates.antt =====
-- The forms of Certificate and CertificateVerify that are accepted.
use xbox360_tls.Base.{
  ℕ, ◌+◌, ◌≤◌, ◌<◌, ◌≡◌, ◌↔◌, refl, sym, ap, ap₂, ◌∙◌, false, [], ◌∷◌, ◌++◌, length, length-append,
  length-take, length-drop, take, drop, take_all, take-append, drop-append, drop-drop,
  take-append-drop, arith,
}
use xbox360_tls.Bytes.{
  Bytes, AreBytes, AreBytes-drop, span, at, ok, load_be24, store_be16, store_be24, load_be16,
  load_be24-store_be24_front, store_be24-load_be24_front, size_be16, length-store_be24,
  length-store_be16, size_be16-drop, load_be16_size, size_be16-store_be16, store_be16-size_be16,
}
use xbox360_tls.Handshake.Message.{HandshakeMessage}
use xbox360_tls.Handshake.Flight.{
  CertificateInfo, CertificateVerifyInfo, parse_certificate, parse_certificate_verify,
}

cons-drop : (p : Bytes) → 1 ≤ length p → p ≡ at p 0 ∷ drop 1 p
cons-drop [] h = absurd (omega arith)
cons-drop (x ∷ p) h = refl

-- The body of a Certificate message.
abbrev pub encode_certificate : Bytes → Bytes → Bytes
encode_certificate context list = length context ∷ (context ++ (store_be24 (length list) ++ list))

-- A Certificate message whose context has at most 255 bytes and whose list has less than 2^24
-- is parsed into the two.
pub parse_certificate-encode :
    (context list : Bytes) (m : HandshakeMessage)
    → m.type ≡ 11
    → m.body ≡ span (encode_certificate context list)
    → length context < 256
    → length list < 16777216
    → parse_certificate m
      ≡ ok (record { request_context = span context; certificate_list = span list })
unfolding parse_certificate
parse_certificate-encode context list m t e h k =
    let tail : Bytes = store_be24 (length list) ++ list in
    rw
      (
        t,
        e,
        drop-append (length context) context tail refl,
        take-append (length context) context tail refl,
        load_be24-store_be24_front (length list) list k,
        drop-append 3 (store_be24 (length list)) list (sym (length-store_be24 (length list))),
        take_all (length list) list (omega arith),
      )
      (ground (
        arith,
        length-append context tail,
        length-append (store_be24 (length list)) list,
        length-store_be24 (length list),
      ))

-- A Certificate message of bytes that is accepted is the encoding of what it is parsed into.
pub parse_certificate_sound :
    (m : HandshakeMessage) {c : CertificateInfo}
    → AreBytes m.body.bytes
    → parse_certificate m ≡ ok c
    → (m.type ≡ 11)
      × (m.body.bytes ≡ encode_certificate c.request_context.bytes c.certificate_list.bytes)
unfolding parse_certificate
parse_certificate_sound m {c} b e = (ground arith, body)
  where
    p : Bytes
    p = drop 1 m.body.bytes

    n : ℕ
    n = at m.body.bytes 0

    r : Bytes
    r = drop 3 (drop n p)

    context : c.request_context.bytes ≡ take n p
    context = ground arith

    list : c.certificate_list.bytes ≡ take (load_be24 (drop n p) 0) r
    list = ground arith

    fits : n ≤ length p
    fits = ground arith

    counted : load_be24 (drop n p) 0 ≡ length r
    counted = ground arith

    least : 3 ≤ length (drop n p)
    least = ground arith

    some_byte : 1 ≤ length m.body.bytes
    some_byte = ground arith

    is_list : c.certificate_list.bytes ≡ r
    is_list = list ∙ take_all (load_be24 (drop n p) 0) r (omega (arith, counted))

    width : length c.request_context.bytes ≡ n
    width = omega (arith, fits, ap length context, length-take n p)

    body : m.body.bytes ≡ encode_certificate c.request_context.bytes c.certificate_list.bytes
    body =
        cons-drop m.body.bytes some_byte
        ∙ ap₂ (λ a z. a ∷ z) (sym width)
            (sym (take-append-drop n p)
              ∙ ap₂ (λ x y. x ++ y) (sym context)
                  (store_be24-load_be24_front (drop n p)
                      (AreBytes-drop n p (AreBytes-drop 1 m.body.bytes b)) least
                    ∙ ap₂ (λ k z. store_be24 k ++ z) (counted ∙ ap length (sym is_list))
                        (sym is_list)))

-- The body of a CertificateVerify message.
abbrev pub encode_certificate_verify : ℕ → Bytes → Bytes
encode_certificate_verify algorithm signature =
    store_be16 algorithm ++ (store_be16 (length signature) ++ signature)

-- The message that carries `algorithm` and `signature`.
abbrev IsSigned : HandshakeMessage → ℕ → Bytes → Type 0
IsSigned m algorithm signature =
    (m.type ≡ 15)
    × (m.body.is_null ≡ false)
    × (m.body.bytes ≡ encode_certificate_verify algorithm signature)
    × (0 < length signature)

abbrev signed_info : ℕ → Bytes → CertificateVerifyInfo
signed_info algorithm signature = record { algorithm = algorithm; signature = span signature }

certificate_verify_encoded :
    (m : HandshakeMessage) (algorithm : ℕ) (signature : Bytes)
    → AreBytes m.body.bytes
    → parse_certificate_verify m ≡ ok (signed_info algorithm signature)
    → IsSigned m algorithm signature
unfolding parse_certificate_verify
certificate_verify_encoded m algorithm signature b e =
    let least : 4 ≤ length m.body.bytes = ground arith in
    let counted : size_be16 m.body.bytes 2 + 4 ≡ length m.body.bytes = ground arith in
    let some : 0 < size_be16 m.body.bytes 2 = ground arith in
    let named : load_be16 m.body.bytes 0 ≡ algorithm = ground arith in
    let cut : take (size_be16 m.body.bytes 2) (drop 4 m.body.bytes) ≡ signature = ground arith in
    let whole : drop 4 m.body.bytes ≡ signature =
      sym (
        take_all (size_be16 m.body.bytes 2) (drop 4 m.body.bytes)
          (omega (arith, length-drop 4 m.body.bytes)))
      ∙ cut in
    let width : size_be16 m.body.bytes 2 ≡ length signature =
      omega (arith, ap length whole, length-drop 4 m.body.bytes) in
    (
      ground arith,
      ground arith,
      store_be16-size_be16 m.body.bytes b (omega arith)
          ∙ ap₂ (λ n z. store_be16 n ++ z) (sym (load_be16_size m.body.bytes 0 b) ∙ named)
              (store_be16-size_be16 (drop 2 m.body.bytes) (AreBytes-drop 2 m.body.bytes b)
                  (omega (arith, length-drop 2 m.body.bytes))
                ∙ ap₂ (λ n z. store_be16 n ++ z) (sym (size_be16-drop m.body.bytes) ∙ width)
                    (drop-drop 2 2 4 m.body.bytes refl ∙ whole)),
      omega (arith, width, some),
    )

certificate_verify_parsed :
    (m : HandshakeMessage) (algorithm : ℕ) (signature : Bytes)
    → AreBytes m.body.bytes
    → algorithm < 65536
    → length signature < 65536
    → IsSigned m algorithm signature
    → parse_certificate_verify m ≡ ok (signed_info algorithm signature)
unfolding parse_certificate_verify
certificate_verify_parsed m algorithm signature b h k (t, n, e, s) =
    let tail : Bytes = store_be16 (length signature) ++ signature in
    let behind : drop 2 m.body.bytes ≡ tail =
      ap (drop 2) e
      ∙ drop-append 2 (store_be16 algorithm) tail (sym (length-store_be16 algorithm)) in
    let four : drop 4 m.body.bytes ≡ signature =
      sym (drop-drop 2 2 4 m.body.bytes refl)
      ∙ ap (drop 2) behind
      ∙ drop-append 2 (store_be16 (length signature)) signature
          (sym (length-store_be16 (length signature))) in
    let named : load_be16 m.body.bytes 0 ≡ algorithm =
      load_be16_size m.body.bytes 0 b
      ∙ ap (λ q. size_be16 q 0) e
      ∙ size_be16-store_be16 algorithm tail h in
    let counted : size_be16 m.body.bytes 2 ≡ length signature =
      size_be16-drop m.body.bytes
      ∙ ap (λ q. size_be16 q 0) behind
      ∙ size_be16-store_be16 (length signature) signature k in
    let sized : length m.body.bytes ≡ length signature + 4 = omega (
      arith,
      ap length e,
      length-append (store_be16 algorithm) tail,
      length-append (store_be16 (length signature)) signature,
      length-store_be16 algorithm,
      length-store_be16 (length signature),
    ) in
    rw (t, n, named, counted, sized, four, take_all (length signature) signature (omega arith))
      (ground arith)

-- A CertificateVerify message of bytes is parsed into an algorithm and a signature exactly when
-- it is the encoding of these, and the signature is not empty.
pub parse_certificate_verify_iff :
    (m : HandshakeMessage) (algorithm : ℕ) (signature : Bytes)
    → AreBytes m.body.bytes
    → algorithm < 65536
    → length signature < 65536
    → (parse_certificate_verify m
        ≡ ok (record { algorithm = algorithm; signature = span signature }))
      ↔ ((m.type ≡ 15)
          × (m.body.is_null ≡ false)
          × (m.body.bytes ≡ encode_certificate_verify algorithm signature)
          × (0 < length signature))
parse_certificate_verify_iff m algorithm signature b h k = (
  certificate_verify_encoded m algorithm signature b,
  certificate_verify_parsed m algorithm signature b h k,
)
