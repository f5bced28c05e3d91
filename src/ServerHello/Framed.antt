-- ===== src/ServerHello/Framed.antt =====
-- The bytes of an accepted ServerHello, from its header to its list of extensions.
use xbox360_tls.Base.{
  ℕ, ◌+◌, ◌≤◌, ◌<◌, ◌≡◌, refl, sym, ap, ap₂, ◌∙◌, List, ◌∷◌, ◌++◌, length, length-take, length-drop,
  drop, drop-drop, drop_all, take_all, take-append-drop, append-nil, arith,
}
use xbox360_tls.Bytes.{
  Bytes, AreBytes, ByteSpan, at, slice, ok, store_be16, load_be16, load_be16-lt, load_be24,
}
use xbox360_tls.Handshake.Message.{encode_message}
use xbox360_tls.Handshake.Message.Laws.{message_in_front}
use xbox360_tls.Handshake.Flight.Extensions.{encode_extensions}
use xbox360_tls.ServerHello.{ServerHelloInfo, parse_server_hello}
use xbox360_tls.ServerHello.Wire.{encode_hello, drop-byte, drop-be16}

-- Behind its header, the body of a hello up to the extensions.
hello-front :
    (b : Bytes)
    → AreBytes b
    → 44 + at b 38 ≤ length b
    → load_be16 b 4 ≡ 0x0303
    → at b (41 + at b 38) ≡ 0
    → drop 4 b
      ≡ store_be16 0x0303
        ++ (slice b 6 32
            ++ (at b 38
                ∷ (slice b 39 (at b 38)
                    ++ (store_be16 (load_be16 b (39 + at b 38))
                        ++ (0
                            ∷ (store_be16 (load_be16 b (42 + at b 38))
                                ++ drop (44 + at b 38) b))))))
hello-front b h k version compression =
    drop-be16 b 4 h (omega (arith, k))
    ∙ ap₂ (λ v z. store_be16 v ++ z) version
        (sym (take-append-drop 32 (drop 6 b))
          ∙ ap (λ z. slice b 6 32 ++ z)
              (drop-drop 6 32 38 b refl
                ∙ drop-byte b 38 (omega (arith, k))
                ∙ ap (λ z. at b 38 ∷ z)
                    (sym (take-append-drop sid (drop 39 b))
                      ∙ ap (λ z. slice b 39 sid ++ z)
                          (drop-drop 39 sid (39 + sid) b refl ∙ suite))))
  where
    sid : ℕ
    sid = at b 38

    suite :
        drop (39 + sid) b
        ≡ store_be16 (load_be16 b (39 + sid))
          ++ (0 ∷ (store_be16 (load_be16 b (42 + sid)) ++ drop (44 + sid) b))
    suite =
        drop-be16 b (39 + sid) h (omega (arith, k))
        ∙ ap (λ z. store_be16 (load_be16 b (39 + sid)) ++ z)
            (ap (λ n. drop n b) (omega arith)
              ∙ drop-byte b (41 + sid) (omega (arith, k))
              ∙ ap₂ (λ x z. x ∷ z) compression
                  (ap (λ n. drop n b) (omega arith)
                    ∙ drop-be16 b (42 + sid) h (omega (arith, k))
                    ∙ ap (λ n. store_be16 (load_be16 b (42 + sid)) ++ drop n b) (omega arith)))

-- What the parser has checked of the bytes.
pub record IsHello (b : Bytes) : Type 0 where
  pub typed : at b 0 ≡ 2
  pub framed : load_be24 b 1 + 4 ≡ length b
  pub legacy : load_be16 b 4 ≡ 0x0303
  pub uncompressed : at b (39 + at b 38 + 2) ≡ 0
  pub total : 39 + at b 38 + 5 + load_be16 b (39 + at b 38 + 3) ≡ length b

pub parse_server_hello-IsHello :
    (h : ByteSpan) {info : ServerHelloInfo} → parse_server_hello h ≡ ok info → IsHello h.bytes
unfolding parse_server_hello
parse_server_hello-IsHello h e = record {
  typed = ground (arith, e);
  framed = ground (arith, e);
  legacy = ground (arith, e);
  uncompressed = ground (arith, e);
  total = ground (arith, e);
}

module _ (b : Bytes) (h : AreBytes b) (r : IsHello b) where
  open r use {typed, framed, legacy, uncompressed, total}

  whole : b ≡ encode_message 2 (drop 4 b)
  whole =
      let n = load_be24 b 1 in
      let (front, sized) = message_in_front b h (omega (arith, framed)) (omega (arith, framed)) in
      front
      ∙ ap₂ (λ t z. encode_message t (slice b 4 n) ++ z) typed
          (drop_all (n + 4) b (omega (arith, framed)))
      ∙ append-nil (encode_message 2 (slice b 4 n))
      ∙ ap (encode_message 2) (take_all n (drop 4 b) (omega (arith, framed, length-drop 4 b)))

  module _ (es : List (ℕ × Bytes)) (wire : drop (39 + at b 38 + 5) b ≡ encode_extensions es) where
    counted : load_be16 b (42 + at b 38) ≡ length (encode_extensions es)
    counted =
        let place : 39 + at b 38 + 3 ≡ 42 + at b 38 = omega arith in
        omega
          (arith, total, ap (load_be16 b) place, ap length wire, length-drop (39 + at b 38 + 5) b)

    pub hello-sized : length (encode_extensions es) < 65536
    hello-sized = omega (arith, counted, load_be16-lt b (42 + at b 38))

    pub hello-random : length (slice b 6 32) ≡ 32
    hello-random = omega (arith, total, length-take 32 (drop 6 b), length-drop 6 b)

    pub hello-wire :
        b
        ≡ encode_message 2
            (encode_hello (slice b 6 32) (slice b 39 (at b 38)) (load_be16 b (39 + at b 38)) es)
    hello-wire =
        whole
        ∙ ap (encode_message 2) (
            hello-front b h (omega (arith, total)) legacy (ap (at b) (omega arith) ∙ uncompressed)
            ∙ ap₂
                (λ k z.
                  store_be16 0x0303
                  ++ (slice b 6 32
                      ++ (k
                          ∷ (slice b 39 (at b 38)
                              ++ (store_be16 (load_be16 b (39 + at b 38)) ++ (0 ∷ z))))))
                (omega (arith, total, length-take (at b 38) (drop 39 b), length-drop 39 b))
                (ap₂ (λ n z. store_be16 n ++ z) counted (ap (λ n. drop n b) (omega arith) ∙ wire)))
