-- ===== src/Handshake/Flight/Extensions.antt =====
-- `parse_encrypted_extensions` against a reading of the list of extensions that the bytes encode.
use xbox360_tls.Base.{
  ◌*◌, ◌&&◌, ℕ, zero, suc, ◌+◌, ◌≤◌, ◌<◌, ◌≡◌, refl, sym, ap, ◌∙◌, true, Bool-cases, inl, inr,
  ==_iff, List, [], ◌∷◌, ◌++◌, ◌==◌, ltb, le→ltb, if◌then◌else◌, length, length-append, drop,
  take_all, take-append, drop-append, drop-drop, append_assoc, arith,
}
use xbox360_tls.Bytes.{
  Bytes, AreBytes, size_be16_add, span, Result, ok, err, bad_handshake, fail_if, ◌>>=◌, ◌>>◌,
  store_be16, length-store_be16, load_be16, size_be16, size_be16-store_be16, load_be16-store_be16,
  size_be16-drop,
}
use xbox360_tls.Handshake.Message.{HandshakeMessage}
use xbox360_tls.Handshake.Flight.{
  EncryptedExtensionsInfo, no_extensions, alpn_extension, extensions_loop,
  parse_encrypted_extensions,
}

-- An extension, its type and its contents, on the wire.
abbrev pub encode_extension : ℕ × Bytes → Bytes
encode_extension (t, d) = store_be16 t ++ (store_be16 (length d) ++ d)

abbrev pub encode_extensions : List (ℕ × Bytes) → Bytes
encode_extensions [] = []
encode_extensions (e ∷ es) = encode_extension e ++ encode_extensions es

abbrev pub AllFit : List (ℕ × Bytes) → Type 0
AllFit [] = Unit
AllFit ((t, d) ∷ es) = (t < 65536) × (length d < 65536) × AreBytes d × AllFit es

-- The contents of an ALPN extension that names one protocol: two bytes with the length of the list,
-- a byte with the length of the protocol, and the protocol, of a byte at least. All else is malformed.
abbrev pub read_alpn : Bytes → Result EncryptedExtensionsInfo
read_alpn (hi ∷ lo ∷ n ∷ x ∷ proto) =
    if (hi * 256 + lo == n + 1) && (n == length (x ∷ proto))
    then ok (record { alpn = span (x ∷ proto); has_alpn = true })
    else err bad_handshake
read_alpn _ = err bad_handshake

alpn_extension-read_alpn : (d : Bytes) → AreBytes d → alpn_extension d (length d) ≡ read_alpn d
unfolding alpn_extension
alpn_extension-read_alpn [] h = refl
alpn_extension-read_alpn (hi ∷ []) h = refl
alpn_extension-read_alpn (hi ∷ lo ∷ []) h = refl
alpn_extension-read_alpn (hi ∷ lo ∷ n ∷ []) h = ground arith
alpn_extension-read_alpn (hi ∷ lo ∷ n ∷ x ∷ proto) (h, (k, rest)) =
    elim (Bool-cases (n == length (x ∷ proto))) [
      | inl e ↦
          let same : n ≡ length (x ∷ proto) = (==_iff n (length (x ∷ proto))).0 e in
          rw
            (
              size_be16_add (hi ∷ lo ∷ n ∷ x ∷ proto) 0 k,
              same,
              take_all (length (x ∷ proto)) (x ∷ proto) (omega arith),
            )
            (ground arith)
      | inr e ↦ ground (arith, e)
    ]

-- The extensions in turn: the protocol of each ALPN extension replaces the one before, and the
-- first malformed one is refused.
abbrev pub read_extensions :
    List (ℕ × Bytes) → EncryptedExtensionsInfo → Result EncryptedExtensionsInfo
read_extensions [] out = ok out
read_extensions ((t, d) ∷ es) out =
    (if t == 0x0010 then read_alpn d else ok out) >>= read_extensions es

-- Bytes behind an extension do not matter.
alpn_extension-append :
    (d rest : Bytes) → alpn_extension (d ++ rest) (length d) ≡ alpn_extension d (length d)
unfolding alpn_extension size_be16
alpn_extension-append [] rest = refl
alpn_extension-append (a ∷ []) rest = refl
alpn_extension-append (a ∷ b ∷ []) rest = refl
alpn_extension-append (a ∷ b ∷ c ∷ d) rest = elim (Bool-cases (c == length d)) [
  | inl e ↦
      rw
        (
          (==_iff c (length d)).0 e,
          take-append (length d) d rest refl,
          take_all (length d) d (omega arith),
        )
        refl
  | inr e ↦ ground (arith, e)
]

pub encode_extension-append :
    (t : ℕ) (d rest : Bytes)
    → encode_extension (t, d) ++ rest ≡ store_be16 t ++ (store_be16 (length d) ++ (d ++ rest))
encode_extension-append t d rest =
    append_assoc (store_be16 t) (store_be16 (length d) ++ d) rest
    ∙ ap (λ z. store_be16 t ++ z) (append_assoc (store_be16 (length d)) d rest)

-- A round on bytes that there are.
extensions_loop_step :
    (n : ℕ) (p : Bytes) (out : EncryptedExtensionsInfo)
    → 0 < length p
    → extensions_loop (suc n) p out ≡ (
        fail_if (ltb (length p) 4) bad_handshake
        >> (fail_if (ltb (length (drop 4 p)) (size_be16 p 2)) bad_handshake
            >> ((if load_be16 p 0 == 0x0010
                  then alpn_extension (drop 4 p) (size_be16 p 2)
                  else ok out)
                >>= λ out'. extensions_loop n (drop (size_be16 p 2) (drop 4 p)) out')))
unfolding extensions_loop
extensions_loop_step n [] out h = absurd (omega arith)
extensions_loop_step n (x ∷ p) out h = refl

length-encode_extensions :
    (t : ℕ) (d : Bytes) (es : List (ℕ × Bytes))
    → length (encode_extensions ((t, d) ∷ es)) ≡ 4 + length d + length (encode_extensions es)
length-encode_extensions t d es =
    ap length (encode_extension-append t d rest)
    ∙ omega (
      arith,
      length-append (store_be16 t) (store_be16 (length d) ++ (d ++ rest)),
      length-store_be16 t,
      length-append (store_be16 (length d)) (d ++ rest),
      length-store_be16 (length d),
      length-append d rest,
    )
  where
    rest : Bytes
    rest = encode_extensions es

extensions_loop-encode :
    (n : ℕ) (es : List (ℕ × Bytes)) (out : EncryptedExtensionsInfo)
    → length (encode_extensions es) ≤ n
    → AllFit es
    → extensions_loop n (encode_extensions es) out ≡ read_extensions es out
extensions_loop-encode n [] out h f = unfold extensions_loop in refl
extensions_loop-encode zero ((t, d) ∷ es) out h f =
    absurd (omega (arith, length-encode_extensions t d es))
extensions_loop-encode (suc n) ((t, d) ∷ es) out h (ft, fd, fb, fs) =
    extensions_loop_step n p out (omega (arith, sized))
    ∙ rw
        (
          le→ltb (length p) 4 (omega (arith, sized)),
          named,
          counted,
          behind,
          le→ltb (length (d ++ rest)) (length d) (omega (arith, length-append d rest)),
          alpn_extension-append d rest,
          alpn_extension-read_alpn d fb,
          drop-append (length d) d rest refl,
        )
        (λ i. (if t == 0x0010 then read_alpn d else ok out) >>= λ out'.
          extensions_loop-encode n es out' (omega (arith, sized)) fs i)
  where
    rest : Bytes
    rest = encode_extensions es

    p : Bytes
    p = encode_extensions ((t, d) ∷ es)

    whole : p ≡ store_be16 t ++ (store_be16 (length d) ++ (d ++ rest))
    whole = encode_extension-append t d rest

    sized : length p ≡ 4 + length d + length rest
    sized = length-encode_extensions t d es

    named : load_be16 p 0 ≡ t
    named = load_be16-store_be16 p 0 t (store_be16 (length d) ++ (d ++ rest)) ft whole

    two : drop 2 p ≡ store_be16 (length d) ++ (d ++ rest)
    two = ap (drop 2) whole ∙ drop-append 2 (store_be16 t) _ (sym (length-store_be16 t))

    counted : size_be16 p 2 ≡ length d
    counted =
        size_be16-drop p
        ∙ ap (λ q. size_be16 q 0) two
        ∙ size_be16-store_be16 (length d) (d ++ rest) fd

    behind : drop 4 p ≡ d ++ rest
    behind =
        sym (drop-drop 2 2 4 p refl)
        ∙ ap (drop 2) two
        ∙ drop-append 2 (store_be16 (length d)) (d ++ rest) (sym (length-store_be16 (length d)))

-- EncryptedExtensions that encode a list of extensions, all lengths within their fields, are
-- parsed as the list reads: the protocol of the last ALPN extension, or none; and they are refused
-- if the contents of an ALPN extension are not the list of exactly one protocol that is not empty.
pub parse_encrypted_extensions-encode :
    (es : List (ℕ × Bytes)) (m : HandshakeMessage)
    → m.type ≡ 8
    → m.body ≡ span (store_be16 (length (encode_extensions es)) ++ encode_extensions es)
    → length (encode_extensions es) < 65536
    → AllFit es
    → parse_encrypted_extensions m ≡ read_extensions es no_extensions
unfolding parse_encrypted_extensions
parse_encrypted_extensions-encode es m t e h f =
    let p = encode_extensions es in
    rw
      (
        t,
        e,
        size_be16-store_be16 (length p) p h,
        drop-append 2 (store_be16 (length p)) p (sym (length-store_be16 (length p))),
        extensions_loop-encode (length p) es no_extensions (omega arith) f,
      )
      (ground (arith, length-append (store_be16 (length p)) p, length-store_be16 (length p)))

-- An ALPN extension that names one protocol of at most 255 bytes is read as this protocol.
pub alpn_extension_one :
    (proto : Bytes)
    → 0 < length proto
    → length proto < 256
    → let d = store_be16 (length proto + 1) ++ (length proto ∷ proto) in
      alpn_extension d (length d) ≡ ok (record { alpn = span proto; has_alpn = true })
unfolding alpn_extension store_be16
alpn_extension_one proto h k =
    rw
      (
        size_be16-store_be16 (length proto + 1) (length proto ∷ proto) (omega arith),
        take_all (length proto) proto (omega arith),
      )
      (ground arith)
