-- ===== src/ProtectedRecord/Rejection.antt =====
-- Only what was sealed under the keys is opened.
use xbox360_tls.Base.{
  ℕ, zero, suc, ◌+◌, ◌-◌, ◌*◌, ◌/◌, ◌^◌, ◌≤◌, ◌<◌, ◌≡◌, refl, sym, ap, ap₂, ◌∙◌, inl, inr,
  Bool-cases, [], ◌∷◌, ◌++◌, ◌==◌, ==_iff, length, take, drop, replicate, length-take, length-drop,
  drop-drop, take-append-drop, take_all, append-nil, arith, append_assoc,
}
use xbox360_tls.Bytes.{
  Bytes, MutableByteSpan, span, at, slice, u8, AreBytes, AreBytes-take, AreBytes-drop, Result, ok,
  Result-cases, load_be16_sum,
}
use xbox360_tls.Record.{RecordHeader, parse_record_header, make_record_nonce}
use xbox360_tls.Crypto.Gcm.{ctr_crypt, first_counter, auth_tag, aes128_gcm_decrypt}
use xbox360_tls.Crypto.Gcm.Counter.{length-ctr_crypt}
use xbox360_tls.Crypto.Gcm.Tag.{IsBlock}
use xbox360_tls.Crypto.Gcm.RoundTrip.{aes128_gcm_encrypt_ok, aes128_gcm_decrypt_sound}
use xbox360_tls.ProtectedRecord.Framing.{inner, length-inner}
use xbox360_tls.ProtectedRecord.RoundTrip.{next_keys, sealed, sealed_lem}
use xbox360_tls.ProtectedRecord.{
  TrafficKeys, fragment_header, strip_zeros, unprotect_record_aes128_gcm,
}

-- The bytes behind the last one that is not zero are zeros.
take-suc : (p : Bytes) (n : ℕ) → n < length p → take (suc n) p ≡ take n p ++ (at p n ∷ [])
take-suc [] n h = absurd (omega arith)
take-suc (x ∷ p) zero h = refl
take-suc (x ∷ p) (suc n) h = rw (take-suc p n (omega arith))

zeros-snoc : (n : ℕ) → replicate n 0 ++ (0 ∷ []) ≡ replicate {A = ℕ} (suc n) 0
zeros-snoc zero = refl
zeros-snoc (suc n) = rw (zeros-snoc n)

strip_zeros-le : (p : Bytes) (n : ℕ) → strip_zeros p n ≤ n
unfolding strip_zeros
strip_zeros-le p zero = omega arith
strip_zeros-le p (suc n) = ground (arith, strip_zeros-le p n)

strip_zeros_sound :
    (p : Bytes) (n : ℕ)
    → n ≤ length p
    → take n p ≡ take (strip_zeros p n) p ++ replicate (n - strip_zeros p n) 0
unfolding strip_zeros
strip_zeros_sound p zero h = refl
strip_zeros_sound p (suc n) h = elim (Bool-cases (at p n == 0)) [
  | inl zeroed ↦
      let e : suc n - strip_zeros p n ≡ suc (n - strip_zeros p n) =
        omega (arith, strip_zeros-le p n) in
      rw (zeroed, e)
        (take-suc p n h
          ∙ ap₂ (λ a b. a ++ (b ∷ [])) (strip_zeros_sound p n (omega arith))
              ((==_iff (at p n) 0).0 zeroed)
          ∙ append_assoc (take (strip_zeros p n) p) (replicate (n - strip_zeros p n) 0) (0 ∷ [])
          ∙ ap (λ z. take (strip_zeros p n) p ++ z) (zeros-snoc (n - strip_zeros p n)))
  | inr other ↦ let e : suc n - suc n ≡ 0 = omega arith in rw (other, e, append-nil)
]

-- What `unprotect_record_aes128_gcm` has found when it accepts.
record Opened (keys : TrafficKeys) (rec : Bytes) (room : MutableByteSpan) (keys' : TrafficKeys)
    (t : ℕ) (content : Bytes) : Type 0 where
  header : RecordHeader
  text : Bytes
  parsed : parse_record_header (span rec) ≡ ok header
  kind : header.type ≡ 23
  version : header.legacy_version ≡ 0x0303
  complete : 5 + header.length ≤ length rec
  least : 17 ≤ header.length
  decrypted :
      aes128_gcm_decrypt keys.key
        (make_record_nonce keys.iv keys.sequence_number)
        (span (take 5 rec))
        (span (slice rec 5 (header.length - 16)))
        (slice rec (5 + (header.length - 16)) 16)
        (record { is_null = room.is_null; capacity = header.length - 16 })
      ≡ ok text
  some_byte : 0 < strip_zeros text (header.length - 16)
  typed : at text (strip_zeros text (header.length - 16) - 1) ≡ t
  low : 20 ≤ t
  high : t ≤ 23
  body : take (strip_zeros text (header.length - 16) - 1) text ≡ content
  next : keys' ≡ next_keys keys

unprotect-Opened :
    (keys : TrafficKeys) (rec : Bytes) (room : MutableByteSpan) {keys' : TrafficKeys} {t : ℕ}
    {content : Bytes}
    → unprotect_record_aes128_gcm keys (span rec) room ≡ ok (keys', t, content)
    → Opened keys rec room keys' t content
unfolding unprotect_record_aes128_gcm
unprotect-Opened keys rec room {keys'} {t} {content} e =
    elim (Result-cases (parse_record_header (span rec))) [
      | inl (h, ph) ↦
          elim (Result-cases (
            aes128_gcm_decrypt keys.key (make_record_nonce keys.iv keys.sequence_number)
              (span (take 5 rec)) (span (slice rec 5 (h.length - 16)))
              (slice rec (5 + (h.length - 16)) 16)
              (record { is_null = room.is_null; capacity = h.length - 16 }))) [
                | inl (p, d) ↦ record {
                  header = h;
                  text = p;
                  parsed = ph;
                  kind = ground (arith, ph, d);
                  version = ground (arith, ph, d);
                  complete = ground (arith, ph, d);
                  least = ground (arith, ph, d);
                  decrypted = d;
                  some_byte = ground (arith, ph, d);
                  typed = ground (arith, ph, d);
                  low = ground (arith, ph, d);
                  high = ground (arith, ph, d);
                  body = ground (arith, ph, d);
                  next = ground (arith, ph, d);
                }
                | inr (er, d) ↦ absurd (ground (arith, ph, d))
              ]
      | inr (er, ph) ↦ absurd (ground (arith, ph))
    ]

-- A header that is accepted has the bytes that `protect_record_aes128_gcm` writes.
take-header :
    (rec : Bytes) (h : RecordHeader)
    → AreBytes rec
    → 5 ≤ length rec
    → parse_record_header (span rec) ≡ ok h
    → h.type ≡ 23
    → h.legacy_version ≡ 0x0303
    → take 5 rec ≡ fragment_header h.length
unfolding parse_record_header fragment_header
take-header [] h b l e k v = absurd (omega arith)
take-header (x₀ ∷ []) h b l e k v = absurd (omega arith)
take-header (x₀ ∷ x₁ ∷ []) h b l e k v = absurd (omega arith)
take-header (x₀ ∷ x₁ ∷ x₂ ∷ []) h b l e k v = absurd (omega arith)
take-header (x₀ ∷ x₁ ∷ x₂ ∷ x₃ ∷ []) h b l e k v = absurd (omega arith)
take-header (x₀ ∷ x₁ ∷ x₂ ∷ x₃ ∷ x₄ ∷ rest) h (b₀, (b₁, (b₂, (b₃, (b₄, bs))))) l e k v =
    rw (first, second, third, fourth, fifth) refl
  where
    p : Bytes
    p = x₀ ∷ x₁ ∷ x₂ ∷ x₃ ∷ x₄ ∷ rest

    bytes : AreBytes p
    bytes = (b₀, (b₁, (b₂, (b₃, (b₄, bs)))))

    versions : h.legacy_version ≡ x₁ * 256 + x₂
    versions = ground (arith, load_be16_sum p 1 bytes)

    lengths : h.length ≡ x₃ * 256 + x₄
    lengths = ground (arith, load_be16_sum p 3 bytes)

    first : x₀ ≡ 23
    first = ground arith

    second : x₁ ≡ 3
    second = omega (arith, versions, v)

    third : x₂ ≡ 3
    third = omega (arith, versions, v)

    fourth : x₃ ≡ u8 (h.length / 2 ^ 8)
    fourth = omega (arith, lengths)

    fifth : x₄ ≡ u8 h.length
    fifth = omega (arith, lengths)

-- A text whose last byte that is not zero is `t` is an inner plaintext.
inner_of_text :
    (p : Bytes) (n : ℕ)
    → n ≡ strip_zeros p (length p)
    → 0 < n
    → p ≡ inner (take (n - 1) p) (at p (n - 1)) (length p - n)
inner_of_text p zero e h = absurd (omega arith)
inner_of_text p (suc n) e h =
    let le : suc n ≤ length p = omega (arith, strip_zeros-le p (length p)) in
    let e' : suc n - 1 ≡ n = omega arith in
    rw e' (
      sym (take_all (length p) p (omega arith))
      ∙ strip_zeros_sound p (length p) (omega arith)
      ∙ ap (λ k. take k p ++ replicate (length p - k) 0) (sym e)
      ∙ ap (λ z. z ++ replicate (length p - suc n) 0) (take-suc p n le)
      ∙ append_assoc (take n p) (at p n ∷ []) (replicate (length p - suc n) 0))

-- The three parts of a record, and what follows it.
parts :
    (rec : Bytes) (n : ℕ)
    → rec ≡ (take 5 rec ++ (slice rec 5 n ++ slice rec (5 + n) 16)) ++ drop 16 (drop (5 + n) rec)
parts rec n =
    sym (take-append-drop 5 rec)
    ∙ ap (λ z. take 5 rec ++ z)
        (sym (take-append-drop n (drop 5 rec))
          ∙ ap (λ z. slice rec 5 n ++ z)
              (drop-drop 5 n (5 + n) rec refl ∙ sym (take-append-drop 16 (drop (5 + n) rec)))
          ∙ sym (append_assoc (slice rec 5 n) (slice rec (5 + n) 16) (drop 16 (drop (5 + n) rec))))
    ∙ sym (append_assoc (take 5 rec) _ _)

-- A record that is accepted begins with one that its content, with some padding, is sealed in.
abbrev pub Seals : TrafficKeys → Bytes → ℕ → Bytes → Type 0
Seals keys rec t content =
    (padding : ℕ) × (rest : Bytes) × (rec ≡ sealed keys t content padding ++ rest)

pair_of :
    {a b c d : Bytes} → ◌≡◌ {A = Result (Bytes × Bytes)} (ok (a, b)) (ok (c, d)) → (a ≡ c) × (b ≡ d)
pair_of e = ground (arith, e)

module _ (keys : TrafficKeys) (rec : Bytes) (room : MutableByteSpan) {keys' : TrafficKeys} {t : ℕ}
    {content : Bytes} (k : IsBlock keys.key) (b : AreBytes rec)
    (o : Opened keys rec room keys' t content) where
  abbrev ct_len : ℕ
  ct_len = o.header.length - 16

  abbrev found : Bytes
  found = slice rec 5 ct_len

  abbrev found_tag : Bytes
  found_tag = slice rec (5 + ct_len) 16

  abbrev nonce : Bytes
  nonce = make_record_nonce keys.iv keys.sequence_number

  abbrev encrypted : Bytes
  encrypted = ctr_crypt keys.key (first_counter nonce) o.text

  lengths : (length found ≡ ct_len) × (length found_tag ≡ 16)
  lengths = (
    omega (arith, o.complete, length-take ct_len (drop 5 rec), length-drop 5 rec),
    omega (
      arith,
      o.complete,
      o.least,
      length-take 16 (drop (5 + ct_len) rec),
      length-drop (5 + ct_len) rec,
    ),
  )

  is_header : take 5 rec ≡ fragment_header o.header.length
  is_header = take-header rec o.header b (omega (arith, o.complete)) o.parsed o.kind o.version

  sound : (found ≡ encrypted) × (found_tag ≡ auth_tag keys.key nonce (take 5 rec) encrypted)
  sound =
      let (same, again) =
        aes128_gcm_decrypt_sound keys.key nonce found_tag (span (take 5 rec)) (span found)
          (record { is_null = room.is_null; capacity = ct_len }) k
          (lengths.1, AreBytes-take 16 (drop (5 + ct_len) rec) (AreBytes-drop (5 + ct_len) rec b))
          o.decrypted in
      pair_of (sym again ∙ aes128_gcm_encrypt_ok keys.key nonce (take 5 rec) o.text _ (omega arith))

  length-text : length o.text ≡ ct_len
  length-text =
      sym (length-ctr_crypt keys.key k.0 (first_counter nonce) o.text)
      ∙ ap length (sym sound.0)
      ∙ lengths.0

  abbrev n : ℕ
  n = strip_zeros o.text ct_len

  abbrev padding : ℕ
  padding = length o.text - n

  text_is : o.text ≡ inner content t padding
  text_is =
      inner_of_text o.text n (ap (strip_zeros o.text) (sym length-text)) o.some_byte
      ∙ ap₂ (λ c i. inner c i padding) o.body o.typed

  header_length : o.header.length ≡ length content + 1 + padding + 16
  header_length =
      omega (arith, o.least, length-text, ap length text_is, length-inner content t padding)

  accepted-Seals : Seals keys rec t content
  accepted-Seals = (
    padding,
    drop 16 (drop (5 + ct_len) rec),
    parts rec ct_len ∙ ap (λ z. z ++ drop 16 (drop (5 + ct_len) rec)) whole,
  )
    where
      aad : take 5 rec ≡ fragment_header (length content + 1 + padding + 16)
      aad = is_header ∙ ap fragment_header header_length

      cipher : encrypted ≡ ctr_crypt keys.key (first_counter nonce) (inner content t padding)
      cipher = ap (ctr_crypt keys.key (first_counter nonce)) text_is

      whole : take 5 rec ++ (found ++ found_tag) ≡ sealed keys t content padding
      whole =
          ap₂ (λ c g. take 5 rec ++ (c ++ g)) sound.0 sound.1
          ∙ ap₂ (λ h c. h ++ (c ++ auth_tag keys.key nonce h c)) aad cipher
          ∙ sym (sealed_lem keys t content padding)

-- A record of bytes that `unprotect_record_aes128_gcm` accepts begins with the sealed record of
-- the type and content that it returns, with some padding, under the same keys and at the same
-- sequence number; the type is one of the four, and the keys it leaves are the next ones.
pub unprotect_record_sound :
    (keys : TrafficKeys) (rec : Bytes) (room : MutableByteSpan) {keys' : TrafficKeys} {t : ℕ}
    {content : Bytes}
    → IsBlock keys.key
    → AreBytes rec
    → unprotect_record_aes128_gcm keys (span rec) room ≡ ok (keys', t, content)
    → Seals keys rec t content × (20 ≤ t) × (t ≤ 23) × (keys' ≡ next_keys keys)
unprotect_record_sound keys rec room k b e =
    let o = unprotect-Opened keys rec room e in
    (accepted-Seals keys rec room k b o, o.low, o.high, o.next)
