-- ===== src/ProtectedRecord/RoundTrip.antt =====
-- A record that was protected opens to its content, and a sequence of records to theirs, in order.
use xbox360_tls.Base.{
  ℕ, suc, ◌+◌, ◌-◌, ◌≤◌, ◌≡◌, refl, sym, ap, ◌∙◌, Bool, false, ◌∷◌, ◌++◌, length, take, drop,
  length-append, take-append, drop-append, drop-drop, take_all, replicate, arith,
}
use xbox360_tls.Bytes.{Bytes, MutableByteSpan, span, slice, u64, ok}
use xbox360_tls.Record.{make_record_nonce, content_application_data, parse_record_header}
use xbox360_tls.Crypto.Gcm.{
  ctr_crypt, first_counter, auth_tag, aes128_gcm_encrypt, aes128_gcm_decrypt,
}
use xbox360_tls.Crypto.Gcm.Counter.{length-ctr_crypt}
use xbox360_tls.Crypto.Gcm.Tag.{IsBlock, auth_tag-IsBlock}
use xbox360_tls.Crypto.Gcm.RoundTrip.{aes128_gcm_encrypt_ok, aes128_gcm_decrypt-aes128_gcm_encrypt}
use xbox360_tls.ProtectedRecord.Framing.{
  parse_record_header-fragment_header, inner, length-inner, at-inner_type, strip_zeros-padding,
}
use xbox360_tls.ProtectedRecord.{
  TrafficKeys, fragment_header, protect_record_aes128_gcm, unprotect_record_aes128_gcm,
}

-- The keys for the next record.
abbrev pub next_keys : TrafficKeys → TrafficKeys
next_keys keys = record keys { sequence_number = u64 (keys.sequence_number + 1) }

module _ (keys : TrafficKeys) (t : ℕ) (content : Bytes) (padding : ℕ) where
  abbrev nonce : Bytes
  nonce = make_record_nonce keys.iv keys.sequence_number

  abbrev header : Bytes
  header = fragment_header (length content + 1 + padding + 16)

  ciphertext : Bytes
  ciphertext = ctr_crypt keys.key (first_counter nonce) (inner content t padding)

  tag : Bytes
  tag = auth_tag keys.key nonce header ciphertext

  -- The record that carries `content`.
  pub sealed : Bytes
  sealed = header ++ (ciphertext ++ tag)

  pub sealed_lem :
      let c = ctr_crypt keys.key (first_counter nonce) (inner content t padding) in
      sealed ≡ header ++ (c ++ auth_tag keys.key nonce header c)
  unfolding sealed ciphertext tag
  sealed_lem = refl

  encrypts :
      aes128_gcm_encrypt keys.key nonce
        (span header)
        (span (inner content t padding))
        (record { is_null = false; capacity = length content + 1 + padding })
      ≡ ok (ciphertext, tag)
  unfolding ciphertext tag
  encrypts =
      aes128_gcm_encrypt_ok keys.key nonce header (inner content t padding) _
        (omega (arith, length-inner content t padding))

  -- What a call that succeeds returns.
  pub protect_record_aes128_gcm_ok :
      (allocated absent : Bool) (out : MutableByteSpan) {keys' : TrafficKeys} {rec : Bytes}
      → protect_record_aes128_gcm allocated keys t
          (record { is_null = absent; bytes = content })
          padding
          out
        ≡ ok (keys', rec)
      → (rec ≡ sealed)
        × (keys' ≡ next_keys keys)
        × (20 ≤ t)
        × (t ≤ 23)
        × (length content + 1 + padding + 16 ≤ 16640)
  unfolding protect_record_aes128_gcm sealed
  protect_record_aes128_gcm_ok allocated absent out e = ground (arith, encrypts)

  length-ciphertext : IsBlock keys.key → length ciphertext ≡ length content + 1 + padding
  unfolding ciphertext
  length-ciphertext k =
      length-ctr_crypt keys.key k.0 (first_counter nonce) (inner content t padding)
      ∙ length-inner content t padding

  length-tag : IsBlock keys.key → length tag ≡ 16
  unfolding tag
  length-tag k = (auth_tag-IsBlock keys.key nonce header ciphertext k).0

  module _ (k : IsBlock keys.key) (bound : length content + 1 + padding + 16 ≤ 16640) where
    length-sealed : length sealed ≡ 5 + (length content + 1 + padding + 16)
    unfolding sealed fragment_header
    length-sealed = omega (arith, length-append ciphertext tag, length-ciphertext k, length-tag k)

    body_of_sealed : drop 5 sealed ≡ ciphertext ++ tag
    unfolding sealed fragment_header
    body_of_sealed = refl

    slice-ciphertext : slice sealed 5 (length content + 1 + padding) ≡ ciphertext
    slice-ciphertext =
        ap (take (length content + 1 + padding)) body_of_sealed
        ∙ take-append _ ciphertext tag (sym (length-ciphertext k))

    slice-tag : slice sealed (5 + (length content + 1 + padding)) 16 ≡ tag
    slice-tag =
        ap (take 16) (
          sym (drop-drop 5 (length content + 1 + padding) _ sealed refl)
          ∙ ap (drop (length content + 1 + padding)) body_of_sealed
          ∙ drop-append _ ciphertext tag (sym (length-ciphertext k)))
        ∙ take_all 16 tag (omega (arith, length-tag k))

    sealed_header : take 5 sealed ≡ header
    unfolding sealed fragment_header
    sealed_header = refl

    decrypts :
        (room : ℕ)
        → length content + 1 + padding ≤ room
        → aes128_gcm_decrypt keys.key nonce
            (span header)
            (span ciphertext)
            tag
            (record { is_null = false; capacity = room })
          ≡ ok (inner content t padding)
    decrypts room h =
        aes128_gcm_decrypt-aes128_gcm_encrypt keys.key nonce ciphertext tag (span header)
          (span (inner content t padding)) _ (record { is_null = false; capacity = room }) k.0 refl
          (omega (arith, length-inner content t padding)) encrypts

    -- A record opens to its type and content, under the keys that sealed it.
    pub unprotect-sealed :
        (room : ℕ)
        → 20 ≤ t
        → t ≤ 23
        → length content + 1 + padding ≤ room
        → unprotect_record_aes128_gcm keys
            (span sealed)
            (record { is_null = false; capacity = room })
          ≡ ok (next_keys keys, t, content)
    unfolding unprotect_record_aes128_gcm
    unprotect-sealed room l u h =
        rw
          (
            parsed,
            length-sealed,
            counted,
            sealed_header,
            slice-ciphertext,
            slice-tag,
            decrypts (length content + 1 + padding) (omega arith),
            strip_zeros-padding content t padding (omega arith),
            back,
            at-inner_type content t padding,
            take-append (length content) content (t ∷ replicate padding 0) refl,
          )
          (ground arith)
      where
        parsed :
            parse_record_header (span sealed)
            ≡ ok (record {
              type = content_application_data;
              legacy_version = 0x0303;
              length = length content + 1 + padding + 16;
            })
        parsed = unfold sealed in parse_record_header-fragment_header _ (ciphertext ++ tag) bound

        counted : length content + 1 + padding + 16 - 16 ≡ length content + 1 + padding
        counted = omega arith

        back : suc (length content) - 1 ≡ length content
        back = omega arith

-- A record that `protect_record_aes128_gcm` made is opened by `unprotect_record_aes128_gcm` under
-- the same keys, in a buffer with room for the content, its type and the padding: it gives the
-- type and the content, and both sides go on with the same keys.
pub unprotect-protect :
    (allocated absent : Bool) (keys : TrafficKeys) (t : ℕ) (content : Bytes) (padding room : ℕ)
    (out : MutableByteSpan) {keys' : TrafficKeys} {rec : Bytes}
    → IsBlock keys.key
    → protect_record_aes128_gcm allocated keys t
        (record { is_null = absent; bytes = content })
        padding
        out
      ≡ ok (keys', rec)
    → length content + 1 + padding ≤ room
    → unprotect_record_aes128_gcm keys (span rec) (record { is_null = false; capacity = room })
      ≡ ok (keys', t, content)
unprotect-protect allocated absent keys t content padding room out k e h =
    let (same, next, low, high, bound) =
      protect_record_aes128_gcm_ok keys t content padding allocated absent out e in
    rw (same, next) (unprotect-sealed keys t content padding k bound room low high h)
