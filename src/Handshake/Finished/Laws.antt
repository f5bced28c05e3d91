-- ===== src/Handshake/Finished/Laws.antt =====
-- What a Finished message says, and which one is accepted.
use xbox360_tls.Base.{
  ℕ, ◌+◌, ◌≤◌, ◌≡◌, ◌↔◌, refl, sym, ap, subst, append-nil, ◌∙◌, false, [], ◌∷◌, ◌++◌, length, arith,
}
use xbox360_tls.Bytes.{Bytes, AreBytes, MutableByteSpan, span, Result, ok, store_be24}
use xbox360_tls.Crypto.Gcm.Tag.{tag_equal_refl, tag_equal_iff}
use xbox360_tls.Crypto.Hkdf.{hmac_sha256}
use xbox360_tls.Crypto.Hkdf.Sizes.{length-hmac_sha256, final-AreBytes}
use xbox360_tls.Crypto.Hkdf.Single.{expanded_label, hkdf_expand_label_sha256_single}
use xbox360_tls.Handshake.Message.{
  HandshakeMessage, hs_finished, parse_handshake_message, encode_message, message,
}
use xbox360_tls.Handshake.Message.Laws.{parse_handshake_message-encode_message}
use xbox360_tls.Handshake.Finished.{
  label_finished, finished_key_sha256, compute_finished_verify_data_sha256, verify_finished_sha256,
  build_finished_sha256,
}

-- The verify data of RFC 8446, section 4.4.4.
abbrev pub verify_data : Bytes → Bytes → Bytes
verify_data secret th = hmac_sha256 (expanded_label secret label_finished []) th

pub verify_data-AreBytes : (secret th : Bytes) → AreBytes (verify_data secret th)
unfolding hmac_sha256
verify_data-AreBytes secret th = final-AreBytes _

compute_ok :
    (secret th : Bytes)
    → length secret ≡ 32
    → length th ≡ 32
    → compute_finished_verify_data_sha256 (span secret) (span th) ≡ ok (verify_data secret th)
unfolding compute_finished_verify_data_sha256 finished_key_sha256
compute_ok secret th h k =
    rw (h, k, hkdf_expand_label_sha256_single secret label_finished [] (omega arith) (omega arith))
      refl

-- With room for it, a message is always built.
pub build_finished_sha256_ok :
    (secret th : Bytes) (n : ℕ)
    → length secret ≡ 32
    → length th ≡ 32
    → 36 ≤ n
    → build_finished_sha256 (span secret) (span th) (record { is_null = false; capacity = n })
      ≡ ok ((hs_finished ∷ 0 ∷ 0 ∷ 32 ∷ []) ++ verify_data secret th)
unfolding build_finished_sha256
build_finished_sha256_ok secret th n h k l = rw (compute_ok secret th h k) (ground arith)

-- With a traffic secret and a transcript hash of 32 bytes, a message of bytes is accepted exactly
-- when it is a Finished message whose body is the verify data that RFC 8446 prescribes.
pub verify_finished_sha256_iff :
    (secret th : Bytes) (m : HandshakeMessage)
    → length secret ≡ 32
    → length th ≡ 32
    → AreBytes m.body.bytes
    → (verify_finished_sha256 (span secret) (span th) m ≡ ok tt)
      ↔ ((m.type ≡ 20) × (m.body.is_null ≡ false) × (m.body.bytes ≡ verify_data secret th))
unfolding verify_finished_sha256
verify_finished_sha256_iff secret th m h k b = (there, back)
  where
    sized : length (verify_data secret th) ≡ 32
    sized = length-hmac_sha256 (expanded_label secret label_finished []) th

    there :
        verify_finished_sha256 (span secret) (span th) m ≡ ok tt
        → (m.type ≡ 20) × (m.body.is_null ≡ false) × (m.body.bytes ≡ verify_data secret th)
    there e =
        let wide : length m.body.bytes ≡ 32 = ground (arith, compute_ok secret th h k) in
        ground (
          arith,
          compute_ok secret th h k,
          (tag_equal_iff (verify_data secret th) m.body.bytes (verify_data-AreBytes secret th) b
              (sized ∙ sym wide)).0,
        )

    back :
        (m.type ≡ 20) × (m.body.is_null ≡ false) × (m.body.bytes ≡ verify_data secret th)
        → verify_finished_sha256 (span secret) (span th) m ≡ ok tt
    back (t, n, same) =
        ground
          (arith, sized, compute_ok secret th h k, same, tag_equal_refl (verify_data secret th))

-- The message that is built for a traffic secret and a transcript hash is read back by the parser
-- in full, and accepted for the same secret and hash.
pub verify-build_finished :
    (secret th : Bytes) (out : MutableByteSpan) {built : Bytes}
    → length secret ≡ 32
    → length th ≡ 32
    → build_finished_sha256 (span secret) (span th) out ≡ ok built
    → (m : HandshakeMessage) × (parse_handshake_message (span built) ≡ ok (m, 36))
      × (verify_finished_sha256 (span secret) (span th) m ≡ ok tt)
unfolding build_finished_sha256
verify-build_finished secret th out {built} h k e = (message 20 says, parsed, accepted)
  where
    says : Bytes
    says = verify_data secret th

    sized : length says ≡ 32
    sized = length-hmac_sha256 (expanded_label secret label_finished []) th

    three : store_be24 32 ≡ 0 ∷ 0 ∷ 32 ∷ []
    three = unfold store_be24 in refl

    is_built : built ≡ encode_message 20 says
    is_built = rw (ap store_be24 sized, three) (ground (arith, e, compute_ok secret th h k))

    counted :
        ◌≡◌ {A = Result (HandshakeMessage × ℕ)}
          (ok (message 20 says, length says + 4))
          (ok (message 20 says, 36))
    counted = rw sized refl

    parsed : parse_handshake_message (span built) ≡ ok (message 20 says, 36)
    parsed =
        subst (λ b. parse_handshake_message (span b) ≡ ok (message 20 says, 36))
          (append-nil (encode_message 20 says) ∙ sym is_built)
          (parse_handshake_message-encode_message 20 says [] (omega (arith, sized)) ∙ counted)

    accepted : verify_finished_sha256 (span secret) (span th) (message 20 says) ≡ ok tt
    accepted =
        (verify_finished_sha256_iff secret th (message 20 says) h k
            (verify_data-AreBytes secret th)).1
          (refl, refl, refl)
