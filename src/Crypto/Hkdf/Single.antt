-- ===== src/Crypto/Hkdf/Single.antt =====
-- A request for the 32 bytes of a secret: one block of HKDF.
use xbox360_tls.Base.{
  ◌+◌, ◌≤◌, ◌≡◌, [], ◌∷◌, ◌++◌, length, refl, take_all, append-nil, le→ltb, arith,
}
use xbox360_tls.Bytes.{Bytes, ok}
use xbox360_tls.Crypto.Hkdf.{
  hmac_sha256, expand_loop, hkdf_label, hkdf_expand_sha256, hkdf_expand_label_sha256,
}
use xbox360_tls.Crypto.Hkdf.Sizes.{length-hmac_sha256, length-hkdf_label}

-- HKDF-Expand-Label for 32 bytes, as RFC 8446 and RFC 5869 write it: T(1) alone.
abbrev pub expanded_label : Bytes → Bytes → Bytes → Bytes
expanded_label secret label context = hmac_sha256 secret (hkdf_label label context 32 ++ (1 ∷ []))

pub hkdf_expand_label_sha256_single :
    (secret label context : Bytes)
    → length label ≤ 249
    → length context ≤ 253
    → hkdf_expand_label_sha256 secret label context 32 ≡ ok (expanded_label secret label context)
unfolding hkdf_expand_label_sha256 hkdf_expand_sha256 expand_loop
hkdf_expand_label_sha256_single secret label context h k =
    rw
      (
        le→ltb 255 (6 + length label) (omega arith),
        le→ltb 255 (length context) (omega arith),
        le→ltb 512 (length (hkdf_label label context 32))
            (omega (arith, length-hkdf_label label context 32)),
        append-nil,
        take_all 32 (expanded_label secret label context)
            (omega (arith, length-hmac_sha256 secret (hkdf_label label context 32 ++ (1 ∷ [])))),
      )
      refl
