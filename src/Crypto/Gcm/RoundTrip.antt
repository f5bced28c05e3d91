-- ===== src/Crypto/Gcm/RoundTrip.antt =====
-- What was encrypted decrypts, and what decrypts was encrypted.
use xbox360_tls.Base.{ℕ, ◌≤◌, ◌≡◌, false, length, arith}
use xbox360_tls.Bytes.{Bytes, ByteSpan, MutableByteSpan, span, size, ok}
use xbox360_tls.Crypto.Gcm.Counter.{ctr_crypt_twice, length-ctr_crypt}
use xbox360_tls.Crypto.Gcm.Tag.{tag_equal_refl, tag_equal_iff, auth_tag-IsBlock, IsBlock}
use xbox360_tls.Crypto.Gcm.{
  ctr_crypt, auth_tag, first_counter, aes128_gcm_encrypt, aes128_gcm_decrypt,
}

-- The ciphertext and tag of an encryption decrypt to the plaintext, under the same key, nonce and
-- additional data.
pub aes128_gcm_decrypt-aes128_gcm_encrypt :
    (key nonce c tag : Bytes) (aad plaintext : ByteSpan) (out room : MutableByteSpan)
    → length key ≡ 16
    → room.is_null ≡ false
    → size plaintext ≤ room.capacity
    → aes128_gcm_encrypt key nonce aad plaintext out ≡ ok (c, tag)
    → aes128_gcm_decrypt key nonce aad (span c) tag room ≡ ok plaintext.bytes
unfolding aes128_gcm_encrypt aes128_gcm_decrypt
aes128_gcm_decrypt-aes128_gcm_encrypt key nonce c tag aad plaintext out room h n r e = ground (
  arith,
  n,
  ctr_crypt_twice key h (first_counter nonce) plaintext.bytes,
  length-ctr_crypt key h (first_counter nonce) plaintext.bytes,
  tag_equal_refl tag,
)

-- With room for it, a present text is always encrypted.
pub aes128_gcm_encrypt_ok :
    (key nonce aad plaintext : Bytes) (n : ℕ)
    → length plaintext ≤ n
    → let c = ctr_crypt key (first_counter nonce) plaintext in
      aes128_gcm_encrypt key nonce
        (span aad)
        (span plaintext)
        (record { is_null = false; capacity = n })
      ≡ ok (c, auth_tag key nonce aad c)
unfolding aes128_gcm_encrypt
aes128_gcm_encrypt_ok key nonce aad plaintext n h = ground arith

-- A message is decrypted only if its tag is the one that the key, the nonce, the additional data
-- and the ciphertext give; the result is then the decrypted text.
pub aes128_gcm_decrypt_sound :
    (key nonce tag : Bytes) (aad ciphertext : ByteSpan) (room : MutableByteSpan) {p : Bytes}
    → IsBlock key
    → IsBlock tag
    → aes128_gcm_decrypt key nonce aad ciphertext tag room ≡ ok p
    → (tag ≡ auth_tag key nonce aad.bytes ciphertext.bytes)
      × (aes128_gcm_encrypt key nonce aad (span p) (record { is_null = false; capacity = length p })
          ≡ ok (ciphertext.bytes, tag))
unfolding aes128_gcm_encrypt aes128_gcm_decrypt
aes128_gcm_decrypt_sound key nonce tag aad ciphertext room {p} k t e = ground (
  arith,
  ctr_crypt_twice key k.0 (first_counter nonce) ciphertext.bytes,
  tag_equal_iff (auth_tag key nonce aad.bytes ciphertext.bytes) tag made.1 t.1
      (omega (arith, made.0, t.0)),
)
  where
    made : IsBlock (auth_tag key nonce aad.bytes ciphertext.bytes)
    made = auth_tag-IsBlock key nonce aad.bytes ciphertext.bytes k
