-- ===== src/Crypto/Gcm/Tests.antt =====
-- Test case 2 of the GCM specification, and its decryption.
use xbox360_tls.Base.{◌≡◌, refl, false, arith, [], ◌∷◌, replicate}
use xbox360_tls.Bytes.{Bytes, AreBytes-replicate, MutableByteSpan, span, ok}
use xbox360_tls.Record.{xor_each, seq_bytes}
use xbox360_tls.Crypto.Aes.{
  aes_block, key_expand, key_rounds, next_word, next_rcon, middle_rounds, sub_bytes, shift_rows,
  mix_columns, mix_column, xtime,
}
use xbox360_tls.Crypto.Gcm.{
  shr_bytes, gf_double, gf_bit, gf_loop, gfmul, ghash_block, pad_block, ghash_loop, ghash_data,
  inc_loop, inc32, ctr_loop, ctr_crypt, auth_tag, aes128_gcm_encrypt, aes128_gcm_decrypt,
}
use xbox360_tls.Crypto.Gcm.Tag.{IsBlock}
use xbox360_tls.Crypto.Gcm.RoundTrip.{
  aes128_gcm_decrypt-aes128_gcm_encrypt, aes128_gcm_decrypt_sound,
}

abbrev block : Bytes
block =
    0x03 ∷ 0x88 ∷ 0xda ∷ 0xce ∷ 0x60 ∷ 0xb6 ∷ 0xa3 ∷ 0x92 ∷ 0xf3 ∷ 0x28 ∷ 0xc2 ∷ 0xb9 ∷ 0x71 ∷ 0xb2
    ∷ 0xfe ∷ 0x78 ∷ []

abbrev tag : Bytes
tag =
    0xab ∷ 0x6e ∷ 0x47 ∷ 0xd4 ∷ 0x2c ∷ 0xec ∷ 0x13 ∷ 0xbd ∷ 0xf5 ∷ 0x3a ∷ 0x67 ∷ 0xb2 ∷ 0x12 ∷ 0x57
    ∷ 0xbd ∷ 0xdf ∷ []

abbrev room : MutableByteSpan
room = record { is_null = false; capacity = 16 }

one_block :
    aes128_gcm_encrypt (replicate 16 0) (replicate 12 0) (span []) (span (replicate 16 0)) room
    ≡ ok (block, tag)
unfolding aes128_gcm_encrypt auth_tag ctr_crypt ctr_loop inc32 inc_loop ghash_data ghash_loop
    pad_block ghash_block gfmul gf_loop gf_bit gf_double shr_bytes aes_block key_expand key_rounds
    next_word next_rcon middle_rounds sub_bytes shift_rows mix_columns mix_column xtime xor_each
    seq_bytes
one_block = refl

aes128_gcm_decrypt-aes128_gcm_encrypt_example :
    aes128_gcm_decrypt (replicate 16 0) (replicate 12 0) (span []) (span block) tag room
    ≡ ok (replicate 16 0)
aes128_gcm_decrypt-aes128_gcm_encrypt_example =
    aes128_gcm_decrypt-aes128_gcm_encrypt (replicate 16 0) (replicate 12 0) block tag (span [])
      (span (replicate 16 0)) room room refl refl (omega arith) one_block

IsBlock-zeros : IsBlock (replicate 16 0)
IsBlock-zeros = (refl, AreBytes-replicate 16 0 (omega arith))

IsBlock-tag : IsBlock tag
IsBlock-tag = (
  refl,
  (
    omega arith,
    (
      omega arith,
      (
        omega arith,
        (
          omega arith,
          (
            omega arith,
            (
              omega arith,
              (
                omega arith,
                (
                  omega arith,
                  (
                    omega arith,
                    (
                      omega arith,
                      (
                        omega arith,
                        (
                          omega arith,
                          (omega arith, (omega arith, (omega arith, (omega arith, tt)))),
                        ),
                      ),
                    ),
                  ),
                ),
              ),
            ),
          ),
        ),
      ),
    ),
  ),
)

aes128_gcm_decrypt_sound_example :
    (tag ≡ auth_tag (replicate 16 0) (replicate 12 0) [] block)
    × (aes128_gcm_encrypt (replicate 16 0) (replicate 12 0) (span []) (span (replicate 16 0)) room
        ≡ ok (block, tag))
aes128_gcm_decrypt_sound_example =
    aes128_gcm_decrypt_sound (replicate 16 0) (replicate 12 0) tag (span []) (span block) room
      IsBlock-zeros IsBlock-tag aes128_gcm_decrypt-aes128_gcm_encrypt_example
