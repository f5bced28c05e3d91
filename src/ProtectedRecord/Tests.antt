-- ===== src/ProtectedRecord/Tests.antt =====
-- A record of two bytes of content and one of padding, sealed and opened.
use xbox360_tls.Base.{◌≤◌, ◌≡◌, refl, true, false, [], ◌∷◌, replicate, arith}
use xbox360_tls.Bytes.{Bytes, MutableByteSpan, AreBytes, AreBytes-replicate, span, ok}
use xbox360_tls.Record.{make_record_nonce, xor_each, seq_bytes}
use xbox360_tls.Crypto.Aes.{
  aes_block, key_expand, key_rounds, next_word, next_rcon, middle_rounds, sub_bytes, shift_rows,
  mix_columns, mix_column, xtime,
}
use xbox360_tls.Crypto.Gcm.{
  shr_bytes, gf_double, gf_bit, gf_loop, gfmul, ghash_block, pad_block, ghash_loop, ghash_data,
  inc_loop, inc32, ctr_loop, ctr_crypt, auth_tag, aes128_gcm_encrypt,
}
use xbox360_tls.ProtectedRecord.{
  TrafficKeys, fragment_header, protect_record_aes128_gcm, unprotect_record_aes128_gcm,
}
use xbox360_tls.ProtectedRecord.RoundTrip.{next_keys, unprotect-protect}
use xbox360_tls.ProtectedRecord.Rejection.{Seals, unprotect_record_sound}

abbrev demo_keys : TrafficKeys
demo_keys = record { key = replicate 16 0; iv = replicate 12 0; sequence_number = 1 }

abbrev room : MutableByteSpan
room = record { is_null = false; capacity = 64 }

abbrev hi : Bytes
hi = 0x68 ∷ 0x69 ∷ []

abbrev demo_record : Bytes
demo_record =
    23 ∷ 3 ∷ 3 ∷ 0 ∷ 20 ∷ 6 ∷ 104 ∷ 206 ∷ 48 ∷ 96 ∷ 153 ∷ 59 ∷ 193 ∷ 148 ∷ 188 ∷ 25 ∷ 23 ∷ 57 ∷ 205
    ∷ 25 ∷ 201 ∷ 236 ∷ 112 ∷ 33 ∷ 52 ∷ []

demo_sealed :
    protect_record_aes128_gcm true demo_keys 23 (span hi) 1 room
    ≡ ok (next_keys demo_keys, demo_record)
unfolding protect_record_aes128_gcm make_record_nonce fragment_header aes128_gcm_encrypt auth_tag
    ctr_crypt ctr_loop inc32 inc_loop ghash_data ghash_loop pad_block ghash_block gfmul gf_loop
    gf_bit gf_double shr_bytes aes_block key_expand key_rounds next_word next_rcon middle_rounds
    sub_bytes shift_rows mix_columns mix_column xtime xor_each seq_bytes
demo_sealed = refl

demo_bytes : AreBytes demo_record
demo_bytes = (
  omega arith,
  (
    omega arith,
    (
      omega arith,
      (
        omega arith,
        (
          omega arith,
          (
            omega arith,
            (
              omega arith,
              (
                omega arith,
                (
                  omega arith,
                  (
                    omega arith,
                    (
                      omega arith,
                      (
                        omega arith,
                        (
                          omega arith,
                          (
                            omega arith,
                            (
                              omega arith,
                              (
                                omega arith,
                                (
                                  omega arith,
                                  (
                                    omega arith,
                                    (
                                      omega arith,
                                      (
                                        omega arith,
                                        (
                                          omega arith,
                                          (
                                            omega arith,
                                            (omega arith, (omega arith, (omega arith, tt))),
                                          ),
                                        ),
                                      ),
                                    ),
                                  ),
                                ),
                              ),
                            ),
                          ),
                        ),
                      ),
                    ),
                  ),
                ),
              ),
            ),
          ),
        ),
      ),
    ),
  ),
)

unprotect-protect_example :
    unprotect_record_aes128_gcm demo_keys (span demo_record) room ≡ ok (next_keys demo_keys, 23, hi)
unprotect-protect_example =
    unprotect-protect true false demo_keys 23 hi 1 64 room
      (refl, AreBytes-replicate 16 0 (omega arith)) demo_sealed (omega arith)

unprotect_record_sound_example :
    Seals demo_keys demo_record 23 hi
    × (20 ≤ 23)
    × (23 ≤ 23)
    × (next_keys demo_keys ≡ next_keys demo_keys)
unprotect_record_sound_example =
    unprotect_record_sound demo_keys demo_record room (refl, AreBytes-replicate 16 0 (omega arith))
      demo_bytes unprotect-protect_example
