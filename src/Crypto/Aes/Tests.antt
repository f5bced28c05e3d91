-- ===== src/Crypto/Aes/Tests.antt =====
-- The vectors of FIPS 197 and the empty message of the GCM specification.
use xbox360_tls.Base.{◌≡◌, refl, [], ◌∷◌}
use xbox360_tls.Bytes.{Bytes}
use xbox360_tls.Record.{xor_each}
use xbox360_tls.Crypto.Aes.{
  aes_block, key_expand, key_rounds, next_word, next_rcon, middle_rounds, sub_bytes, shift_rows,
  mix_columns, mix_column, xtime,
}

abbrev key : Bytes
key =
    0x00 ∷ 0x01 ∷ 0x02 ∷ 0x03 ∷ 0x04 ∷ 0x05 ∷ 0x06 ∷ 0x07 ∷ 0x08 ∷ 0x09 ∷ 0x0a ∷ 0x0b ∷ 0x0c ∷ 0x0d
    ∷ 0x0e ∷ 0x0f ∷ []

abbrev block : Bytes
block =
    0x00 ∷ 0x11 ∷ 0x22 ∷ 0x33 ∷ 0x44 ∷ 0x55 ∷ 0x66 ∷ 0x77 ∷ 0x88 ∷ 0x99 ∷ 0xaa ∷ 0xbb ∷ 0xcc ∷ 0xdd
    ∷ 0xee ∷ 0xff ∷ []

fips_197 :
    aes_block key block
    ≡ 0x69 ∷ 0xc4 ∷ 0xe0 ∷ 0xd8 ∷ 0x6a ∷ 0x7b ∷ 0x04 ∷ 0x30 ∷ 0xd8 ∷ 0xcd ∷ 0xb7 ∷ 0x80 ∷ 0x70
      ∷ 0xb4 ∷ 0xc5 ∷ 0x5a ∷ []
unfolding aes_block key_expand key_rounds next_word next_rcon middle_rounds sub_bytes shift_rows
    mix_columns mix_column xtime xor_each
fips_197 = refl
