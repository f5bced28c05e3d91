-- ===== src/Crypto/Aes.antt =====
-- The block cipher of src/crypto/aes_gcm.cpp: AES-128 on lists of 16 bytes.
pub mod Sizes
mod Tests
use xbox360_tls.Base.{
  ℕ, zero, suc, ◌+◌, ◌-◌, ◌*◌, bit_and, bit_xor, [], ◌∷◌, ◌++◌, map, ◌==◌, if◌then◌else◌, length,
  drop, take,
}
use xbox360_tls.Bytes.{Bytes, at, slice, u8}
use xbox360_tls.Record.{xor_each}

abbrev pub sbox : Bytes
sbox =
    0x63 ∷ 0x7c ∷ 0x77 ∷ 0x7b ∷ 0xf2 ∷ 0x6b ∷ 0x6f ∷ 0xc5 ∷ 0x30 ∷ 0x01 ∷ 0x67 ∷ 0x2b ∷ 0xfe ∷ 0xd7
    ∷ 0xab ∷ 0x76 ∷ 0xca ∷ 0x82 ∷ 0xc9 ∷ 0x7d ∷ 0xfa ∷ 0x59 ∷ 0x47 ∷ 0xf0 ∷ 0xad ∷ 0xd4 ∷ 0xa2
    ∷ 0xaf ∷ 0x9c ∷ 0xa4 ∷ 0x72 ∷ 0xc0 ∷ 0xb7 ∷ 0xfd ∷ 0x93 ∷ 0x26 ∷ 0x36 ∷ 0x3f ∷ 0xf7 ∷ 0xcc
    ∷ 0x34 ∷ 0xa5 ∷ 0xe5 ∷ 0xf1 ∷ 0x71 ∷ 0xd8 ∷ 0x31 ∷ 0x15 ∷ 0x04 ∷ 0xc7 ∷ 0x23 ∷ 0xc3 ∷ 0x18
    ∷ 0x96 ∷ 0x05 ∷ 0x9a ∷ 0x07 ∷ 0x12 ∷ 0x80 ∷ 0xe2 ∷ 0xeb ∷ 0x27 ∷ 0xb2 ∷ 0x75 ∷ 0x09 ∷ 0x83
    ∷ 0x2c ∷ 0x1a ∷ 0x1b ∷ 0x6e ∷ 0x5a ∷ 0xa0 ∷ 0x52 ∷ 0x3b ∷ 0xd6 ∷ 0xb3 ∷ 0x29 ∷ 0xe3 ∷ 0x2f
    ∷ 0x84 ∷ 0x53 ∷ 0xd1 ∷ 0x00 ∷ 0xed ∷ 0x20 ∷ 0xfc ∷ 0xb1 ∷ 0x5b ∷ 0x6a ∷ 0xcb ∷ 0xbe ∷ 0x39
    ∷ 0x4a ∷ 0x4c ∷ 0x58 ∷ 0xcf ∷ 0xd0 ∷ 0xef ∷ 0xaa ∷ 0xfb ∷ 0x43 ∷ 0x4d ∷ 0x33 ∷ 0x85 ∷ 0x45
    ∷ 0xf9 ∷ 0x02 ∷ 0x7f ∷ 0x50 ∷ 0x3c ∷ 0x9f ∷ 0xa8 ∷ 0x51 ∷ 0xa3 ∷ 0x40 ∷ 0x8f ∷ 0x92 ∷ 0x9d
    ∷ 0x38 ∷ 0xf5 ∷ 0xbc ∷ 0xb6 ∷ 0xda ∷ 0x21 ∷ 0x10 ∷ 0xff ∷ 0xf3 ∷ 0xd2 ∷ 0xcd ∷ 0x0c ∷ 0x13
    ∷ 0xec ∷ 0x5f ∷ 0x97 ∷ 0x44 ∷ 0x17 ∷ 0xc4 ∷ 0xa7 ∷ 0x7e ∷ 0x3d ∷ 0x64 ∷ 0x5d ∷ 0x19 ∷ 0x73
    ∷ 0x60 ∷ 0x81 ∷ 0x4f ∷ 0xdc ∷ 0x22 ∷ 0x2a ∷ 0x90 ∷ 0x88 ∷ 0x46 ∷ 0xee ∷ 0xb8 ∷ 0x14 ∷ 0xde
    ∷ 0x5e ∷ 0x0b ∷ 0xdb ∷ 0xe0 ∷ 0x32 ∷ 0x3a ∷ 0x0a ∷ 0x49 ∷ 0x06 ∷ 0x24 ∷ 0x5c ∷ 0xc2 ∷ 0xd3
    ∷ 0xac ∷ 0x62 ∷ 0x91 ∷ 0x95 ∷ 0xe4 ∷ 0x79 ∷ 0xe7 ∷ 0xc8 ∷ 0x37 ∷ 0x6d ∷ 0x8d ∷ 0xd5 ∷ 0x4e
    ∷ 0xa9 ∷ 0x6c ∷ 0x56 ∷ 0xf4 ∷ 0xea ∷ 0x65 ∷ 0x7a ∷ 0xae ∷ 0x08 ∷ 0xba ∷ 0x78 ∷ 0x25 ∷ 0x2e
    ∷ 0x1c ∷ 0xa6 ∷ 0xb4 ∷ 0xc6 ∷ 0xe8 ∷ 0xdd ∷ 0x74 ∷ 0x1f ∷ 0x4b ∷ 0xbd ∷ 0x8b ∷ 0x8a ∷ 0x70
    ∷ 0x3e ∷ 0xb5 ∷ 0x66 ∷ 0x48 ∷ 0x03 ∷ 0xf6 ∷ 0x0e ∷ 0x61 ∷ 0x35 ∷ 0x57 ∷ 0xb9 ∷ 0x86 ∷ 0xc1
    ∷ 0x1d ∷ 0x9e ∷ 0xe1 ∷ 0xf8 ∷ 0x98 ∷ 0x11 ∷ 0x69 ∷ 0xd9 ∷ 0x8e ∷ 0x94 ∷ 0x9b ∷ 0x1e ∷ 0x87
    ∷ 0xe9 ∷ 0xce ∷ 0x55 ∷ 0x28 ∷ 0xdf ∷ 0x8c ∷ 0xa1 ∷ 0x89 ∷ 0x0d ∷ 0xbf ∷ 0xe6 ∷ 0x42 ∷ 0x68
    ∷ 0x41 ∷ 0x99 ∷ 0x2d ∷ 0x0f ∷ 0xb0 ∷ 0x54 ∷ 0xbb ∷ 0x16 ∷ []

unfoldable pub xtime : ℕ → ℕ
xtime x = u8 (bit_xor (x * 2) (if bit_and x 0x80 == 0 then 0 else 0x1b))

-- `s[i] ^= rk[i]` for 16 bytes
abbrev pub add_round_key : Bytes → Bytes → Bytes
add_round_key s rk = xor_each s (take 16 rk)

unfoldable pub sub_bytes : Bytes → Bytes
sub_bytes s = map (at sbox) s

unfoldable pub shift_rows : Bytes → Bytes
shift_rows t =
    at t 0
    ∷ at t 5
    ∷ at t 10
    ∷ at t 15
    ∷ at t 4
    ∷ at t 9
    ∷ at t 14
    ∷ at t 3
    ∷ at t 8
    ∷ at t 13
    ∷ at t 2
    ∷ at t 7
    ∷ at t 12
    ∷ at t 1
    ∷ at t 6
    ∷ at t 11
    ∷ []

-- The column that starts at `i`.
unfoldable pub mix_column : Bytes → ℕ → Bytes
mix_column s i =
    let a = at s i in
    let b = at s (i + 1) in
    let d = at s (i + 2) in
    let e = at s (i + 3) in
    let x = bit_xor (bit_xor (bit_xor a b) d) e in
    bit_xor a (bit_xor x (xtime (bit_xor a b)))
    ∷ bit_xor b (bit_xor x (xtime (bit_xor b d)))
    ∷ bit_xor d (bit_xor x (xtime (bit_xor d e)))
    ∷ bit_xor e (bit_xor x (xtime (bit_xor e a)))
    ∷ []

unfoldable pub mix_columns : Bytes → Bytes
mix_columns s = mix_column s 0 ++ mix_column s 4 ++ mix_column s 8 ++ mix_column s 12

-- The word `t` of a round of `key_expand`, and the next `rcon`.
unfoldable pub next_word : Bytes → ℕ → Bytes
next_word rk rcon =
    let t = slice rk (length rk - 4) 4 in
    if bit_and (length rk) 15 == 0
    then bit_xor (at sbox (at t 1)) rcon
      ∷ at sbox (at t 2)
      ∷ at sbox (at t 3)
      ∷ at sbox (at t 0)
      ∷ []
    else t

unfoldable pub next_rcon : Bytes → ℕ → ℕ
next_rcon rk rcon = if bit_and (length rk) 15 == 0 then xtime rcon else rcon

-- `while (bytes < 176)`: `rk` is what is written so far, `bytes` its length; 4 bytes a round.
unfoldable pub key_rounds : ℕ → Bytes → ℕ → Bytes
key_rounds zero rk rcon = rk
key_rounds (suc n) rk rcon =
    key_rounds n (rk ++ xor_each (slice rk (length rk - 16) 4) (next_word rk rcon))
      (next_rcon rk rcon)

-- From 16 to 176 bytes in 40 rounds.
unfoldable pub key_expand : Bytes → Bytes
key_expand key = key_rounds 40 key 1

-- `for (r = 1; r < 10; ++r)`, with `n` rounds left
unfoldable pub middle_rounds : ℕ → ℕ → Bytes → Bytes → Bytes
middle_rounds zero r rk s = s
middle_rounds (suc n) r rk s =
    middle_rounds n (r + 1) rk
      (add_round_key (mix_columns (shift_rows (sub_bytes s))) (drop (16 * r) rk))

unfoldable pub aes_block : Bytes → Bytes → Bytes
aes_block key input =
    let rk = key_expand key in
    let s = middle_rounds 9 1 rk (add_round_key input rk) in
    add_round_key (shift_rows (sub_bytes s)) (drop 160 rk)
