-- ===== src/Crypto/Gcm.antt =====
-- The GCM mode of src/crypto/aes_gcm.cpp. Keys, nonces and tags are lists of 16, 12 and 16 bytes.
pub mod Counter
pub mod Tag
pub mod RoundTrip
mod Tests
use xbox360_tls.Base.{
  ℕ, zero, suc, ◌+◌, ◌-◌, ◌*◌, ◌/◌, ◌^◌, bit_and, bit_or, bit_xor, Bool, not, ◌&&◌, ◌||◌, [], ◌∷◌,
  ◌++◌, ltb, ◌==◌, if◌then◌else◌, length, set, take, drop, replicate,
}
use xbox360_tls.Bytes.{
  Bytes, ByteSpan, MutableByteSpan, size, at, u8, u64, Error, invalid_argument, buffer_too_small,
  verify, Result, ok, err, ◌>>=◌, ◌>>◌, fail_if,
}
use xbox360_tls.Record.{xor_each, seq_bytes}
use xbox360_tls.Crypto.Aes.{aes_block}

-- One bit to the right through the bytes, `carry` coming in from the left.
unfoldable pub shr_bytes : ℕ → Bytes → Bytes
shr_bytes carry [] = []
shr_bytes carry (b ∷ v) = u8 (bit_or (b / 2) (carry * 2 ^ 7)) ∷ shr_bytes (bit_and b 1) v

abbrev pub shr1 : Bytes → Bytes
shr1 = shr_bytes 0

-- `if (lsb) v[0] ^= 0xe1` after the shift
unfoldable pub gf_double : Bytes → Bytes
gf_double v =
    let w = shr1 v in if bit_and (at v 15) 1 == 0 then w else set w 0 (bit_xor (at w 0) 0xe1)

-- `(x[i >> 3] >> (7 - (i & 7))) & 1`
unfoldable pub gf_bit : Bytes → ℕ → ℕ
gf_bit x i = bit_and (at x (i / 2 ^ 3) / 2 ^ (7 - bit_and i 7)) 1

-- The loop of `gfmul` from bit `i`, with `n` bits left.
unfoldable pub gf_loop : ℕ → ℕ → Bytes → Bytes → Bytes → Bytes
gf_loop zero i x z v = z
gf_loop (suc n) i x z v =
    gf_loop n (i + 1) x (if gf_bit x i == 0 then z else xor_each z v) (gf_double v)

unfoldable pub gfmul : Bytes → Bytes → Bytes
gfmul x y = gf_loop 128 0 x (replicate 16 0) y

-- The new `y`.
unfoldable pub ghash_block : Bytes → Bytes → Bytes → Bytes
ghash_block y h b = gfmul (xor_each y b) h

-- `xt_u8 b[16] = {0}; memcpy(b, d.data + off, n)`
unfoldable pub pad_block : Bytes → Bytes
pad_block d = take 16 (d ++ replicate 16 0)

-- `while (off < d.size)`: `d` is what is left. A round takes a byte at least, so the length
-- of the data is fuel enough.
unfoldable pub ghash_loop : ℕ → Bytes → Bytes → Bytes → Bytes
ghash_loop zero y h d = y
ghash_loop (suc n) y h [] = y
ghash_loop (suc n) y h (b ∷ d) =
    ghash_loop n (ghash_block y h (pad_block (b ∷ d))) h (drop 16 (b ∷ d))

unfoldable pub ghash_data : Bytes → Bytes → Bytes → Bytes
ghash_data y h d = ghash_loop (length d) y h d

abbrev pub put_be64 : ℕ → Bytes
put_be64 v = seq_bytes 8 v []

-- `for (i = 15; i >= 12; --i) if (++c[i]) break;` with `n` bytes left
unfoldable pub inc_loop : ℕ → ℕ → Bytes → Bytes
inc_loop zero i c = c
inc_loop (suc n) i c =
    let b = u8 (at c i + 1) in
    let carried = inc_loop n (i - 1) (set c i b) in if b == 0 then carried else set c i b

unfoldable pub inc32 : Bytes → Bytes
inc32 c = inc_loop 4 15 c

-- `while (off < in.size)`: `input` is what is left, and the result what is written for it.
unfoldable pub ctr_loop : ℕ → Bytes → Bytes → Bytes → Bytes
ctr_loop zero key c input = []
ctr_loop (suc n) key c [] = []
ctr_loop (suc n) key c (b ∷ input) =
    xor_each (take 16 (b ∷ input)) (aes_block key (inc32 c))
    ++ ctr_loop n key (inc32 c) (drop 16 (b ∷ input))

unfoldable pub ctr_crypt : Bytes → Bytes → Bytes → Bytes
ctr_crypt key j0 input = ctr_loop (length input) key j0 input

-- `xt_u8 j0[16] = {0}; memcpy(j0, nonce, 12); j0[15] = 1;`
abbrev pub first_counter : Bytes → Bytes
first_counter nonce = take 12 nonce ++ (0 ∷ 0 ∷ 0 ∷ 1 ∷ [])

unfoldable pub auth_tag : Bytes → Bytes → Bytes → Bytes → Bytes
auth_tag key nonce aad ciphertext =
    let zero16 = replicate 16 0 in
    let h = aes_block key zero16 in
    let y = ghash_data (ghash_data zero16 h aad) h ciphertext in
    let lens = put_be64 (u64 (length aad * 8)) ++ put_be64 (u64 (length ciphertext * 8)) in
    xor_each (ghash_block y h lens) (aes_block key (first_counter nonce))

-- `d |= (xt_u8)(a[i] ^ b[i])`
unfoldable pub diff_loop : ℕ → Bytes → Bytes → ℕ
diff_loop d [] b = d
diff_loop d (x ∷ a) [] = d
diff_loop d (x ∷ a) (y ∷ b) = diff_loop (bit_or d (u8 (bit_xor x y))) a b

unfoldable pub tag_equal : Bytes → Bytes → Bool
tag_equal a b = diff_loop 0 a b == 0

-- The ciphertext and the tag. `out` is the place for the ciphertext.
unfoldable pub aes128_gcm_encrypt :
    Bytes → Bytes → ByteSpan → ByteSpan → MutableByteSpan → Result (Bytes × Bytes)
aes128_gcm_encrypt key nonce aad plaintext out = do
  fail_if
      ((not (size plaintext == 0) && plaintext.is_null)
        || (not (size aad == 0) && aad.is_null)
        || (not (out.capacity == 0) && out.is_null))
      invalid_argument
  fail_if (ltb out.capacity (size plaintext)) buffer_too_small
  let ciphertext = ctr_crypt key (first_counter nonce) plaintext.bytes
  ok (ciphertext, auth_tag key nonce aad.bytes ciphertext)

-- The plaintext. A wrong tag is refused before anything is decrypted.
unfoldable pub aes128_gcm_decrypt :
    Bytes → Bytes → ByteSpan → ByteSpan → Bytes → MutableByteSpan → Result Bytes
aes128_gcm_decrypt key nonce aad ciphertext tag out = do
  fail_if
      ((not (size ciphertext == 0) && ciphertext.is_null)
        || (not (size aad == 0) && aad.is_null)
        || (not (out.capacity == 0) && out.is_null))
      invalid_argument
  fail_if (ltb out.capacity (size ciphertext)) buffer_too_small
  fail_if (not (tag_equal (auth_tag key nonce aad.bytes ciphertext.bytes) tag)) verify
  ok (ctr_crypt key (first_counter nonce) ciphertext.bytes)
