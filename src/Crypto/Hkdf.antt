-- ===== src/Crypto/Hkdf.antt =====
-- src/crypto/hkdf.cpp: HMAC-SHA-256 and HKDF. A C string is the list of its characters, without
-- the final zero.
pub mod Sizes
pub mod Expansion
pub mod Single
mod Tests
use xbox360_tls.Base.{
  ℕ, zero, suc, ◌+◌, ◌-◌, ◌*◌, bit_xor, min, not, ◌&&◌, [], ◌∷◌, ◌++◌, map, ltb, ◌==◌,
  if◌then◌else◌, length, take, replicate,
}
use xbox360_tls.Bytes.{
  Bytes, u8, u16, Error, invalid_argument, Result, ok, err, ◌>>=◌, ◌>>◌, fail_if, store_be16,
}
use xbox360_tls.Crypto.Sha256.{fresh, update, final, sha256}

-- `memset(k0, 0, 64)`, then the key or its hash over it
unfoldable pub padded_key : Bytes → Bytes
padded_key key =
    let k = if ltb 64 (length key) then sha256 key else key in k ++ replicate (64 - length k) 0

unfoldable pub hmac_sha256 : Bytes → Bytes → Bytes
hmac_sha256 key input =
    let k0 = padded_key key in
    let ih = final (update (update fresh (map (λ b. bit_xor b 0x36) k0)) input) in
    final (update (update fresh (map (λ b. bit_xor b 0x5c) k0)) ih)

unfoldable pub hkdf_extract_sha256 : Bytes → Bytes → Bytes
hkdf_extract_sha256 salt ikm = hmac_sha256 (if length salt == 0 then replicate 32 0 else salt) ikm

-- `while (pos < out.size)`: `left` bytes are still to write, `t` is the last block (empty before
-- the first) and `ctr` the block counter. A round writes a byte at least, so `out.size` rounds
-- are enough.
unfoldable pub expand_loop : ℕ → Bytes → Bytes → Bytes → ℕ → ℕ → Bytes
expand_loop zero prk info t ctr left = []
expand_loop (suc n) prk info t ctr zero = []
expand_loop (suc n) prk info t ctr (suc left) =
    let t' = hmac_sha256 prk (t ++ info ++ (ctr ∷ [])) in
    take (min (suc left) 32) t'
    ++ expand_loop n prk info t' (u8 (ctr + 1)) (suc left - min (suc left) 32)

-- The `n` bytes written to `out`. The length of `info` is tested in the loop, so not for `n` zero.
unfoldable pub hkdf_expand_sha256 : Bytes → Bytes → ℕ → Result Bytes
hkdf_expand_sha256 prk info n = do
  fail_if (ltb (255 * 32) n) invalid_argument
  fail_if (not (n == 0) && ltb 512 (length info)) invalid_argument
  ok (expand_loop n prk info [] 1 n)

-- "tls13 "
abbrev pub label_prefix : Bytes
label_prefix = 0x74 ∷ 0x6c ∷ 0x73 ∷ 0x31 ∷ 0x33 ∷ 0x20 ∷ []

-- The `HkdfLabel` structure of TLS 1.3 in `info`.
unfoldable pub hkdf_label : Bytes → Bytes → ℕ → Bytes
hkdf_label label context n =
    store_be16 (u16 n)
    ++ (u8 (6 + length label) ∷ (label_prefix ++ label))
    ++ (u8 (length context) ∷ context)

unfoldable pub hkdf_expand_label_sha256 : Bytes → Bytes → Bytes → ℕ → Result Bytes
hkdf_expand_label_sha256 secret label context n = do
  fail_if (ltb 255 (6 + length label)) invalid_argument
  fail_if (ltb 255 (length context)) invalid_argument
  hkdf_expand_sha256 secret (hkdf_label label context n) n
