-- ===== src/Crypto/Sha256/Tests.antt =====
-- The vector of FIPS 180-4 for "abc", whole and in pieces.
use xbox360_tls.Base.{
  ℕ, zero, suc, ◌+◌, ◌*◌, ◌^◌, Bool, true, false, not, ◌&&◌, ltb, if◌then◌else◌, ◌≡◌, refl, List,
  [], ◌∷◌, arith,
}
use xbox360_tls.Record.{seq_bytes}
use xbox360_tls.Crypto.Sha256.{
  rotr, ch, maj, bsig0, bsig1, ssig0, ssig1, block_words, extend_words, round, rounds, transform,
  flush, update_loop, update, word_bytes, final, sha256, fresh,
}
use xbox360_tls.Crypto.Sha256.Stream.{update_all, final-update_all}
use xbox360_tls.Crypto.Sha256.Fips
use xbox360_tls.Crypto.Sha256.Padding.{sha256_lem}

abc :
    sha256 (b'a' ∷ b'b' ∷ b'c' ∷ [])
    ≡ 0xba ∷ 0x78 ∷ 0x16 ∷ 0xbf ∷ 0x8f ∷ 0x01 ∷ 0xcf ∷ 0xea ∷ 0x41 ∷ 0x41 ∷ 0x40 ∷ 0xde ∷ 0x5d
      ∷ 0xae ∷ 0x22 ∷ 0x23 ∷ 0xb0 ∷ 0x03 ∷ 0x61 ∷ 0xa3 ∷ 0x96 ∷ 0x17 ∷ 0x7a ∷ 0x9c ∷ 0xb4 ∷ 0x10
      ∷ 0xff ∷ 0x61 ∷ 0xf2 ∷ 0x00 ∷ 0x15 ∷ 0xad ∷ []
unfolding sha256 rotr ch maj bsig0 bsig1 ssig0 ssig1 block_words extend_words round rounds transform
    flush update_loop update word_bytes final seq_bytes
abc = refl

sha256_lem_example : sha256 (b'a' ∷ b'b' ∷ b'c' ∷ []) ≡ Fips.digest (b'a' ∷ b'b' ∷ b'c' ∷ [])
sha256_lem_example =
    sha256_lem (b'a' ∷ b'b' ∷ b'c' ∷ []) (omega arith, (omega arith, (omega arith, tt)))

-- The constants are the first 32 bits of the fractional parts of the cube roots of the first 64 primes,
-- and the initial value is that of the square roots of the first eight.
abbrev primes : List ℕ
primes =
    2 ∷ 3 ∷ 5 ∷ 7 ∷ 11 ∷ 13 ∷ 17 ∷ 19 ∷ 23 ∷ 29 ∷ 31 ∷ 37 ∷ 41 ∷ 43 ∷ 47 ∷ 53 ∷ 59 ∷ 61 ∷ 67 ∷ 71
    ∷ 73 ∷ 79 ∷ 83 ∷ 89 ∷ 97 ∷ 101 ∷ 103 ∷ 107 ∷ 109 ∷ 113 ∷ 127 ∷ 131 ∷ 137 ∷ 139 ∷ 149 ∷ 151 ∷ 157
    ∷ 163 ∷ 167 ∷ 173 ∷ 179 ∷ 181 ∷ 191 ∷ 193 ∷ 197 ∷ 199 ∷ 211 ∷ 223 ∷ 227 ∷ 229 ∷ 233 ∷ 239 ∷ 241
    ∷ 251 ∷ 257 ∷ 263 ∷ 269 ∷ 271 ∷ 277 ∷ 281 ∷ 283 ∷ 293 ∷ 307 ∷ 311 ∷ []

-- The first number up to `fuel` whose next has a power `k` above `n`.
abbrev root : ℕ → ℕ → ℕ → ℕ → ℕ
root k n zero i = i
root k n (suc fuel) i = let next = root k n fuel (i + 1) in if ltb n ((i + 1) ^ k) then i else next

abbrev fractions : ℕ → List ℕ → List ℕ → Bool
fractions k [] ps = true
fractions k (c ∷ cs) [] = false
fractions k (c ∷ cs) (p ∷ ps) =
    let r = root k p 20 1 * 2 ^ 32 + c in
    not (ltb (p * (2 ^ 32) ^ k) (r ^ k))
    && ltb (p * (2 ^ 32) ^ k) ((r + 1) ^ k)
    && fractions k cs ps

constants_of_primes : fractions 3 Fips.constants primes ≡ true
constants_of_primes = refl

initial_of_primes : fractions 2 Fips.initial primes ≡ true
initial_of_primes = refl

final-update_all_example :
    final (update_all fresh ((b'a' ∷ []) ∷ (b'b' ∷ b'c' ∷ []) ∷ []))
    ≡ sha256 (b'a' ∷ b'b' ∷ b'c' ∷ [])
final-update_all_example = final-update_all ((b'a' ∷ []) ∷ (b'b' ∷ b'c' ∷ []) ∷ [])
