-- ===== src/Crypto/Hkdf/Expansion.antt =====
-- `hkdf_expand_sha256` against RFC 5869: T(1) | T(2) | ..., cut to the length asked for.
use xbox360_tls.Base.{
  ℕ, zero, suc, ◌+◌, ◌-◌, ◌*◌, ◌≤◌, ◌≡◌, refl, sym, ap, ap₂, ◌∙◌, min, [], ◌∷◌, ◌++◌, length, take,
  take-append_split, take-min, le→ltb, arith,
}
use xbox360_tls.Bytes.{Bytes, u8, ok}
use xbox360_tls.Crypto.Hkdf.{hmac_sha256, expand_loop, hkdf_expand_sha256}
use xbox360_tls.Crypto.Hkdf.Sizes.{length-hmac_sha256}

-- T(i) of the RFC, with T(0) empty.
pub block_t : Bytes → Bytes → ℕ → Bytes
block_t prk info zero = []
block_t prk info (suc i) = hmac_sha256 prk (block_t prk info i ++ info ++ (suc i ∷ []))

-- T(i + 1) | ... | T(i + n)
pub blocks_from : Bytes → Bytes → ℕ → ℕ → Bytes
blocks_from prk info i zero = []
blocks_from prk info i (suc n) = block_t prk info (suc i) ++ blocks_from prk info (suc i) n

expand_loop_done :
    (fuel : ℕ) (prk info t : Bytes) (ctr left : ℕ)
    → left ≡ 0
    → expand_loop fuel prk info t ctr left ≡ []
unfolding expand_loop
expand_loop_done zero prk info t ctr left e = refl
expand_loop_done (suc fuel) prk info t ctr zero e = refl
expand_loop_done (suc fuel) prk info t ctr (suc left) e = absurd (omega arith)

-- The first block in front of what follows it.
first_block :
    (prk info : Bytes) (i n left : ℕ)
    → take (suc left) (blocks_from prk info i (suc n))
      ≡ take (min (suc left) 32) (block_t prk info (suc i))
        ++ take (suc left - min (suc left) 32) (blocks_from prk info (suc i) n)
unfolding blocks_from
first_block prk info i n left =
    take-append_split (suc left) (block_t prk info (suc i)) (blocks_from prk info (suc i) n)
    ∙ ap₂ ◌++◌ (sym (take-min (suc left) 32 (block_t prk info (suc i)) (omega (arith, sized))))
        (ap (λ k. take k (blocks_from prk info (suc i) n)) (omega (arith, sized)))
  where
    sized : length (block_t prk info (suc i)) ≡ 32
    sized = unfold block_t in length-hmac_sha256 prk (block_t prk info i ++ info ++ (suc i ∷ []))

-- The loop at block `i + 1`. The counter byte wraps only when nothing is left to write.
expand_loop-blocks_from :
    (fuel : ℕ) (prk info : Bytes) (i n left : ℕ)
    → left ≤ fuel
    → left ≤ 32 * n
    → i + n ≤ 255
    → expand_loop fuel prk info (block_t prk info i) (suc i) left
      ≡ take left (blocks_from prk info i n)
unfolding expand_loop block_t
expand_loop-blocks_from zero prk info i n zero h k l = refl
expand_loop-blocks_from zero prk info i n (suc left) h k l = absurd (omega arith)
expand_loop-blocks_from (suc fuel) prk info i n zero h k l = refl
expand_loop-blocks_from (suc fuel) prk info i zero (suc left) h k l = absurd (omega arith)
expand_loop-blocks_from (suc fuel) prk info i (suc zero) (suc left) h k l =
    ap (λ t. take (min (suc left) 32) (block_t prk info (suc i)) ++ t)
      (expand_loop_done fuel prk info _ _ _ none
        ∙ sym (ap (λ k. take k (blocks_from prk info (suc i) 0)) none))
    ∙ sym (first_block prk info i 0 left)
  where
    none : suc left - min (suc left) 32 ≡ 0
    none = omega arith
expand_loop-blocks_from (suc fuel) prk info i (suc (suc n)) (suc left) h k l =
    ap (λ t. take (min (suc left) 32) (block_t prk info (suc i)) ++ t)
      (ap
          (λ c.
            expand_loop fuel prk info (block_t prk info (suc i)) c (suc left - min (suc left) 32))
          next
        ∙ expand_loop-blocks_from fuel prk info (suc i) (suc n) (suc left - min (suc left) 32)
            (omega arith) (omega arith) (omega arith))
    ∙ sym (first_block prk info i (suc n) left)
  where
    next : u8 (suc i + 1) ≡ suc (suc i)
    next = omega arith

-- For at most 255 blocks and an `info` of at most 512 bytes, the bytes written are the first ones
-- of the RFC's T(1) | T(2) | ... | T(255).
pub hkdf_expand_sha256_lem :
    (prk info : Bytes) (n : ℕ)
    → n ≤ 8160
    → length info ≤ 512
    → hkdf_expand_sha256 prk info n ≡ ok (take n (blocks_from prk info 0 255))
unfolding hkdf_expand_sha256 block_t
hkdf_expand_sha256_lem prk info n h k =
    rw (le→ltb (255 * 32) n (omega arith), le→ltb 512 (length info) k) (ground (arith, expand))
  where
    expand : expand_loop n prk info [] 1 n ≡ take n (blocks_from prk info 0 255)
    expand = expand_loop-blocks_from n prk info 0 255 n (omega arith) (omega arith) (omega arith)
