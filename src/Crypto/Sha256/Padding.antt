-- ===== src/Crypto/Sha256/Padding.antt =====
-- The hash against FIPS 180-4: the buffered code pads the message as the standard does.
use xbox360_tls.Base.{
  ℕ, suc, ◌+◌, ◌-◌, ◌*◌, ◌/◌, ◌%◌, ◌≤◌, ◌<◌, ◌≡◌, sym, ap, ap₂, ◌∙◌, inl, inr, Bool-cases, List, [],
  ◌∷◌, ◌++◌, ltb, ltb→lt, ltb→le, length, take, replicate, length-append, length-replicate,
  replicate-add, take_all, drop-append, drop-append_le, append_assoc, arith,
}
use xbox360_tls.Bytes.{Bytes, AreBytes, u64}
use xbox360_tls.Record.{seq_bytes}
use xbox360_tls.Record.Nonce.{length-seq_bytes}
use xbox360_tls.Crypto.Sha256.{Sha256, initial_state, transform, word_bytes, final, fill, sha256}
use xbox360_tls.Crypto.Sha256.Fips
use xbox360_tls.Crypto.Sha256.Standard.{
  hash_blocks-chain, word_bytes-output, pad-AreBytes, length_bytes,
}
use xbox360_tls.Crypto.Sha256.Stream.{
  hash_blocks, hash_blocks-append, Hashed, Hashed-fresh, Hashed-update,
}

-- The last eight bytes: the count of bits of `n` bytes.
abbrev length_field : ℕ → Bytes
length_field n = seq_bytes 8 (u64 (n * 8)) []

abbrev marked : Bytes → Bytes
marked b = b ++ (0x80 ∷ [])

-- A one bit, zeros, and the 64-bit count of bits, up to a whole number of blocks.
abbrev pub padding : ℕ → Bytes
padding n = 0x80 ∷ (replicate ((119 - n % 64) % 64) 0 ++ seq_bytes 8 (u64 (n * 8)) [])

abbrev pub pad : Bytes → Bytes
pad m = m ++ padding (length m)

length-zeros : (n : ℕ) → length (replicate {A = ℕ} n 0) ≡ n
length-zeros n = length-replicate n 0

length-padding : (n : ℕ) → length (padding n) ≡ 9 + (119 - n % 64) % 64
length-padding n = omega (
  arith,
  length-append (replicate ((119 - n % 64) % 64) 0) (seq_bytes 8 (u64 (n * 8)) []),
  length-zeros ((119 - n % 64) % 64),
  length-seq_bytes 8 (u64 (n * 8)) [],
)

pub length-pad : (m : Bytes) → length (pad m) ≡ 64 * ((length m + 72) / 64)
length-pad m = omega (arith, length-append m (padding (length m)), length-padding (length m))

-- A block behind whole blocks.
next_block :
    (n : ℕ) (st : List ℕ) (front back : Bytes)
    → length front ≡ 64 * n
    → length back ≡ 64
    → hash_blocks (suc n) st (front ++ back) ≡ transform (hash_blocks n st front) back
unfolding hash_blocks
next_block n st front back h k =
    ap₂ transform (hash_blocks-append n st front back (omega arith))
      (ap (take 64) (drop-append (64 * n) front back (sym h)) ∙ take_all 64 back (omega arith))

marked-zeros :
    (b field : Bytes) (k n : ℕ)
    → k ≡ n
    → b ++ (0x80 ∷ (replicate k 0 ++ field)) ≡ marked b ++ replicate n 0 ++ field
marked-zeros b field k n e = rw e (simp append_assoc)

module _ {s : Sha256} {m : Bytes} (r : Hashed s m) where
  open r use {absorbed, counted}
  open absorbed use {blocks, sized, short, states, waits}

  -- Bytes that fill the buffer.
  filled :
      (q : Bytes)
      → length s.buffer + length q ≡ 64
      → hash_blocks (suc blocks) initial_state (m ++ q) ≡ transform s.state (s.buffer ++ q)
  unfolding hash_blocks
  filled q h =
      ap₂ transform
        (hash_blocks-append blocks initial_state m q (omega (arith, sized)) ∙ sym states)
        (ap (take 64)
            (drop-append_le (64 * blocks) m q (omega (arith, sized)) ∙ ap (λ t. t ++ q) (sym waits))
          ∙ take_all 64 (s.buffer ++ q) (omega (arith, length-append s.buffer q)))

  bits-counted : u64 (s.total_bytes * 8) ≡ u64 (length m * 8)
  bits-counted = omega (arith, counted)

  -- The padding fits the buffer.
  one_block :
      length s.buffer < 56
      → hash_blocks ((length m + 72) / 64) initial_state (pad m)
        ≡ transform s.state (fill 56 (marked s.buffer) ++ length_field (length m))
  one_block h =
      rw (count, filled (padding (length m)) (omega (arith, sized, length-padding (length m))))
        (ap (transform s.state) (
          marked-zeros s.buffer (length_field (length m)) _ _
            (omega (arith, sized, length-append s.buffer (0x80 ∷ [])))))
    where
      count : (length m + 72) / 64 ≡ suc blocks
      count = omega (arith, sized)

  -- The padding fills the buffer and a block behind it.
  two_blocks :
      56 ≤ length s.buffer
      → hash_blocks ((length m + 72) / 64) initial_state (pad m)
        ≡ transform
            (transform s.state (fill 64 (marked s.buffer)))
            (replicate 56 0 ++ length_field (length m))
  two_blocks h =
      ap₂ (λ n t. hash_blocks n initial_state t) count split
      ∙ next_block (suc blocks) initial_state (m ++ first) (replicate 56 0 ++ field)
          (omega (arith, sized, length-append m first, length-zeros left))
          (omega (arith, length-append (replicate 56 0) field, length-seq_bytes 8 _ []))
      ∙ ap (λ st. transform st (replicate 56 0 ++ field))
          (filled first (omega (arith, length-zeros left))
            ∙ ap (transform s.state)
                (sym (append_assoc s.buffer (0x80 ∷ []) (replicate left 0)) ∙ shown))
    where
      left : ℕ
      left = 63 - length s.buffer

      field : Bytes
      field = length_field (length m)

      first : Bytes
      first = 0x80 ∷ replicate left 0

      count : (length m + 72) / 64 ≡ suc (suc blocks)
      count = omega (arith, sized)

      zeros : (119 - length m % 64) % 64 ≡ left + 56
      zeros = omega (arith, sized)

      split : pad m ≡ (m ++ first) ++ (replicate 56 0 ++ field)
      split = rw (zeros, replicate-add {A = ℕ} left 56 0) (simp append_assoc)

      shown : marked s.buffer ++ replicate left 0 ≡ fill 64 (marked s.buffer)
      shown =
          let e : left ≡ 64 - length (marked s.buffer) =
            omega (arith, length-append s.buffer (0x80 ∷ [])) in
          ap (λ n. marked s.buffer ++ replicate n 0) e

  pub final-Hashed : final s ≡ word_bytes (hash_blocks ((length m + 72) / 64) initial_state (pad m))
  unfolding final
  final-Hashed = elim (Bool-cases (ltb 56 (length (marked s.buffer)))) [
    | inl long ↦
        rw (long, bits-counted)
          (ap word_bytes
            (sym (two_blocks (omega (arith, ltb→lt _ _ long, length-append s.buffer (0x80 ∷ []))))))
    | inr room ↦
        rw (room, bits-counted)
          (ap word_bytes
            (sym (one_block (omega (arith, ltb→le _ _ room, length-append s.buffer (0x80 ∷ []))))))
  ]

pad-Fips : (m : Bytes) → pad m ≡ Fips.pad m
pad-Fips m =
    ap (λ z. m ++ (0x80 ∷ (replicate ((119 - length m % 64) % 64) 0 ++ z)))
      (length_bytes (length m))

-- For a message of bytes, `sha256` is the hash that FIPS 180-4 defines: the message is padded, each
-- 64-byte block is compressed in turn with the standard's functions, constants and initial value,
-- and the words of the last value are written out.
pub sha256_lem : (m : Bytes) → AreBytes m → sha256 m ≡ Fips.digest m
unfolding sha256
sha256_lem m h =
    let count : (length m + 72) / 64 ≡ length (Fips.pad m) / 64 =
      omega (arith, length-pad m, ap length (pad-Fips m)) in
    final-Hashed (Hashed-update m Hashed-fresh)
    ∙ ap₂ (λ n p. word_bytes (hash_blocks n initial_state p)) count (pad-Fips m)
    ∙ ap word_bytes
        (hash_blocks-chain (length (Fips.pad m) / 64) initial_state (Fips.pad m) (pad-AreBytes m h))
    ∙ word_bytes-output (Fips.chain (length (Fips.pad m) / 64) Fips.initial (Fips.pad m))
