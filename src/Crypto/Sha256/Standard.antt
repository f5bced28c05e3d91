-- ===== src/Crypto/Sha256/Standard.antt =====
-- The code's compression of a block, and its output, against FIPS 180-4.
use xbox360_tls.Base.{
  ℕ, zero, suc, ◌+◌, ◌-◌, ◌*◌, ◌/◌, ◌%◌, ◌^◌, ◌≡◌, refl, sym, ap, ap₂, ◌∙◌, bit_or, List, [], ◌∷◌,
  ◌++◌, length, drop, replicate, append_assoc, append-nil, arith,
}
use xbox360_tls.Base.Bits.{or_fields}
use xbox360_tls.Bytes.{
  Bytes, AreBytes, AreBytes-append, AreBytes-take, AreBytes-drop, AreBytes-replicate, at, at-lt,
  slice, u8, u64,
}
use xbox360_tls.Record.{seq_bytes}
use xbox360_tls.Crypto.Sha256.{
  rotr, ch, maj, bsig0, bsig1, ssig0, ssig1, block_words, extend_words, Working, round, rounds,
  transform, word_bytes,
}
use xbox360_tls.Crypto.Sha256.Stream.{hash_blocks}
use xbox360_tls.Crypto.Sha256.Fips

word_sum :
    (b : Bytes)
    → AreBytes b
    → bit_or (bit_or (bit_or (at b 0 * 2 ^ 24) (at b 1 * 2 ^ 16)) (at b 2 * 2 ^ 8)) (at b 3)
      ≡ ((at b 0 * 256 + at b 1) * 256 + at b 2) * 256 + at b 3
word_sum b h =
    ap (λ x. bit_or (bit_or x (at b 2 * 2 ^ 8)) (at b 3))
      (or_fields 24 (at b 0) (at b 1 * 2 ^ 16) (omega (arith, at-lt b 1 h)) ∙ two)
    ∙ ap (λ x. bit_or x (at b 3))
        (or_fields 16 (at b 0 * 256 + at b 1) (at b 2 * 2 ^ 8) (omega (arith, at-lt b 2 h)) ∙ three)
    ∙ or_fields 8 ((at b 0 * 256 + at b 1) * 256 + at b 2) (at b 3) (at-lt b 3 h)
  where
    two : at b 0 * 2 ^ 24 + at b 1 * 2 ^ 16 ≡ (at b 0 * 256 + at b 1) * 2 ^ 16
    two = omega arith

    three :
        (at b 0 * 256 + at b 1) * 2 ^ 16 + at b 2 * 2 ^ 8
        ≡ ((at b 0 * 256 + at b 1) * 256 + at b 2) * 2 ^ 8
    three = omega arith

block_words-words : (n : ℕ) (b : Bytes) → AreBytes b → block_words n b ≡ Fips.words n b
unfolding block_words
block_words-words zero b h = refl
block_words-words (suc n) b h =
    ap₂ (λ w ws. w ∷ ws) (word_sum b h) (block_words-words n (drop 4 b) (AreBytes-drop 4 b h))

extend_words-schedule : (n : ℕ) (w : List ℕ) → extend_words n w ≡ Fips.schedule n w
unfolding extend_words ssig0 ssig1 rotr
extend_words-schedule zero w = refl
extend_words-schedule (suc n) w = extend_words-schedule n _

round-step : (k w : ℕ) (s : Working) → round k w s ≡ Fips.step k w s
unfolding round bsig0 bsig1 ch maj rotr
round-step k w s = refl

rounds-steps : (ks ws : List ℕ) (s : Working) → rounds ks ws s ≡ Fips.steps ks ws s
unfolding rounds
rounds-steps [] ws s = refl
rounds-steps (k ∷ ks) [] s = refl
rounds-steps (k ∷ ks) (w ∷ ws) s =
    ap (rounds ks ws) (round-step k w s) ∙ rounds-steps ks ws (Fips.step k w s)

transform-compress :
    (st : List ℕ) (block : Bytes) → AreBytes block → transform st block ≡ Fips.compress st block
unfolding transform
transform-compress st block h = ap (Fips.sum (Fips.working st)) (
    ap (λ ws. rounds Fips.constants ws (Fips.working st))
      (ap (extend_words 48) (block_words-words 16 block h)
        ∙ extend_words-schedule 48 (Fips.words 16 block))
    ∙ rounds-steps Fips.constants (Fips.schedule 48 (Fips.words 16 block)) (Fips.working st))

pub hash_blocks-chain :
    (n : ℕ) (st : List ℕ) (m : Bytes) → AreBytes m → hash_blocks n st m ≡ Fips.chain n st m
unfolding hash_blocks
hash_blocks-chain zero st m h = refl
hash_blocks-chain (suc n) st m h =
    ap (λ st. transform st (slice m (64 * n) 64)) (hash_blocks-chain n st m h)
    ∙ transform-compress (Fips.chain n st m) (slice m (64 * n) 64)
        (AreBytes-take 64 _ (AreBytes-drop (64 * n) m h))

seq_bytes-be_bytes : (n v : ℕ) (s : Bytes) → seq_bytes n v s ≡ Fips.be_bytes n v ++ s
unfolding seq_bytes
seq_bytes-be_bytes zero v s = refl
seq_bytes-be_bytes (suc n) v s =
    seq_bytes-be_bytes n (v / 256) (u8 v ∷ s)
    ∙ sym (append_assoc (Fips.be_bytes n (v / 256)) (v % 256 ∷ []) s)

pub word_bytes-output : (ws : List ℕ) → word_bytes ws ≡ Fips.output ws
unfolding word_bytes
word_bytes-output [] = refl
word_bytes-output (w ∷ ws) =
    let first : u8 (w / 2 ^ 24) ≡ w / 256 / 256 / 256 % 256 = omega arith in
    let second : u8 (w / 2 ^ 16) ≡ w / 256 / 256 % 256 = omega arith in
    rw (first, second, word_bytes-output ws) refl

be_bytes-AreBytes : (n v : ℕ) → AreBytes (Fips.be_bytes n v)
be_bytes-AreBytes zero v = tt
be_bytes-AreBytes (suc n) v =
    AreBytes-append (Fips.be_bytes n (v / 256)) (v % 256 ∷ []) (be_bytes-AreBytes n (v / 256))
      (omega arith, tt)

pub pad-AreBytes : (m : Bytes) → AreBytes m → AreBytes (Fips.pad m)
pad-AreBytes m h = AreBytes-append m _ h (
  omega arith,
  AreBytes-append (replicate ((119 - length m % 64) % 64) 0) _
      (AreBytes-replicate _ 0 (omega arith)) (be_bytes-AreBytes 8 (length m * 8 % 2 ^ 64)),
)

-- The code's count of bits is that of the standard.
pub length_bytes : (n : ℕ) → seq_bytes 8 (u64 (n * 8)) [] ≡ Fips.be_bytes 8 (n * 8 % 2 ^ 64)
length_bytes n =
    seq_bytes-be_bytes 8 (u64 (n * 8)) [] ∙ append-nil (Fips.be_bytes 8 (n * 8 % 2 ^ 64))
