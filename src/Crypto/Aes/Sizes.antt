-- ===== src/Crypto/Aes/Sizes.antt =====
-- The cipher gives 16 bytes for a key of 16 bytes, whatever the block.
use xbox360_tls.Base.{
  ℕ, zero, suc, ◌+◌, ◌-◌, ◌*◌, ◌<◌, ◌≤◌, ◌≡◌, refl, [], ◌∷◌, ◌++◌, ◌==◌, length, take, drop,
  length-append, length-take, length-drop, bit_and, Bool-cases, inl, inr, arith,
}
use xbox360_tls.Base.Bits.{xor_lt}
use xbox360_tls.Bytes.{
  Bytes, AreBytes, AreBytes-append, AreBytes-take, AreBytes-drop, at, at-lt, slice,
}
use xbox360_tls.Record.Masks.{length-xor_each, xor_each-AreBytes}
use xbox360_tls.Record.{xor_each}
use xbox360_tls.Crypto.Aes.{
  sbox, xtime, sub_bytes, shift_rows, next_word, next_rcon, key_rounds, key_expand, middle_rounds,
  aes_block, add_round_key,
}

length-slice_four : (p : Bytes) (off : ℕ) → off + 4 ≤ length p → length (slice p off 4) ≡ 4
length-slice_four p off h = omega (arith, length-take 4 (drop off p), length-drop off p)

length-next_word : (rk : Bytes) (rcon : ℕ) → 16 ≤ length rk → length (next_word rk rcon) ≡ 4
unfolding next_word
length-next_word rk rcon h = elim (Bool-cases (bit_and (length rk) 15 == 0)) [
  | inl e ↦ rw e refl
  | inr e ↦ rw e (length-slice_four rk (length rk - 4) (omega arith))
]

length-key_rounds :
    (n : ℕ) (rk : Bytes) (rcon : ℕ)
    → 16 ≤ length rk
    → length (key_rounds n rk rcon) ≡ length rk + 4 * n
unfolding key_rounds
length-key_rounds zero rk rcon h = omega arith
length-key_rounds (suc n) rk rcon h =
    omega
      (arith, grown, length-key_rounds n (rk ++ word) (next_rcon rk rcon) (omega (arith, grown)))
  where
    old : Bytes
    old = slice rk (length rk - 16) 4

    word : Bytes
    word = xor_each old (next_word rk rcon)

    grown : length (rk ++ word) ≡ length rk + 4
    grown = omega (
      arith,
      length-append rk word,
      length-xor_each old (next_word rk rcon),
      length-slice_four rk (length rk - 16) (omega arith),
      length-next_word rk rcon h,
    )

pub length-key_expand : (key : Bytes) → length key ≡ 16 → length (key_expand key) ≡ 176
unfolding key_expand
length-key_expand key h = omega (arith, length-key_rounds 40 key 1 (omega arith))

length-shift_rows : (t : Bytes) → length (shift_rows t) ≡ 16
unfolding shift_rows
length-shift_rows t = refl

pub length-aes_block : (key input : Bytes) → length key ≡ 16 → length (aes_block key input) ≡ 16
unfolding aes_block
length-aes_block key input h = omega (
  arith,
  length-xor_each (shift_rows (sub_bytes rounds)) (take 16 (drop 160 (key_expand key))),
  length-take 16 (drop 160 (key_expand key)),
  length-drop 160 (key_expand key),
  length-key_expand key h,
  length-shift_rows (sub_bytes rounds),
)
  where
    rounds : Bytes
    rounds = middle_rounds 9 1 (key_expand key) (add_round_key input (key_expand key))

-- Every table entry is a byte, and so is what the cipher makes of bytes.
sbox-AreBytes : AreBytes sbox
sbox-AreBytes = omega arith

sub_bytes-AreBytes : (s : Bytes) → AreBytes (sub_bytes s)
unfolding sub_bytes
sub_bytes-AreBytes [] = tt
sub_bytes-AreBytes (b ∷ s) = (at-lt sbox b sbox-AreBytes, sub_bytes-AreBytes s)

shift_rows-AreBytes : (t : Bytes) → AreBytes t → AreBytes (shift_rows t)
unfolding shift_rows
shift_rows-AreBytes t h = (
  at-lt t 0 h,
  (
    at-lt t 5 h,
    (
      at-lt t 10 h,
      (
        at-lt t 15 h,
        (
          at-lt t 4 h,
          (
            at-lt t 9 h,
            (
              at-lt t 14 h,
              (
                at-lt t 3 h,
                (
                  at-lt t 8 h,
                  (
                    at-lt t 13 h,
                    (
                      at-lt t 2 h,
                      (
                        at-lt t 7 h,
                        (at-lt t 12 h, (at-lt t 1 h, (at-lt t 6 h, (at-lt t 11 h, tt)))),
                      ),
                    ),
                  ),
                ),
              ),
            ),
          ),
        ),
      ),
    ),
  ),
)

rcon-IsByte : (rk : Bytes) (rcon : ℕ) → rcon < 256 → next_rcon rk rcon < 256
unfolding next_rcon xtime
rcon-IsByte rk rcon h = ground arith

next_word-AreBytes :
    (rk : Bytes) (rcon : ℕ) → AreBytes rk → rcon < 256 → AreBytes (next_word rk rcon)
unfolding next_word
next_word-AreBytes rk rcon h k = elim (Bool-cases (bit_and (length rk) 15 == 0)) [
  | inl e ↦ rw e (xor_lt 8 _ rcon (entry 1) k, (entry 2, (entry 3, (entry 0, tt))))
  | inr e ↦ rw e (AreBytes-take 4 _ (AreBytes-drop (length rk - 4) rk h))
]
  where
    entry : (i : ℕ) → at sbox (at (slice rk (length rk - 4) 4) i) < 256
    entry i = at-lt sbox (at (slice rk (length rk - 4) 4) i) sbox-AreBytes

key_rounds-AreBytes :
    (n : ℕ) (rk : Bytes) (rcon : ℕ) → AreBytes rk → rcon < 256 → AreBytes (key_rounds n rk rcon)
unfolding key_rounds
key_rounds-AreBytes zero rk rcon h k = h
key_rounds-AreBytes (suc n) rk rcon h k =
    key_rounds-AreBytes n _ (next_rcon rk rcon)
      (AreBytes-append rk _ h (
        xor_each-AreBytes _ _ (AreBytes-take 4 _ (AreBytes-drop (length rk - 16) rk h))
          (next_word-AreBytes rk rcon h k)))
      (rcon-IsByte rk rcon k)

pub aes_block-AreBytes : (key input : Bytes) → AreBytes key → AreBytes (aes_block key input)
unfolding aes_block
aes_block-AreBytes key input h =
    xor_each-AreBytes _ _ (shift_rows-AreBytes (sub_bytes rounds) (sub_bytes-AreBytes rounds))
      (AreBytes-take 16 _ (AreBytes-drop 160 _ expanded))
  where
    rounds : Bytes
    rounds = middle_rounds 9 1 (key_expand key) (add_round_key input (key_expand key))

    expanded : AreBytes (key_expand key)
    expanded = unfold key_expand in key_rounds-AreBytes 40 key 1 h (omega arith)
