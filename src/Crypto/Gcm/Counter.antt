-- ===== src/Crypto/Gcm/Counter.antt =====
-- Counter mode: the keystream does not depend on the data, so it undoes itself.
use native.Mathlib.Nat.{le_refl}
use xbox360_tls.Base.{
  ℕ, zero, suc, ◌≤◌, ◌<◌, ◌≡◌, refl, sym, ap, ap₂, ◌∙◌, ◌⊎◌, inl, inr, Bool-cases, [], ◌∷◌, ◌++◌,
  ltb, ltb→lt, ltb→le, length, take, drop, take-append, drop-append, take-append-drop, take_all,
  drop_all, append-nil, length-append, length-take, length-drop, arith,
}
use xbox360_tls.Bytes.{Bytes, AreBytes, AreBytes-append, AreBytes-take, AreBytes-drop}
use xbox360_tls.Record.Masks.{length-xor_each, xor_each_twice, xor_each-AreBytes}
use xbox360_tls.Record.{xor_each}
use xbox360_tls.Crypto.Aes.Sizes.{length-aes_block, aes_block-AreBytes}
use xbox360_tls.Crypto.Aes.{aes_block}
use xbox360_tls.Crypto.Gcm.{inc32, ctr_loop, ctr_crypt}

-- Any fuel that reaches the end of the data gives the same result.
pub ctr_loop_fuel :
    (n m : ℕ) (key c input : Bytes)
    → length input ≤ n
    → length input ≤ m
    → ctr_loop n key c input ≡ ctr_loop m key c input
unfolding ctr_loop
ctr_loop_fuel zero zero key c [] h k = refl
ctr_loop_fuel zero (suc m) key c [] h k = refl
ctr_loop_fuel (suc n) zero key c [] h k = refl
ctr_loop_fuel (suc n) (suc m) key c [] h k = refl
ctr_loop_fuel zero m key c (b ∷ input) h k = absurd (omega arith)
ctr_loop_fuel (suc n) zero key c (b ∷ input) h k = absurd (omega arith)
ctr_loop_fuel (suc n) (suc m) key c (b ∷ input) h k =
    ap (λ t. xor_each (take 16 (b ∷ input)) (aes_block key (inc32 c)) ++ t)
      (ctr_loop_fuel n m key (inc32 c) (drop 16 (b ∷ input))
        (omega (arith, length-drop 16 (b ∷ input))) (omega (arith, length-drop 16 (b ∷ input))))

module _ (key : Bytes) (h : length key ≡ 16) where
  length-block :
      (c input : Bytes)
      → length (xor_each (take 16 input) (aes_block key c)) ≡ length (take 16 input)
  length-block c input = omega (
    arith,
    length-xor_each (take 16 input) (aes_block key c),
    length-aes_block key c h,
    length-take 16 input,
  )

  length-ctr_loop :
      (n : ℕ) (c input : Bytes) → length input ≤ n → length (ctr_loop n key c input) ≡ length input
  unfolding ctr_loop
  length-ctr_loop zero c [] k = refl
  length-ctr_loop zero c (b ∷ input) k = absurd (omega arith)
  length-ctr_loop (suc n) c [] k = refl
  length-ctr_loop (suc n) c (b ∷ input) k = omega (
    arith,
    length-append (xor_each (take 16 (b ∷ input)) (aes_block key (inc32 c)))
        (ctr_loop n key (inc32 c) (drop 16 (b ∷ input))),
    length-block (inc32 c) (b ∷ input),
    length-take 16 (b ∷ input),
    length-drop 16 (b ∷ input),
    length-ctr_loop n (inc32 c) (drop 16 (b ∷ input)) (omega (arith, length-drop 16 (b ∷ input))),
  )

  -- The first block of a text made of a masked block and the rest.
  ctr_loop-cons :
      (n : ℕ) (c block rest : Bytes)
      → 0 < length block
      → (length block ≡ 16) ⊎ ((length block < 16) × (rest ≡ []))
      → ctr_loop (suc n) key c (block ++ rest)
        ≡ xor_each block (aes_block key (inc32 c)) ++ ctr_loop n key (inc32 c) rest
  unfolding ctr_loop
  ctr_loop-cons n c [] rest p s = absurd (omega arith)
  ctr_loop-cons n c (x ∷ block) rest p (inl full) =
      ap₂ (λ u v. xor_each u (aes_block key (inc32 c)) ++ ctr_loop n key (inc32 c) v)
        (take-append 16 (x ∷ block) rest (sym full)) (drop-append 16 (x ∷ block) rest (sym full))
  ctr_loop-cons n c (x ∷ block) rest p (inr (short, e)) =
      rw (e, append-nil)
        (ap₂ (λ u v. xor_each u (aes_block key (inc32 c)) ++ ctr_loop n key (inc32 c) v)
          (take_all 16 (x ∷ block) (omega arith)) (drop_all 16 (x ∷ block) (omega arith)))

  ctr_loop_nil : (n : ℕ) (c : Bytes) → ctr_loop n key c [] ≡ []
  unfolding ctr_loop
  ctr_loop_nil zero c = refl
  ctr_loop_nil (suc n) c = refl

  ctr_loop_step :
      (n : ℕ) (c : Bytes) (b : ℕ) (input : Bytes)
      → ctr_loop (suc n) key c (b ∷ input)
        ≡ xor_each (take 16 (b ∷ input)) (aes_block key (inc32 c))
          ++ ctr_loop n key (inc32 c) (drop 16 (b ∷ input))
  unfolding ctr_loop
  ctr_loop_step n c b input = refl

  ctr_loop_twice :
      (n : ℕ) (c input : Bytes)
      → length input ≤ n
      → ctr_loop n key c (ctr_loop n key c input) ≡ input
  ctr_loop_twice n c [] k = rw (ctr_loop_nil n c, ctr_loop_nil n c)
  ctr_loop_twice zero c (b ∷ input) k = absurd (omega arith)
  ctr_loop_twice (suc n) c (b ∷ input) k =
      ap (ctr_loop (suc n) key c) (ctr_loop_step n c b input)
      ∙ ctr_loop-cons n c masked after (omega (arith, length-block (inc32 c) p, length-take 16 p))
          (elim (Bool-cases (ltb (length p) 16)) [
            | inl short ↦ inr (
              omega (arith, ltb→lt _ _ short, length-block (inc32 c) p, length-take 16 p),
              ap (ctr_loop n key (inc32 c)) (drop_all 16 p (omega (arith, ltb→lt _ _ short)))
                  ∙ ctr_loop_nil n (inc32 c),
            )
            | inr full ↦
                inl (omega (arith, ltb→le _ _ full, length-block (inc32 c) p, length-take 16 p))
          ])
      ∙ ap₂ ◌++◌
          (xor_each_twice (take 16 p) (aes_block key (inc32 c))
            (omega (arith, length-take 16 p, length-aes_block key (inc32 c) h)))
          (ctr_loop_twice n (inc32 c) (drop 16 p) (omega (arith, length-drop 16 p)))
      ∙ take-append-drop 16 p
    where
      p : Bytes
      p = b ∷ input

      masked : Bytes
      masked = xor_each (take 16 p) (aes_block key (inc32 c))

      after : Bytes
      after = ctr_loop n key (inc32 c) (drop 16 p)

  pub length-ctr_crypt : (c input : Bytes) → length (ctr_crypt key c input) ≡ length input
  unfolding ctr_crypt
  length-ctr_crypt c input = length-ctr_loop (length input) c input (le_refl _)

  -- Decrypting is encrypting again.
  pub ctr_crypt_twice : (c input : Bytes) → ctr_crypt key c (ctr_crypt key c input) ≡ input
  unfolding ctr_crypt
  ctr_crypt_twice c input =
      ctr_loop_fuel _ (length input) key c (ctr_loop (length input) key c input) (le_refl _)
        (omega (arith, length-ctr_crypt c input))
      ∙ ctr_loop_twice (length input) c input (le_refl _)

ctr_loop-AreBytes :
    (n : ℕ) (key c input : Bytes)
    → AreBytes key
    → AreBytes input
    → AreBytes (ctr_loop n key c input)
unfolding ctr_loop
ctr_loop-AreBytes zero key c input k p = tt
ctr_loop-AreBytes (suc n) key c [] k p = tt
ctr_loop-AreBytes (suc n) key c (b ∷ input) k p =
    AreBytes-append _ _
      (xor_each-AreBytes _ _ (AreBytes-take 16 (b ∷ input) p) (aes_block-AreBytes key (inc32 c) k))
      (ctr_loop-AreBytes n key (inc32 c) (drop 16 (b ∷ input)) k (AreBytes-drop 16 (b ∷ input) p))

pub ctr_crypt-AreBytes :
    (key c input : Bytes) → AreBytes key → AreBytes input → AreBytes (ctr_crypt key c input)
unfolding ctr_crypt
ctr_crypt-AreBytes key c input = ctr_loop-AreBytes (length input) key c input
