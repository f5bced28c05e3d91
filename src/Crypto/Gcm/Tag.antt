-- ===== src/Crypto/Gcm/Tag.antt =====
-- The tag: its bytes, and its comparison, which looks at every byte and accepts equality only.
use xbox360_tls.Base.{
  ℕ, zero, suc, ◌+◌, ◌*◌, ◌≡◌, ◌↔◌, refl, ap, ap₂, true, [], ◌∷◌, ◌++◌, length, bit_or, bit_xor,
  ◌==◌, ==_iff, bit_and, length-set, Bool-cases, inl, inr, replicate, arith,
}
use xbox360_tls.Base.Bits.{xor_eq_zero, xor_self, xor_lt, or_eq_zero}
use xbox360_tls.Bytes.{Bytes, AreBytes, AreBytes-replicate, set-AreBytes, at, at-lt, u8, u64}
use xbox360_tls.Crypto.Aes.Sizes.{length-aes_block, aes_block-AreBytes}
use xbox360_tls.Crypto.Aes.{aes_block}
use xbox360_tls.Record.Masks.{length-xor_each, xor_each-AreBytes}
use xbox360_tls.Crypto.Gcm.{
  diff_loop, tag_equal, shr_bytes, gf_double, gf_bit, gf_loop, gfmul, ghash_block, ghash_data,
  put_be64, first_counter, auth_tag,
}

diff_loop_same : (a : Bytes) → diff_loop 0 a a ≡ 0
unfolding diff_loop
diff_loop_same [] = refl
diff_loop_same (x ∷ a) = rw xor_self (diff_loop_same a)

-- A zero result means that nothing was different, before or in the rest.
diff_loop_zero :
    (d : ℕ) (a b : Bytes)
    → AreBytes a
    → AreBytes b
    → length a ≡ length b
    → diff_loop d a b ≡ 0
    → (d ≡ 0) × (a ≡ b)
unfolding diff_loop
diff_loop_zero d [] [] p q h e = (e, refl)
diff_loop_zero d [] (y ∷ b) p q h e = absurd (omega arith)
diff_loop_zero d (x ∷ a) [] p q h e = absurd (omega arith)
diff_loop_zero d (x ∷ a) (y ∷ b) p q h e =
    let (none, rest) = diff_loop_zero (bit_or d (u8 (bit_xor x y))) a b p.1 q.1 (omega arith) e in
    let (before, here) = or_eq_zero d (u8 (bit_xor x y)) none in
    (before, ap₂ ◌∷◌ (xor_eq_zero x y (omega (arith, here, xor_lt 8 x y p.0 q.0))) rest)

pub tag_equal_refl : (a : Bytes) → tag_equal a a ≡ true
unfolding tag_equal
tag_equal_refl a = rw diff_loop_same refl

-- Tags of the same length are accepted exactly when they are the same bytes.
pub tag_equal_iff :
    (a b : Bytes) → AreBytes a → AreBytes b → length a ≡ length b → (tag_equal a b ≡ true) ↔ (a ≡ b)
unfolding tag_equal
tag_equal_iff a b p q h = (
  λ e. (diff_loop_zero 0 a b p q h ((==_iff (diff_loop 0 a b) 0).0 e)).1,
  λ e. rw e (rw diff_loop_same refl),
)

length-shr_bytes : (carry : ℕ) (v : Bytes) → length (shr_bytes carry v) ≡ length v
unfolding shr_bytes
length-shr_bytes carry [] = refl
length-shr_bytes carry (b ∷ v) = ap suc (length-shr_bytes (bit_and b 1) v)

shr_bytes-AreBytes : (carry : ℕ) (v : Bytes) → AreBytes (shr_bytes carry v)
unfolding shr_bytes
shr_bytes-AreBytes carry [] = tt
shr_bytes-AreBytes carry (b ∷ v) = (omega arith, shr_bytes-AreBytes (bit_and b 1) v)

length-gf_double : (v : Bytes) → length (gf_double v) ≡ length v
unfolding gf_double
length-gf_double v = ground (
  arith,
  length-shr_bytes 0 v,
  length-set (shr_bytes 0 v) 0 (bit_xor (at (shr_bytes 0 v) 0) 0xe1),
)

gf_double-AreBytes : (v : Bytes) → AreBytes (gf_double v)
unfolding gf_double
gf_double-AreBytes v = elim (Bool-cases (bit_and (at v 15) 1 == 0)) [
  | inl e ↦ rw e (shr_bytes-AreBytes 0 v)
  | inr e ↦ rw e (
      set-AreBytes (shr_bytes 0 v) 0 _ (shr_bytes-AreBytes 0 v)
        (xor_lt 8 _ 0xe1 (at-lt (shr_bytes 0 v) 0 (shr_bytes-AreBytes 0 v)) (omega arith)))
]

-- A string of 16 bytes.
abbrev pub IsBlock : Bytes → Type 0
IsBlock b = (length b ≡ 16) × AreBytes b

gf_loop-IsBlock : (n i : ℕ) (x z v : Bytes) → IsBlock z → IsBlock v → IsBlock (gf_loop n i x z v)
unfolding gf_loop
gf_loop-IsBlock zero i x z v p q = p
gf_loop-IsBlock (suc n) i x z v p q =
    gf_loop-IsBlock n (i + 1) x _ (gf_double v)
      (elim (Bool-cases (gf_bit x i == 0)) [
        | inl e ↦ rw e p
        | inr e ↦ rw e (omega (arith, p.0, q.0, length-xor_each z v), xor_each-AreBytes z v p.1 q.1)
      ])
      (omega (arith, q.0, length-gf_double v), gf_double-AreBytes v)

aes_block-IsBlock : (key input : Bytes) → IsBlock key → IsBlock (aes_block key input)
aes_block-IsBlock key input k = (length-aes_block key input k.0, aes_block-AreBytes key input k.1)

-- Under a key of 16 bytes the tag is 16 bytes.
pub auth_tag-IsBlock :
    (key nonce aad ciphertext : Bytes) → IsBlock key → IsBlock (auth_tag key nonce aad ciphertext)
unfolding auth_tag ghash_block gfmul
auth_tag-IsBlock key nonce aad ciphertext k = (
  omega (arith, length-xor_each last mask, last-IsBlock.0, mask-IsBlock.0),
  xor_each-AreBytes last mask last-IsBlock.1 mask-IsBlock.1,
)
  where
    h : Bytes
    h = aes_block key (replicate 16 0)

    lens : Bytes
    lens = put_be64 (u64 (length aad * 8)) ++ put_be64 (u64 (length ciphertext * 8))

    last : Bytes
    last = ghash_block (ghash_data (ghash_data (replicate 16 0) h aad) h ciphertext) h lens

    mask : Bytes
    mask = aes_block key (first_counter nonce)

    mask-IsBlock : IsBlock mask
    mask-IsBlock = aes_block-IsBlock key (first_counter nonce) k

    last-IsBlock : IsBlock last
    last-IsBlock =
        gf_loop-IsBlock 128 0 _ (replicate 16 0) h (refl, AreBytes-replicate 16 0 (omega arith))
          (aes_block-IsBlock key (replicate 16 0) k)
