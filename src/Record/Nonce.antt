-- ===== src/Record/Nonce.antt =====
-- `make_record_nonce`: no two sequence numbers below 2^64 share a nonce under one IV.
use xbox360_tls.Base.{
  ℕ, zero, suc, ◌+◌, ◌*◌, ◌/◌, ◌^◌, ◌<◌, ◌≡◌, ap, sym, ◌∙◌, [], ◌∷◌, length, take, drop,
  length-take, length-drop, drop-append, arith,
}
use xbox360_tls.Bytes.{Bytes, u8}
use xbox360_tls.Record.Masks.{xor_each_cancel}
use xbox360_tls.Record.{seq_bytes, xor_each, make_record_nonce}

-- The number that big-endian bytes stand for, on top of `acc`.
be_value : ℕ → Bytes → ℕ
be_value acc [] = acc
be_value acc (b ∷ bs) = be_value (acc * 256 + b) bs

-- The eight bytes of a 64-bit number stand for it.
be_value-seq_bytes : (seq : ℕ) → seq < 2 ^ 64 → be_value 0 (seq_bytes 8 seq []) ≡ seq
unfolding be_value seq_bytes
be_value-seq_bytes seq h = omega arith

pub length-seq_bytes : (n seq : ℕ) (s : Bytes) → length (seq_bytes n seq s) ≡ n + length s
unfolding seq_bytes
length-seq_bytes zero seq s = omega arith
length-seq_bytes (suc n) seq s = omega (arith, length-seq_bytes n (seq / 2 ^ 8) (u8 seq ∷ s))

-- Under one IV, two 64-bit sequence numbers with the same nonce are the same number.
pub make_record_nonce_injective :
    (iv : Bytes) (seq₁ seq₂ : ℕ)
    → length iv ≡ 12
    → seq₁ < 2 ^ 64
    → seq₂ < 2 ^ 64
    → make_record_nonce iv seq₁ ≡ make_record_nonce iv seq₂
    → seq₁ ≡ seq₂
unfolding make_record_nonce
make_record_nonce_injective iv seq₁ seq₂ h h₁ h₂ e =
    sym (be_value-seq_bytes seq₁ h₁)
    ∙ ap (be_value 0) (xor_each_cancel (drop 4 iv) _ _ eight eight' masked)
    ∙ be_value-seq_bytes seq₂ h₂
  where
    eight : length (drop 4 iv) ≡ length (seq_bytes 8 seq₁ [])
    eight = omega (arith, length-drop 4 iv, length-seq_bytes 8 seq₁ [])

    eight' : length (drop 4 iv) ≡ length (seq_bytes 8 seq₂ [])
    eight' = omega (arith, length-drop 4 iv, length-seq_bytes 8 seq₂ [])

    head : 4 ≡ length (take 4 iv)
    head = omega (arith, length-take 4 iv)

    masked : xor_each (drop 4 iv) (seq_bytes 8 seq₁ []) ≡ xor_each (drop 4 iv) (seq_bytes 8 seq₂ [])
    masked =
        sym (drop-append 4 (take 4 iv) _ head) ∙ ap (drop 4) e ∙ drop-append 4 (take 4 iv) _ head
