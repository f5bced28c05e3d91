-- ===== src/Bytes/Endian.antt =====
-- include/xboxtls/endian.h. The loads take a buffer and an offset; the stores give the bytes that
-- they write.
use xbox360_tls.Base.{
  ℕ, ◌+◌, ◌*◌, ◌/◌, ◌^◌, ◌<◌, bit_or, ◌≡◌, [], ◌∷◌, ◌++◌, drop, length, refl, ap, ◌∙◌, arith,
}
use xbox360_tls.Base.Bits.{or_fields}
use xbox360_tls.Bytes.Span.{Bytes, AreBytes, at, at-lt, at-drop, u8, u16}

unfoldable pub load_be16 : Bytes → ℕ → ℕ
load_be16 p i = u16 (bit_or (at p i * 2 ^ 8) (at p (i + 1)))

unfoldable pub load_be24 : Bytes → ℕ → ℕ
load_be24 p i = bit_or (bit_or (at p i * 2 ^ 16) (at p (i + 1) * 2 ^ 8)) (at p (i + 2))

unfoldable pub store_be16 : ℕ → Bytes
store_be16 v = u8 (v / 2 ^ 8) ∷ u8 v ∷ []

unfoldable pub store_be24 : ℕ → Bytes
store_be24 v = u8 (v / 2 ^ 16) ∷ u8 (v / 2 ^ 8) ∷ u8 v ∷ []

-- The bytes combined by `|` are disjoint fields, so their value is a sum.
pub load_be16_add :
    (p : Bytes) (i : ℕ)
    → at p i < 256
    → at p (i + 1) < 256
    → load_be16 p i ≡ at p i * 256 + at p (i + 1)
unfolding load_be16
load_be16_add p i h₀ h₁ = omega (arith, or_fields 8 (at p i) (at p (i + 1)) h₁)

pub load_be24_add :
    (p : Bytes) (i : ℕ)
    → at p (i + 1) < 256
    → at p (i + 2) < 256
    → load_be24 p i ≡ at p i * 65536 + at p (i + 1) * 256 + at p (i + 2)
unfolding load_be24
load_be24_add p i h₁ h₂ =
    rw
      (
        or_fields 16 (at p i) (at p (i + 1) * 2 ^ 8) (omega arith),
        split,
        or_fields 8 (at p i * 2 ^ 8 + at p (i + 1)) (at p (i + 2)) h₂,
      )
      (omega arith)
  where
    split : at p i * 2 ^ 16 + at p (i + 1) * 2 ^ 8 ≡ (at p i * 2 ^ 8 + at p (i + 1)) * 2 ^ 8
    split = omega arith

pub load_be16_sum : (p : Bytes) (i : ℕ) → AreBytes p → load_be16 p i ≡ at p i * 256 + at p (i + 1)
load_be16_sum p i h = load_be16_add p i (at-lt p i h) (at-lt p (i + 1) h)

pub load_be24_sum :
    (p : Bytes) (i : ℕ)
    → AreBytes p
    → load_be24 p i ≡ at p i * 65536 + at p (i + 1) * 256 + at p (i + 2)
load_be24_sum p i h = load_be24_add p i (at-lt p (i + 1) h) (at-lt p (i + 2) h)

pub load_be16-lt : (p : Bytes) (i : ℕ) → load_be16 p i < 65536
unfolding load_be16
load_be16-lt p i = omega arith

pub load_be24-lt : (p : Bytes) (i : ℕ) → AreBytes p → load_be24 p i < 16777216
load_be24-lt p i h =
    omega (arith, load_be24_sum p i h, at-lt p i h, at-lt p (i + 1) h, at-lt p (i + 2) h)

pub store_be16-AreBytes : (v : ℕ) → AreBytes (store_be16 v)
unfolding store_be16
store_be16-AreBytes v = (omega arith, (omega arith, tt))

pub store_be24-AreBytes : (v : ℕ) → AreBytes (store_be24 v)
unfolding store_be24
store_be24-AreBytes v = (omega arith, (omega arith, (omega arith, tt)))

-- Reading back what was stored at offset `i` of a buffer.
pub load_be16-store_be16 :
    (p : Bytes) (i v : ℕ) (rest : Bytes)
    → v < 65536
    → drop i p ≡ store_be16 v ++ rest
    → load_be16 p i ≡ v
unfolding store_be16
load_be16-store_be16 p i v rest h e = omega (arith, load_be16_add p i, first, second)
  where
    first : at p i ≡ u8 (v / 2 ^ 8)
    first = at-drop p i i 0 (omega arith) ∙ ap (λ t. at t 0) e

    second : at p (i + 1) ≡ u8 v
    second = at-drop p i (i + 1) 1 refl ∙ ap (λ t. at t 1) e

pub load_be24-store_be24 :
    (p : Bytes) (i v : ℕ) (rest : Bytes)
    → v < 16777216
    → drop i p ≡ store_be24 v ++ rest
    → load_be24 p i ≡ v
unfolding store_be24
load_be24-store_be24 p i v rest h e = omega (arith, load_be24_add p i, first, second, third)
  where
    first : at p i ≡ u8 (v / 2 ^ 16)
    first = at-drop p i i 0 (omega arith) ∙ ap (λ t. at t 0) e

    second : at p (i + 1) ≡ u8 (v / 2 ^ 8)
    second = at-drop p i (i + 1) 1 refl ∙ ap (λ t. at t 1) e

    third : at p (i + 2) ≡ u8 v
    third = at-drop p i (i + 2) 2 refl ∙ ap (λ t. at t 2) e

pub length-store_be16 : (v : ℕ) → length (store_be16 v) ≡ 2
unfolding store_be16
length-store_be16 v = refl

pub length-store_be24 : (v : ℕ) → length (store_be24 v) ≡ 3
unfolding store_be24
length-store_be24 v = refl

-- Buffers that agree on the three bytes load the same number.
pub load_be24_cong :
    (p q : Bytes)
    → at p 1 ≡ at q 1
    → at p 2 ≡ at q 2
    → at p 3 ≡ at q 3
    → load_be24 p 1 ≡ load_be24 q 1
unfolding load_be24
load_be24_cong p q e₁ e₂ e₃ = cc
