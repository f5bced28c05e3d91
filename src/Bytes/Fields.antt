-- ===== src/Bytes/Fields.antt =====
-- A field behind its length: the loads that the parsers write out themselves, and what they read.
use xbox360_tls.Base.{
  ℕ, ◌+◌, ◌*◌, ◌/◌, ◌^◌, ◌≤◌, ◌<◌, bit_or, ◌≡◌, refl, sym, ◌∙◌, [], ◌∷◌, ◌++◌, length, drop, arith,
}
use xbox360_tls.Base.Bits.{or_fields}
use xbox360_tls.Bytes.Span.{Bytes, AreBytes, at, at-lt, at-drop, u8}
use xbox360_tls.Bytes.Endian.{
  load_be16, load_be16_sum, load_be24, store_be16, store_be24, load_be24_add, load_be24-store_be24,
}

-- `((size_t)p[i] << 8) | p[i + 1]`
unfoldable pub size_be16 : Bytes → ℕ → ℕ
size_be16 p i = bit_or (at p i * 2 ^ 8) (at p (i + 1))

pub size_be16_add :
    (p : Bytes) (i : ℕ) → at p (i + 1) < 256 → size_be16 p i ≡ at p i * 256 + at p (i + 1)
unfolding size_be16
size_be16_add p i h = omega (arith, or_fields 8 (at p i) (at p (i + 1)) h)

-- What was stored in front is read, and what is read could have been stored.
pub size_be16-store_be16 :
    (n : ℕ) (rest : Bytes) → n < 65536 → size_be16 (store_be16 n ++ rest) 0 ≡ n
unfolding store_be16
size_be16-store_be16 n rest h =
    omega (arith, size_be16_add (u8 (n / 2 ^ 8) ∷ u8 n ∷ rest) 0 (omega arith))

pub store_be16-size_be16 :
    (p : Bytes) → AreBytes p → 2 ≤ length p → p ≡ store_be16 (size_be16 p 0) ++ drop 2 p
unfolding store_be16
store_be16-size_be16 [] h l = absurd (omega arith)
store_be16-size_be16 (a ∷ []) h l = absurd (omega arith)
store_be16-size_be16 (a ∷ b ∷ p) (ha, (hb, hp)) l = rw (sym first, sym second) refl
  where
    value : size_be16 (a ∷ b ∷ p) 0 ≡ a * 256 + b
    value = size_be16_add (a ∷ b ∷ p) 0 hb

    first : a ≡ u8 (size_be16 (a ∷ b ∷ p) 0 / 2 ^ 8)
    first = omega (arith, value)

    second : b ≡ u8 (size_be16 (a ∷ b ∷ p) 0)
    second = omega (arith, value)

pub size_be16-drop : (p : Bytes) → size_be16 p 2 ≡ size_be16 (drop 2 p) 0
unfolding size_be16
size_be16-drop p = rw (at-drop p 2 2 0 refl, at-drop p 2 3 1 refl) refl

pub load_be16_size : (p : Bytes) (i : ℕ) → AreBytes p → load_be16 p i ≡ size_be16 p i
load_be16_size p i h = load_be16_sum p i h ∙ sym (size_be16_add p i (at-lt p (i + 1) h))

pub load_be24-store_be24_front :
    (n : ℕ) (rest : Bytes) → n < 16777216 → load_be24 (store_be24 n ++ rest) 0 ≡ n
load_be24-store_be24_front n rest h = load_be24-store_be24 (store_be24 n ++ rest) 0 n rest h refl

pub store_be24-load_be24_front :
    (p : Bytes) → AreBytes p → 3 ≤ length p → p ≡ store_be24 (load_be24 p 0) ++ drop 3 p
unfolding store_be24
store_be24-load_be24_front [] h l = absurd (omega arith)
store_be24-load_be24_front (a ∷ []) h l = absurd (omega arith)
store_be24-load_be24_front (a ∷ b ∷ []) h l = absurd (omega arith)
store_be24-load_be24_front (a ∷ b ∷ c ∷ p) (ha, (hb, (hc, hp))) l =
    rw (sym first, sym second, sym third) refl
  where
    value : load_be24 (a ∷ b ∷ c ∷ p) 0 ≡ a * 65536 + b * 256 + c
    value = load_be24_add (a ∷ b ∷ c ∷ p) 0 hb hc

    first : a ≡ u8 (load_be24 (a ∷ b ∷ c ∷ p) 0 / 2 ^ 16)
    first = omega (arith, value)

    second : b ≡ u8 (load_be24 (a ∷ b ∷ c ∷ p) 0 / 2 ^ 8)
    second = omega (arith, value)

    third : c ≡ u8 (load_be24 (a ∷ b ∷ c ∷ p) 0)
    third = omega (arith, value)
