-- ===== src/Bytes/Span.antt =====
-- `xt_u8` ... `xt_u64`, `ByteSpan` (types.h), and reads of a buffer.
use xbox360_tls.Base.{
  ℕ, zero, suc, ◌+◌, ◌%◌, ◌^◌, ◌<◌, Bool, true, false, List, [], ◌∷◌, ◌++◌, length, get_or, set,
  take, drop, replicate, ◌≡◌, refl, arith,
}

abbrev pub u8 : ℕ → ℕ
u8 x = x % 2 ^ 8

abbrev pub u16 : ℕ → ℕ
u16 x = x % 2 ^ 16

abbrev pub u32 : ℕ → ℕ
u32 x = x % 2 ^ 32

abbrev pub u64 : ℕ → ℕ
u64 x = x % 2 ^ 64

abbrev pub Bytes : Type 0
Bytes = List ℕ

abbrev pub IsByte : ℕ → Type 0
IsByte b = b < 256

abbrev pub AreBytes : Bytes → Type 0
AreBytes [] = Unit
AreBytes (b ∷ bs) = IsByte b × AreBytes bs

-- `data` and `size`: a null pointer has bytes that nothing reads.
pub record ByteSpan : Type 0 where
  pub is_null : Bool
  pub bytes : Bytes

abbrev pub span : Bytes → ByteSpan
span bs = record { is_null = false; bytes = bs }

abbrev pub null_span : ByteSpan
null_span = record { is_null = true; bytes = [] }

-- A place to write: whether `data` is null, and `size`.
pub record MutableByteSpan : Type 0 where
  pub is_null : Bool
  pub capacity : ℕ

-- `s.size`
abbrev pub size : ByteSpan → ℕ
size s = length s.bytes

-- `p[i]`; the callers' guards keep `i` in range.
abbrev pub at : Bytes → ℕ → ℕ
at p i = get_or p i 0

-- the `n` bytes at `p + off`
abbrev pub slice : Bytes → ℕ → ℕ → Bytes
slice p off n = take n (drop off p)

pub AreBytes-append : (xs ys : Bytes) → AreBytes xs → AreBytes ys → AreBytes (xs ++ ys)
AreBytes-append [] ys p q = q
AreBytes-append (x ∷ xs) ys p q = (p.0, AreBytes-append xs ys p.1 q)

pub AreBytes-behind : (xs ys : Bytes) → AreBytes (xs ++ ys) → AreBytes ys
AreBytes-behind [] ys h = h
AreBytes-behind (x ∷ xs) ys h = AreBytes-behind xs ys h.1

pub AreBytes-take : (n : ℕ) (xs : Bytes) → AreBytes xs → AreBytes (take n xs)
AreBytes-take zero xs p = tt
AreBytes-take (suc n) [] p = tt
AreBytes-take (suc n) (x ∷ xs) p = (p.0, AreBytes-take n xs p.1)

pub AreBytes-drop : (n : ℕ) (xs : Bytes) → AreBytes xs → AreBytes (drop n xs)
AreBytes-drop zero xs p = p
AreBytes-drop (suc n) [] p = tt
AreBytes-drop (suc n) (x ∷ xs) p = AreBytes-drop n xs p.1

pub AreBytes-replicate : (n b : ℕ) → IsByte b → AreBytes (replicate n b)
AreBytes-replicate zero b p = tt
AreBytes-replicate (suc n) b p = (p, AreBytes-replicate n b p)

pub at-lt : (xs : Bytes) (i : ℕ) → AreBytes xs → at xs i < 256
at-lt [] i p = omega arith
at-lt (x ∷ xs) zero p = p.0
at-lt (x ∷ xs) (suc i) p = at-lt xs i p.1

-- Reading past the first `i` bytes.
pub at-drop : (p : Bytes) (i k j : ℕ) → k ≡ i + j → at p k ≡ at (drop i p) j
at-drop p zero k j e = let e' : k ≡ j = omega arith in rw e'
at-drop [] (suc i) k j e = refl
at-drop (x ∷ xs) (suc i) zero j e = absurd (omega arith)
at-drop (x ∷ xs) (suc i) (suc k) j e = at-drop xs i k j (omega arith)

pub set-AreBytes : (xs : Bytes) (i v : ℕ) → AreBytes xs → v < 256 → AreBytes (set xs i v)
set-AreBytes [] i v p q = tt
set-AreBytes (x ∷ xs) zero v p q = (q, p.1)
set-AreBytes (x ∷ xs) (suc i) v p q = (p.0, set-AreBytes xs i v p.1 q)
