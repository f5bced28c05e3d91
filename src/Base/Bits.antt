-- ===== src/Base/Bits.antt =====
-- Laws of the native `bit_and`, `bit_or` and `bit_xor` at variables, from their lowest digit.
use Prim.Native.Nat.{
  bit_and, bit_and-bitwise, bit_or, bit_or-bitwise, bit_xor, bit_xor-bitwise, differ, digits, max,
  min, ℕ, suc, zero, ◌<◌, ◌≤◌, ◌^◌, ◌%◌, ◌/◌, ◌*◌, ◌+◌,
}
use mathlib.Core.Path.{◌≡◌, refl, ap, sym, ◌∙◌}
use native.Mathlib.Nat.{pow-suc}
use native.Mathlib.Omega.{arith}

module _ (z : ℕ → ℕ) (f : ℕ → ℕ → ℕ) where
  -- Two numbers of rounds that both reach the first number give the same digits.
  digits_rounds : (x y j k : ℕ) → x ≤ j → x ≤ k → digits z f j x y ≡ digits z f k x y
  digits_rounds (suc x) y (suc j) (suc k) fits fits' =
      omega (arith, digits_rounds (suc x / 2) (y / 2) j k (omega arith) (omega arith))
  digits_rounds (suc x) y zero k fits fits' = absurd (omega arith)
  digits_rounds (suc x) y (suc j) zero fits fits' = absurd (omega arith)
  digits_rounds zero y (suc j) (suc k) fits fits' = refl
  digits_rounds zero y (suc j) zero fits fits' = refl
  digits_rounds zero y zero (suc k) fits fits' = refl
  digits_rounds zero y zero zero fits fits' = refl

  digits_step :
      (x y : ℕ)
      → digits z f (suc x) (suc x) y
        ≡ digits z f (suc x / 2) (suc x / 2) (y / 2) * 2 + f (suc x % 2) (y % 2)
  digits_step x y =
      omega (arith, digits_rounds (suc x / 2) (y / 2) x (suc x / 2) (omega arith) (omega arith))

differ_digits : (x y : ℕ) → x < 2 → y < 2 → differ x y ≡ (x + y) % 2
differ_digits zero y p q = omega arith
differ_digits (suc zero) zero p q = refl
differ_digits (suc zero) (suc zero) p q = refl
differ_digits (suc zero) (suc (suc y)) p q = absurd (omega arith)
differ_digits (suc (suc x)) y p q = absurd (omega arith)

pub bit_xor_step : (x y : ℕ) → bit_xor x y ≡ bit_xor (x / 2) (y / 2) * 2 + (x % 2 + y % 2) % 2
bit_xor_step zero y = omega (arith, bit_xor-bitwise 0 y, bit_xor-bitwise 0 (y / 2))
bit_xor_step (suc x) y = omega (
  arith,
  bit_xor-bitwise (suc x) y,
  bit_xor-bitwise (suc x / 2) (y / 2),
  digits_step (λ t. t) differ x y,
  differ_digits (suc x % 2) (y % 2) (omega arith) (omega arith),
)

pub bit_or_step : (x y : ℕ) → bit_or x y ≡ bit_or (x / 2) (y / 2) * 2 + max (x % 2) (y % 2)
bit_or_step zero y = omega (arith, bit_or-bitwise 0 y, bit_or-bitwise 0 (y / 2))
bit_or_step (suc x) y = omega (
  arith,
  bit_or-bitwise (suc x) y,
  bit_or-bitwise (suc x / 2) (y / 2),
  digits_step (λ t. t) max x y,
)

pub bit_and_step : (x y : ℕ) → bit_and x y ≡ bit_and (x / 2) (y / 2) * 2 + min (x % 2) (y % 2)
bit_and_step zero y = omega (arith, bit_and-bitwise 0 y, bit_and-bitwise 0 (y / 2))
bit_and_step (suc x) y = omega (
  arith,
  bit_and-bitwise (suc x) y,
  bit_and-bitwise (suc x / 2) (y / 2),
  digits_step (λ y. 0) min x y,
)

-- Each law by halving both numbers, `n` times at most.
xor_cancel_below : (n a b : ℕ) → a + b ≤ n → bit_xor (bit_xor a b) b ≡ a
xor_cancel_below n zero zero h = refl
xor_cancel_below zero (suc a) b h = absurd (omega arith)
xor_cancel_below zero zero (suc b) h = absurd (omega arith)
xor_cancel_below (suc n) (suc a) b h = omega (
  arith,
  bit_xor_step (suc a) b,
  bit_xor_step (bit_xor (suc a) b) b,
  ap (λ t. bit_xor t (b / 2)) half,
  xor_cancel_below n (suc a / 2) (b / 2) (omega arith),
)
  where
    half : bit_xor (suc a) b / 2 ≡ bit_xor (suc a / 2) (b / 2)
    half = omega (arith, bit_xor_step (suc a) b)
xor_cancel_below (suc n) zero (suc b) h = omega (
  arith,
  bit_xor_step 0 (suc b),
  bit_xor_step (bit_xor 0 (suc b)) (suc b),
  ap (λ t. bit_xor t (suc b / 2)) half,
  xor_cancel_below n 0 (suc b / 2) (omega arith),
)
  where
    half : bit_xor 0 (suc b) / 2 ≡ bit_xor (0 / 2) (suc b / 2)
    half = omega (arith, bit_xor_step 0 (suc b))

-- Exclusive or with the same number twice.
pub xor_cancel : (a b : ℕ) → bit_xor (bit_xor a b) b ≡ a
xor_cancel a b = xor_cancel_below (a + b) a b (omega arith)

xor_zero_below : (n a b : ℕ) → a + b ≤ n → bit_xor a b ≡ 0 → a ≡ b
xor_zero_below n zero zero h e = refl
xor_zero_below zero (suc a) b h e = absurd (omega arith)
xor_zero_below zero zero (suc b) h e = absurd (omega arith)
xor_zero_below (suc n) (suc a) b h e = omega (
  arith,
  bit_xor_step (suc a) b,
  xor_zero_below n (suc a / 2) (b / 2) (omega arith) (omega (arith, bit_xor_step (suc a) b)),
)
xor_zero_below (suc n) zero (suc b) h e = omega (
  arith,
  bit_xor_step 0 (suc b),
  xor_zero_below n 0 (suc b / 2) (omega arith) (omega (arith, bit_xor_step 0 (suc b))),
)

pub xor_eq_zero : (a b : ℕ) → bit_xor a b ≡ 0 → a ≡ b
xor_eq_zero a b = xor_zero_below (a + b) a b (omega arith)

xor_self_below : (n a : ℕ) → a ≤ n → bit_xor a a ≡ 0
xor_self_below n zero h = refl
xor_self_below zero (suc a) h = absurd (omega arith)
xor_self_below (suc n) (suc a) h =
    omega (arith, bit_xor_step (suc a) (suc a), xor_self_below n (suc a / 2) (omega arith))

pub xor_self : (a : ℕ) → bit_xor a a ≡ 0
xor_self a = xor_self_below a a (omega arith)

-- The result has no more digits than its arguments.
pub xor_lt : (k a b : ℕ) → a < 2 ^ k → b < 2 ^ k → bit_xor a b < 2 ^ k
xor_lt zero zero zero p q = omega arith
xor_lt zero zero (suc b) p q = absurd (omega arith)
xor_lt zero (suc a) b p q = absurd (omega arith)
xor_lt (suc k) a b p q = omega (
  arith,
  bit_xor_step a b,
  pow-suc 2 k,
  xor_lt k (a / 2) (b / 2) (omega (arith, pow-suc 2 k)) (omega (arith, pow-suc 2 k)),
)

or_zero_below : (n a b : ℕ) → a + b ≤ n → bit_or a b ≡ 0 → (a ≡ 0) × (b ≡ 0)
or_zero_below n zero zero h e = (refl, refl)
or_zero_below zero (suc a) b h e = absurd (omega arith)
or_zero_below zero zero (suc b) h e = absurd (omega arith)
or_zero_below (suc n) (suc a) b h e = omega (
  arith,
  bit_or_step (suc a) b,
  or_zero_below n (suc a / 2) (b / 2) (omega arith) (omega (arith, bit_or_step (suc a) b)),
)
or_zero_below (suc n) zero (suc b) h e = omega (
  arith,
  bit_or_step 0 (suc b),
  or_zero_below n 0 (suc b / 2) (omega arith) (omega (arith, bit_or_step 0 (suc b))),
)

pub or_eq_zero : (a b : ℕ) → bit_or a b ≡ 0 → (a ≡ 0) × (b ≡ 0)
or_eq_zero a b = or_zero_below (a + b) a b (omega arith)

or_zero_right_below : (n a : ℕ) → a ≤ n → bit_or a 0 ≡ a
or_zero_right_below n zero h = refl
or_zero_right_below zero (suc a) h = absurd (omega arith)
or_zero_right_below (suc n) (suc a) h =
    omega (arith, bit_or_step (suc a) 0, or_zero_right_below n (suc a / 2) (omega arith))

pub or_zero_right : (a : ℕ) → bit_or a 0 ≡ a
or_zero_right a = or_zero_right_below a a (omega arith)

double_shift : (q k : ℕ) → q * 2 ^ suc k ≡ 2 * (q * 2 ^ k)
double_shift q k = omega (arith, ap (λ (t : ℕ). q * t) (pow-suc 2 k))

-- `(q << k) | r` with `r` below bit `k` is a sum.
pub or_fields : (k q r : ℕ) → r < 2 ^ k → bit_or (q * 2 ^ k) r ≡ q * 2 ^ k + r
or_fields zero q r h = ground (arith, or_zero_right q)
or_fields (suc k) q r h = ground (
  arith,
  bit_or_step (q * 2 ^ suc k) r,
  double_shift q k,
  or_fields k q (r / 2) (omega (arith, pow-suc 2 k)),
)

xor_comm_below : (n a b : ℕ) → a + b ≤ n → bit_xor a b ≡ bit_xor b a
xor_comm_below n zero zero h = refl
xor_comm_below zero (suc a) b h = absurd (omega arith)
xor_comm_below zero zero (suc b) h = absurd (omega arith)
xor_comm_below (suc n) (suc a) b h = omega (
  arith,
  bit_xor_step (suc a) b,
  bit_xor_step b (suc a),
  xor_comm_below n (suc a / 2) (b / 2) (omega arith),
)
xor_comm_below (suc n) zero (suc b) h = omega (
  arith,
  bit_xor_step 0 (suc b),
  bit_xor_step (suc b) 0,
  xor_comm_below n 0 (suc b / 2) (omega arith),
)

pub xor_comm : (a b : ℕ) → bit_xor a b ≡ bit_xor b a
xor_comm a b = xor_comm_below (a + b) a b (omega arith)

pub xor_cancel_left : (a b c : ℕ) → bit_xor a b ≡ bit_xor a c → b ≡ c
xor_cancel_left a b c e =
    sym (xor_cancel b a) ∙ ap (λ t. bit_xor t a) (xor_comm b a ∙ e ∙ xor_comm a c) ∙ xor_cancel c a
