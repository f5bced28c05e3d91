-- ===== src/X509/Time/Calendar.antt =====
-- The calendar.
use xbox360_tls.Base.{ℕ, zero, suc, ◌+◌, ◌-◌, ◌≤◌, ◌<◌, ◌≡◌, refl, ◌||◌, ◌==◌, if◌then◌else◌, arith}
use xbox360_tls.X509.Time.{is_leap, days_before_year, days_before_month}

-- How long a year and a month are.
abbrev pub year_length : ℕ → ℕ
year_length y = if is_leap y then 366 else 365

abbrev pub month_length : ℕ → ℕ → ℕ
month_length y m =
    if m == 2
    then (if is_leap y then 29 else 28)
    else if m == 4 || m == 6 || m == 9 || m == 11
    then 30
    else 31

-- The days of the years from 1970 up to the year `1970 + n`, one by one.
abbrev pub days_of_years : ℕ → ℕ
days_of_years zero = 0
days_of_years (suc n) = days_of_years n + year_length (1970 + n)

-- The days of the first `n` months of a year.
abbrev pub days_of_months : ℕ → ℕ → ℕ
days_of_months y zero = 0
days_of_months y (suc n) = days_of_months y n + month_length y (suc n)

next_year : (y : ℕ) → 1970 ≤ y → days_before_year (y + 1) ≡ days_before_year y + year_length y
unfolding days_before_year
next_year y h = ground arith

pub year_since : (n : ℕ) → days_before_year (1970 + n) - days_before_year 1970 ≡ days_of_years n
year_since n = omega (arith, year_since_add n)
  where
    year_since_add : (n : ℕ) → days_before_year (1970 + n) ≡ days_before_year 1970 + days_of_years n
    year_since_add zero = let e : 1970 + 0 ≡ 1970 = omega arith in rw e (omega arith)
    year_since_add (suc n) =
        let e : 1970 + suc n ≡ 1970 + n + 1 = omega arith in
        rw e (omega (arith, next_year (1970 + n) (omega arith), year_since_add n))

pub month_since : (y m : ℕ) → m < 12 → days_before_month y (m + 1) ≡ days_of_months y m
unfolding days_before_month
month_since y zero h = refl
month_since y (suc zero) h = refl
month_since y (suc (suc zero)) h = ground arith
month_since y (suc (suc (suc zero))) h = ground arith
month_since y (suc (suc (suc (suc zero)))) h = ground arith
month_since y (suc (suc (suc (suc (suc zero))))) h = ground arith
month_since y (suc (suc (suc (suc (suc (suc zero)))))) h = ground arith
month_since y (suc (suc (suc (suc (suc (suc (suc zero))))))) h = ground arith
month_since y (suc (suc (suc (suc (suc (suc (suc (suc zero)))))))) h = ground arith
month_since y (suc (suc (suc (suc (suc (suc (suc (suc (suc zero))))))))) h = ground arith
month_since y (suc (suc (suc (suc (suc (suc (suc (suc (suc (suc zero)))))))))) h = ground arith
month_since y (suc (suc (suc (suc (suc (suc (suc (suc (suc (suc (suc zero))))))))))) h =
    ground arith
month_since y (suc (suc (suc (suc (suc (suc (suc (suc (suc (suc (suc (suc m)))))))))))) h =
    absurd (omega (arith, h))
