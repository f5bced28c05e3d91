-- ===== src/X509/Time/Digits.antt =====
-- The digits of a time.
use xbox360_tls.Base.{
  ℕ, ◌+◌, ◌-◌, ◌*◌, ◌/◌, ◌%◌, ◌≤◌, ◌<◌, ◌≡◌, refl, ap, ◌∙◌, [], ◌∷◌, ◌++◌, ltb, ◌||◌, false,
  if◌then◌else◌, le→ltb, arith,
}
use xbox360_tls.Bytes.{Bytes, span, at, null_span, ok}
use xbox360_tls.X509.Der.{DerTlv}
use xbox360_tls.X509.Time.{
  dec2, dec4, parse_asn1_time, asn1_year, days_before_year, days_before_month,
}
use xbox360_tls.X509.Time.Calendar.{days_of_years, days_of_months, year_since, month_since}

-- Two decimal digits.
abbrev pub digits : ℕ → Bytes
digits n = (n / 10 + 0x30) ∷ (n % 10 + 0x30) ∷ []

-- What follows the year in a time.
abbrev pub rest_of_time : (mo d h mi se : ℕ) → Bytes
rest_of_time mo d h mi se =
    digits mo ++ (digits d ++ (digits h ++ (digits mi ++ (digits se ++ (0x5a ∷ [])))))

-- `YYYYMMDDHHMMSSZ`
abbrev pub generalized_time : (y mo d h mi se : ℕ) → DerTlv
generalized_time y mo d h mi se = record {
  tag = 0x18;
  full = null_span;
  value = span (digits (y / 100) ++ (digits (y % 100) ++ rest_of_time mo d h mi se));
}

-- `YYMMDDHHMMSSZ`
abbrev pub utc_time : (y mo d h mi se : ℕ) → DerTlv
utc_time y mo d h mi se = record {
  tag = 0x17;
  full = null_span;
  value = span (digits (y % 100) ++ rest_of_time mo d h mi se);
}

-- Seconds since 1970, counted year by year and month by month.
abbrev pub seconds_since_1970 : (y mo d h mi se : ℕ) → ℕ
seconds_since_1970 y mo d h mi se =
    (days_of_years (y - 1970) + days_of_months y (mo - 1) + (d - 1)) * 86400
    + h * 3600
    + mi * 60
    + se

dec2-digits :
    (p : Bytes) (i n : ℕ)
    → at p i ≡ n / 10 + 0x30
    → at p (i + 1) ≡ n % 10 + 0x30
    → n < 100
    → dec2 p i ≡ ok n
unfolding dec2
dec2-digits p i n a b h = rw (a, b) (ground arith)

counted :
    (y mo : ℕ)
    → 1970 ≤ y
    → 1 ≤ mo
    → mo ≤ 12
    → (days_before_year y - days_before_year 1970) + days_before_month y mo
      ≡ days_of_years (y - 1970) + days_of_months y (mo - 1)
counted y mo a b c =
    let years : days_before_year y - days_before_year 1970 ≡ days_of_years (y - 1970) =
      ap (λ z. days_before_year z - days_before_year 1970) (omega (arith, a))
      ∙ year_since (y - 1970) in
    let months : days_before_month y mo ≡ days_of_months y (mo - 1) =
      ap (days_before_month y) (omega (arith, b)) ∙ month_since y (mo - 1) (omega (arith, b, c)) in
    rw (years, months) refl

in_range :
    (y mo d h mi se : ℕ)
    → 1970 ≤ y
    → 1 ≤ mo
    → mo ≤ 12
    → 1 ≤ d
    → d ≤ 31
    → h < 24
    → mi < 60
    → se ≤ 60
    → (ltb y 1970
        || ltb mo 1
        || ltb 12 mo
        || ltb d 1
        || ltb 31 d
        || ltb 23 h
        || ltb 59 mi
        || ltb 60 se)
      ≡ false
in_range y mo d h mi se a b1 b2 c1 c2 e f g =
    rw
      (
        le→ltb y 1970 a,
        le→ltb mo 1 b1,
        le→ltb 12 mo b2,
        le→ltb d 1 c1,
        le→ltb 31 d c2,
        le→ltb 23 h (omega arith),
        le→ltb 59 mi (omega arith),
        le→ltb 60 se g,
      )
      refl

-- A GeneralizedTime of the years 1970 to 9999 is read as the seconds since 1970, counted year by
-- year and month by month in the calendar with its leap years. Every month may have 31 days.
pub parse_asn1_time-generalized_time :
    (y mo d h mi se : ℕ)
    → 1970 ≤ y
    → y ≤ 9999
    → 1 ≤ mo
    → mo ≤ 12
    → 1 ≤ d
    → d ≤ 31
    → h < 24
    → mi < 60
    → se ≤ 60
    → parse_asn1_time (generalized_time y mo d h mi se) ≡ ok (seconds_since_1970 y mo d h mi se)
unfolding parse_asn1_time asn1_year dec4
parse_asn1_time-generalized_time y mo d h mi se a1 a2 b1 b2 c1 c2 e f g =
    let p = (generalized_time y mo d h mi se).value.bytes in
    let whole : y / 100 * 100 + y % 100 ≡ y = omega arith in
    rw
      (
        dec2-digits p 0 (y / 100) refl refl (omega arith),
        dec2-digits p 2 (y % 100) refl refl (omega arith),
        dec2-digits p 4 mo refl refl (omega arith),
        dec2-digits p 6 d refl refl (omega arith),
        dec2-digits p 8 h refl refl (omega arith),
        dec2-digits p 10 mi refl refl (omega arith),
        dec2-digits p 12 se refl refl (omega arith),
        whole,
        in_range y mo d h mi se a1 b1 b2 c1 c2 e f g,
        counted y mo a1 b1 b2,
      )
      refl

century :
    (y : ℕ)
    → 1970 ≤ y
    → y < 2050
    → (if ltb (y % 100) 50 then 2000 + y % 100 else 1900 + y % 100) ≡ y
century y a b = ground arith

-- A UTCTime of the years 1970 to 2049 is read as the same seconds.
pub parse_asn1_time-utc_time :
    (y mo d h mi se : ℕ)
    → 1970 ≤ y
    → y < 2050
    → 1 ≤ mo
    → mo ≤ 12
    → 1 ≤ d
    → d ≤ 31
    → h < 24
    → mi < 60
    → se ≤ 60
    → parse_asn1_time (utc_time y mo d h mi se) ≡ ok (seconds_since_1970 y mo d h mi se)
unfolding parse_asn1_time asn1_year
parse_asn1_time-utc_time y mo d h mi se a1 a2 b1 b2 c1 c2 e f g =
    let p = (utc_time y mo d h mi se).value.bytes in
    rw
      (
        dec2-digits p 0 (y % 100) refl refl (omega arith),
        dec2-digits p 2 mo refl refl (omega arith),
        dec2-digits p 4 d refl refl (omega arith),
        dec2-digits p 6 h refl refl (omega arith),
        dec2-digits p 8 mi refl refl (omega arith),
        dec2-digits p 10 se refl refl (omega arith),
        century y a1 a2,
        in_range y mo d h mi se a1 b1 b2 c1 c2 e f g,
        counted y mo a1 b1 b2,
      )
      refl
