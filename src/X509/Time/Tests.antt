-- ===== src/X509/Time/Tests.antt =====
-- The 29th of February 2024, 12:34:56.
use xbox360_tls.Base.{◌≡◌, refl, arith}
use xbox360_tls.Bytes.{ok}
use xbox360_tls.X509.Time.{
  parse_asn1_time, asn1_year, dec2, dec4, days_before_year, days_before_month,
}
use xbox360_tls.X509.Time.Digits.{
  generalized_time, seconds_since_1970, parse_asn1_time-generalized_time,
}

as_seconds : parse_asn1_time (generalized_time 2024 2 29 12 34 56) ≡ ok 1709210096
unfolding parse_asn1_time asn1_year dec2 dec4 days_before_year days_before_month
as_seconds = refl

parse_asn1_time-generalized_time_example :
    parse_asn1_time (generalized_time 2024 2 29 12 34 56)
    ≡ ok (seconds_since_1970 2024 2 29 12 34 56)
parse_asn1_time-generalized_time_example =
    parse_asn1_time-generalized_time 2024 2 29 12 34 56 (omega arith) (omega arith) (omega arith)
      (omega arith) (omega arith) (omega arith) (omega arith) (omega arith) (omega arith)
