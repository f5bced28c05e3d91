-- ===== src/X509/Time.antt =====
-- `parse_asn1_time` and the calendar it counts with. Where the source answers false, the reading
-- fails with the error that the caller returns for it.
pub mod Calendar
mod Tests
pub mod Digits
use xbox360_tls.Base.{
  ℕ, ◌+◌, ◌-◌, ◌*◌, ◌/◌, ◌%◌, Bool, not, ◌&&◌, ◌||◌, List, [], ◌∷◌, ltb, ◌==◌, if◌then◌else◌,
  get_or,
}
use xbox360_tls.Bytes.{Bytes, size, at, Error, bad_handshake, Result, ok, err, ◌>>=◌, ◌>>◌, fail_if}
use xbox360_tls.X509.Der.{DerTlv}

-- `c < '0' || c > '9'`
abbrev pub no_digit : ℕ → Bool
no_digit c = ltb c 0x30 || ltb 0x39 c

unfoldable pub dec2 : Bytes → ℕ → Result ℕ
dec2 p i = do
  fail_if (no_digit (at p i) || no_digit (at p (i + 1))) bad_handshake
  ok ((at p i - 0x30) * 10 + (at p (i + 1) - 0x30))

unfoldable pub dec4 : Bytes → ℕ → Result ℕ
dec4 p i = do a ← dec2 p i; b ← dec2 p (i + 2); ok (a * 100 + b)

-- `y` is 1970 or later, so that nothing here is negative.
unfoldable pub days_before_year : ℕ → ℕ
days_before_year y = let ym1 = y - 1 in 365 * ym1 + ym1 / 4 - ym1 / 100 + ym1 / 400

-- `(y % 4 == 0 && y % 100 != 0) || y % 400 == 0`
abbrev pub is_leap : ℕ → Bool
is_leap y = (y % 4 == 0 && not (y % 100 == 0)) || y % 400 == 0

abbrev pub cum : List ℕ
cum = 0 ∷ 0 ∷ 31 ∷ 59 ∷ 90 ∷ 120 ∷ 151 ∷ 181 ∷ 212 ∷ 243 ∷ 273 ∷ 304 ∷ 334 ∷ []

unfoldable pub days_before_month : ℕ → ℕ → ℕ
days_before_month y m = let d = get_or cum m 0 in if ltb 2 m && is_leap y then d + 1 else d

-- The year, and the offset behind it.
unfoldable pub asn1_year : DerTlv → Result (ℕ × ℕ)
asn1_year t =
    if t.tag == 0x17
    then (do
      fail_if (not (size t.value == 13)) bad_handshake
      y ← dec2 t.value.bytes 0
      ok (if ltb y 50 then 2000 + y else 1900 + y, 2))
    else do fail_if (not (size t.value == 15)) bad_handshake; y ← dec4 t.value.bytes 0; ok (y, 4)

-- Seconds since 1970.
unfoldable pub parse_asn1_time : DerTlv → Result ℕ
parse_asn1_time t = do
  fail_if (not (t.tag == 0x17) && not (t.tag == 0x18)) bad_handshake
  (y, off) ← asn1_year t
  let p = t.value.bytes
  mo ← dec2 p off
  d ← dec2 p (off + 2)
  h ← dec2 p (off + 4)
  mi ← dec2 p (off + 6)
  se ← dec2 p (off + 8)
  fail_if (not (at p (off + 10) == 0x5a)) bad_handshake
  fail_if
      (ltb y 1970
        || ltb mo 1
        || ltb 12 mo
        || ltb d 1
        || ltb 31 d
        || ltb 23 h
        || ltb 59 mi
        || ltb 60 se)
      bad_handshake
  let days = (days_before_year y - days_before_year 1970) + days_before_month y mo + (d - 1)
  ok (days * 86400 + h * 3600 + mi * 60 + se)
