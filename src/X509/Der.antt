-- ===== src/X509/Der.antt =====
-- `DerTlv` and `der_tlv`: an element of DER, its tag, its length and its value.
pub mod Lengths
pub mod Reading
pub mod Laws
mod Tests
pub mod Sequence
use xbox360_tls.Base.{
  ℕ, zero, suc, ◌+◌, ◌-◌, ◌*◌, ◌^◌, bit_and, bit_or, not, ◌||◌, ltb, ◌==◌, if◌then◌else◌, length,
}
use xbox360_tls.Bytes.{
  Bytes, ByteSpan, span, size, at, slice, Error, bad_handshake, Result, ok, err, ◌>>=◌, ◌>>◌,
  fail_if,
}

pub record DerTlv : Type 0 where
  pub tag : ℕ
  pub full : ByteSpan
  pub value : ByteSpan

-- `for (size_t i = 0; i < n; ++i) len = (len << 8) | in.data[p++];`; `n` is at most 4, so that
-- `len` stays below 2^32.
unfoldable pub length_loop : ℕ → Bytes → ℕ → ℕ → ℕ
length_loop zero b p len = len
length_loop (suc n) b p len = length_loop n b (p + 1) (bit_or (len * 2 ^ 8) (at b p))

-- The length behind the byte `lb`, with the place behind it.
unfoldable pub der_length : Bytes → ℕ → ℕ → Result (ℕ × ℕ)
der_length b lb p = if bit_and lb 0x80 == 0 then ok (lb, p) else do
  let n = bit_and lb 0x7f
  fail_if (n == 0 || ltb 4 n || ltb (length b) (p + n)) bad_handshake
  fail_if (at b p == 0) bad_handshake
  let len = length_loop n b p 0
  fail_if (ltb len 128) bad_handshake
  ok (len, p + n)

-- The element at `off`, and the offset of the next one.
unfoldable pub der_tlv : ByteSpan → ℕ → Result (DerTlv × ℕ)
der_tlv input off = do
  fail_if (input.is_null || not (ltb off (size input))) bad_handshake
  let b = input.bytes
  fail_if (not (ltb (off + 1) (size input))) bad_handshake
  (len, p) ← der_length b (at b (off + 1)) (off + 2)
  fail_if (ltb (size input - p) len) bad_handshake
  ok (
    record {
      tag = at b off;
      full = span (slice b off (p - off + len));
      value = span (slice b p len);
    },
    p + len,
  )
