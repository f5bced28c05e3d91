-- ===== src/X509/Extensions/Loops.antt =====
-- The rounds that the loops over elements are given.
use xbox360_tls.Base.{
  ℕ, zero, suc, ◌+◌, ◌-◌, ◌≤◌, ◌<◌, ◌≡◌, refl, inl, inr, Bool-cases, ltb, le→ltb, ltb→lt, arith,
}
use xbox360_tls.Bytes.{Bytes, ByteSpan, at, size, ok, Result-cases}
use xbox360_tls.X509.Der.{DerTlv, der_tlv, der_length}
use xbox360_tls.X509.Certificate.{X509CertificateView}
use xbox360_tls.X509.Extensions.{parse_extension, parse_extensions_loop}

length_further : (b : Bytes) (lb p : ℕ) {len q : ℕ} → der_length b lb p ≡ ok (len, q) → p ≤ q
unfolding der_length
length_further b lb p h = ground (arith, h)

parse_extensions_loop_ended :
    (n : ℕ) (seq : ByteSpan) (p : ℕ) (out : X509CertificateView)
    → size seq ≤ p
    → parse_extensions_loop n seq p out ≡ ok out
unfolding parse_extensions_loop
parse_extensions_loop_ended zero seq p out h = refl
parse_extensions_loop_ended (suc n) seq p out h = rw (le→ltb p (size seq) h) refl

-- The offset behind an element is further on.
pub der_tlv_further :
    (input : ByteSpan) (off : ℕ) {e : DerTlv} {next : ℕ}
    → der_tlv input off ≡ ok (e, next)
    → off < next
unfolding der_tlv
der_tlv_further input off {e} {next} h =
    elim (Result-cases (der_length input.bytes (at input.bytes (off + 1)) (off + 2))) [
      | inr (code, r) ↦ absurd (ground (arith, h, r))
      | inl ((len, p), r) ↦
          let placed : next ≡ p + len = ground (arith, h, r) in
          omega (arith, placed, length_further input.bytes (at input.bytes (off + 1)) (off + 2) r)
    ]

-- Any two numbers of rounds that are at least the bytes left give the same result: the loop has
-- ended before it runs out of rounds.
pub parse_extensions_loop-enough :
    (n m : ℕ) (seq : ByteSpan) (p : ℕ) (out : X509CertificateView)
    → size seq - p ≤ n
    → n ≤ m
    → parse_extensions_loop m seq p out ≡ parse_extensions_loop n seq p out
unfolding parse_extensions_loop
parse_extensions_loop-enough zero m seq p out h l =
    parse_extensions_loop_ended m seq p out (omega (arith, h))
parse_extensions_loop-enough (suc n) zero seq p out h l = absurd (omega (arith, l))
parse_extensions_loop-enough (suc n) (suc m) seq p out h l = elim (Bool-cases (ltb p (size seq))) [
  | inr e ↦ rw e refl
  | inl e ↦ elim (Result-cases (der_tlv seq p)) [
    | inr (code, r) ↦ rw (e, r) refl
    | inl ((ext, np), r) ↦ elim (Result-cases (parse_extension ext out)) [
      | inr (code, q) ↦ rw (e, r, q) refl
      | inl (next, q) ↦
          rw (e, r, q)
            (parse_extensions_loop-enough n m seq np next
              (omega (arith, h, der_tlv_further seq p r, ltb→lt p (size seq) e)) (omega (arith, l)))
    ]
  ]
]
