-- ===== src/ProtectedRecord/Framing.antt =====
-- The parts of a record: its header, the padding, and what stripping it leaves.
use xbox360_tls.Base.{
  ℕ, zero, suc, ◌+◌, ◌≤◌, ◌≡◌, ◌≢◌, refl, ap, ◌∙◌, ◌∷◌, ◌++◌, length, drop, drop-append, replicate,
  length-append, length-replicate, arith,
}
use xbox360_tls.Bytes.{Bytes, span, at, at-drop, ok, load_be16_add}
use xbox360_tls.Record.{content_application_data, parse_record_header}
use xbox360_tls.ProtectedRecord.{fragment_header, strip_zeros}

-- A header is read back, whatever follows.
pub parse_record_header-fragment_header :
    (n : ℕ) (rest : Bytes)
    → n ≤ 16640
    → parse_record_header (span (fragment_header n ++ rest))
      ≡ ok (record { type = content_application_data; legacy_version = 0x0303; length = n })
unfolding fragment_header parse_record_header
parse_record_header-fragment_header n rest h = ground (
  arith,
  load_be16_add (fragment_header n ++ rest) 1,
  load_be16_add (fragment_header n ++ rest) 3,
)

at-zeros : (n j : ℕ) → at (replicate n 0) j ≡ 0
at-zeros zero j = refl
at-zeros (suc n) zero = refl
at-zeros (suc n) (suc j) = at-zeros n j

module _ (content : Bytes) (t padding : ℕ) where
  abbrev pub inner : Bytes
  inner = content ++ (t ∷ replicate padding 0)

  pub length-inner : length inner ≡ length content + 1 + padding
  length-inner =
      omega
        (arith, length-append content (t ∷ replicate padding 0), length-replicate {A = ℕ} padding 0)

  behind-content : drop (length content) inner ≡ t ∷ replicate padding 0
  behind-content = drop-append (length content) content (t ∷ replicate padding 0) refl

  pub at-inner_type : at inner (length content) ≡ t
  at-inner_type =
      at-drop inner (length content) (length content) 0 (omega arith)
      ∙ ap (λ p. at p 0) behind-content

  at-inner_zero : (k : ℕ) → at inner (suc (length content + k)) ≡ 0
  at-inner_zero k =
      at-drop inner (length content) (suc (length content + k)) (suc k) (omega arith)
      ∙ ap (λ p. at p (suc k)) behind-content
      ∙ at-zeros padding k

  strip_zeros-inner :
      (k n : ℕ) → t ≢ 0 → n ≡ suc (length content + k) → strip_zeros inner n ≡ suc (length content)
  unfolding strip_zeros
  strip_zeros-inner zero zero h e = absurd (omega arith)
  strip_zeros-inner zero (suc n) h e =
      let same : n ≡ length content = omega arith in
      ground (arith, at-inner_type, ap (at inner) same)
  strip_zeros-inner (suc k) zero h e = absurd (omega arith)
  strip_zeros-inner (suc k) (suc n) h e =
      let same : n ≡ suc (length content + k) = omega arith in
      ground (arith, at-inner_zero k, ap (at inner) same, strip_zeros-inner k n h same)

  -- Zeros behind a byte that is not zero are stripped, and nothing else.
  pub strip_zeros-padding :
      t ≢ 0 → strip_zeros inner (length content + 1 + padding) ≡ suc (length content)
  strip_zeros-padding h = strip_zeros-inner padding _ h (omega arith)
