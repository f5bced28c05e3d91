-- ===== src/X509/Der/Sequence.antt =====
-- Elements that follow one another.
use xbox360_tls.Base.{
  ℕ, ◌+◌, ◌^◌, ◌≤◌, ◌<◌, ◌≡◌, refl, sym, ap, ◌∙◌, List, [], ◌∷◌, ◌++◌, length, length-append,
  length-drop, drop, drop-drop, drop-append, arith,
}
use xbox360_tls.Bytes.{Bytes, AreBytes, span, ok}
use xbox360_tls.X509.Der.Laws.{encode_tlv, tlv, der_tlv-encode_tlv}
use xbox360_tls.X509.Der.{der_tlv}

-- The tags and the values of elements.
abbrev pub Elements : Type 0
Elements = List (ℕ × Bytes)

unfoldable pub encode_all : Elements → Bytes
encode_all [] = []
encode_all ((t, v) ∷ es) = encode_tlv t v ++ encode_all es

abbrev pub AreShort : Elements → Type 0
AreShort [] = Unit
AreShort ((t, v) ∷ es) = (length v < 2 ^ 32) × AreShort es

-- The offset behind an element.
abbrev pub behind : ℕ → ℕ → Bytes → ℕ
behind off t v = off + length (encode_tlv t v)

-- What a loop over elements has in a round: the first element and the rest behind it.
pub next_element :
    (b : Bytes) (off t : ℕ) (v : Bytes) (es : Elements)
    → AreBytes b
    → drop off b ≡ encode_all ((t, v) ∷ es)
    → length v < 2 ^ 32
    → (der_tlv (span b) off ≡ ok (tlv t v, behind off t v))
      × (drop (behind off t v) b ≡ encode_all es)
      × (off < behind off t v)
      × (behind off t v ≤ length b)
unfolding encode_all
next_element b off t v es h d u =
    let read = der_tlv-encode_tlv b off t v (encode_all es) h d u in
    let after : drop (behind off t v) b ≡ encode_all es =
      sym (drop-drop off (length (encode_tlv t v)) _ b refl)
      ∙ ap (drop (length (encode_tlv t v))) d
      ∙ drop-append (length (encode_tlv t v)) (encode_tlv t v) (encode_all es) refl in
    (
      read,
      after,
      omega arith,
      omega (arith, length-drop off b, ap length d, length-append (encode_tlv t v) (encode_all es)),
    )

pub no_element : (b : Bytes) (off : ℕ) → drop off b ≡ encode_all [] → length b ≤ off
unfolding encode_all
no_element b off d = omega (arith, length-drop off b, ap length d)
