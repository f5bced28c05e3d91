-- ===== src/X509/Der/Laws.antt =====
-- The encoding of an element, and that no other is read.
use xbox360_tls.Base.{
  ℕ, ◌+◌, ◌-◌, ◌^◌, ◌≤◌, ◌<◌, ◌≡◌, refl, sym, ap, ap₂, ◌∙◌, ◌∷◌, ◌++◌, length, length-append,
  length-take, length-drop, take, drop, drop-drop, take-append, drop-append, take-append-drop,
  append_assoc, inl, inr, arith,
}
use xbox360_tls.Bytes.{Bytes, AreBytes, span, at, at-drop, slice, ok, Result-cases}
use xbox360_tls.X509.Der.Lengths.{encode_length, encode_length_some, drop_step}
use xbox360_tls.X509.Der.Reading.{der_length-encode_length, der_length_sound}
use xbox360_tls.X509.Der.{DerTlv, der_length, der_tlv}

abbrev pub encode_tlv : ℕ → Bytes → Bytes
encode_tlv t v = t ∷ (encode_length (length v) ++ v)

-- The element of a tag and a value.
abbrev pub tlv : ℕ → Bytes → DerTlv
tlv t v = record { tag = t; full = span (encode_tlv t v); value = span v }

-- An element whose value is shorter than 2^32 bytes is read, wherever it stands in a buffer of
-- bytes, and the offset behind it is returned.
pub der_tlv-encode_tlv :
    (b : Bytes) (off t : ℕ) (v rest : Bytes)
    → AreBytes b
    → drop off b ≡ encode_tlv t v ++ rest
    → length v < 2 ^ 32
    → der_tlv (span b) off ≡ ok (tlv t v, off + length (encode_tlv t v))
unfolding der_tlv
der_tlv-encode_tlv b off t v rest h d u =
    let len = length (encode_length (length v)) in
    let tagged : at b off ≡ t = at-drop b off off 0 (omega arith) ∙ ap (λ z. at z 0) d in
    let one : drop (off + 1) b ≡ encode_length (length v) ++ (v ++ rest) =
      sym (drop-drop off 1 (off + 1) b refl)
      ∙ ap (drop 1) d
      ∙ append_assoc (encode_length (length v)) v rest in
    let read : der_length b (at b (off + 1)) (off + 2) ≡ ok (length v, off + 1 + len) =
      ap (der_length b (at b (off + 1))) (omega arith)
      ∙ der_length-encode_length b (off + 1) (length v) (v ++ rest) h u one in
    let behind : drop (off + 1 + len) b ≡ v ++ rest =
      sym (drop-drop (off + 1) len _ b refl)
      ∙ ap (drop len) one
      ∙ drop-append len (encode_length (length v)) (v ++ rest) refl in
    let valued : slice b (off + 1 + len) (length v) ≡ v =
      ap (take (length v)) behind ∙ take-append (length v) v rest refl in
    let count : off + 1 + len - off + length v ≡ length (encode_tlv t v) =
      omega (arith, length-append (encode_length (length v)) v) in
    let whole : slice b off (off + 1 + len - off + length v) ≡ encode_tlv t v =
      ap₂ take count d ∙ take-append (length (encode_tlv t v)) (encode_tlv t v) rest refl in
    let width : length b ≡ off + 1 + len + length v + length rest = omega (
      arith,
      length-drop off b,
      ap length d,
      length-append (encode_length (length v)) v,
      length-append (encode_tlv t v) rest,
    ) in
    rw (tagged, read, valued, whole)
      (ground
        (arith, width, encode_length_some (length v), length-append (encode_length (length v)) v))

-- An element that is read from bytes is the encoding of its tag and value, which lie inside the
-- buffer, and the offset returned is the one behind it: no other form of a length is accepted.
pub der_tlv_sound :
    (b : Bytes) (off : ℕ) {e : DerTlv} {next : ℕ}
    → AreBytes b
    → der_tlv (span b) off ≡ ok (e, next)
    → (e ≡ tlv e.tag e.value.bytes)
      × (drop off b ≡ encode_tlv e.tag e.value.bytes ++ drop next b)
      × (length e.value.bytes < 2 ^ 32)
      × (off < next)
      × (next ≤ length b)
unfolding der_tlv
der_tlv_sound b off {e} {next} h d = elim (Result-cases (der_length b (at b (off + 1)) (off + 2))) [
  | inl ((len, p), el) ↦
      let inside : off + 1 < length b = ground (arith, d, el) in
      let (front, bound, after, room) =
        der_length_sound b (off + 1) h inside
          (ap (der_length b (at b (off + 1))) (omega arith) ∙ el) in
      let fits : len ≤ length b - p = ground (arith, d, el) in
      let tagged : at b off ≡ e.tag = ground (arith, d, el) in
      let valued : slice b p len ≡ e.value.bytes = ground (arith, d, el) in
      let placed : next ≡ p + len = ground (arith, d, el) in
      let full : e.full ≡ span (slice b off (p - off + len)) = ground (arith, d, el) in
      let present : e.value ≡ span e.value.bytes = ground (arith, d, el) in
      let width : length e.value.bytes ≡ len =
        omega (arith, fits, ap length valued, length-take len (drop p b), length-drop p b) in
      let after_p : drop p b ≡ e.value.bytes ++ drop next b =
        sym (take-append-drop len (drop p b))
        ∙ ap₂ (λ x y. x ++ y) valued (drop-drop p len next b placed) in
      let whole : drop off b ≡ encode_tlv e.tag e.value.bytes ++ drop next b =
        drop_step b off (omega (arith, inside))
        ∙ ap₂ (λ x y. x ∷ y) tagged
            (front
              ∙ ap₂ (λ k z. encode_length k ++ z) (sym width) after_p
              ∙ sym (
                  append_assoc (encode_length (length e.value.bytes)) e.value.bytes
                    (drop next b))) in
      let enc = encode_tlv e.tag e.value.bytes in
      let count : p - off + len ≡ length enc = omega (
        arith,
        placed,
        fits,
        after,
        room,
        ap length whole,
        length-append enc (drop next b),
        length-drop off b,
        length-drop next b,
      ) in
      let read : e.full ≡ span enc =
        full ∙ ap span (ap₂ take count whole ∙ take-append (length enc) enc (drop next b) refl) in
      (
        λ i. record { tag = e.tag; full = read i; value = present i },
        whole,
        omega (arith, width, bound),
        omega (arith, placed, after),
        omega (arith, placed, fits, room),
      )
  | inr (er, el) ↦ absurd (ground (arith, d, el))
]
