-- ===== src/X509/Der/Reading.antt =====
-- That the lengths written are read, and no others.
use xbox360_tls.Base.{
  ℕ, zero, suc, ◌+◌, ◌-◌, ◌^◌, ◌≤◌, ◌<◌, bit_and, ◌≡◌, refl, sym, ap, ◌∙◌, Bool-cases, inl, inr, [],
  ◌∷◌, ◌++◌, ltb, lt→ltb, le→ltb, length-take, ap₂, false, ltb→lt, ltb→le, length-append,
  length-drop, take-append, drop-drop, take-append-drop, if◌then◌else◌, length, take, drop, arith,
}
use xbox360_tls.Bytes.{Bytes, AreBytes, AreBytes-take, AreBytes-drop, at-lt, at-drop, at, slice, ok}
use xbox360_tls.X509.Der.{length_loop, der_length}
use xbox360_tls.X509.Der.Lengths.{
  be_bytes, length_size, encode_length, drop_step, IsLong, short_bits, long_bits, be_value,
  length_loop-be_value, be_bytes-be_value, at-append-front, be_value-be_bytes, length-be_bytes,
  length_size-IsLong,
}

-- The lengths that are read are the ones that are written.
length_size-be_value :
    (xs : Bytes)
    → AreBytes xs
    → 1 ≤ length xs
    → length xs ≤ 4
    → 0 < at xs 0
    → 128 ≤ be_value xs 0
    → (length_size (be_value xs 0) ≡ length xs) × (be_value xs 0 < 2 ^ 32)
unfolding be_value
length_size-be_value [] h l m z w = absurd (omega arith)
length_size-be_value (a ∷ []) (ha, _) l m z w = (ground arith, omega arith)
length_size-be_value (a ∷ b ∷ []) (ha, (hb, _)) l m z w = (ground arith, omega arith)
length_size-be_value (a ∷ b ∷ c ∷ []) (ha, (hb, (hc, _))) l m z w = (ground arith, omega arith)
length_size-be_value (a ∷ b ∷ c ∷ d ∷ []) (ha, (hb, (hc, (hd, _)))) l m z w =
    (ground arith, omega arith)
length_size-be_value (a ∷ b ∷ c ∷ d ∷ e ∷ xs) h l m z w = absurd (omega arith)

module _ (b : Bytes) (p v n : ℕ) (f : IsLong v n) (w : 128 ≤ v) (h : AreBytes b) where
  der_length_long :
      (rest : Bytes)
      → at b p ≡ 0x80 + n
      → drop (p + 1) b ≡ be_bytes n v ++ rest
      → der_length b (at b p) (p + 1) ≡ ok (v, p + 1 + n)
  unfolding der_length
  der_length_long rest e d =
      let (high, low) = long_bits n (omega (arith, f.most)) in
      let width : length (drop (p + 1) b) ≡ n + length rest =
        omega (arith, ap length d, length-append (be_bytes n v) rest, length-be_bytes n v) in
      let inside : p + 1 + n ≤ length b = omega (arith, width, f.some, length-drop (p + 1) b) in
      let value : length_loop n b (p + 1) 0 ≡ v =
        length_loop-be_value n b (p + 1) 0 h inside
        ∙ ap (λ z. be_value (take n z) 0) d
        ∙ ap (λ z. be_value z 0) (take-append n (be_bytes n v) rest (sym (length-be_bytes n v)))
        ∙ be_value-be_bytes n v f.fits in
      let front : at b (p + 1) ≡ at (be_bytes n v) 0 =
        at-drop b (p + 1) (p + 1) 0 (omega arith)
        ∙ ap (λ z. at z 0) d
        ∙ at-append-front (be_bytes n v) rest (omega (arith, length-be_bytes n v, f.some)) in
      rw (e, high, low, value) (ground (arith, front, f.leads, f.some, f.most, inside, w))

-- A length in front of `rest` is read, and the offset behind it is right.
pub der_length-encode_length :
    (b : Bytes) (p v : ℕ) (rest : Bytes)
    → AreBytes b
    → v < 2 ^ 32
    → drop p b ≡ encode_length v ++ rest
    → der_length b (at b p) (p + 1) ≡ ok (v, p + length (encode_length v))
unfolding der_length encode_length
der_length-encode_length b p v rest h u d = elim (Bool-cases (ltb v 128)) [
  | inl e ↦
      let one : encode_length v ≡ v ∷ [] = rw e refl in
      let front : at b p ≡ v =
        at-drop b p p 0 (omega arith) ∙ ap (λ z. at z 0) (d ∙ ap (λ z. z ++ rest) one) in
      rw (front, one, short_bits v (ltb→lt _ _ e)) refl
  | inr e ↦
      let n = length_size v in
      let f = length_size-IsLong v (ltb→le _ _ e) u in
      let more : encode_length v ≡ (0x80 + n) ∷ be_bytes n v = rw e refl in
      let all : drop p b ≡ (0x80 + n) ∷ (be_bytes n v ++ rest) = d ∙ ap (λ z. z ++ rest) more in
      let front : at b p ≡ 0x80 + n = at-drop b p p 0 (omega arith) ∙ ap (λ z. at z 0) all in
      let behind : drop (p + 1) b ≡ be_bytes n v ++ rest =
        sym (drop-drop p 1 (p + 1) b refl) ∙ ap (drop 1) all in
      der_length_long b p v n f (ltb→le _ _ e) h rest front behind
      ∙ ap (λ k. ok (v, k)) (omega (arith, ap length more, length-be_bytes n v))
]

at-take : (n : ℕ) (xs : Bytes) → 0 < n → at (take n xs) 0 ≡ at xs 0
at-take zero xs h = absurd (omega arith)
at-take (suc n) [] h = refl
at-take (suc n) (x ∷ xs) h = refl

-- A length that is read is its encoding, inside the buffer.
abbrev pub ReadsLength : Bytes → ℕ → ℕ → ℕ → Type 0
ReadsLength b p v q =
    (drop p b ≡ encode_length v ++ drop q b) × (v < 2 ^ 32) × (p < q) × (q ≤ length b)

module _ (b : Bytes) (p : ℕ) {v q : ℕ} (h : AreBytes b) (l : p < length b)
    (e : der_length b (at b p) (p + 1) ≡ ok (v, q)) where
  der_length_short : at b p < 128 → ReadsLength b p v q
  unfolding der_length encode_length
  der_length_short small =
      let none = short_bits (at b p) small in
      let same : v ≡ at b p = ground (arith, none) in
      let next : q ≡ p + 1 = ground (arith, none) in
      let one : encode_length (at b p) ≡ at b p ∷ [] =
        ap
          (λ t.
            if t
            then at b p ∷ []
            else (0x80 + length_size (at b p)) ∷ be_bytes (length_size (at b p)) (at b p))
          (lt→ltb (at b p) 128 small) in
      rw (same, next, one) (drop_step b p l, omega arith, omega arith, omega arith)

  der_length_several : (n : ℕ) → at b p ≡ 128 + n → n < 128 → ReadsLength b p v q
  unfolding der_length encode_length
  der_length_several n big fits =
      let (high, low) = long_bits n fits in
      let bits : (bit_and (at b p) 0x80 ≡ 128) × (bit_and (at b p) 0x7f ≡ n) = rw big (high, low) in
      let (b₁, b₂) = bits in
      let few : n ≤ 4 = ground (arith, b₁, b₂) in
      let some : 0 < n = ground (arith, b₁, b₂) in
      let inside : p + 1 + n ≤ length b = ground (arith, b₁, b₂) in
      let leads : 0 < at b (p + 1) = ground (arith, b₁, b₂) in
      let next : q ≡ p + 1 + n = ground (arith, b₁, b₂) in
      let wide : 128 ≤ v = ground (arith, b₁, b₂) in
      let is : v ≡ length_loop n b (p + 1) 0 = ground (arith, b₁, b₂) in
      let xs = slice b (p + 1) n in
      let width : length xs ≡ n =
        omega (arith, inside, length-take n (drop (p + 1) b), length-drop (p + 1) b) in
      let value : v ≡ be_value xs 0 = is ∙ length_loop-be_value n b (p + 1) 0 h inside in
      let front : at xs 0 ≡ at b (p + 1) =
        at-take n (drop (p + 1) b) some ∙ sym (at-drop b (p + 1) (p + 1) 0 (omega arith)) in
      let (sized, bound) =
        length_size-be_value xs (AreBytes-take n (drop (p + 1) b) (AreBytes-drop (p + 1) b h))
          (omega (arith, width)) (omega (arith, width)) (omega (arith, front, leads))
          (omega (arith, wide, value)) in
      let long : ltb v 128 ≡ false = le→ltb v 128 wide in
      let size : length_size v ≡ n = ap length_size value ∙ sized ∙ width in
      let digits : be_bytes n v ≡ xs =
        ap₂ be_bytes (sym width) value
        ∙ be_bytes-be_value xs (AreBytes-take n (drop (p + 1) b) (AreBytes-drop (p + 1) b h))
            (omega (arith, width)) in
      (
        rw (long, size, digits, sym big)
            (drop_step b p l
              ∙ ap (λ z. at b p ∷ z)
                  (sym (take-append-drop n (drop (p + 1) b))
                    ∙ ap (λ z. xs ++ z) (drop-drop (p + 1) n q b next))),
        omega (arith, bound, value),
        omega (arith, next),
        omega (arith, next, inside),
      )

  pub der_length_sound : ReadsLength b p v q
  der_length_sound = elim (Bool-cases (ltb (at b p) 128)) [
    | inl small ↦ der_length_short (ltb→lt _ _ small)
    | inr big ↦
        der_length_several (at b p - 128) (omega (arith, ltb→le _ _ big))
          (omega (arith, ltb→le _ _ big, at-lt b p h))
  ]
