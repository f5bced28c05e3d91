-- ===== src/X509/Der/Lengths.antt =====
-- The encoding of a length.
use xbox360_tls.Base.{
  ℕ, zero, suc, ◌+◌, ◌*◌, ◌/◌, ◌^◌, ◌≤◌, ◌<◌, bit_and, ◌≡◌, refl, Bool-cases, inl, inr, [], ◌∷◌,
  ◌++◌, ◌==◌, ==_iff, ltb, ltb→lt, ltb→le, length-append, if◌then◌else◌, length, drop, arith,
}
use xbox360_tls.Base.Bits.{or_fields}
use native.Mathlib.Nat.{pow-suc}
use xbox360_tls.Base.Table.{each_below, each_below_lem}
use xbox360_tls.Bytes.{Bytes, AreBytes, at-lt, at, slice, u8}
use xbox360_tls.X509.Der.{length_loop}

-- The `n` low bytes of `v`, the highest first.
abbrev pub be_bytes : ℕ → ℕ → Bytes
be_bytes zero v = []
be_bytes (suc n) v = be_bytes n (v / 256) ++ (u8 v ∷ [])

-- How many bytes a length of 128 and more takes.
abbrev pub length_size : ℕ → ℕ
length_size v =
    if ltb v 0x100 then 1 else if ltb v 0x10000 then 2 else if ltb v 0x1000000 then 3 else 4

unfoldable pub encode_length : ℕ → Bytes
encode_length v = if ltb v 128 then v ∷ [] else (0x80 + length_size v) ∷ be_bytes (length_size v) v

pub encode_length_some : (v : ℕ) → 0 < length (encode_length v)
unfolding encode_length
encode_length_some v = elim (Bool-cases (ltb v 128)) [
  | inl e ↦ rw e (omega arith)
  | inr e ↦ rw e (omega arith)
]

-- The bits of the first byte of a length.
pub short_bits : (x : ℕ) → x < 128 → bit_and x 0x80 ≡ 0
short_bits x h =
    (==_iff _ _).0 (each_below_lem (λ x. bit_and x 0x80 == 0) 128 (unfold each_below in refl) x h)

pub long_bits : (x : ℕ) → x < 128 → (bit_and (128 + x) 0x80 ≡ 128) × (bit_and (128 + x) 0x7f ≡ x)
long_bits x h = (
  (==_iff _ _).0
      (each_below_lem (λ x. bit_and (128 + x) 0x80 == 128) 128 (unfold each_below in refl) x h),
  (==_iff _ _).0
      (each_below_lem (λ x. bit_and (128 + x) 0x7f == x) 128 (unfold each_below in refl) x h),
)

-- The value of up to four bytes, and back.
unfoldable pub be_value : Bytes → ℕ → ℕ
be_value [] acc = acc
be_value (x ∷ xs) acc = be_value xs (acc * 256 + x)

pub drop_step : (b : Bytes) (p : ℕ) → p < length b → drop p b ≡ at b p ∷ drop (p + 1) b
drop_step [] p l = absurd (omega arith)
drop_step (x ∷ b) zero l = refl
drop_step (x ∷ b) (suc p) l =
    let e : suc p + 1 ≡ suc (p + 1) = omega arith in rw e (drop_step b p (omega arith))

pub length_loop-be_value :
    (n : ℕ) (b : Bytes) (p acc : ℕ)
    → AreBytes b
    → p + n ≤ length b
    → length_loop n b p acc ≡ be_value (slice b p n) acc
unfolding length_loop be_value
length_loop-be_value zero b p acc h l = refl
length_loop-be_value (suc n) b p acc h l =
    rw (drop_step b p (omega arith), or_fields 8 acc (at b p) (at-lt b p h))
      (length_loop-be_value n b (p + 1) (acc * 256 + at b p) h (omega arith))

pub be_bytes-be_value :
    (xs : Bytes) → AreBytes xs → length xs ≤ 4 → be_bytes (length xs) (be_value xs 0) ≡ xs
unfolding be_value
be_bytes-be_value [] h l = refl
be_bytes-be_value (a ∷ []) (ha, _) l = ground arith
be_bytes-be_value (a ∷ b ∷ []) (ha, (hb, _)) l = ground arith
be_bytes-be_value (a ∷ b ∷ c ∷ []) (ha, (hb, (hc, _))) l = ground arith
be_bytes-be_value (a ∷ b ∷ c ∷ d ∷ []) (ha, (hb, (hc, (hd, _)))) l = ground arith
be_bytes-be_value (a ∷ b ∷ c ∷ d ∷ e ∷ xs) h l = absurd (omega arith)

pub at-append-front : (xs ys : Bytes) → 0 < length xs → at (xs ++ ys) 0 ≡ at xs 0
at-append-front [] ys l = absurd (omega arith)
at-append-front (x ∷ xs) ys l = refl

pub be_value-append :
    (xs : Bytes) (x acc : ℕ) → be_value (xs ++ (x ∷ [])) acc ≡ be_value xs acc * 256 + x
unfolding be_value
be_value-append [] x acc = refl
be_value-append (y ∷ xs) x acc = be_value-append xs x (acc * 256 + y)

pub be_value-be_bytes : (n v : ℕ) → v < 256 ^ n → be_value (be_bytes n v) 0 ≡ v
unfolding be_value
be_value-be_bytes zero v h = omega arith
be_value-be_bytes (suc n) v h = omega (
  arith,
  pow-suc 256 n,
  be_value-append (be_bytes n (v / 256)) (u8 v) 0,
  be_value-be_bytes n (v / 256) (omega (arith, pow-suc 256 n)),
)

pub length-be_bytes : (n v : ℕ) → length (be_bytes n v) ≡ n
length-be_bytes zero v = refl
length-be_bytes (suc n) v =
    omega (arith, length-append (be_bytes n (v / 256)) (u8 v ∷ []), length-be_bytes n (v / 256))

-- A length that takes several bytes has no zero in front, and fits them.
pub record IsLong (v n : ℕ) : Type 0 where
  pub some : 1 ≤ n
  pub most : n ≤ 4
  pub fits : v < 256 ^ n
  pub leads : 0 < at (be_bytes n v) 0

pub length_size-IsLong : (v : ℕ) → 128 ≤ v → v < 2 ^ 32 → IsLong v (length_size v)
length_size-IsLong v h k = elim (Bool-cases (ltb v 0x100)) [
  | inl e₁ ↦ rw e₁ (record {
    some = omega arith;
    most = omega arith;
    fits = ground (arith, e₁);
    leads = omega (arith, h, ltb→lt _ _ e₁);
  })
  | inr e₁ ↦ elim (Bool-cases (ltb v 0x10000)) [
    | inl e₂ ↦
        rw (e₁, e₂)
          (record {
            some = omega arith;
            most = omega arith;
            fits = ground (arith, e₂);
            leads = omega (arith, ltb→le _ _ e₁, ltb→lt _ _ e₂);
          })
    | inr e₂ ↦ elim (Bool-cases (ltb v 0x1000000)) [
      | inl e₃ ↦
          rw (e₁, e₂, e₃)
            (record {
              some = omega arith;
              most = omega arith;
              fits = ground (arith, e₃);
              leads = omega (arith, ltb→le _ _ e₂, ltb→lt _ _ e₃);
            })
      | inr e₃ ↦
          rw (e₁, e₂, e₃)
            (record {
              some = omega arith;
              most = omega arith;
              fits = omega (arith, k);
              leads = omega (arith, ltb→le _ _ e₃, k);
            })
    ]
  ]
]
