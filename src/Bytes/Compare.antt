-- ===== src/Bytes/Compare.antt =====
-- `memcmp`.
use xbox360_tls.Base.{
  Bool, true, false, ◌&&◌, ◌==◌, ==_iff, ==_refl, ◌≡◌, ◌↔◌, refl, ap₂, subst, [], ◌∷◌, arith,
}
use xbox360_tls.Bytes.Span.{Bytes}

-- `memcmp(a, b, n) == 0` on buffers of one length
unfoldable pub bytes_equal : Bytes → Bytes → Bool
bytes_equal [] [] = true
bytes_equal [] (y ∷ b) = false
bytes_equal (x ∷ a) [] = false
bytes_equal (x ∷ a) (y ∷ b) = (x == y) && bytes_equal a b

bytes_equal_refl : (a : Bytes) → bytes_equal a a ≡ true
unfolding bytes_equal
bytes_equal_refl [] = refl
bytes_equal_refl (x ∷ a) = rw (==_refl x, bytes_equal_refl a) refl

bytes_equal_sound : (a b : Bytes) → bytes_equal a b ≡ true → a ≡ b
unfolding bytes_equal
bytes_equal_sound [] [] e = refl
bytes_equal_sound [] (y ∷ b) e = cc
bytes_equal_sound (x ∷ a) [] e = cc
bytes_equal_sound (x ∷ a) (y ∷ b) e =
    ap₂ ◌∷◌ ((==_iff x y).0 (ground (arith, e))) (bytes_equal_sound a b (ground (arith, e)))

pub bytes_equal_iff : (a b : Bytes) → (bytes_equal a b ≡ true) ↔ (a ≡ b)
bytes_equal_iff a b =
    (bytes_equal_sound a b, λ e. subst (λ c. bytes_equal a c ≡ true) e (bytes_equal_refl a))
