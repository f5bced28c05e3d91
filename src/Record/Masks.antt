-- ===== src/Record/Masks.antt =====
-- Laws of `xor_each`, the masking loop.
use xbox360_tls.Base.{◌≤◌, ◌≡◌, refl, ap₂, [], ◌∷◌, min, length, arith}
use xbox360_tls.Base.Bits.{xor_cancel, xor_cancel_left, xor_lt}
use xbox360_tls.Bytes.{Bytes, AreBytes}
use xbox360_tls.Record.{xor_each}

pub length-xor_each : (a b : Bytes) → length (xor_each a b) ≡ min (length a) (length b)
unfolding xor_each
length-xor_each [] b = omega arith
length-xor_each (x ∷ a) [] = omega arith
length-xor_each (x ∷ a) (y ∷ b) = omega (arith, length-xor_each a b)

pub xor_each-AreBytes : (a b : Bytes) → AreBytes a → AreBytes b → AreBytes (xor_each a b)
unfolding xor_each
xor_each-AreBytes [] b p q = tt
xor_each-AreBytes (x ∷ a) [] p q = tt
xor_each-AreBytes (x ∷ a) (y ∷ b) p q = (xor_lt 8 x y p.0 q.0, xor_each-AreBytes a b p.1 q.1)

-- Masking twice with the same bytes gives the text back.
pub xor_each_twice : (a b : Bytes) → length a ≤ length b → xor_each (xor_each a b) b ≡ a
unfolding xor_each
xor_each_twice [] b h = refl
xor_each_twice (x ∷ a) [] h = absurd (omega arith)
xor_each_twice (x ∷ a) (y ∷ b) h = ap₂ ◌∷◌ (xor_cancel x y) (xor_each_twice a b (omega arith))

-- A masked byte string determines what was masked.
pub xor_each_cancel :
    (a b c : Bytes)
    → length a ≡ length b
    → length a ≡ length c
    → xor_each a b ≡ xor_each a c
    → b ≡ c
unfolding xor_each
xor_each_cancel [] [] [] p q e = refl
xor_each_cancel [] (y ∷ b) c p q e = absurd (omega arith)
xor_each_cancel [] [] (z ∷ c) p q e = absurd (omega arith)
xor_each_cancel (x ∷ a) [] c p q e = absurd (omega arith)
xor_each_cancel (x ∷ a) (y ∷ b) [] p q e = absurd (omega arith)
xor_each_cancel (x ∷ a) (y ∷ b) (z ∷ c) p q e =
    ap₂ ◌∷◌ (xor_cancel_left x y z (cc e))
      (xor_each_cancel a b c (omega arith) (omega arith) (cc e))
