-- ===== src/Crypto/Hkdf/Sizes.antt =====
-- How many bytes HMAC and HKDF give.
use xbox360_tls.Base.{
  ℕ, zero, suc, ◌+◌, ◌-◌, ◌*◌, ◌≤◌, ◌≡◌, refl, ap, ◌∙◌, min, [], ◌∷◌, ◌++◌, List, length, take,
  length-append, length-take, le→ltb, arith,
}
use xbox360_tls.Bytes.{Bytes, AreBytes, u8, ok, length-store_be16}
use xbox360_tls.Crypto.Sha256.{Sha256, transform, word_bytes, final}
use xbox360_tls.Crypto.Hkdf.{
  hmac_sha256, expand_loop, hkdf_label, hkdf_expand_sha256, hkdf_expand_label_sha256,
}

length-transform : (st : List ℕ) (b : Bytes) → length (transform st b) ≡ 8
unfolding transform
length-transform st b = refl

length-word_bytes : (ws : List ℕ) → length (word_bytes ws) ≡ 4 * length ws
unfolding word_bytes
length-word_bytes [] = refl
length-word_bytes (w ∷ ws) = omega (arith, length-word_bytes ws)

word_bytes-AreBytes : (ws : List ℕ) → AreBytes (word_bytes ws)
unfolding word_bytes
word_bytes-AreBytes [] = tt
word_bytes-AreBytes (w ∷ ws) =
    (omega arith, (omega arith, (omega arith, (omega arith, word_bytes-AreBytes ws))))

pub length-final : (s : Sha256) → length (final s) ≡ 32
unfolding final
length-final s = length-word_bytes _ ∙ ap (λ n. 4 * n) (length-transform _ _)

pub final-AreBytes : (s : Sha256) → AreBytes (final s)
unfolding final
final-AreBytes s = word_bytes-AreBytes _

pub length-hmac_sha256 : (key input : Bytes) → length (hmac_sha256 key input) ≡ 32
unfolding hmac_sha256
length-hmac_sha256 key input = length-final _

pub length-hkdf_label :
    (label context : Bytes) (n : ℕ)
    → length (hkdf_label label context n) ≡ 10 + length label + length context
unfolding hkdf_label
length-hkdf_label label context n = simp (length-append, length-store_be16) (omega arith)

length-expand_loop :
    (n : ℕ) (prk info t : Bytes) (ctr left : ℕ)
    → left ≤ n
    → length (expand_loop n prk info t ctr left) ≡ left
unfolding expand_loop
length-expand_loop zero prk info t ctr zero h = refl
length-expand_loop zero prk info t ctr (suc left) h = absurd (omega arith)
length-expand_loop (suc n) prk info t ctr zero h = refl
length-expand_loop (suc n) prk info t ctr (suc left) h = omega (
  arith,
  length-append (take (min (suc left) 32) block)
      (expand_loop n prk info block (u8 (ctr + 1)) (suc left - min (suc left) 32)),
  length-take (min (suc left) 32) block,
  length-hmac_sha256 prk (t ++ info ++ (ctr ∷ [])),
  length-expand_loop n prk info block (u8 (ctr + 1)) (suc left - min (suc left) 32) (omega arith),
)
  where
    block : Bytes
    block = hmac_sha256 prk (t ++ info ++ (ctr ∷ []))

-- A request for at most 255 blocks, with a label of at most 249 and a context of at most 255
-- bytes that are at most 502 bytes together, is served with as many bytes as it asks for.
pub length-hkdf_expand_label_sha256 :
    (secret label context : Bytes) (n : ℕ)
    → length label ≤ 249
    → length context ≤ 255
    → length label + length context ≤ 502
    → n ≤ 8160
    → (out : Bytes) × (hkdf_expand_label_sha256 secret label context n ≡ ok out) × (length out ≡ n)
unfolding hkdf_expand_label_sha256 hkdf_expand_sha256
length-hkdf_expand_label_sha256 secret label context n h k j b = (
  expand_loop n secret (hkdf_label label context n) [] 1 n,
  rw
      (
        le→ltb 255 (6 + length label) (omega arith),
        le→ltb 255 (length context) k,
        le→ltb (255 * 32) n (omega arith),
        le→ltb 512 (length (hkdf_label label context n))
            (omega (arith, length-hkdf_label label context n)),
      )
      (ground arith),
  length-expand_loop n secret (hkdf_label label context n) [] 1 n (omega arith),
)
