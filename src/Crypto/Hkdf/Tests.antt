-- ===== src/Crypto/Hkdf/Tests.antt =====
-- Requests to HKDF that are served.
use xbox360_tls.Base.{◌≡◌, [], ◌∷◌, length, take, replicate, arith}
use xbox360_tls.Bytes.{Bytes, ok}
use xbox360_tls.Crypto.Hkdf.{hkdf_expand_sha256, hkdf_expand_label_sha256}
use xbox360_tls.Crypto.Hkdf.Sizes.{length-hkdf_expand_label_sha256}
use xbox360_tls.Crypto.Hkdf.Expansion.{blocks_from, hkdf_expand_sha256_lem}

hkdf_expand_sha256_lem_example :
    hkdf_expand_sha256 (replicate 32 1) (7 ∷ []) 40
    ≡ ok (take 40 (blocks_from (replicate 32 1) (7 ∷ []) 0 255))
hkdf_expand_sha256_lem_example =
    hkdf_expand_sha256_lem (replicate 32 1) (7 ∷ []) 40 (omega arith) (omega arith)

length-hkdf_expand_label_sha256_example :
    (out : Bytes) × (hkdf_expand_label_sha256 (replicate 32 1) (0x69 ∷ 0x76 ∷ []) [] 12 ≡ ok out)
    × (length out ≡ 12)
length-hkdf_expand_label_sha256_example =
    length-hkdf_expand_label_sha256 (replicate 32 1) (0x69 ∷ 0x76 ∷ []) [] 12 (omega arith)
      (omega arith) (omega arith) (omega arith)
