-- ===== src/X509/Der/Tests.antt =====
-- An octet string of two bytes behind another byte.
use xbox360_tls.Base.{ℕ, ◌+◌, ◌^◌, ◌≤◌, ◌<◌, ◌≡◌, refl, [], ◌∷◌, ◌++◌, length, drop, arith}
use xbox360_tls.Bytes.{Bytes, AreBytes, span, ok}
use xbox360_tls.X509.Der.{DerTlv, der_tlv, der_length}
use xbox360_tls.X509.Der.Lengths.{encode_length}
use xbox360_tls.X509.Der.Laws.{encode_tlv, tlv, der_tlv-encode_tlv, der_tlv_sound}

abbrev wire : Bytes
wire = 5 ∷ 4 ∷ 2 ∷ 7 ∷ 8 ∷ 9 ∷ []

wire_bytes : AreBytes wire
wire_bytes =
    (omega arith, (omega arith, (omega arith, (omega arith, (omega arith, (omega arith, tt))))))

encoded : drop 1 wire ≡ encode_tlv 4 (7 ∷ 8 ∷ []) ++ (9 ∷ [])
unfolding encode_length
encoded = refl

der_tlv-encode_tlv_example :
    der_tlv (span wire) 1 ≡ ok (tlv 4 (7 ∷ 8 ∷ []), 1 + length (encode_tlv 4 (7 ∷ 8 ∷ [])))
der_tlv-encode_tlv_example =
    der_tlv-encode_tlv wire 1 4 (7 ∷ 8 ∷ []) (9 ∷ []) wire_bytes encoded (omega arith)

abbrev element : DerTlv
element = record { tag = 4; full = span (4 ∷ 2 ∷ 7 ∷ 8 ∷ []); value = span (7 ∷ 8 ∷ []) }

read : der_tlv (span wire) 1 ≡ ok (element, 5)
unfolding der_tlv der_length
read = refl

der_tlv_sound_example :
    (element ≡ tlv 4 (7 ∷ 8 ∷ []))
    × (drop 1 wire ≡ encode_tlv 4 (7 ∷ 8 ∷ []) ++ drop 5 wire)
    × (length {A = ℕ} (7 ∷ 8 ∷ []) < 2 ^ 32)
    × (1 < 5)
    × (5 ≤ length wire)
der_tlv_sound_example = der_tlv_sound wire 1 wire_bytes read
