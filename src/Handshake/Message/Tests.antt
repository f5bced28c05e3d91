-- ===== src/Handshake/Message/Tests.antt =====
-- A message of one byte, and one byte behind it.
use xbox360_tls.Base.{ℕ, ◌≡◌, refl, [], ◌∷◌, ◌++◌, ◌+◌, length, drop, arith}
use xbox360_tls.Bytes.{Bytes, span, ok, load_be24, store_be24}
use xbox360_tls.Handshake.Message.{parse_handshake_message, encode_message, message}
use xbox360_tls.Handshake.Message.Laws.{
  parse_handshake_message-encode_message, parse_handshake_message_sound,
}

parse_handshake_message-encode_message_example :
    parse_handshake_message (span (encode_message 20 (9 ∷ []) ++ (7 ∷ [])))
    ≡ ok (message 20 (9 ∷ []), 5)
parse_handshake_message-encode_message_example =
    parse_handshake_message-encode_message 20 (9 ∷ []) (7 ∷ []) (omega arith)

abbrev wire : Bytes
wire = 20 ∷ 0 ∷ 0 ∷ 1 ∷ 9 ∷ 7 ∷ []

parsed : parse_handshake_message (span wire) ≡ ok (message 20 (9 ∷ []), 5)
unfolding parse_handshake_message load_be24 store_be24
parsed = refl

parse_handshake_message_sound_example :
    (wire ≡ encode_message 20 (9 ∷ []) ++ drop 5 wire)
    × (message 20 (9 ∷ []) ≡ message 20 (9 ∷ []))
    × (5 ≡ length {A = ℕ} (9 ∷ []) + 4)
parse_handshake_message_sound_example =
    parse_handshake_message_sound (span wire)
      (omega arith, (omega arith, (omega arith, (omega arith, (omega arith, (omega arith, tt))))))
      parsed
