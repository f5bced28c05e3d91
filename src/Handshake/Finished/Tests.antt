-- ===== src/Handshake/Finished/Tests.antt =====
-- A Finished message under a secret and a transcript hash of 32 bytes.
use xbox360_tls.Base.{ℕ, ◌≡◌, ◌↔◌, refl, false, [], ◌∷◌, ◌++◌, replicate, arith}
use xbox360_tls.Bytes.{Bytes, AreBytes-replicate, MutableByteSpan, span, ok}
use xbox360_tls.Handshake.Message.{HandshakeMessage, message, parse_handshake_message}
use xbox360_tls.Handshake.Finished.{verify_finished_sha256}
use xbox360_tls.Handshake.Finished.Laws.{
  verify_data, build_finished_sha256_ok, verify_finished_sha256_iff, verify-build_finished,
}

abbrev secret : Bytes
secret = replicate 32 1

abbrev th : Bytes
th = replicate 32 2

verify_finished_sha256_iff_example :
    (verify_finished_sha256 (span secret) (span th) (message 20 (replicate 32 0)) ≡ ok tt)
    ↔ ((◌≡◌ {A = ℕ} 20 20) × (false ≡ false) × (replicate 32 0 ≡ verify_data secret th))
verify_finished_sha256_iff_example =
    verify_finished_sha256_iff secret th (message 20 (replicate 32 0)) refl refl
      (AreBytes-replicate 32 0 (omega arith))

abbrev room : MutableByteSpan
room = record { is_null = false; capacity = 64 }

verify-build_finished_example :
    (m : HandshakeMessage) × (parse_handshake_message
        (span ((20 ∷ 0 ∷ 0 ∷ 32 ∷ []) ++ verify_data secret th))
      ≡ ok (m, 36))
    × (verify_finished_sha256 (span secret) (span th) m ≡ ok tt)
verify-build_finished_example =
    verify-build_finished secret th room refl refl
      (build_finished_sha256_ok secret th 64 refl refl (omega arith))
