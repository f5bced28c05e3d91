-- ===== src/Transcript/Tests.antt =====
-- Three messages, one of them empty.
use xbox360_tls.Base.{◌≡◌, [], ◌∷◌}
use xbox360_tls.Crypto.Sha256.{sha256}
use xbox360_tls.Transcript.{
  snapshot, update_transcript_all, reset_transcript, snapshot-update_transcript_all,
}

snapshot-update_transcript_all_example :
    snapshot (update_transcript_all reset_transcript ((1 ∷ 2 ∷ []) ∷ [] ∷ (3 ∷ []) ∷ []))
    ≡ sha256 (1 ∷ 2 ∷ 3 ∷ [])
snapshot-update_transcript_all_example =
    snapshot-update_transcript_all ((1 ∷ 2 ∷ []) ∷ [] ∷ (3 ∷ []) ∷ [])
