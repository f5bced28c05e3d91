-- ===== src/Transcript.antt =====
-- src/tls/transcript.cpp: `TranscriptHash`, whose state is the `Sha256` it wraps.
mod Tests
use xbox360_tls.Base.{
  ℕ, suc, false, arith, List, [], ◌∷◌, ◌==◌, if◌then◌else◌, ◌≡◌, refl, ap, ◌∙◌, length,
}
use xbox360_tls.Bytes.{Bytes}
use xbox360_tls.Crypto.Sha256.{Sha256, fresh, update, update_loop, final, sha256}
use xbox360_tls.Crypto.Sha256.Stream.{update_all, concat, final-update_all}

abbrev pub TranscriptHash : Type 0
TranscriptHash = Sha256

abbrev pub reset_transcript : TranscriptHash
reset_transcript = fresh

-- `update`: an empty span is not passed on.
unfoldable pub update_transcript : TranscriptHash → Bytes → TranscriptHash
update_transcript t b = if length b == 0 then t else update t b

-- `snapshot`: a copy is finished, and the transcript goes on.
unfoldable pub snapshot : TranscriptHash → Bytes
snapshot t = final t

-- The messages of a handshake, one after the other.
abbrev pub update_transcript_all : TranscriptHash → List Bytes → TranscriptHash
update_transcript_all t [] = t
update_transcript_all t (m ∷ ms) = update_transcript_all (update_transcript t m) ms

-- The messages that are not empty.
abbrev present : List Bytes → List Bytes
present [] = []
present ([] ∷ ms) = present ms
present ((x ∷ m) ∷ ms) = (x ∷ m) ∷ present ms

concat-present : (ms : List Bytes) → concat (present ms) ≡ concat ms
concat-present [] = refl
concat-present ([] ∷ ms) = concat-present ms
concat-present ((x ∷ m) ∷ ms) = rw (concat-present ms) refl

update_all-present :
    (t : TranscriptHash) (ms : List Bytes) → update_transcript_all t ms ≡ update_all t (present ms)
unfolding update_transcript
update_all-present t [] = refl
update_all-present t ([] ∷ ms) = update_all-present t ms
update_all-present t ((x ∷ m) ∷ ms) =
    let e : (suc (length m) == 0) ≡ false = ground arith in
    rw e (update_all-present (update t (x ∷ m)) ms)

-- After any messages, empty ones among them, a snapshot of a reset transcript is the SHA-256 hash
-- of the messages put together.
pub snapshot-update_transcript_all :
    (ms : List Bytes) → snapshot (update_transcript_all reset_transcript ms) ≡ sha256 (concat ms)
unfolding snapshot
snapshot-update_transcript_all ms =
    ap final (update_all-present reset_transcript ms)
    ∙ final-update_all (present ms)
    ∙ ap sha256 (concat-present ms)
