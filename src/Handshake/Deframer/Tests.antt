-- ===== src/Handshake/Deframer/Tests.antt =====
-- Two messages in three records that cut the first one.
use xbox360_tls.Base.{◌≡◌, refl, List, [], ◌∷◌, replicate, arith}
use xbox360_tls.Bytes.{Bytes, span, ok, store_be24}
use xbox360_tls.Handshake.Deframer.{HandshakeDeframer, append, consume, reset, feed, buffered}
use xbox360_tls.Handshake.Deframer.Refine.{
  IsValid, contents, view, queue_append, queue_consume, append_refines, consume_refines,
}
use xbox360_tls.Handshake.Deframer.Drain.{Sent, concat, encode_all, messages}
use xbox360_tls.Handshake.Deframer.Reassembly.{feed_reassembles}

abbrev demo : HandshakeDeframer
demo = record { storage = span (20 ∷ 0 ∷ 0 ∷ 1 ∷ 9 ∷ replicate 27 0); used = 5 }

demo-IsValid : IsValid 32 demo
demo-IsValid = record { present = refl; sized = refl; fits = omega arith }

append_refines_example :
    view (append demo (span (1 ∷ 2 ∷ []))) ≡ queue_append 32 (contents demo) (1 ∷ 2 ∷ [])
append_refines_example = append_refines demo-IsValid (1 ∷ 2 ∷ [])

consume_refines_example : view (consume demo) ≡ queue_consume (contents demo)
consume_refines_example = consume_refines demo-IsValid

abbrev sent : List Sent
sent = (20, 9 ∷ []) ∷ (24, []) ∷ []

abbrev records : List Bytes
records = (20 ∷ 0 ∷ []) ∷ (0 ∷ 1 ∷ 9 ∷ 24 ∷ []) ∷ (0 ∷ 0 ∷ 0 ∷ []) ∷ []

joined : concat records ≡ encode_all sent
unfolding store_be24
joined = refl

feed_reassembles_example :
    (last : HandshakeDeframer) × (feed (reset demo) records ≡ ok (messages sent, last))
    × (buffered last ≡ 0)
feed_reassembles_example =
    feed_reassembles 32 demo records sent demo-IsValid (omega arith, (omega arith, tt)) joined
      (omega arith)
