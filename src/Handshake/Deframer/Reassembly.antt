-- ===== src/Handshake/Deframer/Reassembly.antt =====
-- Messages come out of the deframer whole and in order, however the records cut them.
use xbox360_tls.Base.{
  ℕ, ◌+◌, ◌≤◌, ◌≡◌, refl, sym, ap, ◌∙◌, List, [], ◌∷◌, ◌++◌, le→ltb, length, length-append,
  append_assoc, append-nil, arith,
}
use xbox360_tls.Bytes.{Bytes, span, ok, err, buffer_too_small}
use xbox360_tls.Handshake.Message.{parse_handshake_message}
use xbox360_tls.Handshake.Message.Laws.{
  parse_handshake_message-encode_message, parse_handshake_message_empty,
}
use xbox360_tls.Handshake.Deframer.{HandshakeDeframer, append, feed, reset, buffered}
use xbox360_tls.Handshake.Deframer.Refine.{
  IsValid, contents, length-contents, append_refines, append-IsValid,
}
use xbox360_tls.Handshake.Deframer.Drain.{
  Sent, AllFit, encode_all, messages, concat, view-eq-ok, drain_lem,
}

-- Bytes that are whole messages, with no whole one in front, are none.
nothing_left :
    (q : Bytes) (ms : List Sent)
    → AllFit ms
    → q ≡ encode_all ms
    → parse_handshake_message (span q) ≡ err buffer_too_small
    → ms ≡ []
nothing_left q [] f e p = refl
nothing_left q ((t, body) ∷ ms) f e p = cc (
  ap (λ x. parse_handshake_message (span x)) e,
  parse_handshake_message-encode_message t body (encode_all ms) f.0,
)

module _ {cap : ℕ} where
  room :
      {d : HandshakeDeframer} (v : IsValid cap d) (bs : Bytes)
      → length (contents d) + length bs ≤ cap
      → (d' : HandshakeDeframer) × (append d (span bs) ≡ ok d') × (contents d' ≡ contents d ++ bs)
  room {d} v bs h = view-eq-ok (append d (span bs)) (append_refines v bs ∙ rw (le→ltb _ _ h) refl)

  feed_lem :
      (records : List Bytes) (ms : List Sent) {d : HandshakeDeframer}
      → IsValid cap d
      → AllFit ms
      → contents d ++ concat records ≡ encode_all ms
      → length (contents d ++ concat records) ≤ cap
      → parse_handshake_message (span (contents d)) ≡ err buffer_too_small
      → (last : HandshakeDeframer) × (feed d records ≡ ok (messages ms, last))
        × (contents last ≡ [])
        × IsValid cap last
  unfolding feed
  feed_lem [] ms {d} v f e h p =
      let whole : contents d ≡ encode_all ms = sym (append-nil (contents d)) ∙ e in
      let none_left = nothing_left (contents d) ms f whole p in
      (d, ap (λ l. ok (messages l, d)) (sym none_left), whole ∙ ap encode_all none_left, v)
  feed_lem (bs ∷ records) ms {d} v f e h p =
      let (d', a, c) = room v bs (omega (arith, bound)) in
      let v' = append-IsValid v bs a in
      let joined : contents d' ++ concat records ≡ contents d ++ (bs ++ concat records) =
        ap (λ q. q ++ concat records) c ∙ append_assoc (contents d) bs (concat records) in
      let r =
        drain_lem ms (concat records) (d'.used + 1) v' f (joined ∙ e)
          (omega (arith, length-contents v')) in
      let (last, runs, none_left, valid) =
        feed_lem records r.later r.valid r.fits r.waits
          (omega (
            arith,
            r.shrinks,
            bound,
            ap length c,
            length-append (contents d) bs,
            length-append (contents r.left) (concat records),
          ))
          r.partial in
      (last, rw (a, r.runs, runs, r.splits), none_left, valid)
    where
      bound : length (contents d) + length bs + length (concat records) ≤ cap
      bound = omega (
        arith,
        h,
        length-append (contents d) (bs ++ concat records),
        length-append bs (concat records),
      )

-- A deframer that was reset, given records that together are the wire forms of `ms`, hands out
-- exactly those messages, in order, and holds nothing at the end. The records may cut messages
-- anywhere and may hold several; all that is asked is that the bytes fit the buffer together.
pub feed_reassembles :
    (cap : ℕ) (d : HandshakeDeframer) (records : List Bytes) (ms : List Sent)
    → IsValid cap d
    → AllFit ms
    → concat records ≡ encode_all ms
    → length (concat records) ≤ cap
    → (last : HandshakeDeframer) × (feed (reset d) records ≡ ok (messages ms, last))
      × (buffered last ≡ 0)
unfolding reset buffered
feed_reassembles cap d records ms v f e h =
    let start : IsValid cap (record d { used = 0 }) = record {
      present = v.present;
      sized = v.sized;
      fits = omega arith;
    } in
    let (last, runs, none_left, valid) =
      feed_lem records ms start f e h parse_handshake_message_empty in
    (last, runs, omega (arith, length-contents valid, ap length none_left))
