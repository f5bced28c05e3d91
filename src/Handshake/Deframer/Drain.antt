-- ===== src/Handshake/Deframer/Drain.antt =====
-- One run of the receive loop: what it takes out, and what it leaves.
use native.Mathlib.Nat.{le_refl}
use xbox360_tls.Base.{
  ℕ, zero, suc, ◌+◌, ◌≤◌, ◌<◌, ◌≡◌, refl, sym, ap, ◌∙◌, inl, inr, Bool-cases, List, [], ◌∷◌, ◌++◌,
  ltb, ltb→lt, ltb→le, length, drop, length-append, drop-append, arith,
}
use xbox360_tls.Bytes.{Bytes, span, Result, ok, err, buffer_too_small}
use xbox360_tls.Handshake.Message.{
  HandshakeMessage, parse_handshake_message, encode_message, message,
}
use xbox360_tls.Handshake.Message.Laws.{
  parse_handshake_message-encode_message, parse_handshake_message_partial, length-encode_message,
  parse_handshake_message_empty,
}
use xbox360_tls.Handshake.Deframer.{HandshakeDeframer, peek, consume, drain}
use xbox360_tls.Handshake.Deframer.Refine.{
  IsValid, contents, view, queue_consume, peek-contents, consume_refines, consume-IsValid,
}

-- A message to send: its type and its body.
abbrev pub Sent : Type 0
Sent = ℕ × Bytes

-- Every body fits the 24-bit length field.
abbrev pub AllFit : List Sent → Type 0
AllFit [] = Unit
AllFit ((t, body) ∷ ms) = (length body < 16777216) × AllFit ms

abbrev pub encode_all : List Sent → Bytes
encode_all [] = []
encode_all ((t, body) ∷ ms) = encode_message t body ++ encode_all ms

abbrev pub messages : List Sent → List HandshakeMessage
messages [] = []
messages ((t, body) ∷ ms) = message t body ∷ messages ms

abbrev pub concat : List Bytes → Bytes
concat [] = []
concat (bs ∷ rest) = bs ++ concat rest

-- Two splits of one string: the longer front part holds the shorter.
split_front :
    (q rest front later : Bytes)
    → q ++ rest ≡ front ++ later
    → length front ≤ length q
    → (q ≡ front ++ drop (length front) q) × (drop (length front) q ++ rest ≡ later)
split_front q rest [] later e h = (refl, e)
split_front [] rest (x ∷ front) later e h = absurd (omega arith)
split_front (y ∷ q) rest (x ∷ front) later e h =
    let (a, b) = split_front q rest front later (cc e) (omega arith) in (cc (e, a), b)

pub view-eq-ok :
    (r : Result HandshakeDeframer) {q : Bytes}
    → view r ≡ ok q
    → (d : HandshakeDeframer) × (r ≡ ok d) × (contents d ≡ q)
view-eq-ok (ok d) e = (d, refl, cc e)
view-eq-ok (err er) e = cc

-- What `drain` leaves of the messages that the waiting bytes and `rest` make up.
pub record Drained (cap : ℕ) (d : HandshakeDeframer) (fuel : ℕ) (ms : List Sent) (rest : Bytes)
    : Type 0 where
  pub taken : List Sent
  pub later : List Sent
  pub left : HandshakeDeframer
  pub runs : drain fuel d ≡ ok (messages taken, left)
  pub splits : messages ms ≡ messages taken ++ messages later
  pub fits : AllFit later
  pub valid : IsValid cap left
  pub waits : contents left ++ rest ≡ encode_all later
  pub shrinks : length (contents left) ≤ length (contents d)
  pub partial : parse_handshake_message (span (contents left)) ≡ err buffer_too_small

append-eq-nil : (q rest : Bytes) → q ++ rest ≡ [] → q ≡ []
append-eq-nil [] rest e = refl
append-eq-nil (x ∷ q) rest e = cc

shorter :
    (q q' : Bytes) (t : ℕ) (body after : Bytes) {n : ℕ}
    → q ≡ encode_message t body ++ after
    → q' ≡ after
    → length q < suc n
    → length q' < n
shorter q q' t body after e e' h = omega (
  arith,
  ap length e,
  ap length e',
  length-append (encode_message t body) after,
  length-encode_message t body,
)

module _ {cap : ℕ} where
  -- With a whole message in front, `peek` returns it and `consume` leaves what stands behind it.
  next_message :
      {d : HandshakeDeframer} (v : IsValid cap d) (t : ℕ) (body q : Bytes)
      → length body < 16777216
      → contents d ≡ encode_message t body ++ q
      → (peek d ≡ ok (message t body))
        × ((d' : HandshakeDeframer) × (consume d ≡ ok d') × (contents d' ≡ q))
  unfolding peek
  next_message {d} v t body q h e =
      (rw (peek-contents v, parsed), view-eq-ok (consume d) (consume_refines v ∙ consumed))
    where
      parsed : parse_handshake_message (span (contents d)) ≡ ok (message t body, length body + 4)
      parsed = rw e (parse_handshake_message-encode_message t body q h)

      consumed : queue_consume (contents d) ≡ ok q
      consumed =
          rw (parsed, e)
            (ap ok (
              drop-append (length body + 4) (encode_message t body) q
                (sym (length-encode_message t body))))

  -- With a part of one, or nothing, `peek` asks for more.
  no_message :
      {d : HandshakeDeframer} (v : IsValid cap d)
      → parse_handshake_message (span (contents d)) ≡ err buffer_too_small
      → peek d ≡ err buffer_too_small
  unfolding peek
  no_message v e = rw (peek-contents v, e)

  Drained-none :
      {d : HandshakeDeframer} (v : IsValid cap d) (fuel : ℕ) (ms : List Sent) (rest : Bytes)
      → AllFit ms
      → contents d ++ rest ≡ encode_all ms
      → parse_handshake_message (span (contents d)) ≡ err buffer_too_small
      → Drained cap d (suc fuel) ms rest
  unfolding drain
  Drained-none {d} v fuel ms rest f e p = record {
    taken = [];
    later = ms;
    left = d;
    runs = rw (drain, no_message v p);
    splits = refl;
    fits = f;
    valid = v;
    waits = e;
    shrinks = omega arith;
    partial = p;
  }

  Drained-cons :
      {d d' : HandshakeDeframer} (fuel t : ℕ) (body : Bytes) (ms : List Sent) (rest : Bytes)
      → peek d ≡ ok (message t body)
      → consume d ≡ ok d'
      → length (contents d') ≤ length (contents d)
      → Drained cap d' fuel ms rest
      → Drained cap d (suc fuel) ((t, body) ∷ ms) rest
  unfolding drain
  Drained-cons fuel t body ms rest p c h r = record {
    taken = (t, body) ∷ r.taken;
    later = r.later;
    left = r.left;
    runs = rw (drain, p, c, r.runs);
    splits = ap (◌∷◌ (message t body)) r.splits;
    fits = r.fits;
    valid = r.valid;
    waits = r.waits;
    shrinks = omega (arith, r.shrinks, h);
    partial = r.partial;
  }

  pub drain_lem :
      (ms : List Sent) (rest : Bytes) (fuel : ℕ) {d : HandshakeDeframer}
      → IsValid cap d
      → AllFit ms
      → contents d ++ rest ≡ encode_all ms
      → length (contents d) < fuel
      → Drained cap d fuel ms rest
  drain_lem ms rest zero v f e h = absurd (omega arith)
  drain_lem [] rest (suc fuel) {d} v f e h =
      Drained-none v fuel [] rest f e (rw empty parse_handshake_message_empty)
    where
      empty : contents d ≡ []
      empty = append-eq-nil (contents d) rest e
  drain_lem ((t, body) ∷ ms) rest (suc fuel) {d} v f e h =
      elim (Bool-cases (ltb (length (contents d)) (length body + 4))) [
        | inl short ↦ Drained-none v fuel ((t, body) ∷ ms) rest f e (
            parse_handshake_message_partial (contents d) rest t body (encode_all ms) f.0 e
              (ltb→lt _ _ short))
        | inr long ↦
            let (whole, behind) =
              split_front (contents d) rest (encode_message t body) (encode_all ms) e
                (omega (arith, length-encode_message t body, ltb→le _ _ long)) in
            let (p, (d', c, q)) = next_message v t body _ f.0 whole in
            Drained-cons fuel t body ms rest p c
              (omega (arith, shorter (contents d) (contents d') t body _ whole q (le_refl _)))
              (drain_lem ms rest fuel (consume-IsValid v c) f.1 (rw q behind)
                (shorter (contents d) (contents d') t body _ whole q h))
      ]
