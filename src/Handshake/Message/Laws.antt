-- ===== src/Handshake/Message/Laws.antt =====
-- `parse_handshake_message` is the inverse of the wire form.
use native.Mathlib.Numerals.{towards_suc}
use xbox360_tls.Base.{
  ℕ, ◌+◌, ◌≤◌, ◌<◌, ◌≡◌, refl, sym, ap, ◌∙◌, [], ◌∷◌, ◌++◌, length, take, drop, length-append,
  length-take, take-append, drop-append, take-append-drop, append_assoc, get_or-append, ltb,
  Bool-cases, inl, inr, arith,
}
use xbox360_tls.Bytes.{
  Bytes, ByteSpan, span, at, slice, AreBytes, ok, err, buffer_too_small, load_be24, store_be24,
  load_be24-store_be24, load_be24_add, load_be24_cong, length-store_be24,
}
use xbox360_tls.Handshake.Message.{
  HandshakeMessage, parse_handshake_message, encode_message, message,
}

pub length-encode_message :
    (t : ℕ) (body : Bytes) → length (encode_message t body) ≡ length body + 4
length-encode_message t body =
    omega (arith, length-append (store_be24 (length body)) body, length-store_be24 (length body))

-- A message at the front of the buffer is parsed, whatever stands behind it.
pub parse_handshake_message-encode_message :
    (t : ℕ) (body rest : Bytes)
    → length body < 16777216
    → parse_handshake_message (span (encode_message t body ++ rest))
      ≡ ok (message t body, length body + 4)
unfolding parse_handshake_message
parse_handshake_message-encode_message t body rest h = ground (arith, loaded, sizes, cut, whole)
  where
    len : Bytes
    len = store_be24 (length body)

    input : Bytes
    input = t ∷ (len ++ body ++ rest)

    loaded : load_be24 input 1 ≡ length body
    loaded =
        load_be24-store_be24 input 1 (length body) (body ++ rest) h (append_assoc len body rest)

    sizes : length (len ++ body ++ rest) ≡ length body + 3 + length rest
    sizes = omega (
      arith,
      length-append (len ++ body) rest,
      length-append len body,
      length-store_be24 (length body),
    )

    three : 3 ≡ length len
    three = sym (length-store_be24 (length body))

    cut : slice input 4 (length body) ≡ body
    cut =
        ap (λ t. take (length body) (drop 3 t)) (append_assoc len body rest)
        ∙ ap (take (length body)) (drop-append 3 len (body ++ rest) three)
        ∙ take-append (length body) body rest refl

    whole : take (length body + 4) input ≡ t ∷ (len ++ body)
    whole =
        take-append (length body + 4) (encode_message t body) rest
          (omega (arith, length-encode_message t body))

-- The three length bytes of a buffer are the stored form of the length they give.
store_be24-load_be24 :
    (t a b c : ℕ) (rest : Bytes)
    → AreBytes (a ∷ b ∷ c ∷ [])
    → store_be24 (load_be24 (t ∷ a ∷ b ∷ c ∷ rest) 1) ≡ a ∷ b ∷ c ∷ []
unfolding store_be24
store_be24-load_be24 t a b c rest h = ground (arith, load_be24_add (t ∷ a ∷ b ∷ c ∷ rest) 1)

drop_four : (k t a b c : ℕ) (rest : Bytes) → drop (k + 4) (t ∷ a ∷ b ∷ c ∷ rest) ≡ drop k rest
drop_four k t a b c rest = simp towards_suc

-- The message at the front of a long enough buffer.
pub message_in_front :
    (p : Bytes)
    → AreBytes p
    → 4 ≤ length p
    → load_be24 p 1 + 4 ≤ length p
    → (p ≡ encode_message (at p 0) (slice p 4 (load_be24 p 1)) ++ drop (load_be24 p 1 + 4) p)
      × (length (slice p 4 (load_be24 p 1)) ≡ load_be24 p 1)
message_in_front [] h l k = absurd (omega arith)
message_in_front (t ∷ []) h l k = absurd (omega arith)
message_in_front (t ∷ a ∷ []) h l k = absurd (omega arith)
message_in_front (t ∷ a ∷ b ∷ []) h l k = absurd (omega arith)
message_in_front (t ∷ a ∷ b ∷ c ∷ rest) h l k = (whole, sized)
  where
    n : ℕ
    n = load_be24 (t ∷ a ∷ b ∷ c ∷ rest) 1

    sized : length (take n rest) ≡ n
    sized = omega (arith, length-take n rest)

    stored : store_be24 (length (take n rest)) ≡ a ∷ b ∷ c ∷ []
    stored =
        ap store_be24 sized ∙ store_be24-load_be24 t a b c rest (h.1.0, (h.1.1.0, (h.1.1.1.0, tt)))

    whole :
        t ∷ a ∷ b ∷ c ∷ rest
        ≡ (t ∷ (store_be24 (length (take n rest)) ++ take n rest))
          ++ drop (n + 4) (t ∷ a ∷ b ∷ c ∷ rest)
    whole = rw (stored, drop_four n t a b c rest, take-append-drop n rest)

-- What is parsed is what stood at the front: the message's wire form, and `consumed` its length.
pub parse_handshake_message_sound :
    (input : ByteSpan) {m : HandshakeMessage} {n : ℕ}
    → AreBytes input.bytes
    → parse_handshake_message input ≡ ok (m, n)
    → (input.bytes ≡ encode_message m.type m.body.bytes ++ drop n input.bytes)
      × (m ≡ message m.type m.body.bytes)
      × (n ≡ length m.body.bytes + 4)
unfolding parse_handshake_message
parse_handshake_message_sound input {m} {n} h e = ground (
  arith,
  message_in_front input.bytes h,
  length-encode_message (at input.bytes 0) (slice input.bytes 4 (load_be24 input.bytes 1)),
  take-append n (encode_message m.type m.body.bytes) (drop n input.bytes),
)

-- The bytes consumed are there, and are at least the header.
pub parse_handshake_message_bounds :
    (input : ByteSpan) {m : HandshakeMessage} {n : ℕ}
    → parse_handshake_message input ≡ ok (m, n)
    → (4 ≤ n) × (n ≤ length input.bytes)
unfolding parse_handshake_message
parse_handshake_message_bounds input e = ground arith

load_be24-append : (q rest : Bytes) → 4 ≤ length q → load_be24 (q ++ rest) 1 ≡ load_be24 q 1
load_be24-append q rest h =
    load_be24_cong (q ++ rest) q (get_or-append 1 q rest 0 (omega arith))
      (get_or-append 2 q rest 0 (omega arith)) (get_or-append 3 q rest 0 (omega arith))

-- A part of a message that is not the whole asks for more bytes.
pub parse_handshake_message_partial :
    (q rest : Bytes) (t : ℕ) (body later : Bytes)
    → length body < 16777216
    → q ++ rest ≡ encode_message t body ++ later
    → length q < length body + 4
    → parse_handshake_message (span q) ≡ err buffer_too_small
unfolding parse_handshake_message
parse_handshake_message_partial q rest t body later h e short =
    elim (Bool-cases (ltb (length q) 4)) [
      | inl few ↦ ground (arith, few)
      | inr four ↦ ground (arith, four, loaded (ground (arith, four)))
    ]
  where
    loaded : 4 ≤ length q → load_be24 q 1 ≡ length body
    loaded l =
        sym (load_be24-append q rest l)
        ∙ ap (λ p. load_be24 p 1) e
        ∙ load_be24-store_be24 (encode_message t body ++ later) 1 (length body) (body ++ later) h
            (append_assoc (store_be24 (length body)) body later)

pub parse_handshake_message_empty : parse_handshake_message (span []) ≡ err buffer_too_small
unfolding parse_handshake_message
parse_handshake_message_empty = refl
