-- ===== src/ClientHello/Framing.antt =====
-- The length of the message and of its extensions, which are written last.
use xbox360_tls.Base.{
  ℕ, suc, ◌+◌, ◌-◌, ◌≤◌, ◌<◌, ◌≡◌, refl, sym, ap, append-nil, ◌∙◌, true, false, [], ◌∷◌, ◌++◌,
  length, length-append, length-take, length-drop, take, drop, le→ltb, ltb→le, ltb, Bool-cases, inl,
  inr, arith,
}
use xbox360_tls.Bytes.{
  Bytes, MutableByteSpan, span, u16, ok, Result-cases, store_be16, store_be24, length-store_be16,
  length-store_be24,
}
use xbox360_tls.Handshake.Message.{parse_handshake_message, encode_message, message}
use xbox360_tls.Handshake.Message.Laws.{parse_handshake_message-encode_message}
use xbox360_tls.ClientHello.Writing.{
  Writer, put, puts, patch16, patch24, Grows, Grows-trans, puts-Grows,
}
use xbox360_tls.ClientHello.Message.{hello_extensions-Grows}
use xbox360_tls.ClientHello.{
  ClientHelloParams, front_fields, hello_front, hello_extensions, build_client_hello,
}

-- The first four bytes, the length still zero.
abbrev opening : Bytes → Bytes
opening ys = 1 ∷ 0 ∷ 0 ∷ 0 ∷ ys

abbrev start : ℕ → Writer
start n = record { written = []; capacity = n; fine = true }

abbrev opened : ℕ → Writer
opened n = puts (start n) ((1 ∷ []) ∷ store_be24 0 ∷ [])

opened_written : (n : ℕ) → (opened n).fine ≡ true → ((opened n).written ≡ opening []) × (4 ≤ n)
unfolding put store_be24
opened_written n e = (ground arith, ground arith)

patch16-opening :
    (w : Writer) (ys : Bytes) (k v : ℕ)
    → w.written ≡ opening ys
    → (zs : Bytes) × ((patch16 w (suc (suc (suc (suc k)))) v).written ≡ opening zs)
      × (length zs ≡ length ys)
unfolding patch16
patch16-opening w ys k v e =
    elim (Bool-cases (ltb (length w.written) (suc (suc (suc (suc k))) + 2))) [
      | inl short ↦ (ys, rw short e, refl)
      | inr long ↦
          let behind : suc (suc (suc (suc k))) + 2 ≡ suc (suc (suc (suc (k + 2)))) = omega arith in
          let inside : k + 2 ≤ length ys = omega (arith, ltb→le _ _ long, ap length e) in
          (
            take k ys ++ (store_be16 v ++ drop (k + 2) ys),
            rw (long, length-store_be16 v, behind, e) refl,
            omega (
              arith,
              inside,
              length-append (take k ys) (store_be16 v ++ drop (k + 2) ys),
              length-append (store_be16 v) (drop (k + 2) ys),
              length-store_be16 v,
              length-take k ys,
              length-drop (k + 2) ys,
            ),
          )
    ]

patch24-opening :
    (w : Writer) (ys : Bytes) (v : ℕ)
    → w.written ≡ opening ys
    → (patch24 w 1 v).written ≡ 1 ∷ (store_be24 v ++ ys)
unfolding patch24
patch24-opening w ys v e =
    let long : ltb (length w.written) (1 + 3) ≡ false = le→ltb _ _ (omega (arith, ap length e)) in
    rw (long, length-store_be24, e) refl

module _ (p : ClientHelloParams) (n : ℕ) where
  abbrev front : Writer
  front = hello_front p (opened n)

  abbrev begun : Writer
  begun = puts front (store_be16 0 ∷ [])

  begun-Grows : Grows (opened n) front × Grows (opened n) begun
  unfolding hello_front
  begun-Grows =
      let g = puts-Grows (opened n) (front_fields p) in
      (g, Grows-trans g (puts-Grows front (store_be16 0 ∷ [])))

  abbrev patched : Writer → Writer
  patched w = patch16 w (length front.written) (u16 (length w.written - length begun.written))

  built_from :
      (w : Writer) {built : Bytes}
      → hello_extensions p begun ≡ ok w
      → build_client_hello p (record { is_null = false; capacity = n }) ≡ ok built
      → (w.fine ≡ true)
        × (built ≡ (patch24 (patched w) 1 (length (patched w).written - 4)).written)
        × (length (patched w).written - 4 ≤ 0xffffff)
  unfolding build_client_hello
  built_from w ew e = (ground (arith, e, ew), ground (arith, e, ew), ground (arith, e, ew))

  built_message :
      (w : Writer) {built : Bytes}
      → hello_extensions p begun ≡ ok w
      → build_client_hello p (record { is_null = false; capacity = n }) ≡ ok built
      → (body : Bytes) × (built ≡ encode_message 1 body)
        × (length body < 16777216)
        × (length built ≤ n)
  built_message w {built} ew e =
      let (fine, is, bound) = built_from w ew e in
      let (gf, gb) = begun-Grows in
      let g = Grows-trans gb (hello_extensions-Grows p begun ew) in
      let from_start = Grows-trans (puts-Grows (start n) ((1 ∷ []) ∷ store_be24 0 ∷ [])) g in
      let (first, room) = opened_written n (g.sticky fine) in
      let all : w.written ≡ opening g.more = g.grown ∙ ap (λ z. z ++ g.more) first in
      let place : length front.written ≡ suc (suc (suc (suc (length gf.more)))) =
        ap length (gf.grown ∙ ap (λ z. z ++ gf.more) first) in
      let (zs, ez, lz) =
        patch16-opening w g.more (length gf.more) (u16 (length w.written - length begun.written))
          all in
      let ep : (patched w).written ≡ opening zs =
        ap (λ i. (patch16 w i (u16 (length w.written - length begun.written))).written) place
        ∙ ez in
      let body : length (patched w).written - 4 ≡ length zs = omega (arith, ap length ep) in
      let whole : built ≡ encode_message 1 zs =
        is
        ∙ ap (λ m. (patch24 (patched w) 1 m).written) body
        ∙ patch24-opening (patched w) zs (length zs) ep in
      (
        zs,
        whole,
        omega (arith, bound, body),
        omega (
          arith,
          ap length whole,
          length-append (store_be24 (length zs)) zs,
          length-store_be24 (length zs),
          lz,
          ap length all,
          from_start.same_room,
          from_start.fits (omega arith),
        ),
      )

-- A ClientHello that is built fits the buffer, and is one handshake message of that type: the
-- parser reads it back in full.
pub parse-build_client_hello :
    (p : ClientHelloParams) (out : MutableByteSpan) {built : Bytes}
    → build_client_hello p out ≡ ok built
    → (body : Bytes) × (parse_handshake_message (span built) ≡ ok (message 1 body, length built))
      × (built ≡ encode_message 1 body)
      × (length built ≤ out.capacity)
unfolding build_client_hello
parse-build_client_hello p out {built} e =
    elim (Result-cases (hello_extensions p (begun p out.capacity))) [
      | inl (w, ew) ↦
          let (body, whole, short, fits) = built_message p out.capacity w ew e' in
          let sized : length built ≡ length body + 4 = omega (
            arith,
            ap length whole,
            length-append (store_be24 (length body)) body,
            length-store_be24 (length body),
          ) in
          (body, parsed body short whole sized, whole, fits)
      | inr (er, ew) ↦ absurd (ground (arith, e', ew))
    ]
  where
    parsed :
        (body : Bytes)
        → length body < 16777216
        → built ≡ encode_message 1 body
        → length built ≡ length body + 4
        → parse_handshake_message (span built) ≡ ok (message 1 body, length built)
    parsed body short whole sized =
        ap (λ b. parse_handshake_message (span b))
          (whole ∙ sym (append-nil (encode_message 1 body)))
        ∙ parse_handshake_message-encode_message 1 body [] short
        ∙ ap (λ k. ok (message 1 body, k)) (sym sized)

    present : out.is_null ≡ false
    present = ground (arith, e)

    e' : build_client_hello p (record { is_null = false; capacity = out.capacity }) ≡ ok built
    e' =
        ap (λ b. build_client_hello p (record { is_null = b; capacity = out.capacity }))
          (sym present)
        ∙ e
