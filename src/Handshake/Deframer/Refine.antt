-- ===== src/Handshake/Deframer/Refine.antt =====
-- The deframer refines a bounded queue of bytes.
use xbox360_tls.Base.{
  ℕ, ◌+◌, ◌-◌, ◌≤◌, ◌≡◌, refl, sym, ap, ◌∙◌, false, ◌++◌, ltb, if◌then◌else◌, length, take, drop,
  length-append, length-take, length-drop, take-append, append_assoc, arith, drop-take, Bool, inl,
  inr, Bool-cases,
}
use xbox360_tls.Bytes.{
  Bytes, span, size, slice, buffer_too_small, Result, ok, err, ◌>>=◌, Result-cases,
}
use xbox360_tls.Handshake.Message.{parse_handshake_message}
use xbox360_tls.Handshake.Message.Laws.{parse_handshake_message_bounds}
use xbox360_tls.Handshake.Deframer.{HandshakeDeframer, write_at, append, consume, used_span}

pub record IsValid (cap : ℕ) (d : HandshakeDeframer) : Type 0 where
  pub present : d.storage.is_null ≡ false
  pub sized : size d.storage ≡ cap
  pub fits : d.used ≤ cap

-- the bytes that wait
abbrev pub contents : HandshakeDeframer → Bytes
contents d = take d.used d.storage.bytes

abbrev pub view : Result HandshakeDeframer → Result Bytes
view (ok d) = ok (contents d)
view (err e) = err e

-- The queue that the deframer stands for.
abbrev pub queue_append : ℕ → Bytes → Bytes → Result Bytes
queue_append cap q bs =
    if ltb cap (length q + length bs) then err buffer_too_small else ok (q ++ bs)

abbrev pub queue_consume : Bytes → Result Bytes
queue_consume q = do (m, n) ← parse_handshake_message (span q); ok (drop n q)

length-write_at :
    (p : Bytes) (off : ℕ) (bs : Bytes)
    → off + length bs ≤ length p
    → length (write_at p off bs) ≡ length p
length-write_at p off bs h = omega (
  arith,
  length-append (take off p) (bs ++ drop (off + length bs) p),
  length-append bs (drop (off + length bs) p),
  length-take off p,
  length-drop (off + length bs) p,
)

-- What a write leaves in front of its end.
take-write_at :
    (p : Bytes) (off n : ℕ) (bs : Bytes)
    → off + length bs ≤ length p
    → n ≡ off + length bs
    → take n (write_at p off bs) ≡ take off p ++ bs
take-write_at p off n bs h e =
    ap (take n) (sym (append_assoc (take off p) bs (drop (off + length bs) p)))
    ∙ take-append n (take off p ++ bs) (drop (off + length bs) p)
        (omega (arith, length-append (take off p) bs, length-take off p))

-- The buffer that `consume` leaves.
abbrev moved : Bytes → ℕ → ℕ → Bytes
moved p u n = if ltb n u then write_at p 0 (slice p n (u - n)) else p

length-slice : (p : Bytes) (u n : ℕ) → n ≤ u → u ≤ length p → length (slice p n (u - n)) ≡ u - n
length-slice p u n h k = omega (arith, length-take (u - n) (drop n p), length-drop n p)

take-moved :
    (p : Bytes) (u n : ℕ) → n ≤ u → u ≤ length p → take (u - n) (moved p u n) ≡ drop n (take u p)
take-moved p u n h k = elim (Bool-cases (ltb n u)) [
  | inl more ↦ rw more (
      take-write_at p 0 (u - n) (slice p n (u - n)) (omega (arith, length-slice p u n h k))
        (omega (arith, length-slice p u n h k))
      ∙ sym (drop-take n u p))
  | inr all ↦ rw (all, drop-take n u p) (let e : u - n ≡ 0 = ground arith in rw e)
]

length-moved : (p : Bytes) (u n : ℕ) → n ≤ u → u ≤ length p → length (moved p u n) ≡ length p
length-moved p u n h k = elim (Bool-cases (ltb n u)) [
  | inl more ↦
      rw more (length-write_at p 0 (slice p n (u - n)) (omega (arith, length-slice p u n h k)))
  | inr all ↦ rw all refl
]

module _ {cap : ℕ} {d : HandshakeDeframer} (v : IsValid cap d) where
  pub length-contents : length (contents d) ≡ d.used
  length-contents = omega (arith, length-take d.used d.storage.bytes, v.sized, v.fits)

  -- `append` keeps the bytes that wait and adds the new ones behind them, or is refused for want
  -- of room and changes nothing.
  pub append_refines : (bs : Bytes) → view (append d (span bs)) ≡ queue_append cap (contents d) bs
  unfolding append
  append_refines bs = ground (
    arith,
    length-contents,
    v.present,
    v.sized,
    v.fits,
    take-write_at d.storage.bytes d.used (d.used + length bs) bs,
  )

  pub append-IsValid :
      (bs : Bytes) {d' : HandshakeDeframer} → append d (span bs) ≡ ok d' → IsValid cap d'
  unfolding append
  append-IsValid bs e =
      ground (arith, v.present, v.sized, v.fits, length-write_at d.storage.bytes d.used bs)

  pub peek-contents : used_span d ≡ span (contents d)
  peek-contents = ap (λ (b : Bool). record { is_null = b; bytes = contents d }) v.present

  -- `consume` drops the message in front and keeps what stands behind it.
  pub consume_refines : view (consume d) ≡ queue_consume (contents d)
  unfolding consume
  consume_refines = elim (Result-cases (parse_handshake_message (used_span d))) [
    | inl ((m, n), e) ↦ ground (
      arith,
      e,
      peek-contents,
      parse_handshake_message_bounds (used_span d) e,
      length-contents,
      v.sized,
      v.fits,
      take-moved d.storage.bytes d.used n,
    )
    | inr (er, e) ↦ ground (arith, e, peek-contents)
  ]

  pub consume-IsValid : {d' : HandshakeDeframer} → consume d ≡ ok d' → IsValid cap d'
  unfolding consume
  consume-IsValid e = elim (Result-cases (parse_handshake_message (used_span d))) [
    | inl ((m, n), p) ↦ ground (
      arith,
      p,
      parse_handshake_message_bounds (used_span d) p,
      length-contents,
      v.present,
      v.sized,
      v.fits,
      length-moved d.storage.bytes d.used n,
    )
    | inr (er, p) ↦ ground (arith, p)
  ]
