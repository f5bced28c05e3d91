-- ===== src/Connection/Reading.antt =====
-- What is read from a stream of bytes, however the stream cuts them.
use xbox360_tls.Base.{
  ℕ, zero, suc, ◌+◌, ◌-◌, ◌≤◌, ◌<◌, ◌≡◌, refl, sym, ap, ◌∙◌, true, false, ◌||◌, [], ◌∷◌, ◌++◌,
  length, take, drop, ltb, lt→ltb, le→ltb, ◌==◌, length-append, length-drop, append_assoc,
  append-nil, take-append, take-append_le, drop-append, drop-append_le, take-append-drop, arith,
}
use xbox360_tls.Bytes.{Bytes, span, Result, ok}
use xbox360_tls.Record.{RecordHeader, parse_record_header}
use xbox360_tls.Connection.{World, Host}
use xbox360_tls.Connection.Records.{recv_until, read_record}

-- A stream that hands out the bytes that it holds, in their order: some of them at each call, at most
-- as many as there is room for.
pub record IsByteStream {S : Type 0} (host : Host S) : Type 0 where
  pub holds : S → Bytes
  pub received :
      (s : S) (room : ℕ)
      → 0 < room
      → 0 < length (holds s)
      → (s' : S) × (more : Bytes) × (host.stream.recv_some s room ≡ (s', ok more))
        × (holds s ≡ more ++ holds s')
        × (0 < length more)
        × (length more ≤ room)

-- What a call has read, and what is left in the stream. The client is as before.
abbrev pub HasRead :
    {S : Type 0} {host : Host S}
    → IsByteStream host
    → World S
    → Bytes
    → Bytes
    → World S × Result Bytes
    → Type 0
HasRead {S = S} stream w bytes rest r =
    (s : S) × (r ≡ (record w { stream = s }, ok bytes)) × (stream.holds s ≡ rest)

-- A list that starts like another one, in two ways.
split_at :
    (all rest more left : Bytes)
    → length more ≤ length all
    → all ++ rest ≡ more ++ left
    → (more ++ drop (length more) all ≡ all) × (left ≡ drop (length more) all ++ rest)
split_at all rest more left narrow e =
    let first : take (length more) all ≡ more =
      sym (take-append_le (length more) all rest narrow)
      ∙ ap (take (length more)) e
      ∙ take-append (length more) more left refl in
    (
      ap (λ z. z ++ drop (length more) all) (sym first) ∙ take-append-drop (length more) all,
      sym (drop-append (length more) more left refl)
          ∙ ap (drop (length more)) (sym e)
          ∙ drop-append_le (length more) all rest narrow,
    )

recv_until_reads :
    {S : Type 0} (host : Host S) (stream : IsByteStream host) (n total : ℕ)
    (have bytes rest : Bytes) (w : World S)
    → stream.holds w.stream ≡ bytes ++ rest
    → length have + length bytes ≡ total
    → length bytes ≤ n
    → HasRead stream w (have ++ bytes) rest (recv_until host n total have w)
unfolding recv_until
recv_until_reads host stream zero total have [] rest w e l u =
    (w.stream, ap (λ z. (w, ok z)) (sym (append-nil have)), e)
recv_until_reads host stream zero total have (x ∷ bytes) rest w e l u = absurd (omega (arith, u))
recv_until_reads host stream (suc n) total have [] rest w e l u =
    let full : ltb (length have) total ≡ false = le→ltb (length have) total (omega (arith, l)) in
    (w.stream, rw full (ap (λ z. (w, ok z)) (sym (append-nil have))), e)
recv_until_reads {S = S} host stream (suc n) total have (x ∷ bytes) rest w e l u =
    let all = x ∷ bytes in
    let short : ltb (length have) total ≡ true = lt→ltb (length have) total (omega (arith, l)) in
    let (s', more, call, split, some_more, fits) =
      stream.received w.stream (total - length have) (omega (arith, l))
        (omega (arith, ap length e, length-append all rest)) in
    let narrow : length more ≤ length all = omega (arith, fits, l) in
    let (first, after) = split_at all rest more (stream.holds s') narrow (sym e ∙ split) in
    let whole : (have ++ more) ++ drop (length more) all ≡ have ++ all =
      append_assoc have more (drop (length more) all) ∙ ap (λ z. have ++ z) first in
    let (s'', reads, left) =
      recv_until_reads host stream n total (have ++ more) (drop (length more) all) rest
        (record w { stream = s' }) after
        (omega (arith, l, narrow, length-append have more, length-drop (length more) all))
        (omega (arith, u, some_more, length-drop (length more) all)) in
    let some_read : (length more == 0) ≡ false = ground (arith, some_more) in
    (
      s'',
      rw (short, call, some_read) (reads ∙ ap (λ z. (record w { stream = s'' }, ok z)) whole),
      left,
    )

header_bound :
    (front : Bytes) (h : RecordHeader) → parse_record_header (span front) ≡ ok h → h.length ≤ 16640
unfolding parse_record_header
header_bound front h p = ground (arith, p)

-- A record of at most 16640 bytes that the stream holds is read, whole and alone, if there is room
-- for it: its header says how long it is.
pub read_record-IsByteStream :
    {S : Type 0} (host : Host S) (stream : IsByteStream host) (capacity : ℕ)
    (front body rest : Bytes) (h : RecordHeader) (w : World S)
    → w.client.config.stream_is_null ≡ false
    → stream.holds w.stream ≡ front ++ (body ++ rest)
    → length front ≡ 5
    → parse_record_header (span front) ≡ ok h
    → length body ≡ h.length
    → 5 + h.length ≤ capacity
    → HasRead stream w (front ++ body) rest (read_record host capacity w)
unfolding read_record
read_record-IsByteStream {S = S} host stream capacity front body rest h w present e f p b room =
    let (s, reads, left) =
      recv_until_reads host stream 5 5 [] front (body ++ rest) w e (omega (arith, f))
        (omega (arith, f)) in
    let (s', reads', left') =
      recv_until_reads host stream h.length (5 + h.length) front body rest (record w { stream = s })
        left (omega (arith, f, b)) (omega (arith, b)) in
    let allowed : (ltb capacity 5 || w.client.config.stream_is_null) ≡ false =
      rw (le→ltb capacity 5 (omega (arith, room))) present in
    let fits : (ltb 16640 h.length || ltb capacity (5 + h.length)) ≡ false =
      rw (le→ltb 16640 h.length (header_bound front h p), le→ltb capacity (5 + h.length) room)
        refl in
    (s', rw (allowed, reads, p, fits) reads', left')
