-- ===== src/Handshake/Deframer.antt =====
-- `HandshakeDeframer`: a buffer whose first `used` bytes wait for the rest of a message.
-- `used ≤ size storage` always holds (`Deframer.Refine`), so no subtraction here wraps.
pub mod Refine
pub mod Drain
pub mod Reassembly
mod Tests
use xbox360_tls.Base.{
  ℕ, zero, suc, ◌+◌, ◌-◌, Bool, not, ◌&&◌, ◌||◌, List, [], ◌∷◌, ◌++◌, ltb, ◌==◌, if◌then◌else◌,
  length, take, drop,
}
use xbox360_tls.Bytes.{
  Bytes, ByteSpan, span, size, slice, Error, invalid_argument, buffer_too_small, Result, ok, err,
  ◌>>=◌, ◌>>◌, fail_if,
}
use xbox360_tls.Handshake.Message.{HandshakeMessage, parse_handshake_message}

pub record HandshakeDeframer : Type 0 where
  pub storage : ByteSpan
  pub used : ℕ

-- `memcpy(p + off, bs, bs.size)` within the buffer `p`
abbrev pub write_at : Bytes → ℕ → Bytes → Bytes
write_at p off bs = take off p ++ (bs ++ drop (off + length bs) p)

unfoldable pub reset : HandshakeDeframer → HandshakeDeframer
reset d = record d { used = 0 }

unfoldable pub buffered : HandshakeDeframer → ℕ
buffered d = d.used

-- `ByteSpan(storage_.data, used_)`
abbrev pub used_span : HandshakeDeframer → ByteSpan
used_span d = record { is_null = d.storage.is_null; bytes = take d.used d.storage.bytes }

-- A refused call leaves the deframer as it was.
unfoldable pub append : HandshakeDeframer → ByteSpan → Result HandshakeDeframer
append d bytes = do
  fail_if
      ((bytes.is_null && not (size bytes == 0)) || (d.storage.is_null && not (size d.storage == 0)))
      invalid_argument
  fail_if (ltb (size d.storage - d.used) (size bytes)) buffer_too_small
  let storage = d.storage
  ok (record {
    storage = record storage { bytes = write_at storage.bytes d.used bytes.bytes };
    used = d.used + size bytes;
  })

unfoldable pub peek : HandshakeDeframer → Result HandshakeMessage
peek d = do (m, n) ← parse_handshake_message (used_span d); ok m

unfoldable pub consume : HandshakeDeframer → Result HandshakeDeframer
consume d = do
  (m, n) ← parse_handshake_message (used_span d)
  let storage = d.storage
  let moved = write_at storage.bytes 0 (slice storage.bytes n (d.used - n))
  ok (record {
    storage = record storage { bytes = if ltb n d.used then moved else storage.bytes };
    used = d.used - n;
  })

-- The receive loop of the connection, `for (;;) { peek; ...; consume; }`, with a handler that
-- keeps the messages. It stops when `peek` asks for more bytes. A round takes four bytes at
-- least, so `used + 1` rounds are enough; with none left it would report `io`, which no call gives.
unfoldable pub drain : ℕ → HandshakeDeframer → Result (List HandshakeMessage × HandshakeDeframer)
drain zero d = err Error.io
drain (suc fuel) d = elim (peek d) [
  | ok m ↦ do d' ← consume d; (ms, d'') ← drain fuel d'; ok (m ∷ ms, d'')
  | err e ↦ elim e [ buffer_too_small ↦ ok ([], d) | other ↦ err other ]
]

-- One record's bytes after the other, as they arrive.
unfoldable pub feed :
    HandshakeDeframer → List Bytes → Result (List HandshakeMessage × HandshakeDeframer)
feed d [] = ok ([], d)
feed d (bs ∷ rest) = do
  d' ← append d (span bs)
  (ms, d'') ← drain (d'.used + 1) d'
  (later, last) ← feed d'' rest
  ok (ms ++ later, last)
