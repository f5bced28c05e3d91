-- ===== src/Connection/Records.antt =====
-- The records that a client reads and sends.
use xbox360_tls.Base.{
  ℕ, zero, suc, ◌+◌, ◌-◌, Bool, not, ◌||◌, [], ◌∷◌, ◌++◌, ltb, ◌==◌, if◌then◌else◌, length,
}
use xbox360_tls.Bytes.{
  Bytes, ByteSpan, span, size, invalid_argument, bad_record, closed, ok, store_be16,
}
use xbox360_tls.Record.{parse_record_header}
use xbox360_tls.ProtectedRecord.{protect_record_aes128_gcm}
use xbox360_tls.Connection.{ClientState, client_connected, Host}
use xbox360_tls.Connection.Action.{
  Action, ◌>>=◌, ◌>>◌, lift, fail_if, this, change, recv_some, send_all,
}

-- `while (have < total)`, for the bytes that are there already. A call that gives no byte ends the
-- loop, so that `total` rounds are enough.
unfoldable pub recv_until : {S : Type 0} → Host S → ℕ → ℕ → Bytes → Action S Bytes
recv_until host zero total have = lift (ok have)
recv_until host (suc n) total have = if not (ltb (length have) total) then lift (ok have) else do
  more ← recv_some host (total - length have)
  fail_if (length more == 0) closed
  recv_until host n total (have ++ more)

unfoldable pub read_record : {S : Type 0} → Host S → ℕ → Action S Bytes
read_record host capacity = do
  c ← this
  fail_if (ltb capacity 5 || c.config.stream_is_null) invalid_argument
  front ← recv_until host 5 5 []
  h ← lift (parse_record_header (span front))
  fail_if (ltb 16640 h.length || ltb capacity (5 + h.length)) bad_record
  recv_until host h.length (5 + h.length) front

unfoldable pub send_plain_record : {S : Type 0} → Host S → ℕ → ByteSpan → Action S (Unit {0})
send_plain_record host type payload = do
  c ← this
  fail_if (c.config.stream_is_null || ltb 16384 (size payload)) invalid_argument
  send_all host (type ∷ 3 ∷ 3 ∷ store_be16 (size payload))
  if not (size payload == 0) then send_all host payload.bytes else lift (ok _)

-- Whether the keys of the application are in use.
unfoldable pub is_connected : ClientState → Bool
is_connected client_connected = Bool.true
is_connected state = Bool.false

-- A record under the keys that the state asks for, which go on to the next number.
unfoldable pub protect_with : {S : Type 0} → Host S → Bool → ℕ → ByteSpan → ℕ → Action S Bytes
protect_with host application inner_type payload padding = do
  c ← this
  (keys, written) ← lift (
      protect_record_aes128_gcm host.allocated
        (if application then c.client_app_keys else c.client_hs_keys) inner_type payload padding
        (record { is_null = Bool.false; capacity = 16645 }))
  change (λ c.
      if application
      then record c { client_app_keys = keys }
      else record c { client_hs_keys = keys })
  lift (ok written)

unfoldable pub send_protected : {S : Type 0} → Host S → ℕ → ByteSpan → Action S (Unit {0})
send_protected host inner_type payload = do
  c ← this
  written ← protect_with host (is_connected c.state) inner_type payload 0
  send_all host written
