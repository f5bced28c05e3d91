-- ===== src/Connection/Session.antt =====
-- The calls of a connection that stands: `key_update`, `send`, `recv`, `reset` and `close`.
pub mod Kept
pub mod Failure
pub mod Life
pub mod Pending
pub mod Sending
use xbox360_tls.Base.{
  ℕ, zero, suc, ◌+◌, ◌-◌, Bool, true, false, not, ◌||◌, ◌&&◌, [], ◌∷◌, ◌++◌, ltb, ◌==◌,
  if◌then◌else◌, length, take, drop, Option, some, none,
}
use xbox360_tls.Bytes.{
  Bytes, ByteSpan, MutableByteSpan, span, size, slice, Error, invalid_argument, bad_record, closed,
  Result, ok, err,
}
use xbox360_tls.Record.{
  parse_record_header, content_change_cipher_spec, content_alert, content_handshake,
  content_application_data,
}
use xbox360_tls.ProtectedRecord.{unprotect_record_aes128_gcm}
use xbox360_tls.Transcript.{reset_transcript}
use xbox360_tls.Handshake.Deframer.{HandshakeDeframer, write_at}
use xbox360_tls.Handshake.Deframer
use xbox360_tls.Connection.{
  ClientState, client_idle, client_handshaking, client_connected, client_closed, client_failed,
  TlsClient, Host, World, default_config, wipe_secrets, close_stream, fail,
}
use xbox360_tls.Connection.Action.{
  Action, continue, ◌>>=◌, ◌>>◌, lift, fail_if, this, change, send_all,
}
use xbox360_tls.Connection.Records.{read_record, send_protected, protect_with, is_connected}
use xbox360_tls.Connection.Messages.{handle_alert}
use xbox360_tls.Connection.Handshake.{process_post_handshake, hs_key_update, update_client}

-- `if (e != XT_OK) { fail(); return e; }`
abbrev pub failing : {S A : Type 0} → Host S → World S × Result A → World S × Result A
failing host (w, ok value) = (w, ok value)
failing host (w, err code) = (fail host w, err code)

abbrev pub or_fail : {S A : Type 0} → Host S → Action S A → Action S A
or_fail host call w = failing host (call w)

unfoldable pub key_update : {S : Type 0} → Host S → Bool → Action S (Unit {0})
key_update host request_peer_update = do
  c ← this
  fail_if (not (is_connected c.state)) closed
  or_fail host (
      send_protected host content_handshake
        (span (hs_key_update ∷ 0 ∷ 0 ∷ 1 ∷ (if request_peer_update then 1 else 0) ∷ [])))
  or_fail host update_client

-- `while (off < data.size)`, for the bytes that are left. A round sends a byte at least, so that as
-- many rounds as bytes are enough.
unfoldable pub send_loop : {S : Type 0} → Host S → ℕ → ℕ → Bytes → Action S (Unit {0})
send_loop host n padding [] = lift (ok _)
send_loop host zero padding (x ∷ rest) = lift (ok _)
send_loop host (suc n) padding (x ∷ rest) = do
  written ← or_fail host (
      protect_with host true content_application_data (span (take (16623 - padding) (x ∷ rest)))
        padding)
  or_fail host (send_all host written)
  send_loop host n padding (drop (16623 - padding) (x ∷ rest))

-- `if (padding > 255) padding = 255;`
abbrev pub capped : ℕ → ℕ
capped padding = if ltb 255 padding then 255 else padding

unfoldable pub send : {S : Type 0} → Host S → ByteSpan → Action S (Unit {0})
send host bytes = do
  c ← this
  fail_if (not (is_connected c.state)) closed
  fail_if (not (size bytes == 0) && bytes.is_null) invalid_argument
  send_loop host (size bytes) (capped c.config.application_record_padding) bytes.bytes

-- What is left of a record that `recv` had no room for.
unfoldable pub take_pending : ℕ → TlsClient → TlsClient
take_pending n c =
    let left = c.pending_app_length - n in
    record c {
      pending_app_offset = if left == 0 then 0 else c.pending_app_offset + n;
      pending_app_length = left;
    }

abbrev pub less_of : ℕ → ℕ → ℕ
less_of n room = if ltb room n then room else n

unfoldable pub recv_pending : {S : Type 0} → ℕ → Action S Bytes
recv_pending room = do
  c ← this
  let n = less_of c.pending_app_length room
  change (take_pending n)
  lift (ok (slice c.pending_app c.pending_app_offset n))

-- `memcpy(pending_app_, plain + n, remain)`, where something remains.
unfoldable pub keep_pending : Bytes → TlsClient → TlsClient
keep_pending rest c = if length rest == 0 then c else record c {
  pending_app = write_at c.pending_app 0 rest;
  pending_app_offset = 0;
  pending_app_length = length rest;
}

-- What `recv` does with the error that an alert is turned into.
abbrev pub closing : {S A : Type 0} → Host S → World S × Error → World S × Result A
closing host (w, closed) =
    let shut =
      close_stream host (record w { client = record w.client { state = client_closed } }) in
    (record shut { client = wipe_secrets shut.client }, err closed)
closing host (w, code) = (fail host w, err code)

unfoldable pub recv_alert : {S : Type 0} → Host S → ByteSpan → Action S (Option Bytes)
recv_alert host plain w = closing host (handle_alert plain w)

unfoldable pub recv_content : {S : Type 0} → Host S → ℕ → ℕ → Bytes → Action S (Option Bytes)
recv_content host room inner plain =
    if inner == content_application_data
    then (do change (keep_pending (drop room plain)); lift (ok (some (take room plain))))
    else if inner == content_alert
    then recv_alert host (span plain)
    else if inner == content_handshake
    then (do or_fail host (process_post_handshake host (span plain)); lift (ok none))
    else or_fail host (lift (err bad_record))

abbrev pub after_round :
    {S : Type 0}
    → World S × Result (Option Bytes)
    → (World S → Option (World S × Result Bytes))
    → Option (World S × Result Bytes)
after_round (w, ok (some bytes)) next = some (w, ok bytes)
after_round (w, ok none) next = next w
after_round (w, err code) next = some (w, err code)

-- One round of `for (;;)`: the bytes to return, or none where the loop goes on.
unfoldable pub recv_round : {S : Type 0} → Host S → ℕ → Action S (Option Bytes)
recv_round host room = do
  rec ← or_fail host (read_record host 16645)
  rh ← or_fail host (lift (parse_record_header (span rec)))
  if rh.type == content_change_cipher_spec then lift (ok none) else do
    or_fail host (fail_if (not (rh.type == content_application_data)) bad_record)
    c ← this
    (keys, inner, plain) ← or_fail host (
        lift (
          unprotect_record_aes128_gcm c.server_app_keys (span rec)
            (record { is_null = false; capacity = 16640 })))
    change (λ c. record c { server_app_keys = keys })
    recv_content host room inner plain

-- The rounds of `recv` behind its guards, at most `n` of them: none if it has not returned by then.
unfoldable pub recv_rounds :
    {S : Type 0} → Host S → ℕ → ℕ → World S → Option (World S × Result Bytes)
recv_rounds host zero room w = none
recv_rounds host (suc n) room w =
    after_round (recv_round host room w) (λ w'. recv_rounds host n room w')

-- `recv` into a place of a size, given how many records it may read.
unfoldable pub recv :
    {S : Type 0} → Host S → ℕ → MutableByteSpan → World S → Option (World S × Result Bytes)
recv host n out w =
    if out.is_null && not (out.capacity == 0)
    then some (w, err invalid_argument)
    else if not (is_connected w.client.state)
    then some (w, err closed)
    else if not (w.client.pending_app_length == 0)
    then some (recv_pending out.capacity w)
    else recv_rounds host n out.capacity w

unfoldable pub is_handshaking : ClientState → Bool
is_handshaking client_handshaking = true
is_handshaking state = false

unfoldable pub is_closed : ClientState → Bool
is_closed client_closed = true
is_closed state = false

-- `if (config_.stream) config_.stream->close();`
abbrev pub shut : {S : Type 0} → Host S → Action S (Unit {0})
shut host w = (close_stream host w, ok _)

-- `(void)call;`
abbrev pub ignoring : {S : Type 0} → Action S (Unit {0}) → Action S (Unit {0})
ignoring call w = let (w', r) = call w in (w', ok _)

unfoldable pub reset_client : {S : Type 0} → Host S → Action S (Unit {0})
reset_client host = do
  c ← this
  fail_if (is_handshaking c.state) invalid_argument
  shut host
  change wipe_secrets
  change (λ c. record c {
    config = default_config;
    transcript = reset_transcript;
    deframer = Deframer.reset c.deframer;
    certificate_storage_len = 0;
    client_hello_len = 0;
    negotiated_alpn = [];
    pending_app_offset = 0;
    pending_app_length = 0;
    last_alert_level = 0;
    last_alert_description = 0;
    state = client_idle;
  })

-- `close_notify` is sent if the connection stands, and whether that fails is of no interest.
unfoldable pub close_client : {S : Type 0} → Host S → Action S (Unit {0})
close_client host = do
  c ← this
  if is_closed c.state then lift (ok _) else do
    if is_connected c.state
        then ignoring (send_protected host content_alert (span (1 ∷ 0 ∷ [])))
        else lift (ok _)
    shut host
    change (λ c. wipe_secrets (record c { state = client_closed }))
