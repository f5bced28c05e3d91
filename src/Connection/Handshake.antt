-- ===== src/Connection/Handshake.antt =====
-- `process_server_handshake` and `process_post_handshake`.
use xbox360_tls.Base.{
  ℕ, zero, suc, false, not, ◌||◌, [], ◌∷◌, ltb, ◌==◌, if◌then◌else◌, drop, Option, some, none,
}
use xbox360_tls.Bytes.{
  Bytes, ByteSpan, span, size, at, Error, buffer_too_small, bad_record, bad_handshake, unsupported,
  Result, ok, err,
}
use xbox360_tls.Record.{
  parse_record_header, content_change_cipher_spec, content_alert, content_handshake,
  content_application_data,
}
use xbox360_tls.ProtectedRecord.{unprotect_record_aes128_gcm, derive_traffic_keys_sha256}
use xbox360_tls.KeySchedule.{derive_master_secret, update_traffic_secret_sha256}
use xbox360_tls.Transcript.{update_transcript, snapshot}
use xbox360_tls.Handshake.Message.{HandshakeMessage}
use xbox360_tls.Handshake.Deframer.{HandshakeDeframer, append, peek, consume}
use xbox360_tls.Handshake.Finished.{build_finished_sha256}
use xbox360_tls.Connection.{Host, World}
use xbox360_tls.Connection.Action.{Action, ◌>>=◌, ◌>>◌, lift, fail_if, this, change}
use xbox360_tls.Connection.Records.{read_record, send_protected}
use xbox360_tls.Connection.Messages.{Flight, handle_alert, handle_handshake_message}

abbrev pub hs_new_session_ticket : ℕ
hs_new_session_ticket = 4

abbrev pub hs_key_update : ℕ
hs_key_update = 24

-- A call on the deframer.
abbrev pub deframe :
    {S : Type 0} → (HandshakeDeframer → Result HandshakeDeframer) → Action S (Unit {0})
deframe call = do c ← this; d ← lift (call c.deframer); change (λ c. record c { deframer = d })

-- `peek`: none where more bytes are asked for.
unfoldable pub peek_message : HandshakeDeframer → Result (Option HandshakeMessage)
peek_message d = elim (peek d) [
  | ok msg ↦ ok (some msg)
  | err e ↦ elim e [ buffer_too_small ↦ ok none | other ↦ err other ]
]

-- `for (;;)` over the messages that are complete. A round takes four bytes at least, so that one
-- round more than there are bytes is enough.
unfoldable pub messages_loop : {S : Type 0} → Host S → ℕ → Flight → Action S Flight
messages_loop host zero flight = lift (ok flight)
messages_loop host (suc n) flight = do
  c ← this
  next ← lift (peek_message c.deframer)
  elim next [
    | none ↦ lift (ok flight)
    | some msg ↦ do
      flight' ← handle_handshake_message host msg flight
      deframe consume
      if flight'.got_finished then lift (ok flight') else messages_loop host n flight'
  ]

-- `return handle_alert(...);`
abbrev pub alerted : {S A : Type 0} → (World S → World S × Error) → Action S A
alerted call w = let (w', code) = call w in (w', err code)

-- One round of `while (!got_finished)`.
unfoldable pub flight_round : {S : Type 0} → Host S → Flight → Action S Flight
flight_round host flight = do
  rec ← read_record host 16645
  rh ← lift (parse_record_header (span rec))
  if rh.type == content_change_cipher_spec
      then lift (ok flight)
      else if rh.type == content_alert
      then alerted (handle_alert (span (drop 5 rec)))
      else do
        fail_if (not (rh.type == content_application_data)) bad_record
        c ← this
        (keys, inner, plain) ← lift (
            unprotect_record_aes128_gcm c.server_hs_keys (span rec)
              (record { is_null = false; capacity = 16640 }))
        change (λ c. record c { server_hs_keys = keys })
        if inner == content_alert then alerted (handle_alert (span plain)) else do
          fail_if (not (inner == content_handshake)) bad_handshake
          deframe (λ d. append d (span plain))
          c ← this
          messages_loop host (suc c.deframer.used) flight

-- `schedule_.derive_master_secret`, which leaves what it derived until an error.
unfoldable pub derive_master : {S : Type 0} → Bytes → Action S (Unit {0})
derive_master th w =
    let (ks, r) = derive_master_secret w.client.schedule th in
    let c = w.client in (record w { client = record c { schedule = ks } }, r)

-- The rest of `process_server_handshake`, behind the server's Finished.
unfoldable pub finish_handshake : {S : Type 0} → Host S → Action S (Unit {0})
finish_handshake host = do
  c ← this
  derive_master (snapshot c.transcript)
  c ← this
  client_keys ←
      lift (derive_traffic_keys_sha256 (span c.schedule.client_application_traffic_secret))
  change (λ c. record c { client_app_keys = client_keys })
  server_keys ←
      lift (derive_traffic_keys_sha256 (span c.schedule.server_application_traffic_secret))
  change (λ c. record c { server_app_keys = server_keys })
  fin ← lift (
      build_finished_sha256 (span c.schedule.client_handshake_traffic_secret)
        (span (snapshot c.transcript)) (record { is_null = false; capacity = 64 }))
  send_protected host content_handshake (span fin)
  change (λ c. record c { transcript = update_transcript c.transcript fin })

abbrev pub after_flight :
    {S : Type 0}
    → Host S
    → World S × Result Flight
    → (World S → Flight → Option (World S × Result (Unit {0})))
    → Option (World S × Result (Unit {0}))
after_flight host (w, err code) next = some (w, err code)
after_flight host (w, ok flight) next =
    if flight.got_finished then some (finish_handshake host w) else next w flight

-- `process_server_handshake`, given how many records it may read: none if it has not returned by then.
unfoldable pub process_server_handshake :
    {S : Type 0} → Host S → ℕ → Flight → World S → Option (World S × Result (Unit {0}))
process_server_handshake host zero flight w = none
process_server_handshake host (suc n) flight w =
    after_flight host (flight_round host flight w)
      (λ w' flight'. process_server_handshake host n flight' w')

-- The next secret and the next keys of a direction. The source replaces the secret before it derives
-- the keys; the derivation has no error for a secret of 32 bytes.
unfoldable pub update_server : {S : Type 0} → Action S (Unit {0})
update_server = do
  c ← this
  (secret, keys) ←
      lift (update_traffic_secret_sha256 (span c.schedule.server_application_traffic_secret))
  change (λ c.
      let ks = c.schedule in
      record c {
        schedule = record ks { server_application_traffic_secret = secret };
        server_app_keys = keys;
      })

unfoldable pub update_client : {S : Type 0} → Action S (Unit {0})
update_client = do
  c ← this
  (secret, keys) ←
      lift (update_traffic_secret_sha256 (span c.schedule.client_application_traffic_secret))
  change (λ c.
      let ks = c.schedule in
      record c {
        schedule = record ks { client_application_traffic_secret = secret };
        client_app_keys = keys;
      })

-- A KeyUpdate whose body has this size and starts with this byte.
unfoldable pub key_update_received : {S : Type 0} → Host S → ℕ → ℕ → Action S (Unit {0})
key_update_received host request n = do
  fail_if (not (n == 1) || ltb 1 request) bad_handshake
  update_server
  if request == 1
      then (do
        send_protected host content_handshake (span (hs_key_update ∷ 0 ∷ 0 ∷ 1 ∷ 0 ∷ []))
        update_client)
      else lift (ok _)

-- One round of the loop of `process_post_handshake`, for a message.
unfoldable pub post_handshake_message :
    {S : Type 0} → Host S → HandshakeMessage → Action S (Unit {0})
post_handshake_message host msg =
    if msg.type == hs_new_session_ticket
    then lift (ok _)
    else if msg.type == hs_key_update
    then key_update_received host (at msg.body.bytes 0) (size msg.body)
    else lift (err unsupported)

unfoldable pub post_handshake_loop : {S : Type 0} → Host S → ℕ → Action S (Unit {0})
post_handshake_loop host zero = lift (ok _)
post_handshake_loop host (suc n) = do
  c ← this
  next ← lift (peek_message c.deframer)
  elim next [
    | none ↦ lift (ok _)
    | some msg ↦ do post_handshake_message host msg; deframe consume; post_handshake_loop host n
  ]

unfoldable pub process_post_handshake : {S : Type 0} → Host S → ByteSpan → Action S (Unit {0})
process_post_handshake host bytes = do
  deframe (λ d. append d bytes)
  c ← this
  post_handshake_loop host (suc c.deframer.used)
