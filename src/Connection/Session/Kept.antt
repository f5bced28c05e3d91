-- ===== src/Connection/Session/Kept.antt =====
-- The calls that leave the state as it is, whether they succeed or not.
use xbox360_tls.Base.{
  ℕ, zero, suc, ◌+◌, ◌-◌, ◌≡◌, Bool, true, false, not, ◌||◌, ltb, ◌==◌, if◌then◌else◌, length, [],
  ◌∷◌, ◌++◌,
}
use xbox360_tls.Bytes.{
  Bytes, ByteSpan, span, size, at, closed, bad_record, bad_handshake, invalid_argument, unsupported,
  Result, ok,
}
use xbox360_tls.Bytes.Errors
use xbox360_tls.Record.{parse_record_header}
use xbox360_tls.ProtectedRecord.{TrafficKeys, protect_record_aes128_gcm}
use xbox360_tls.KeySchedule.{update_traffic_secret_sha256}
use xbox360_tls.Handshake.Message.{HandshakeMessage}
use xbox360_tls.Handshake.Deframer.{HandshakeDeframer, append, consume}
use xbox360_tls.Connection.{ClientState, TlsClient, Host, World}
use xbox360_tls.Connection.Action.{send_all}
use xbox360_tls.Connection.After.{
  After, After-value, After-error, After-both, After-then, After-lift, After-if, After-option,
}
use xbox360_tls.Connection.Records.{
  recv_until, read_record, protect_with, send_protected, is_connected,
}
use xbox360_tls.Connection.Handshake.{
  hs_new_session_ticket, hs_key_update, deframe, peek_message, update_client, update_server,
  key_update_received, post_handshake_message, post_handshake_loop, process_post_handshake,
}

-- The client is in a state.
abbrev pub IsIn : {S : Type 0} → ClientState → World S → Type 0
IsIn state w = w.client.state ≡ state

recv_until-IsIn :
    {S : Type 0} (host : Host S) (st : ClientState) (n total : ℕ) (have : Bytes) (w : World S)
    → IsIn st w
    → After (IsIn st) (IsIn st) (recv_until host n total have w)
unfolding recv_until
recv_until-IsIn host st zero total have w h = After-both (IsIn st) w (ok have) h
recv_until-IsIn {S = S} host st (suc n) total have w h =
    let I : World S → Type 0 = IsIn st in
    let (s, r) = host.stream.recv_some w.stream (total - length have) in
    After-if I I (not (ltb (length have) total)) _ _ w (After-both I w (ok have) h) (
      After-lift I I (record w { stream = s }) r _ h
        (λ more e.
          After-lift I I (record w { stream = s }) (Errors.fail_if (length more == 0) closed) _ h
            (λ done e. recv_until-IsIn host st n total (have ++ more) (record w { stream = s }) h)))

pub read_record-IsIn :
    {S : Type 0} (host : Host S) (st : ClientState) (capacity : ℕ) (w : World S)
    → IsIn st w
    → After (IsIn st) (IsIn st) (read_record host capacity w)
unfolding read_record
read_record-IsIn {S = S} host st capacity w h =
    let I : World S → Type 0 = IsIn st in
    After-lift I I w
      (Errors.fail_if (ltb capacity 5 || w.client.config.stream_is_null) invalid_argument) _ h
      (λ done e.
        After-then I I I (recv_until host 5 5 [] w) _ (recv_until-IsIn host st 5 5 [] w h)
          (λ front w' h'. After-lift I I w' (parse_record_header (span front)) _ h' (λ rh e.
            After-lift I I w'
              (Errors.fail_if (ltb 16640 rh.length || ltb capacity (5 + rh.length)) bad_record) _ h'
              (λ done e. recv_until-IsIn host st rh.length (5 + rh.length) front w' h'))))

pub send_all-IsIn :
    {S : Type 0} (host : Host S) (st : ClientState) (bytes : Bytes) (w : World S)
    → IsIn st w
    → After (IsIn st) (IsIn st) (send_all host bytes w)
send_all-IsIn {S = S} host st bytes w h =
    let I : World S → Type 0 = IsIn st in
    let (s, r) = host.stream.send_all w.stream bytes in After-both I (record w { stream = s }) r h

keys_kept :
    (application : Bool) (st : ClientState) (keys : TrafficKeys) (c : TlsClient)
    → c.state ≡ st
    → (if application
        then record c { client_app_keys = keys }
        else record c { client_hs_keys = keys }).state
      ≡ st
keys_kept true st keys c h = h
keys_kept false st keys c h = h

pub protect_with-IsIn :
    {S : Type 0} (host : Host S) (st : ClientState) (application : Bool) (inner_type : ℕ)
    (payload : ByteSpan) (padding : ℕ) (w : World S)
    → IsIn st w
    → After (IsIn st) (IsIn st) (protect_with host application inner_type payload padding w)
unfolding protect_with
protect_with-IsIn {S = S} host st application inner_type payload padding w h =
    let I : World S → Type 0 = IsIn st in
    After-lift I I w
      (protect_record_aes128_gcm host.allocated
        (if application then w.client.client_app_keys else w.client.client_hs_keys) inner_type
        payload padding (record { is_null = false; capacity = 16645 }))
      _ h
      (λ (keys, written) e.
        let c =
          if application
          then record w.client { client_app_keys = keys }
          else record w.client { client_hs_keys = keys } in
        After-value I I (record w { client = c }) written
          (keys_kept application st keys w.client h))

pub send_protected-IsIn :
    {S : Type 0} (host : Host S) (st : ClientState) (inner_type : ℕ) (payload : ByteSpan)
    (w : World S)
    → IsIn st w
    → After (IsIn st) (IsIn st) (send_protected host inner_type payload w)
unfolding send_protected
send_protected-IsIn {S = S} host st inner_type payload w h =
    let I : World S → Type 0 = IsIn st in
    After-then I I I (protect_with host (is_connected w.client.state) inner_type payload 0 w) _
      (protect_with-IsIn host st (is_connected w.client.state) inner_type payload 0 w h)
      (λ written w' h'. send_all-IsIn host st written w' h')

pub update_client-IsIn :
    {S : Type 0} (st : ClientState) (w : World S)
    → IsIn st w
    → After (IsIn st) (IsIn st) (update_client w)
unfolding update_client
update_client-IsIn {S = S} st w h =
    let I : World S → Type 0 = IsIn st in
    After-lift I I w
      (update_traffic_secret_sha256 (span w.client.schedule.client_application_traffic_secret)) _ h
      (λ (secret, keys) e. After-value I I _ _ h)

update_server-IsIn :
    {S : Type 0} (st : ClientState) (w : World S)
    → IsIn st w
    → After (IsIn st) (IsIn st) (update_server w)
unfolding update_server
update_server-IsIn {S = S} st w h =
    let I : World S → Type 0 = IsIn st in
    After-lift I I w
      (update_traffic_secret_sha256 (span w.client.schedule.server_application_traffic_secret)) _ h
      (λ (secret, keys) e. After-value I I _ _ h)

deframe-IsIn :
    {S : Type 0} (st : ClientState) (call : HandshakeDeframer → Result HandshakeDeframer)
    (w : World S)
    → IsIn st w
    → After (IsIn st) (IsIn st) (deframe call w)
deframe-IsIn {S = S} st call w h =
    let I : World S → Type 0 = IsIn st in
    After-lift I I w (call w.client.deframer) _ h (λ d e. After-value I I _ _ h)

key_update_received-IsIn :
    {S : Type 0} (host : Host S) (st : ClientState) (request n : ℕ) (w : World S)
    → IsIn st w
    → After (IsIn st) (IsIn st) (key_update_received host request n w)
unfolding key_update_received
key_update_received-IsIn {S = S} host st request n w h =
    let I : World S → Type 0 = IsIn st in
    After-lift I I w (Errors.fail_if (not (n == 1) || ltb 1 request) bad_handshake) _ h (λ done e.
      After-then I I I (update_server w) _ (update_server-IsIn st w h) (λ done w' h'.
        After-if I I (request == 1) _ _ w'
          (After-then I I I (send_protected host 22 (span (24 ∷ 0 ∷ 0 ∷ 1 ∷ 0 ∷ [])) w') _
            (send_protected-IsIn host st 22 (span (24 ∷ 0 ∷ 0 ∷ 1 ∷ 0 ∷ [])) w' h')
            (λ done w'' h''. update_client-IsIn st w'' h''))
          (After-value I I w' _ h')))

post_handshake_message-IsIn :
    {S : Type 0} (host : Host S) (st : ClientState) (msg : HandshakeMessage) (w : World S)
    → IsIn st w
    → After (IsIn st) (IsIn st) (post_handshake_message host msg w)
unfolding post_handshake_message
post_handshake_message-IsIn {S = S} host st msg w h =
    let I : World S → Type 0 = IsIn st in
    After-if I I (msg.type == hs_new_session_ticket) _ _ w (After-value I I w _ h) (
      After-if I I (msg.type == hs_key_update) _ _ w
        (key_update_received-IsIn host st (at msg.body.bytes 0) (size msg.body) w h)
        (After-error _ I I w unsupported h))

post_handshake_loop-IsIn :
    {S : Type 0} (host : Host S) (st : ClientState) (n : ℕ) (w : World S)
    → IsIn st w
    → After (IsIn st) (IsIn st) (post_handshake_loop host n w)
unfolding post_handshake_loop
post_handshake_loop-IsIn {S = S} host st zero w h =
    let I : World S → Type 0 = IsIn st in After-value I I w _ h
post_handshake_loop-IsIn {S = S} host st (suc n) w h =
    let I : World S → Type 0 = IsIn st in
    After-lift I I w (peek_message w.client.deframer) _ h (λ next e.
      After-option I I next _ _ w (After-value I I w _ h) (λ msg.
        After-then I I I (post_handshake_message host msg w) _
          (post_handshake_message-IsIn host st msg w h)
          (λ done w' h'.
            After-then I I I (deframe consume w') _ (deframe-IsIn st consume w' h')
              (λ done w'' h''. post_handshake_loop-IsIn host st n w'' h''))))

pub process_post_handshake-IsIn :
    {S : Type 0} (host : Host S) (st : ClientState) (bytes : ByteSpan) (w : World S)
    → IsIn st w
    → After (IsIn st) (IsIn st) (process_post_handshake host bytes w)
unfolding process_post_handshake
process_post_handshake-IsIn {S = S} host st bytes w h =
    let I : World S → Type 0 = IsIn st in
    After-then I I I (deframe (λ d. append d bytes) w) _ (deframe-IsIn st (λ d. append d bytes) w h)
      (λ done w' h'. post_handshake_loop-IsIn host st (suc w'.client.deframer.used) w' h')
