-- ===== src/Connection/Session/Failure.antt =====
-- What a failed call leaves, and the life of a connection.
use xbox360_tls.Base.{
  replicate, ℕ, zero, suc, ◌-◌, ◌≡◌, refl, sym, ap, subst, ◌∙◌, ◌⊎◌, inl, inr, Bool, true, false,
  not, ◌&&◌, ◌==◌, if◌then◌else◌, take, drop, [], ◌∷◌, arith,
}
use xbox360_tls.Bytes.{
  Bytes, ByteSpan, span, size, Error, closed, bad_record, bad_handshake, invalid_argument,
  unsupported, buffer_too_small, crypto, verify, io, Result, ok, err,
}
use xbox360_tls.Bytes.Errors
use xbox360_tls.Record.{parse_record_header}
use xbox360_tls.KeySchedule.{empty_schedule}
use xbox360_tls.Connection.{
  no_keys, client_connected, client_closed, client_failed, TlsClient, Host, World, wipe_secrets,
  close_stream, fail,
}
use xbox360_tls.Connection.Action.{Action, continue, send_all}
use xbox360_tls.Connection.After.{After, After-value, After-error, After-then, After-if}
use xbox360_tls.Connection.Records.{read_record, protect_with, send_protected, is_connected}
use xbox360_tls.Connection.Messages.{handle_alert}
use xbox360_tls.ProtectedRecord.{unprotect_record_aes128_gcm}
use xbox360_tls.Connection.Handshake.{update_client, process_post_handshake}
use xbox360_tls.Connection.Session.Kept.{
  IsIn, read_record-IsIn, send_all-IsIn, protect_with-IsIn, send_protected-IsIn, update_client-IsIn,
  process_post_handshake-IsIn,
}
use xbox360_tls.Connection.Session.{
  failing, key_update, send_loop, send, recv_round, capped, closing, keep_pending, recv_content,
  recv_alert,
}

-- All secrets of a client are zero.
abbrev pub IsWiped : TlsClient → Type 0
IsWiped c =
    (c.private_key ≡ replicate 32 0)
    × (c.public_key ≡ replicate 65 0)
    × (c.schedule ≡ empty_schedule)
    × (c.client_hs_keys ≡ no_keys)
    × (c.server_hs_keys ≡ no_keys)
    × (c.client_app_keys ≡ no_keys)
    × (c.server_app_keys ≡ no_keys)

abbrev pub IsOver : TlsClient → Type 0
IsOver c = ((c.state ≡ client_failed) ⊎ (c.state ≡ client_closed)) × IsWiped c

abbrev pub Over : {S : Type 0} → World S → Type 0
Over w = IsOver w.client

pub close_stream-client :
    {S : Type 0} (host : Host S) (w : World S) → (close_stream host w).client ≡ w.client
unfolding close_stream
close_stream-client host w = by_cases w.client.config.stream_is_null
  where
    by_cases :
        (b : Bool)
        → (if b then w else record w { stream = host.stream.close w.stream }).client ≡ w.client
    by_cases true = refl
    by_cases false = refl

fail-IsOver : {S : Type 0} (host : Host S) (w : World S) → IsOver (fail host w).client
unfolding fail wipe_secrets
fail-IsOver host w =
    subst IsOver
      (sym (
        close_stream-client host
          (record w { client = wipe_secrets (record w.client { state = client_failed }) })))
      (inl refl, (refl, refl, refl, refl, refl, refl, refl))

failing-Over :
    {S A : Type 0} (P : World S → Type 0) (host : Host S) (r : World S × Result A)
    → After P P r
    → After P Over (failing host r)
unfolding After
failing-Over P host (w, ok value) h = h
failing-Over P host (w, err code) h = fail-IsOver host w

-- A connected client whose call failed is over.
abbrev pub Settled : {S A : Type 0} → World S × Result A → Type 0
Settled r = After (IsIn client_connected) Over r

or_fail_over :
    {S A : Type 0} (host : Host S) (r : World S × Result A)
    → After (IsIn client_connected) (IsIn client_connected) r
    → Settled (failing host r)
or_fail_over host r h = failing-Over (IsIn client_connected) host r h

pub connected :
    {S : Type 0} (w : World S) → IsIn client_connected w → is_connected w.client.state ≡ true
unfolding is_connected
connected w h = ap is_connected h

-- `key_update` of a connected client leaves it connected, or failed with its secrets wiped.
pub key_update-Settled :
    {S : Type 0} (host : Host S) (request_peer_update : Bool) (w : World S)
    → IsIn client_connected w
    → Settled (key_update host request_peer_update w)
unfolding key_update
key_update-Settled {S = S} host request_peer_update w h =
    let I : World S → Type 0 = IsIn client_connected in
    let message = span (24 ∷ 0 ∷ 0 ∷ 1 ∷ (if request_peer_update then 1 else 0) ∷ []) in
    rw (connected w h) (
      After-then I I Over (failing host (send_protected host 22 message w)) _
        (or_fail_over host (send_protected host 22 message w)
          (send_protected-IsIn host client_connected 22 message w h))
        (λ done w' h'.
          or_fail_over host (update_client w') (update_client-IsIn client_connected w' h')))

send_loop-Settled :
    {S : Type 0} (host : Host S) (n padding : ℕ) (rest : Bytes) (w : World S)
    → IsIn client_connected w
    → Settled (send_loop host n padding rest w)
unfolding send_loop
send_loop-Settled {S = S} host zero padding [] w h =
    let I : World S → Type 0 = IsIn client_connected in After-value I Over w _ h
send_loop-Settled {S = S} host (suc n) padding [] w h =
    let I : World S → Type 0 = IsIn client_connected in After-value I Over w _ h
send_loop-Settled {S = S} host zero padding (x ∷ rest) w h =
    let I : World S → Type 0 = IsIn client_connected in After-value I Over w _ h
send_loop-Settled {S = S} host (suc n) padding (x ∷ rest) w h =
    let I : World S → Type 0 = IsIn client_connected in
    let chunk = span (take (16623 - padding) (x ∷ rest)) in
    After-then I I Over (failing host (protect_with host true 23 chunk padding w)) _
      (or_fail_over host (protect_with host true 23 chunk padding w)
        (protect_with-IsIn host client_connected true 23 chunk padding w h))
      (λ written w' h'.
        After-then I I Over (failing host (send_all host written w')) _
          (or_fail_over host (send_all host written w')
            (send_all-IsIn host client_connected written w' h'))
          (λ done w'' h''.
            send_loop-Settled host n padding (drop (16623 - padding) (x ∷ rest)) w'' h''))

-- `send` of a connected client, called with a pointer that is null only where nothing is sent,
-- leaves it connected, or failed with its secrets wiped.
pub send-Settled :
    {S : Type 0} (host : Host S) (bytes : ByteSpan) (w : World S)
    → IsIn client_connected w
    → (not (size bytes == 0) && bytes.is_null) ≡ false
    → Settled (send host bytes w)
unfolding send
send-Settled host bytes w h g =
    rw (connected w h, g)
      (send_loop-Settled host (size bytes) (capped w.client.config.application_record_padding)
        bytes.bytes w h)

alert_settled :
    {S : Type 0} (A : Type 0) (host : Host S) (r : World S × Error)
    → After {A = A} (IsIn client_connected) Over (closing host r)
unfolding After wipe_secrets
alert_settled A host (w, closed) =
    subst IsOver
      (ap wipe_secrets (
        sym (
          close_stream-client host
            (record w { client = record w.client { state = client_closed } }))))
      (inr refl, (refl, refl, refl, refl, refl, refl, refl))
alert_settled A host (w, invalid_argument) = fail-IsOver host w
alert_settled A host (w, buffer_too_small) = fail-IsOver host w
alert_settled A host (w, bad_record) = fail-IsOver host w
alert_settled A host (w, bad_handshake) = fail-IsOver host w
alert_settled A host (w, unsupported) = fail-IsOver host w
alert_settled A host (w, crypto) = fail-IsOver host w
alert_settled A host (w, verify) = fail-IsOver host w
alert_settled A host (w, io) = fail-IsOver host w

keep_pending_in : (rest : Bytes) (c : TlsClient) → (keep_pending rest c).state ≡ c.state
unfolding keep_pending
keep_pending_in [] c = refl
keep_pending_in (x ∷ rest) c = ground arith

content-Settled :
    {S : Type 0} (host : Host S) (room inner : ℕ) (plain : Bytes) (w : World S)
    → IsIn client_connected w
    → Settled (recv_content host room inner plain w)
unfolding recv_content recv_alert
content-Settled {S = S} host room inner plain w h =
    let I : World S → Type 0 = IsIn client_connected in
    After-if I Over (inner == 23) _ _ w
      (After-value I Over _ _ (keep_pending_in (drop room plain) w.client ∙ h))
      (After-if I Over (inner == 21) _ _ w (alert_settled _ host (handle_alert (span plain) w)) (
        After-if I Over (inner == 22) _ _ w
          (After-then I I Over (failing host (process_post_handshake host (span plain) w)) _
            (or_fail_over host (process_post_handshake host (span plain) w)
              (process_post_handshake-IsIn host client_connected (span plain) w h))
            (λ done w' h'. After-value I Over w' _ h'))
          (After-error _ I Over (fail host w) bad_record (fail-IsOver host w))))

-- A computation that changes nothing, whose error fails the connection.
After-failing :
    {S A B : Type 0} (P : World S → Type 0) (host : Host S) (w : World S) (r : Result A)
    (next : A → Action S B)
    → ((value : A) → (r ≡ ok value) → After P Over (next value w))
    → After P Over (continue (failing host (w, r)) next)
unfolding After
After-failing P host w (ok value) next k = k value refl
After-failing P host w (err code) next k = fail-IsOver host w

pub recv_round-Settled :
    {S : Type 0} (host : Host S) (room : ℕ) (w : World S)
    → IsIn client_connected w
    → Settled (recv_round host room w)
unfolding recv_round
recv_round-Settled {S = S} host room w h =
    let I : World S → Type 0 = IsIn client_connected in
    After-then I I Over (failing host (read_record host 16645 w)) _
      (or_fail_over host (read_record host 16645 w)
        (read_record-IsIn host client_connected 16645 w h))
      (λ rec w' h'. After-failing I host w' (parse_record_header (span rec)) _ (λ rh e.
        After-if I Over (rh.type == 20) _ _ w' (After-value I Over w' _ h') (
          After-failing I host w' (Errors.fail_if (not (rh.type == 23)) bad_record) _ (λ done e.
            After-failing I host w'
              (unprotect_record_aes128_gcm w'.client.server_app_keys (span rec)
                (record { is_null = false; capacity = 16640 }))
              _
              (λ (keys, inner, plain) e.
                content-Settled host room inner plain
                  (record w' { client = record w'.client { server_app_keys = keys } }) h')))))
