-- ===== src/Connection/Messages.antt =====
-- `handle_alert` and `handle_handshake_message`. A body that is read into a span is that of the
-- message; `certificate_storage_` holds a copy of it that lives on, and only its length is kept here.
pub mod Order
pub mod Unchecked
use xbox360_tls.Base.{ℕ, Bool, true, false, not, ◌&&◌, ◌||◌, ltb, ◌==◌, if◌then◌else◌, length}
use xbox360_tls.Bytes.{
  Bytes, ByteSpan, Error, span, null_span, size, at, buffer_too_small, bad_record, bad_handshake,
  unsupported, closed, verify, ok, err,
}
use xbox360_tls.Handshake.Message.{
  HandshakeMessage, parse_handshake_message, hs_encrypted_extensions, hs_certificate,
  hs_certificate_verify, hs_finished,
}
use xbox360_tls.Handshake.Flight.{
  CertificateInfo, parse_encrypted_extensions, parse_certificate, parse_certificate_verify,
}
use xbox360_tls.Handshake.Finished.{verify_finished_sha256}
use xbox360_tls.Transcript.{update_transcript, snapshot}
use xbox360_tls.Authentication.Server.{authenticate_server_flight}
use xbox360_tls.Connection.{TlsClient, Host, World}
use xbox360_tls.Connection.Action.{Action, ◌>>=◌, ◌>>◌, lift, fail_if, this, change}

abbrev pub alert_close_notify : ℕ
alert_close_notify = 0

-- What an alert leaves, and the error that it is turned into: a call that returns no success.
unfoldable pub handle_alert : {S : Type 0} → ByteSpan → World S → World S × Error
handle_alert payload w = if payload.is_null || not (size payload == 2) then (w, bad_record) else (
  record w {
    client = record w.client {
      last_alert_level = at payload.bytes 0;
      last_alert_description = at payload.bytes 1;
    };
  },
  if at payload.bytes 1 == alert_close_notify then closed else verify,
)

-- `got_finished`, `cert_info` and `have_cert`, which `process_server_handshake` keeps.
pub record Flight : Type 0 where
  pub got_finished : Bool
  pub cert_info : CertificateInfo
  pub have_cert : Bool

abbrev pub no_flight : Flight
no_flight = record {
  got_finished = false;
  cert_info = record { request_context = null_span; certificate_list = null_span };
  have_cert = false;
}

-- `transcript_.update(msg.encoded);`
abbrev pub take_in : HandshakeMessage → TlsClient → TlsClient
take_in msg c = record c { transcript = update_transcript c.transcript msg.encoded.bytes }

unfoldable pub handle_encrypted_extensions :
    {S : Type 0} → HandshakeMessage → Flight → Action S Flight
handle_encrypted_extensions msg flight = do
  ee ← lift (parse_encrypted_extensions msg)
  fail_if (ee.has_alpn && not (ltb (size ee.alpn) 256)) bad_handshake
  change
      (λ c. take_in msg (if ee.has_alpn then record c { negotiated_alpn = ee.alpn.bytes } else c))
  lift (ok flight)

unfoldable pub handle_certificate : {S : Type 0} → HandshakeMessage → Flight → Action S Flight
handle_certificate msg flight = do
  fail_if (ltb 24576 (size msg.encoded)) buffer_too_small
  change (λ c. record c { certificate_storage_len = size msg.encoded })
  (saved, used) ← lift (parse_handshake_message (span msg.encoded.bytes))
  cert_info ← lift (parse_certificate saved)
  change (take_in msg)
  lift (ok (record flight { cert_info = cert_info; have_cert = true }))

unfoldable pub handle_certificate_verify :
    {S : Type 0} → Host S → HandshakeMessage → Flight → Action S Flight
handle_certificate_verify host msg flight = do
  fail_if (not flight.have_cert) bad_handshake
  cv ← lift (parse_certificate_verify msg)
  c ← this
  lift (
      authenticate_server_flight flight.cert_info cv (span (snapshot c.transcript))
        c.config.hostname host.verifier)
  change (take_in msg)
  lift (ok flight)

unfoldable pub handle_finished : {S : Type 0} → HandshakeMessage → Flight → Action S Flight
handle_finished msg flight = do
  c ← this
  lift (
      verify_finished_sha256 (span c.schedule.server_handshake_traffic_secret)
        (span (snapshot c.transcript)) msg)
  change (take_in msg)
  lift (ok (record flight { got_finished = true }))

unfoldable pub handle_handshake_message :
    {S : Type 0} → Host S → HandshakeMessage → Flight → Action S Flight
handle_handshake_message host msg flight =
    if msg.type == hs_encrypted_extensions
    then handle_encrypted_extensions msg flight
    else if msg.type == hs_certificate
    then handle_certificate msg flight
    else if msg.type == hs_certificate_verify
    then handle_certificate_verify host msg flight
    else if msg.type == hs_finished
    then handle_finished msg flight
    else lift (err unsupported)
