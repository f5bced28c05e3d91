-- ===== src/Connection/Messages/Order.antt =====
-- What a message of the server's flight changes.
use xbox360_tls.Base.{◌≡◌, refl, Bool, true, false, not, ◌&&◌, ltb, ◌==◌, if◌then◌else◌, []}
use xbox360_tls.Bytes.{Bytes, span, size, buffer_too_small, bad_handshake, unsupported}
use xbox360_tls.Bytes.Errors
use xbox360_tls.Handshake.Message.{
  HandshakeMessage, parse_handshake_message, hs_encrypted_extensions, hs_certificate,
  hs_certificate_verify, hs_finished,
}
use xbox360_tls.Handshake.Flight.{
  parse_encrypted_extensions, parse_certificate, parse_certificate_verify,
}
use xbox360_tls.Handshake.Finished.{verify_finished_sha256}
use xbox360_tls.Transcript.{snapshot}
use xbox360_tls.Authentication.Server.{authenticate_server_flight}
use xbox360_tls.Connection.{TlsClient, Host, World}
use xbox360_tls.Connection.After.{After, After-value, After-error, After-lift, After-if}
use xbox360_tls.Connection.Messages.{
  Flight, take_in, handle_encrypted_extensions, handle_certificate, handle_certificate_verify,
  handle_finished, handle_handshake_message,
}

-- A client without what it keeps of the server's extensions and certificate.
abbrev pub core : TlsClient → TlsClient
core c = record c { negotiated_alpn = []; certificate_storage_len = 0 }

-- The message was taken into the transcript, and nothing else of the core or the stream changed.
abbrev pub TakenIn : {S : Type 0} → HandshakeMessage → World S → World S → Type 0
TakenIn msg w w' = (core w'.client ≡ core (take_in msg w.client)) × (w'.stream ≡ w.stream)

-- Nothing of the core or the stream changed.
abbrev pub LeftAlone : {S : Type 0} → World S → World S → Type 0
LeftAlone w w' = (core w'.client ≡ core w.client) × (w'.stream ≡ w.stream)

alpn_core :
    (has_alpn : Bool) (alpn : Bytes) (msg : HandshakeMessage) (c : TlsClient)
    → core (take_in msg (if has_alpn then record c { negotiated_alpn = alpn } else c))
      ≡ core (take_in msg c)
alpn_core true alpn msg c = refl
alpn_core false alpn msg c = refl

extensions_order :
    {S : Type 0} (msg : HandshakeMessage) (flight : Flight) (w : World S)
    → After (TakenIn msg w) (LeftAlone w) (handle_encrypted_extensions msg flight w)
unfolding handle_encrypted_extensions
extensions_order {S = S} msg flight w =
    let P : World S → Type 0 = TakenIn msg w in
    let Q : World S → Type 0 = LeftAlone w in
    After-lift P Q w (parse_encrypted_extensions msg) _ (refl, refl)
      (λ ee e.
        After-lift P Q w
          (Errors.fail_if (ee.has_alpn && not (ltb (size ee.alpn) 256)) bad_handshake) _
          (refl, refl)
          (λ done e.
            After-value P Q _ flight (alpn_core ee.has_alpn ee.alpn.bytes msg w.client, refl)))

certificate_order :
    {S : Type 0} (msg : HandshakeMessage) (flight : Flight) (w : World S)
    → After (TakenIn msg w) (LeftAlone w) (handle_certificate msg flight w)
unfolding handle_certificate
certificate_order {S = S} msg flight w =
    let P : World S → Type 0 = TakenIn msg w in
    let Q : World S → Type 0 = LeftAlone w in
    let stored : World S = record w {
      client = record w.client { certificate_storage_len = size msg.encoded };
    } in
    After-lift P Q w (Errors.fail_if (ltb 24576 (size msg.encoded)) buffer_too_small) _ (refl, refl)
      (λ done e.
        After-lift P Q stored (parse_handshake_message (span msg.encoded.bytes)) _ (refl, refl)
          (λ (saved, used) e.
            After-lift P Q stored (parse_certificate saved) _ (refl, refl)
              (λ cert_info e. After-value P Q _ _ (refl, refl))))

certificate_verify_order :
    {S : Type 0} (host : Host S) (msg : HandshakeMessage) (flight : Flight) (w : World S)
    → After (TakenIn msg w) (LeftAlone w) (handle_certificate_verify host msg flight w)
unfolding handle_certificate_verify
certificate_verify_order {S = S} host msg flight w =
    let P : World S → Type 0 = TakenIn msg w in
    let Q : World S → Type 0 = LeftAlone w in
    After-lift P Q w (Errors.fail_if (not flight.have_cert) bad_handshake) _ (refl, refl)
      (λ done e.
        After-lift P Q w (parse_certificate_verify msg) _ (refl, refl)
          (λ cv e.
            After-lift P Q w
              (authenticate_server_flight flight.cert_info cv (span (snapshot w.client.transcript))
                w.client.config.hostname host.verifier)
              _ (refl, refl) (λ done e. After-value P Q _ flight (refl, refl))))

finished_order :
    {S : Type 0} (msg : HandshakeMessage) (flight : Flight) (w : World S)
    → After (TakenIn msg w) (LeftAlone w) (handle_finished msg flight w)
unfolding handle_finished
finished_order {S = S} msg flight w =
    let P : World S → Type 0 = TakenIn msg w in
    let Q : World S → Type 0 = LeftAlone w in
    After-lift P Q w
      (verify_finished_sha256 (span w.client.schedule.server_handshake_traffic_secret)
        (span (snapshot w.client.transcript)) msg)
      _ (refl, refl) (λ done e. After-value P Q _ _ (refl, refl))

-- A message of the server's flight that is accepted is taken into the transcript once, as it was
-- received; one that is refused leaves the transcript, the keys, the secrets and the state as they
-- were. Neither sends anything.
pub handle_handshake_message-transcript :
    {S : Type 0} (host : Host S) (msg : HandshakeMessage) (flight : Flight) (w : World S)
    → After (TakenIn msg w) (LeftAlone w) (handle_handshake_message host msg flight w)
unfolding handle_handshake_message
handle_handshake_message-transcript {S = S} host msg flight w =
    let P : World S → Type 0 = TakenIn msg w in
    let Q : World S → Type 0 = LeftAlone w in
    After-if P Q (msg.type == hs_encrypted_extensions) _ _ w (extensions_order msg flight w) (
      After-if P Q (msg.type == hs_certificate) _ _ w (certificate_order msg flight w) (
        After-if P Q (msg.type == hs_certificate_verify) _ _ w
          (certificate_verify_order host msg flight w)
          (After-if P Q (msg.type == hs_finished) _ _ w (finished_order msg flight w)
            (After-error _ P Q w unsupported (refl, refl)))))
