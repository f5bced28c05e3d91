-- ===== src/Connection/Messages/Unchecked.antt =====
-- What a Finished message is accepted on.
use xbox360_tls.Base.{◌≡◌, refl, sym, ap, subst, true, false, ◌==◌, length}
use xbox360_tls.Bytes.{AreBytes, ok}
use xbox360_tls.Crypto.Hkdf.Sizes.{length-final}
use xbox360_tls.Handshake.Message.{
  HandshakeMessage, hs_finished, hs_encrypted_extensions, hs_certificate, hs_certificate_verify,
}
use xbox360_tls.Handshake.Finished.Laws.{
  verify_data, verify_data-AreBytes, verify_finished_sha256_iff,
}
use xbox360_tls.Transcript.{snapshot}
use xbox360_tls.Connection.{World, Host}
use xbox360_tls.Connection.Messages.{Flight, take_in, handle_finished, handle_handshake_message}

-- Under a secret of 32 bytes, a Finished message with the verify data of the transcript ends the
-- handshake whatever the flight was before it: no certificate, and no check of one, is asked for.
pub handle_handshake_message-finished :
    {S : Type 0} (host : Host S) (msg : HandshakeMessage) (flight : Flight) (w : World S)
    → length w.client.schedule.server_handshake_traffic_secret ≡ 32
    → msg.type ≡ hs_finished
    → msg.body.is_null ≡ false
    → msg.body.bytes
      ≡ verify_data w.client.schedule.server_handshake_traffic_secret (snapshot w.client.transcript)
    → handle_handshake_message host msg flight w
      ≡ (record w { client = take_in msg w.client }, ok (record flight { got_finished = true }))
unfolding handle_handshake_message handle_finished
handle_handshake_message-finished host msg flight w h t p e =
    let accepted =
      (verify_finished_sha256_iff w.client.schedule.server_handshake_traffic_secret
          (snapshot w.client.transcript) msg h (unfold snapshot in length-final w.client.transcript)
          (subst AreBytes (sym e) (
            verify_data-AreBytes w.client.schedule.server_handshake_traffic_secret
              (snapshot w.client.transcript)))).1
        (t, p, e) in
    let extensions : (msg.type == hs_encrypted_extensions) ≡ false =
      ap (λ z. z == hs_encrypted_extensions) t in
    let certificate : (msg.type == hs_certificate) ≡ false = ap (λ z. z == hs_certificate) t in
    let certificate_verify : (msg.type == hs_certificate_verify) ≡ false =
      ap (λ z. z == hs_certificate_verify) t in
    let finished : (msg.type == hs_finished) ≡ true = ap (λ z. z == hs_finished) t in
    rw (extensions, certificate, certificate_verify, finished, accepted) refl
