-- ===== src/Connection/Session/Sending.antt =====
-- How `send` cuts its bytes into records.
use xbox360_tls.Base.{
  ℕ, zero, suc, ◌-◌, ◌≤◌, ◌<◌, ◌≡◌, refl, ◌∙◌, true, false, not, ◌&&◌, [], ◌∷◌, length, take, drop,
  lt→ltb, ◌==◌, length-take, drop_all, take_all, arith,
}
use xbox360_tls.Bytes.{Bytes, span, bad_record, Result, ok, err}
use xbox360_tls.Record.{content_application_data}
use xbox360_tls.ProtectedRecord.{protect_record_aes128_gcm}
use xbox360_tls.Connection.{client_connected, World, Host, fail}
use xbox360_tls.Connection.Action.{continue, send_all}
use xbox360_tls.Connection.Records.{protect_with}
use xbox360_tls.Connection.Session.Kept.{IsIn}
use xbox360_tls.Connection.Session.Failure.{connected}
use xbox360_tls.Connection.Session.{send, send_loop, capped, failing}

protect-too_large :
    {S : Type 0} (host : Host S) (content : Bytes) (padding : ℕ) (w : World S)
    → 16384 < length content
    → protect_with host true content_application_data (span content) padding w ≡ (w, err bad_record)
unfolding protect_with protect_record_aes128_gcm
protect-too_large host content padding w h =
    let some_bytes : (length content == 0) ≡ false = ground (arith, h) in
    rw (some_bytes, lt→ltb 16384 (length content) h) refl

capped-le : (padding limit : ℕ) → padding ≤ limit → capped padding ≤ limit
capped-le padding limit h = ground arith

capped_bound : (padding : ℕ) → capped padding ≤ 255
capped_bound padding = ground arith

guard : (bytes : Bytes) → (not (length bytes == 0) && false) ≡ false
guard bytes = ground arith

-- A connected client that is to send more than 16384 bytes, with a padding of at most 238, sends
-- none: its first record is longer than a record may be, which fails the connection.
pub send-too_large :
    {S : Type 0} (host : Host S) (bytes : Bytes) (w : World S)
    → IsIn client_connected w
    → 16384 < length bytes
    → w.client.config.application_record_padding ≤ 238
    → send host (span bytes) w ≡ (fail host w, err bad_record)
unfolding send send_loop
send-too_large host [] w h l p = absurd (omega arith)
send-too_large host (x ∷ bytes) w h l p =
    let padding = capped w.client.config.application_record_padding in
    let first = take (16623 - padding) (x ∷ bytes) in
    let long : 16384 < length first = omega (
      arith,
      l,
      length-take (16623 - padding) (x ∷ bytes),
      capped-le w.client.config.application_record_padding 238 p,
    ) in
    rw (connected w h, guard (x ∷ bytes), protect-too_large host first padding w long) refl

send_loop_step :
    {S : Type 0} (host : Host S) (n padding x : ℕ) (rest : Bytes) (w : World S)
    → send_loop host (suc n) padding (x ∷ rest) w
      ≡ continue
          (failing host (
            protect_with host true content_application_data
              (span (take (16623 - padding) (x ∷ rest)))
              padding
              w))
          (λ written w'.
            continue
              (failing host (send_all host written w'))
              (λ done. send_loop host n padding (drop (16623 - padding) (x ∷ rest))))
unfolding send_loop
send_loop_step host n padding x rest w = refl

nothing_left :
    {S : Type 0} (host : Host S) (n padding : ℕ) (r : World S × Result (Unit {0}))
    → continue r (λ done. send_loop host n padding []) ≡ r
unfolding send_loop
nothing_left host n padding (w, err code) = refl
nothing_left host zero padding (w, ok done) = refl
nothing_left host (suc n) padding (w, ok done) = refl

-- A connected client sends up to 16368 bytes in one record, whatever its padding.
pub send-one_record :
    {S : Type 0} (host : Host S) (bytes : Bytes) (w : World S)
    → IsIn client_connected w
    → 0 < length bytes
    → length bytes ≤ 16368
    → send host (span bytes) w
      ≡ continue
          (failing host (
            protect_with host true content_application_data
              (span bytes)
              (capped w.client.config.application_record_padding)
              w))
          (λ written w'. failing host (send_all host written w'))
unfolding send
send-one_record host [] w h l u = absurd (omega arith)
send-one_record host (x ∷ bytes) w h l u =
    let padding = capped w.client.config.application_record_padding in
    let fits : length (x ∷ bytes) ≤ 16623 - padding =
      omega (arith, u, capped_bound w.client.config.application_record_padding) in
    let first =
      failing host (protect_with host true content_application_data (span (x ∷ bytes)) padding w) in
    rw (connected w h, guard (x ∷ bytes))
      (send_loop_step host (length bytes) padding x bytes w
        ∙ rw
            (
              take_all (16623 - padding) (x ∷ bytes) fits,
              drop_all (16623 - padding) (x ∷ bytes) fits,
            )
            (λ i. continue first (λ written w'.
              nothing_left host (length bytes) padding (failing host (send_all host written w'))
                i)))
