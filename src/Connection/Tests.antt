-- ===== src/Connection/Tests.antt =====
-- A connection over a buffer of bytes, of which each call reads one and which keeps nothing sent.
use xbox360_tls.Base.{
  some, ℕ, ◌≤◌, ◌<◌, ◌≡◌, refl, inl, true, false, [], ◌∷◌, ◌++◌, length, length-replicate,
  replicate, take, drop, arith,
}
use xbox360_tls.Bytes.{Bytes, span, bad_record, Result, ok, err, load_be16}
use xbox360_tls.Transcript.{reset_transcript, snapshot}
use xbox360_tls.KeySchedule.{empty_schedule}
use xbox360_tls.Record.{RecordHeader, parse_record_header, content_application_data}
use xbox360_tls.Handshake.Message.{message}
use xbox360_tls.Handshake.Finished.Laws.{verify_data}
use xbox360_tls.Connection.{
  client_connected, ClientConfig, default_config, TlsClient, Host, World, no_keys, fail,
}
use xbox360_tls.Connection.After.{After}
use xbox360_tls.Connection.Records.{read_record}
use xbox360_tls.Connection.Reading.{IsByteStream, HasRead, read_record-IsByteStream}
use xbox360_tls.Connection.Messages.{no_flight, take_in, handle_handshake_message}
use xbox360_tls.Connection.Messages.Order.{TakenIn, LeftAlone, handle_handshake_message-transcript}
use xbox360_tls.Connection.Messages.Unchecked.{handle_handshake_message-finished}
use xbox360_tls.Connection.Session.{send, close_client, recv_content}
use xbox360_tls.Connection.Session.Pending.{waiting, PendingFits, recv_content-waiting}
use xbox360_tls.Connection.Session.Sending.{send-too_large}
use xbox360_tls.Connection.Session.Life.{IsSafe, no_call, then_call, was_closed, Calls-IsSafe}

abbrev host : Host Bytes
host = record {
  stream = record {
    recv_some = λ s room. (drop 1 s, ok (take 1 s));
    send_all = λ s bytes. (s, ok _);
    close = λ s. [];
  };
  verifier = some (record {
    verify_chain = λ chain name. ok _;
    verify_signature = λ scheme leaf content signature. ok _;
  });
  allocated = true;
}

abbrev config : ClientConfig
config = record default_config { stream_is_null = false }

abbrev client : TlsClient
client = record {
  state = client_connected;
  config = config;
  transcript = reset_transcript;
  schedule = empty_schedule;
  client_hs_keys = no_keys;
  server_hs_keys = no_keys;
  client_app_keys = no_keys;
  server_app_keys = no_keys;
  private_key = replicate 32 1;
  public_key = replicate 65 1;
  client_hello_len = 0;
  deframer = record { storage = span (replicate 8 0); used = 0 };
  certificate_storage_len = 0;
  negotiated_alpn = [];
  pending_app = replicate 4 0;
  pending_app_offset = 0;
  pending_app_length = 0;
  last_alert_level = 0;
  last_alert_description = 0;
}

abbrev wire : Bytes
wire = 23 ∷ 3 ∷ 3 ∷ 0 ∷ 2 ∷ 7 ∷ 8 ∷ 9 ∷ []

abbrev world : World Bytes
world = record { client = client; stream = wire }

received :
    (s : Bytes) (room : ℕ)
    → 0 < room
    → 0 < length s
    → (s' : Bytes) × (more : Bytes) × (◌≡◌ {A = Bytes × Result Bytes}
        (drop 1 s, ok (take 1 s))
        (s', ok more))
      × (s ≡ more ++ s')
      × (0 < length more)
      × (length more ≤ room)
received [] room h k = absurd (omega (arith, k))
received (x ∷ s) room h k = (s, x ∷ [], refl, refl, omega arith, omega (arith, h))

abbrev stream : IsByteStream host
stream = record { holds = λ s. s; received = received }

abbrev header : RecordHeader
header = record { type = 23; legacy_version = 0x0303; length = 2 }

headed : parse_record_header (span (23 ∷ 3 ∷ 3 ∷ 0 ∷ 2 ∷ [])) ≡ ok header
unfolding parse_record_header load_be16
headed = refl

read_record-IsByteStream_example :
    HasRead stream world (23 ∷ 3 ∷ 3 ∷ 0 ∷ 2 ∷ 7 ∷ 8 ∷ []) (9 ∷ []) (read_record host 100 world)
read_record-IsByteStream_example =
    read_record-IsByteStream host stream 100 (23 ∷ 3 ∷ 3 ∷ 0 ∷ 2 ∷ []) (7 ∷ 8 ∷ []) (9 ∷ []) header
      world refl refl refl headed refl (omega arith)

Calls-IsSafe_example : IsSafe (close_client host world).0.client
Calls-IsSafe_example =
    Calls-IsSafe host world (close_client host world).0
      (then_call world world (close_client host world).0 (no_call world) (was_closed world))
      (inl refl)

handle_handshake_message-transcript_example :
    After
      (TakenIn (message 8 (0 ∷ 0 ∷ [])) world)
      (LeftAlone world)
      (handle_handshake_message host (message 8 (0 ∷ 0 ∷ [])) no_flight world)
handle_handshake_message-transcript_example =
    handle_handshake_message-transcript host (message 8 (0 ∷ 0 ∷ [])) no_flight world

abbrev says : Bytes
says = verify_data (replicate 32 0) (snapshot reset_transcript)

handle_handshake_message-finished_example :
    handle_handshake_message host (message 20 says) no_flight world ≡ (
      record world { client = take_in (message 20 says) client },
      ok (record no_flight { got_finished = true }),
    )
handle_handshake_message-finished_example =
    handle_handshake_message-finished host (message 20 says) no_flight world refl refl refl refl

abbrev large : Bytes
large = replicate 16385 0

send-too_large_example : send host (span large) world ≡ (fail host world, err bad_record)
send-too_large_example =
    send-too_large host large world refl (omega (arith, length-replicate {A = ℕ} 16385 0))
      (omega arith)

recv_content-waiting_example :
    let (w, r) = recv_content host 2 content_application_data (5 ∷ 6 ∷ 7 ∷ []) world in
    (r ≡ ok (some (take 2 (5 ∷ 6 ∷ 7 ∷ []))))
    × (take 2 (5 ∷ 6 ∷ 7 ∷ []) ++ waiting w.client ≡ 5 ∷ 6 ∷ 7 ∷ [])
    × PendingFits w.client
recv_content-waiting_example =
    recv_content-waiting host 2 (5 ∷ 6 ∷ 7 ∷ []) world refl (omega arith) (omega arith)
