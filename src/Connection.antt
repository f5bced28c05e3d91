-- ===== src/Connection.antt =====
-- include/xboxtls/connection.h and src/tls/connection.cpp: `TlsClient`, what it keeps, and the calls
-- that all its operations use.
pub mod Action
pub mod After
pub mod Records
pub mod Messages
pub mod Reading
pub mod Handshake
pub mod Session
mod Tests
use xbox360_tls.Base.{Option, ℕ, Bool, true, false, not, List, [], replicate, if◌then◌else◌}
use xbox360_tls.Bytes.{Bytes, ByteSpan, span, null_span, Result}
use xbox360_tls.Transcript.{TranscriptHash, reset_transcript}
use xbox360_tls.KeySchedule.{KeyScheduleSha256, empty_schedule}
use xbox360_tls.ProtectedRecord.{TrafficKeys}
use xbox360_tls.Handshake.Deframer.{HandshakeDeframer, reset}
use xbox360_tls.Authentication.Server.{ServerAuthVerifier}

pub data ClientState : Type 0 where
  client_idle client_handshaking client_connected client_closed client_failed : ClientState

-- `Stream` (platform.h), an abstract class: each call leaves the stream in another state. `recv_some`
-- is given the size of the place to write, and returns the bytes that it wrote there.
pub record Stream (S : Type 0) : Type 0 where
  pub recv_some : S → ℕ → S × Result Bytes
  pub send_all : S → Bytes → S × Result (Unit {0})
  pub close : S → S

-- What a connection runs with: the stream, the verifier unless its pointer is null, and whether `malloc` gives memory.
pub record Host (S : Type 0) : Type 0 where
  pub stream : Stream S
  pub verifier : Option ServerAuthVerifier
  pub allocated : Bool

-- `ClientConfig`. The pointer to the verifier is in `Host`. Whether the pointer to the platform is null
-- only `connect` tests, whether that to the stream is null the other operations test too.
pub record ClientConfig : Type 0 where
  pub stream_is_null : Bool
  pub hostname : ByteSpan
  pub alpn : ByteSpan
  pub preferred_group : ℕ
  pub application_record_padding : ℕ

abbrev pub default_config : ClientConfig
default_config = record {
  stream_is_null = true;
  hostname = null_span;
  alpn = null_span;
  preferred_group = 0x001d;
  application_record_padding = 0;
}

pub record TlsClient : Type 0 where
  pub state : ClientState
  pub config : ClientConfig
  pub transcript : TranscriptHash
  pub schedule : KeyScheduleSha256
  pub client_hs_keys : TrafficKeys
  pub server_hs_keys : TrafficKeys
  pub client_app_keys : TrafficKeys
  pub server_app_keys : TrafficKeys
  pub private_key : Bytes
  pub public_key : Bytes
  pub client_hello_len : ℕ
  pub deframer : HandshakeDeframer
  pub certificate_storage_len : ℕ
  pub negotiated_alpn : Bytes
  pub pending_app : Bytes
  pub pending_app_offset : ℕ
  pub pending_app_length : ℕ
  pub last_alert_level : ℕ
  pub last_alert_description : ℕ

abbrev pub no_keys : TrafficKeys
no_keys = record { key = replicate 16 0; iv = replicate 12 0; sequence_number = 0 }

unfoldable pub wipe_secrets : TlsClient → TlsClient
wipe_secrets c = record c {
  private_key = replicate 32 0;
  public_key = replicate 65 0;
  schedule = empty_schedule;
  client_hs_keys = no_keys;
  server_hs_keys = no_keys;
  client_app_keys = no_keys;
  server_app_keys = no_keys;
}

-- The client, and the state of its stream.
pub record World (S : Type 0) : Type 0 where
  pub client : TlsClient
  pub stream : S

-- `if (config_.stream) config_.stream->close();`
unfoldable pub close_stream : {S : Type 0} → Host S → World S → World S
close_stream host w =
    let c = w.client in
    if c.config.stream_is_null then w else record w { stream = host.stream.close w.stream }

-- `TlsClient::fail`
unfoldable pub fail : {S : Type 0} → Host S → World S → World S
fail host w =
    close_stream host
      (record w { client = wipe_secrets (record w.client { state = client_failed }) })
