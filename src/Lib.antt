-- ===== src/Lib.antt =====
-- A model of a TLS 1.3 client library for the Xbox 360 (include/xboxtls, src), with the theorems
-- that make its parts correct.
--
-- How the program is put together. A connection (src/tls/connection.cpp) sends and receives
-- records (src/tls/record.cpp); once keys are agreed on, records are sealed and opened with
-- AES-128-GCM (src/tls/protected_record.cpp, src/crypto/aes_gcm.cpp). The content of handshake
-- records goes through a deframer (src/tls/handshake.cpp), which puts messages together from
-- records that cut them. Each message goes into the transcript (src/tls/transcript.cpp), whose
-- hash feeds the key schedule (src/tls/key_schedule.cpp), the signed message of the server
-- (src/tls/authentication.cpp) and the Finished messages (src/tls/handshake.cpp). All secrets come
-- from HKDF (src/crypto/hkdf.cpp) over SHA-256 (src/crypto/sha256.cpp).
--
-- Which file models which part, by the names of the source:
--   Base             numbers, lists and bits that all parts share
--   Bytes            include/xboxtls/types.h, error.h, endian.h: spans, error codes, loads, stores
--   Record           src/tls/record.cpp: parse_record_header, make_record_nonce
--   ProtectedRecord  src/tls/protected_record.cpp: derive_traffic_keys_sha256,
--                    protect_record_aes128_gcm, unprotect_record_aes128_gcm
--   Handshake        src/tls/handshake.cpp: Message (parse_handshake_message), Deframer
--                    (HandshakeDeframer), Finished, Flight (EncryptedExtensions, Certificate,
--                    CertificateVerify)
--   Authentication   src/tls/authentication.cpp: parse_certificate_chain,
--                    build_server_certificate_verify_message; Server: authenticate_server_flight
--   X509             src/x509/x509.cpp: Der (der_tlv), Time (parse_asn1_time), Certificate
--                    (parse_validity, parse_spki), Extensions (parse_extensions), Parse
--                    (x509_parse_certificate), Hostname (x509_verify_hostname)
--   Connection       src/tls/connection.cpp: TlsClient and fail; Records (read_record,
--                    send_plain_record, send_protected), Messages (handle_alert,
--                    handle_handshake_message), Handshake (process_server_handshake,
--                    process_post_handshake), Session (key_update, send, recv, reset, close)
--   ClientHello      src/tls/client_hello.cpp: Writer and build_client_hello
--   ServerHello      src/tls/server_hello.cpp: parse_server_hello; Wire: the encoding of RFC 8446
--   KeySchedule      src/tls/key_schedule.cpp: KeyScheduleSha256, update_traffic_secret_sha256
--   Transcript       src/tls/transcript.cpp: TranscriptHash
--   Crypto           src/crypto: Aes and Gcm (aes_gcm.cpp), Sha256 (sha256.cpp;
--                    Fips: the hash of FIPS 180-4), Hkdf (hkdf.cpp)
--
-- State and operations. A class or struct is a record of its fields, an operation a function
-- from the state to the new state; a call that can fail returns a Result, ok standing for XT_OK
-- beside what the call writes through its pointers. A call of the key schedule that fails
-- half-way returns the state it leaves. A byte is a number with the range IsByte, a buffer the
-- list of its bytes, and wrap-around is written out (u8 to u64). A span keeps whether its
-- pointer is null. A pointer that only returns a result is a returned value, so its null check
-- has no counterpart; what a failing call has written to its output buffer is not returned. The
-- null checks of the key, the nonce and the tag in aes128_gcm_encrypt and aes128_gcm_decrypt,
-- and of the label in hkdf_expand_label_sha256, have no counterpart either: these inputs are
-- lists. Clearing a local buffer that holds a secret has no counterpart. A C string is the list
-- of its characters.
--
-- Bounds and fuel. Buffers have the sizes of the source: 16384 bytes of content, 255 of
-- padding, 16640 of fragment, 12 of nonce, 65 of key share, 512 of cookie. A loop of the source
-- is recursion on a list or on fuel; each round of a loop on fuel takes a byte at least, and
-- the fuel is the number of bytes, so it does not run out. Each loop's comment says what a
-- round takes.
--
-- Not modelled: TlsClient::connect, which computes with X25519 and P-256, these two and RSA, the
-- trust store, the verifiers, the platform code, the demonstration program, and the vendored
-- external/xkelib. The allocation of the scratch buffer in protect_record_aes128_gcm is an
-- argument that says whether malloc gave it.
--
-- Parameters. The stream and the verifier are abstract classes that a program implements:
-- Stream is a record of its three calls over a state, ServerAuthVerifier one of its two; a
-- verifier whose pointer is null is none. A theorem that relies on how a stream behaves names
-- that as IsByteStream. A connection is a TlsClient and the state of its stream; a call leaves
-- both in another state (Action) and returns a Result. recv and process_server_handshake read
-- records until one ends them, which a peer may put off for ever: they are given how many
-- records they may read, and return none if that was not enough.
--
pub mod Base
pub mod Bytes
pub mod Record
pub mod Handshake
pub mod Crypto
pub mod ProtectedRecord
pub mod Transcript
pub mod KeySchedule
pub mod Authentication
pub mod ServerHello
pub mod ClientHello
pub mod X509
pub mod Connection
