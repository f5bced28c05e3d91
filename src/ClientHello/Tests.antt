-- ===== src/ClientHello/Tests.antt =====
-- A ClientHello for the host "h" with the protocols "h2" and "x".
use xbox360_tls.Base.{◌≡◌, ◌≤◌, refl, false, [], ◌∷◌, ◌++◌, length, replicate}
use xbox360_tls.Bytes.{Bytes, MutableByteSpan, span, null_span, ok, store_be16, store_be24}
use xbox360_tls.Handshake.Message.{parse_handshake_message, encode_message, message}
use xbox360_tls.ClientHello.Writing.{put, write_all, patch16, patch24}
use xbox360_tls.ClientHello.{
  ClientHelloParams, ext_supported_versions, ext_supported_groups, ext_sig_algs, ext_key_share,
  ext_sni, ext_cookie, next_name, alpn_names, ext_alpn, hello_front, hello_extensions,
  build_client_hello,
}
use xbox360_tls.ClientHello.Framing.{parse-build_client_hello}

abbrev params : ClientHelloParams
params = record {
  random32 = span (replicate 32 7);
  session_id = null_span;
  key_share = span (replicate 32 9);
  group = 0x001d;
  server_name = 0x68 ∷ [];
  alpn = 0x68 ∷ 0x32 ∷ 0x2c ∷ 0x78 ∷ [];
  cookie = null_span;
}

abbrev room : MutableByteSpan
room = record { is_null = false; capacity = 512 }

abbrev wire : Bytes
wire =
    (1 ∷ 0 ∷ 0 ∷ 135 ∷ 3 ∷ 3 ∷ [])
    ++ (replicate 32 7
        ++ ((0 ∷ 0 ∷ 2 ∷ 19 ∷ 1 ∷ 1 ∷ 0 ∷ 0 ∷ 92 ∷ 0 ∷ 0 ∷ 0 ∷ 6 ∷ 0 ∷ 4 ∷ 0 ∷ 0 ∷ 1 ∷ 104 ∷ 0 ∷ 43
              ∷ 0 ∷ 3 ∷ 2 ∷ 3 ∷ 4 ∷ 0 ∷ 10 ∷ 0 ∷ 6 ∷ 0 ∷ 4 ∷ 0 ∷ 29 ∷ 0 ∷ 23 ∷ 0 ∷ 13 ∷ 0 ∷ 8 ∷ 0
              ∷ 6 ∷ 8 ∷ 4 ∷ 8 ∷ 9 ∷ 4 ∷ 3 ∷ 0 ∷ 51 ∷ 0 ∷ 38 ∷ 0 ∷ 36 ∷ 0 ∷ 29 ∷ 0 ∷ 32 ∷ [])
            ++ (replicate 32 9 ++ (0 ∷ 16 ∷ 0 ∷ 7 ∷ 0 ∷ 5 ∷ 2 ∷ 104 ∷ 50 ∷ 1 ∷ 120 ∷ []))))

built : build_client_hello params room ≡ ok wire
unfolding build_client_hello put write_all patch16 patch24 store_be16 store_be24
    ext_supported_versions ext_supported_groups ext_sig_algs ext_key_share ext_sni ext_cookie
    next_name alpn_names ext_alpn hello_front hello_extensions
built = refl

parse-build_client_hello_example :
    (body : Bytes) × (parse_handshake_message (span wire) ≡ ok (message 1 body, length wire))
    × (wire ≡ encode_message 1 body)
    × (length wire ≤ 512)
parse-build_client_hello_example = parse-build_client_hello params room built
