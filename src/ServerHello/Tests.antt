-- ===== src/ServerHello/Tests.antt =====
-- A ServerHello with a share for X25519.
use xbox360_tls.Base.{Bool, true, ltb, ◌&&◌, arith, ◌≡◌, refl, false, [], ◌∷◌, ◌++◌, replicate}
use xbox360_tls.Bytes.{Bytes, AreBytes, span, ok, load_be16, load_be24, bytes_equal}
use xbox360_tls.ServerHello.{
  ServerHelloInfo, version_extension, key_share_extension, hello_extension, hello_loop, check_hello,
  parse_server_hello,
}
use xbox360_tls.ServerHello.Wire.{IsEncoded}
use xbox360_tls.ServerHello.Accepted.{IsChecked, parse_server_hello_sound}

-- The cipher suite, and the extensions up to the key.
abbrev middle : Bytes
middle =
    0 ∷ 0x13 ∷ 0x01 ∷ 0 ∷ 0 ∷ 46 ∷ 0x00 ∷ 0x2b ∷ 0 ∷ 2 ∷ 3 ∷ 4 ∷ 0x00 ∷ 0x33 ∷ 0 ∷ 36 ∷ 0 ∷ 0x1d ∷ 0
    ∷ 32 ∷ []

abbrev wire : Bytes
wire = (2 ∷ 0 ∷ 0 ∷ 86 ∷ 3 ∷ 3 ∷ []) ++ (replicate 32 7 ++ (middle ++ replicate 32 9))

abbrev info : ServerHelloInfo
info = record {
  random = replicate 32 7;
  session_id = [];
  cipher_suite = 0x1301;
  selected_version = 0x0304;
  group = 0x001d;
  key_share = replicate 32 9;
  hello_retry_request = false;
  cookie = [];
}

parsed : parse_server_hello (span wire) ≡ ok info
unfolding parse_server_hello load_be16 load_be24 bytes_equal version_extension key_share_extension
    hello_extension hello_loop check_hello
parsed = refl

abbrev all_bytes : Bytes → Bool
all_bytes [] = true
all_bytes (b ∷ bs) = ltb b 256 && all_bytes bs

all_bytes_sound : (bs : Bytes) → all_bytes bs ≡ true → AreBytes bs
all_bytes_sound [] e = tt
all_bytes_sound (b ∷ bs) e = (ground (arith, e), all_bytes_sound bs (ground (arith, e)))

parse_server_hello_sound_example : IsEncoded wire info × IsChecked info
parse_server_hello_sound_example =
    parse_server_hello_sound (span wire) (all_bytes_sound wire refl) parsed
