-- ===== src/ClientHello.antt =====
-- src/tls/client_hello.cpp: the writer, the extensions, and `build_client_hello`. A null C string
-- counts as an empty one, as in the source.
pub mod Writing
pub mod Message
pub mod Framing
mod Tests
use xbox360_tls.Base.{
  ℕ, zero, suc, ◌+◌, ◌-◌, not, ◌||◌, List, [], ◌∷◌, ◌++◌, ltb, ◌==◌, if◌then◌else◌, length,
}
use xbox360_tls.Bytes.{
  Bytes, ByteSpan, MutableByteSpan, size, u8, u16, Error, invalid_argument, buffer_too_small,
  Result, ok, err, ◌>>=◌, ◌>>◌, fail_if, store_be16, store_be24,
}
use xbox360_tls.Handshake.Message.{hs_client_hello}
use xbox360_tls.ServerHello.{tls_aes_128_gcm_sha256, group_x25519, group_secp256r1}
use Writing.{Writer, puts, write_all, patch16, patch24}

pub record ClientHelloParams : Type 0 where
  pub random32 : ByteSpan
  pub session_id : ByteSpan
  pub key_share : ByteSpan
  pub group : ℕ
  pub server_name : Bytes
  pub alpn : Bytes
  pub cookie : ByteSpan

unfoldable pub ext_supported_versions : Writer → Result Writer
ext_supported_versions w =
    (write_all w (store_be16 0x002b ∷ store_be16 3 ∷ (2 ∷ []) ∷ store_be16 0x0304 ∷ []))

unfoldable pub ext_supported_groups : ℕ → Writer → Result Writer
ext_supported_groups preferred w =
    (write_all w (
      store_be16 0x000a
      ∷ store_be16 6
      ∷ store_be16 4
      ∷ store_be16 (u16 preferred)
      ∷ store_be16 (if preferred == group_x25519 then group_secp256r1 else group_x25519)
      ∷ []))

unfoldable pub ext_sig_algs : Writer → Result Writer
ext_sig_algs w =
    (write_all w (
      store_be16 0x000d
      ∷ store_be16 8
      ∷ store_be16 6
      ∷ store_be16 0x0804
      ∷ store_be16 0x0809
      ∷ store_be16 0x0403
      ∷ []))

unfoldable pub ext_key_share : ℕ → Bytes → Writer → Result Writer
ext_key_share g k w =
    (write_all w (
      store_be16 0x0033
      ∷ store_be16 (u16 (4 + 2 + length k))
      ∷ store_be16 (u16 (2 + 2 + length k))
      ∷ store_be16 (u16 g)
      ∷ store_be16 (u16 (length k))
      ∷ k
      ∷ []))

abbrev pub sni_fields : Bytes → List Bytes
sni_fields host =
    store_be16 0
    ∷ store_be16 (u16 (5 + length host))
    ∷ store_be16 (u16 (3 + length host))
    ∷ (0 ∷ [])
    ∷ store_be16 (u16 (length host))
    ∷ host
    ∷ []

unfoldable pub ext_sni : Bytes → Writer → Result Writer
ext_sni host w =
    if length host == 0
    then ok w
    else do fail_if (ltb 65530 (length host)) buffer_too_small; write_all w (sni_fields host)

abbrev pub cookie_fields : ByteSpan → List Bytes
cookie_fields cookie =
    store_be16 0x002c
    ∷ store_be16 (u16 (2 + size cookie))
    ∷ store_be16 (u16 (size cookie))
    ∷ cookie.bytes
    ∷ []

unfoldable pub ext_cookie : ByteSpan → Writer → Result Writer
ext_cookie cookie w = if size cookie == 0 then ok w else do
  fail_if (cookie.is_null || ltb 65535 (size cookie)) buffer_too_small
  write_all w (cookie_fields cookie)

-- `while (*p && *p != ',') ++p;` from `start`: the name before the comma or the end, and what
-- stands behind the comma.
unfoldable pub next_name : Bytes → Bytes × Bytes
next_name [] = ([], [])
next_name (c ∷ p) =
    let (name, rest) = next_name p in if c == 0x2c then ([], p) else (c ∷ name, rest)

-- The first loop of `ext_alpn`: the names, with `list_size` so far. A round takes a character at
-- least, so as many rounds as characters are enough.
unfoldable pub alpn_names : ℕ → Bytes → ℕ → Result (List Bytes)
alpn_names n [] list_size = ok []
alpn_names zero (c ∷ p) list_size = ok []
alpn_names (suc n) (c ∷ p) list_size = do
  let (name, rest) = next_name (c ∷ p)
  fail_if (length name == 0 || ltb 255 (length name)) buffer_too_small
  let total = list_size + 1 + length name
  fail_if (ltb 65535 total) buffer_too_small
  names ← alpn_names n rest total
  ok (name ∷ names)

abbrev pub names_size : List Bytes → ℕ
names_size [] = 0
names_size (name ∷ names) = 1 + length name + names_size names

-- What the second loop writes.
abbrev pub name_fields : List Bytes → List Bytes
name_fields [] = []
name_fields (name ∷ names) = (u8 (length name) ∷ []) ∷ name ∷ name_fields names

abbrev pub alpn_fields : List Bytes → List Bytes
alpn_fields names =
    store_be16 0x0010
    ∷ store_be16 (u16 (2 + names_size names))
    ∷ store_be16 (u16 (names_size names))
    ∷ name_fields names

unfoldable pub ext_alpn : Bytes → Writer → Result Writer
ext_alpn alpn w =
    if length alpn == 0
    then ok w
    else do names ← alpn_names (length alpn) alpn 0; write_all w (alpn_fields names)

-- The message behind its header, up to `ext_len`, the place of the length of the extensions.
abbrev pub front_fields : ClientHelloParams → List Bytes
front_fields p =
    store_be16 0x0303
    ∷ p.random32.bytes
    ∷ (u8 (size p.session_id) ∷ [])
    ∷ p.session_id.bytes
    ∷ store_be16 2
    ∷ store_be16 tls_aes_128_gcm_sha256
    ∷ (1 ∷ [])
    ∷ (0 ∷ [])
    ∷ []

unfoldable pub hello_front : ClientHelloParams → Writer → Writer
hello_front p w = puts w (front_fields p)

unfoldable pub hello_extensions : ClientHelloParams → Writer → Result Writer
hello_extensions p w = do
  w₁ ← ext_sni p.server_name w
  w₂ ← ext_supported_versions w₁
  w₃ ← ext_supported_groups p.group w₂
  w₄ ← ext_sig_algs w₃
  w₅ ← ext_key_share p.group p.key_share.bytes w₄
  w₆ ← ext_cookie p.cookie w₅
  ext_alpn p.alpn w₆

-- The bytes that are written.
unfoldable pub build_client_hello : ClientHelloParams → MutableByteSpan → Result Bytes
build_client_hello p out = do
  fail_if
      (out.is_null
        || not (size p.random32 == 32)
        || p.random32.is_null
        || ltb 32 (size p.session_id)
        || size p.key_share == 0
        || ltb 65535 (size p.key_share))
      invalid_argument
  let start : Writer = record { written = []; capacity = out.capacity; fine = not out.is_null }
  let opened = puts start ((hs_client_hello ∷ []) ∷ store_be24 0 ∷ [])
  let front = hello_front p opened
  let ext_len = length front.written
  let begun = puts front (store_be16 0 ∷ [])
  w ← hello_extensions p begun
  fail_if (not w.fine) buffer_too_small
  let exts = length w.written - length begun.written
  fail_if (ltb 65535 exts) invalid_argument
  let patched = patch16 w ext_len (u16 exts)
  let body = length patched.written - 4
  fail_if (ltb 0xffffff body) invalid_argument
  ok (patch24 patched 1 body).written
