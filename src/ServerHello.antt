-- ===== src/ServerHello.antt =====
-- src/tls/server_hello.cpp: ServerHello and HelloRetryRequest. The fields of fixed size with a
-- length beside them are the lists of the bytes that are in use.
pub mod Wire
pub mod Framed
pub mod Extensions
pub mod Accepted
mod Tests
use xbox360_tls.Base.{
  ℕ, zero, suc, ◌+◌, ◌*◌, ◌^◌, bit_or, Bool, true, false, not, ◌&&◌, ◌||◌, [], ◌∷◌, ltb, ◌==◌,
  if◌then◌else◌, length, take, drop, replicate,
}
use xbox360_tls.Bytes.{
  Bytes, ByteSpan, size, at, slice, Error, invalid_argument, bad_handshake, unsupported, Result, ok,
  err, ◌>>=◌, ◌>>◌, fail_if, load_be16, load_be24, bytes_equal,
}
use xbox360_tls.Handshake.Message.{hs_server_hello}

pub record ServerHelloInfo : Type 0 where
  pub random : Bytes
  pub session_id : Bytes
  pub cipher_suite : ℕ
  pub selected_version : ℕ
  pub group : ℕ
  pub key_share : Bytes
  pub hello_retry_request : Bool
  pub cookie : Bytes

abbrev pub tls_aes_128_gcm_sha256 : ℕ
tls_aes_128_gcm_sha256 = 0x1301

abbrev pub group_secp256r1 : ℕ
group_secp256r1 = 0x0017

abbrev pub group_x25519 : ℕ
group_x25519 = 0x001d

-- `HRR_RANDOM`
abbrev pub hrr_random : Bytes
hrr_random =
    0xcf ∷ 0x21 ∷ 0xad ∷ 0x74 ∷ 0xe5 ∷ 0x9a ∷ 0x61 ∷ 0x11 ∷ 0xbe ∷ 0x1d ∷ 0x8c ∷ 0x02 ∷ 0x1e ∷ 0x65
    ∷ 0xb8 ∷ 0x91 ∷ 0xc2 ∷ 0xa2 ∷ 0x11 ∷ 0x16 ∷ 0x7a ∷ 0xbb ∷ 0x8c ∷ 0x5e ∷ 0x07 ∷ 0x9e ∷ 0x09
    ∷ 0xe2 ∷ 0xc8 ∷ 0xa8 ∷ 0x33 ∷ 0x9c ∷ []

-- What the loop over the extensions carries.
pub record Progress : Type 0 where
  pub info : ServerHelloInfo
  pub version : Bool
  pub keyshare : Bool

-- The case `type == 0x0033`: `p` is behind the extension's header.
unfoldable pub key_share_extension : Bytes → ℕ → ServerHelloInfo → Result ServerHelloInfo
key_share_extension p len info =
    if info.hello_retry_request
    then (do
      fail_if (not (len == 2)) bad_handshake
      ok (record info { group = load_be16 p 0; key_share = [] }))
    else do
      fail_if (ltb len 4) bad_handshake
      let kl = load_be16 p 2
      fail_if (not (kl + 4 == len) || ltb 65 kl) bad_handshake
      ok (record info { group = load_be16 p 0; key_share = slice p 4 kl })

-- The case `type == 0x002c`.
unfoldable pub cookie_extension : Bytes → ℕ → ServerHelloInfo → Result ServerHelloInfo
cookie_extension p len info = do
  fail_if (not info.hello_retry_request || ltb len 2) bad_handshake
  let cl = load_be16 p 0
  fail_if (not (cl + 2 == len) || ltb 512 cl) bad_handshake
  ok (record info { cookie = slice p 2 cl })

-- The case `type == 0x002b`.
unfoldable pub version_extension : Bytes → ℕ → ServerHelloInfo → Result ServerHelloInfo
version_extension p len info = do
  fail_if (not (len == 2)) bad_handshake
  ok (record info { selected_version = load_be16 p 0 })

unfoldable pub hello_extension : ℕ → Bytes → ℕ → Progress → Result Progress
hello_extension type p len s =
    if type == 0x002b
    then (do info ← version_extension p len s.info; ok (record s { info = info; version = true }))
    else if type == 0x0033
    then (do
      info ← key_share_extension p len s.info
      ok (record s { info = info; keyshare = true }))
    else if type == 0x002c
    then (do info ← cookie_extension p len s.info; ok (record s { info = info }))
    else ok s

-- `while (p < end)`: a round reads four bytes at least, so as many rounds as bytes are enough.
unfoldable pub hello_loop : ℕ → Bytes → Progress → Result Progress
hello_loop n [] s = ok s
hello_loop zero (x ∷ p) s = ok s
hello_loop (suc n) (x ∷ p) s = do
  fail_if (ltb (length (x ∷ p)) 4) bad_handshake
  let len = load_be16 (x ∷ p) 2
  let q = drop 4 (x ∷ p)
  fail_if (ltb (length q) len) bad_handshake
  s' ← hello_extension (load_be16 (x ∷ p) 0) q len s
  hello_loop n (drop len q) s'

-- The checks behind the loop.
unfoldable pub check_hello : Progress → Result ServerHelloInfo
check_hello s = do
  let info = s.info
  fail_if (not s.version || not (info.selected_version == 0x0304) || not s.keyshare) bad_handshake
  fail_if (not (info.cipher_suite == tls_aes_128_gcm_sha256)) unsupported
  let retry_group = (info.group == group_x25519) || (info.group == group_secp256r1)
  let x25519 = (info.group == group_x25519) && (length info.key_share == 32)
  let p256 =
      (info.group == group_secp256r1)
      && (length info.key_share == 65)
      && (at info.key_share 0 == 0x04)
  fail_if (not (if info.hello_retry_request then retry_group else (x25519 || p256))) unsupported
  ok info

unfoldable pub parse_server_hello : ByteSpan → Result ServerHelloInfo
parse_server_hello h = do
  fail_if h.is_null invalid_argument
  let b = h.bytes
  fail_if (ltb (size h) 4 || not (at b 0 == hs_server_hello)) bad_handshake
  let body = load_be24 b 1
  fail_if (not (body + 4 == size h) || ltb body 38) bad_handshake
  fail_if (not (load_be16 b 4 == 0x0303)) bad_handshake
  let random = slice b 6 32
  fail_if (not (ltb 38 (size h))) bad_handshake
  let sid = at b 38
  fail_if (ltb 32 sid || ltb (size h) (39 + sid + 5)) bad_handshake
  let p = 39 + sid
  fail_if (not (at b (p + 2) == 0)) bad_handshake
  let ext_total = load_be16 b (p + 3)
  fail_if (not (p + 5 + ext_total == size h)) bad_handshake
  s ← hello_loop ext_total (drop (p + 5) b) (record {
    info = record {
      random = random;
      session_id = slice b 39 sid;
      cipher_suite = load_be16 b p;
      selected_version = 0;
      group = group_x25519;
      key_share = [];
      hello_retry_request = bytes_equal random hrr_random;
      cookie = [];
    };
    version = false;
    keyshare = false;
  })
  check_hello s
