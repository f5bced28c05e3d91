-- ===== src/ServerHello/Accepted.antt =====
-- What an accepted ServerHello has negotiated, and the sizes of what is copied from it.
use xbox360_tls.Base.{
  ℕ, zero, suc, ◌+◌, ◌≤◌, ◌≡◌, refl, sym, ap, ==_iff, ◌∙◌, ◌⊎◌, inl, inr, Bool-cases, true, false,
  [], ◌∷◌, ◌==◌, length, length-take, drop, none, length-drop, arith,
}
use xbox360_tls.Bytes.{
  AreBytes, Bytes, ByteSpan, at, slice, ok, Result-cases, load_be16, AreBytes-drop, bytes_equal,
}
use xbox360_tls.ServerHello.Framed.{
  IsHello, parse_server_hello-IsHello, hello-sized, hello-random, hello-wire,
}
use xbox360_tls.ServerHello.Wire.{IsEncoded}
use xbox360_tls.ServerHello.Extensions.{hello_loop-Read, ShareRead-some, VersionRead-some}
use xbox360_tls.ServerHello.{
  ServerHelloInfo, Progress, hrr_random, key_share_extension, cookie_extension, version_extension,
  hello_extension, hello_loop, check_hello, parse_server_hello,
}

-- What the source's arrays hold, and what an extension leaves as it was.
record Kept (old new : ServerHelloInfo) : Type 0 where
  shares : length new.key_share ≤ 65
  cookies : length new.cookie ≤ 512
  random : new.random ≡ old.random
  session : new.session_id ≡ old.session_id
  suite : new.cipher_suite ≡ old.cipher_suite
  retry : new.hello_retry_request ≡ old.hello_retry_request

hello_extension-Kept :
    (type : ℕ) (p : Bytes) (len : ℕ) (s : Progress) {s' : Progress}
    → length s.info.key_share ≤ 65
    → length s.info.cookie ≤ 512
    → hello_extension type p len s ≡ ok s'
    → Kept s.info s'.info
unfolding hello_extension key_share_extension cookie_extension version_extension
hello_extension-Kept type p len s h k e = record {
  shares = ground (arith, length-take (load_be16 p 2) (drop 4 p));
  cookies = ground (arith, length-take (load_be16 p 0) (drop 2 p));
  random = ground arith;
  session = ground arith;
  suite = ground arith;
  retry = ground arith;
}

hello_loop-Kept :
    (n : ℕ) (p : Bytes) (s : Progress) {s' : Progress}
    → length s.info.key_share ≤ 65
    → length s.info.cookie ≤ 512
    → hello_loop n p s ≡ ok s'
    → Kept s.info s'.info
unfolding hello_loop
hello_loop-Kept n [] s {s'} h k e =
    let same : s' ≡ s = ground (arith, e) in
    rw same (record {
      shares = h;
      cookies = k;
      random = refl;
      session = refl;
      suite = refl;
      retry = refl;
    })
hello_loop-Kept zero (x ∷ p) s {s'} h k e =
    let same : s' ≡ s = ground (arith, e) in
    rw same (record {
      shares = h;
      cookies = k;
      random = refl;
      session = refl;
      suite = refl;
      retry = refl;
    })
hello_loop-Kept (suc n) (x ∷ p) s {s'} h k e =
    let q = drop 4 (x ∷ p) in
    let len = load_be16 (x ∷ p) 2 in
    elim (Result-cases (hello_extension (load_be16 (x ∷ p) 0) q len s)) [
      | inl (t, et) ↦
          let one = hello_extension-Kept (load_be16 (x ∷ p) 0) q len s h k et in
          let later : hello_loop n (drop len q) t ≡ ok s' = ground (arith, e, et) in
          let rest = hello_loop-Kept n (drop len q) t one.shares one.cookies later in
          record {
            shares = rest.shares;
            cookies = rest.cookies;
            random = rest.random ∙ one.random;
            session = rest.session ∙ one.session;
            suite = rest.suite ∙ one.suite;
            retry = rest.retry ∙ one.retry;
          }
      | inr (er, et) ↦ absurd (ground (arith, e, et))
    ]

-- The group and key share that a hello or a retry request may have.
abbrev pub Negotiated : ServerHelloInfo → Type 0
Negotiated info =
    ((info.hello_retry_request ≡ true) × ((info.group ≡ 0x001d) ⊎ (info.group ≡ 0x0017)))
    ⊎ ((info.hello_retry_request ≡ false)
        × (((info.group ≡ 0x001d) × (length info.key_share ≡ 32))
            ⊎ ((info.group ≡ 0x0017) × (length info.key_share ≡ 65) × (at info.key_share 0 ≡ 4))))

check_hello-Negotiated :
    (s : Progress) {info : ServerHelloInfo}
    → check_hello s ≡ ok info
    → (info ≡ s.info)
      × (info.selected_version ≡ 0x0304)
      × (info.cipher_suite ≡ 0x1301)
      × Negotiated info
unfolding check_hello
check_hello-Negotiated s {info} e =
    let same : info ≡ s.info = ground (arith, e) in
    rw same (
      refl,
      ground (arith, e),
      ground (arith, e),
      elim (Bool-cases s.info.hello_retry_request) [
        | inl r ↦ inl (
          r,
          elim (Bool-cases (s.info.group == 0x001d)) [
            | inl g ↦ inl ((==_iff s.info.group 0x001d).0 g)
            | inr g ↦ inr (ground (arith, e, r, g))
          ],
        )
        | inr r ↦ inr (
          r,
          elim (Bool-cases (s.info.group == 0x001d)) [
            | inl g ↦ inl (ground (arith, e, r, g))
            | inr g ↦ inr (ground (arith, e, r, g))
          ],
        )
      ],
    )

-- What is checked of the fields: TLS 1.3 with TLS_AES_128_GCM_SHA256, whether this is a retry request, the
-- group and its share, and the sizes of the arrays.
abbrev pub IsChecked : ServerHelloInfo → Type 0
IsChecked info =
    (info.selected_version ≡ 0x0304)
    × (info.cipher_suite ≡ 0x1301)
    × (info.hello_retry_request ≡ bytes_equal info.random hrr_random)
    × Negotiated info
    × (length info.session_id ≤ 32)
    × (length info.key_share ≤ 65)
    × (length info.cookie ≤ 512)

negotiated_sound :
    (h : ByteSpan) {info : ServerHelloInfo} → parse_server_hello h ≡ ok info → IsChecked info
unfolding parse_server_hello
negotiated_sound h {info} e =
    let b = h.bytes in
    let p = 39 + at b 38 in
    let start : Progress = record {
      info = record {
        random = slice b 6 32;
        session_id = slice b 39 (at b 38);
        cipher_suite = load_be16 b p;
        selected_version = 0;
        group = 0x001d;
        key_share = [];
        hello_retry_request = bytes_equal (slice b 6 32) hrr_random;
        cookie = [];
      };
      version = false;
      keyshare = false;
    } in
    elim (Result-cases (hello_loop (load_be16 b (p + 3)) (drop (p + 5) b) start)) [
      | inl (s, es) ↦
          let kept =
            hello_loop-Kept (load_be16 b (p + 3)) (drop (p + 5) b) start (omega arith) (omega arith)
              es in
          let checked : check_hello s ≡ ok info = ground (arith, e, es) in
          let (same, version, suite, negotiated) = check_hello-Negotiated s checked in
          (
            version,
            suite,
            ap (λ i. i.hello_retry_request) same
                ∙ kept.retry
                ∙ ap (λ r. bytes_equal r hrr_random) (sym (ap (λ i. i.random) same ∙ kept.random)),
            negotiated,
            omega (
              arith,
              ap (λ i. length i.session_id) same,
              ap length kept.session,
              length-take (at b 38) (drop 39 b),
              least,
            ),
            omega (arith, ap (λ i. length i.key_share) same, kept.shares),
            omega (arith, ap (λ i. length i.cookie) same, kept.cookies),
          )
      | inr (er, es) ↦ absurd (ground (arith, e, es))
    ]
  where
    least : at h.bytes 38 ≤ 32
    least = ground (arith, e)

check_hello-flags :
    (s : Progress) {info : ServerHelloInfo}
    → check_hello s ≡ ok info
    → (s.version ≡ true) × (s.keyshare ≡ true)
unfolding check_hello
check_hello-flags s e = (ground (arith, e), ground (arith, e))

-- The loop and the checks behind it, from a state whose first fields are read from the bytes.
encoded :
    (h : ByteSpan) (start s : Progress) {info : ServerHelloInfo}
    → AreBytes h.bytes
    → IsHello h.bytes
    → start.info.random ≡ slice h.bytes 6 32
    → start.info.session_id ≡ slice h.bytes 39 (at h.bytes 38)
    → start.info.cipher_suite ≡ load_be16 h.bytes (39 + at h.bytes 38)
    → (start.info.key_share ≡ []) × (start.info.cookie ≡ [])
    → start.version ≡ false
    → start.keyshare ≡ false
    → hello_loop
        (load_be16 h.bytes (39 + at h.bytes 38 + 3))
        (drop (39 + at h.bytes 38 + 5) h.bytes)
        start
      ≡ ok s
    → check_hello s ≡ ok info
    → IsEncoded h.bytes info
encoded h start s bytes hello random session suite (share, cookie) version shared e c =
    let b = h.bytes in
    let p = 39 + at b 38 in
    let (same, _, _, _) = check_hello-Negotiated s c in
    let (versioned, keyed) = check_hello-flags s c in
    let kept =
      hello_loop-Kept (load_be16 b (p + 3)) (drop (p + 5) b) start (omega (arith, ap length share))
        (omega (arith, ap length cookie)) e in
    let (es, wire, fit, read) =
      hello_loop-Read (load_be16 b (p + 3)) (drop (p + 5) b) start none none none
        (AreBytes-drop (p + 5) b bytes) (omega (arith, length-drop (p + 5) b, hello.total)) e
        (record { version = version; share = shared; cookie = cookie }) in
    let (d, found, share_read) = ShareRead-some _ s read.share keyed in
    rw same (record {
      extensions = es;
      fit = fit;
      sized = hello-sized b bytes hello es wire;
      wire =
          rw (kept.random, kept.session, kept.suite, random, session, suite)
            (hello-wire b bytes hello es wire);
      random = ap length (kept.random ∙ random) ∙ hello-random b bytes hello es wire;
      version = VersionRead-some _ s read.version versioned;
      key_share = d;
      shared = found;
      share = share_read;
      cookie = read.cookie;
    })

IsEncoded-sound :
    (h : ByteSpan) {info : ServerHelloInfo}
    → AreBytes h.bytes
    → parse_server_hello h ≡ ok info
    → IsEncoded h.bytes info
unfolding parse_server_hello
IsEncoded-sound h {info} bytes e =
    let b = h.bytes in
    let p = 39 + at b 38 in
    let start : Progress = record {
      info = record {
        random = slice b 6 32;
        session_id = slice b 39 (at b 38);
        cipher_suite = load_be16 b p;
        selected_version = 0;
        group = 0x001d;
        key_share = [];
        hello_retry_request = bytes_equal (slice b 6 32) hrr_random;
        cookie = [];
      };
      version = false;
      keyshare = false;
    } in
    elim (Result-cases (hello_loop (load_be16 b (p + 3)) (drop (p + 5) b) start)) [
      | inl (s, es) ↦
          encoded h start s bytes (parse_server_hello-IsHello h e) refl refl refl (refl, refl) refl
            refl es (ground (arith, e, es))
      | inr (er, es) ↦ absurd (ground (arith, e, es))
    ]

-- A ServerHello of bytes that is accepted is the encoding of what it is parsed into: its random, session
-- id and cipher suite stand in it, the version is that of its last supported_versions extension, the
-- group and the share are those of its last key_share extension, which it has, and the cookie is that
-- of its last cookie extension, which only a retry request has, or is empty. The version is TLS 1.3
-- and the suite TLS_AES_128_GCM_SHA256. If its random is the one of a HelloRetryRequest it asks for
-- X25519 or P-256; if not, it has a share of 32 bytes for X25519 or an uncompressed point of 65 bytes
-- for P-256. The session id, the key share and the cookie fit the arrays that they are copied to.
pub parse_server_hello_sound :
    (h : ByteSpan) {info : ServerHelloInfo}
    → AreBytes h.bytes
    → parse_server_hello h ≡ ok info
    → IsEncoded h.bytes info × IsChecked info
parse_server_hello_sound h bytes e = (IsEncoded-sound h bytes e, negotiated_sound h e)
