-- ===== src/ServerHello/Extensions.antt =====
-- The loop over the extensions reads the last extension of each type.
use xbox360_tls.Base.{
  ℕ, zero, suc, ◌+◌, ◌≤◌, ◌<◌, ◌≡◌, refl, sym, ap, ap₂, ◌∙◌, inl, inr, Bool-cases, true, false, not,
  ◌||◌, Option, none, some, List, [], ◌∷◌, ◌++◌, ltb, ◌==◌, length, length-take, length-drop, take,
  drop, drop-drop, take-append-drop, arith,
}
use xbox360_tls.Bytes.{
  Bytes, AreBytes, AreBytes-drop, AreBytes-take, slice, store_be16, load_be16, load_be16-lt,
  bad_handshake, ok, fail_if, ◌>>=◌, ◌>>◌, >>=-eq-ok,
}
use xbox360_tls.Handshake.Flight.Extensions.{
  encode_extension, encode_extension-append, encode_extensions, AllFit,
}
use xbox360_tls.ServerHello.{
  ServerHelloInfo, Progress, key_share_extension, cookie_extension, version_extension,
  hello_extension, hello_loop,
}
use xbox360_tls.ServerHello.Wire.{vector, seen, last_of, ShareIs, CookieIs, drop-be16, take-be16}

load_be16-drop : (q : Bytes) → load_be16 q 2 ≡ load_be16 (drop 2 q) 0
unfolding load_be16
load_be16-drop [] = refl
load_be16-drop (x ∷ []) = refl
load_be16-drop (x ∷ y ∷ q) = refl

-- Two bytes with a length and as many bytes as it gives, at the front.
take-vector :
    (q : Bytes)
    → AreBytes q
    → load_be16 q 0 + 2 ≤ length q
    → take (load_be16 q 0 + 2) q ≡ vector (take (load_be16 q 0) (drop 2 q))
take-vector q b h =
    take-be16 q (load_be16 q 0) b (omega arith)
    ∙ ap (λ n. store_be16 n ++ take (load_be16 q 0) (drop 2 q))
        (omega (arith, length-take (load_be16 q 0) (drop 2 q), length-drop 2 q))

take-share :
    (q : Bytes)
    → AreBytes q
    → load_be16 q 2 + 4 ≤ length q
    → take (load_be16 q 2 + 2 + 2) q
      ≡ store_be16 (load_be16 q 0) ++ vector (slice q 4 (load_be16 q 2))
take-share q b h =
    let counted = load_be16-drop q in
    let tail = drop 2 q in
    take-be16 q (load_be16 q 2 + 2) b (omega arith)
    ∙ ap (λ p. store_be16 (load_be16 q 0) ++ p)
        (ap (λ n. take (n + 2) tail) counted
          ∙ take-vector tail (AreBytes-drop 2 q b) (omega (arith, counted, length-drop 2 q))
          ∙ ap₂ (λ n p. vector (take n p)) (sym counted) (drop-drop 2 2 4 q refl))

version_extension_sound :
    (q : Bytes) (len : ℕ) (info : ServerHelloInfo) {new : ServerHelloInfo}
    → AreBytes q
    → len ≤ length q
    → version_extension q len info ≡ ok new
    → (new ≡ record info { selected_version = load_be16 q 0 })
      × (take len q ≡ store_be16 (load_be16 q 0))
unfolding version_extension store_be16
version_extension_sound q len info b h e =
    let (done, e₁, e₂) = >>=-eq-ok (fail_if (not (len == 2)) bad_handshake) _ e in
    let two : len ≡ 2 = ground (arith, e₁) in
    (ground (arith, e₂), ap (λ n. take n q) two ∙ take-be16 q 0 b (omega arith))

cookie_extension_sound :
    (q : Bytes) (len : ℕ) (info : ServerHelloInfo) {new : ServerHelloInfo}
    → AreBytes q
    → len ≤ length q
    → cookie_extension q len info ≡ ok new
    → (new ≡ record info { cookie = slice q 2 (load_be16 q 0) })
      × (info.hello_retry_request ≡ true)
      × (take len q ≡ vector (slice q 2 (load_be16 q 0)))
unfolding cookie_extension
cookie_extension_sound q len info b h e =
    let (done, e₁, r₁) =
      >>=-eq-ok (fail_if (not info.hello_retry_request || ltb len 2) bad_handshake) _ e in
    let cl = load_be16 q 0 in
    let (checked, e₂, r₂) =
      >>=-eq-ok (fail_if (not (cl + 2 == len) || ltb 512 cl) bad_handshake) _ r₁ in
    let counted : len ≡ cl + 2 = ground (arith, e₂) in
    (
      ground (arith, r₂),
      ground (arith, e₁),
      ap (λ n. take n q) counted ∙ take-vector q b (omega arith),
    )

-- In either case the other fields stay as they were.
key_share_extension_sound :
    (q : Bytes) (len : ℕ) (info : ServerHelloInfo) {new : ServerHelloInfo}
    → AreBytes q
    → len ≤ length q
    → key_share_extension q len info ≡ ok new
    → (new ≡ record info { group = new.group; key_share = new.key_share })
      × ShareIs (take len q) new
unfolding key_share_extension store_be16
key_share_extension_sound q len info {new} b h e = elim (Bool-cases info.hello_retry_request) [
  | inl r ↦
      let retried : (fail_if (not (len == 2)) bad_handshake
            >> ok (record info { group = load_be16 q 0; key_share = [] }))
          ≡ ok new =
        ground (arith, e, r) in
      let (done, e₁, e₂) = >>=-eq-ok (fail_if (not (len == 2)) bad_handshake) _ retried in
      let same : new ≡ record info { group = load_be16 q 0; key_share = [] } = ground (arith, e₂) in
      let two : len ≡ 2 = ground (arith, e₁) in
      rw same (refl, inl (r, ap (λ n. take n q) two ∙ take-be16 q 0 b (omega arith), refl))
  | inr r ↦
      let kl = load_be16 q 2 in
      let shared : (fail_if (ltb len 4) bad_handshake
            >> (fail_if (not (kl + 4 == len) || ltb 65 kl) bad_handshake
                >> ok (record info { group = load_be16 q 0; key_share = slice q 4 kl })))
          ≡ ok new =
        ground (arith, e, r) in
      let (done, e₁, r₁) = >>=-eq-ok (fail_if (ltb len 4) bad_handshake) _ shared in
      let (checked, e₂, r₂) =
        >>=-eq-ok (fail_if (not (kl + 4 == len) || ltb 65 kl) bad_handshake) _ r₁ in
      let same : new ≡ record info { group = load_be16 q 0; key_share = slice q 4 kl } =
        ground (arith, r₂) in
      let counted : len ≡ kl + 2 + 2 = ground (arith, e₂) in
      rw same (refl, inr (r, ap (λ n. take n q) counted ∙ take-share q b (omega (arith, counted))))
]

-- What the flags and the fields of the loop's state say of the last contents seen.
abbrev pub VersionRead : Option Bytes → Progress → Type 0
VersionRead none s = s.version ≡ false
VersionRead (some d) s = d ≡ store_be16 s.info.selected_version

abbrev pub ShareRead : Option Bytes → Progress → Type 0
ShareRead none s = s.keyshare ≡ false
ShareRead (some d) s = ShareIs d s.info

pub record Read (v k c : Option Bytes) (s : Progress) : Type 0 where
  pub version : VersionRead v s
  pub share : ShareRead k s
  pub cookie : CookieIs c s.info

-- A flag that is set says that there was an extension.
pub VersionRead-some :
    (v : Option Bytes) (s : Progress)
    → VersionRead v s
    → s.version ≡ true
    → v ≡ some (store_be16 s.info.selected_version)
VersionRead-some none s r e = cc
VersionRead-some (some d) s r e = ap some r

pub ShareRead-some :
    (k : Option Bytes) (s : Progress)
    → ShareRead k s
    → s.keyshare ≡ true
    → (d : Bytes) × (k ≡ some d) × ShareIs d s.info
ShareRead-some none s r e = absurd (ground (arith, r, e))
ShareRead-some (some d) s r e = (d, refl, r)

-- What is read stays, where the fields it speaks of do.
VersionRead-kept :
    (v : Option Bytes) (s t : Progress)
    → t.version ≡ s.version
    → t.info.selected_version ≡ s.info.selected_version
    → VersionRead v s
    → VersionRead v t
VersionRead-kept none s t e f r = e ∙ r
VersionRead-kept (some d) s t e f r = r ∙ ap store_be16 (sym f)

ShareRead-kept :
    (k : Option Bytes) (s t : Progress)
    → t.keyshare ≡ s.keyshare
    → t.info.hello_retry_request ≡ s.info.hello_retry_request
    → t.info.group ≡ s.info.group
    → t.info.key_share ≡ s.info.key_share
    → ShareRead k s
    → ShareRead k t
ShareRead-kept none s t e f g i r = e ∙ r
ShareRead-kept (some d) s t e f g i (inl (hrr, shown, empty)) =
    inl (f ∙ hrr, shown ∙ ap store_be16 (sym g), i ∙ empty)
ShareRead-kept (some d) s t e f g i (inr (hrr, shown)) =
    inr (f ∙ hrr, shown ∙ ap₂ (λ n p. store_be16 n ++ vector p) (sym g) (sym i))

CookieIs-kept :
    (c : Option Bytes) (old new : ServerHelloInfo)
    → new.hello_retry_request ≡ old.hello_retry_request
    → new.cookie ≡ old.cookie
    → CookieIs c old
    → CookieIs c new
CookieIs-kept none old new f g r = g ∙ r
CookieIs-kept (some d) old new f g (hrr, shown) = (f ∙ hrr, shown ∙ ap vector (sym g))

module _ {v k c : Option Bytes} (q : Bytes) (len : ℕ) (s : Progress) (b : AreBytes q)
    (h : len ≤ length q) (r : Read v k c s) {t : Progress} where
  version_round :
      (version_extension q len s.info >>= λ info. ok (record s { info = info; version = true }))
        ≡ ok t
      → Read (some (take len q)) k c t
  version_round e =
      let (info, e₁, e₂) = >>=-eq-ok (version_extension q len s.info) _ e in
      let (same, shown) = version_extension_sound q len s.info b h e₁ in
      let now : t
          ≡ record s { info = record s.info { selected_version = load_be16 q 0 }; version = true } =
        ground (arith, same, e₂) in
      rw now (record {
        version = shown;
        share = ShareRead-kept k s _ refl refl refl refl r.share;
        cookie = CookieIs-kept c s.info _ refl refl r.cookie;
      })

  share_round :
      (key_share_extension q len s.info >>= λ info. ok (record s { info = info; keyshare = true }))
        ≡ ok t
      → Read v (some (take len q)) c t
  share_round e =
      let (info, e₁, e₂) = >>=-eq-ok (key_share_extension q len s.info) _ e in
      let (same, shown) = key_share_extension_sound q len s.info b h e₁ in
      let now : t ≡ record s { info = info; keyshare = true } = ground (arith, e₂) in
      rw now (record {
        version =
            VersionRead-kept v s _ refl (ap (λ (i : ServerHelloInfo). i.selected_version) same)
              r.version;
        share = shown;
        cookie =
            CookieIs-kept c s.info info (ap (λ (i : ServerHelloInfo). i.hello_retry_request) same)
              (ap (λ (i : ServerHelloInfo). i.cookie) same) r.cookie;
      })

  cookie_round :
      (cookie_extension q len s.info >>= λ info. ok (record s { info = info })) ≡ ok t
      → Read v k (some (take len q)) t
  cookie_round e =
      let (info, e₁, e₂) = >>=-eq-ok (cookie_extension q len s.info) _ e in
      let (same, retried, shown) = cookie_extension_sound q len s.info b h e₁ in
      let now : t ≡ record s { info = record s.info { cookie = slice q 2 (load_be16 q 0) } } =
        ground (arith, same, e₂) in
      rw now (record {
        version = VersionRead-kept v s _ refl refl r.version;
        share = ShareRead-kept k s _ refl refl refl refl r.share;
        cookie = (retried, shown);
      })

  -- Whatever the type, a round reads the contents of its extension.
  hello_extension-Read :
      (type : ℕ)
      → hello_extension type q len s ≡ ok t
      → Read
          (seen 0x002b type (take len q) v)
          (seen 0x0033 type (take len q) k)
          (seen 0x002c type (take len q) c)
          t
  unfolding hello_extension
  hello_extension-Read type e = elim (Bool-cases (type == 0x002b)) [
    | inl version ↦
        let no_share : (type == 0x0033) ≡ false = ground (arith, version) in
        let no_cookie : (type == 0x002c) ≡ false = ground (arith, version) in
        rw (version, no_share, no_cookie) (version_round (ground (arith, e, version)))
    | inr no_version ↦ elim (Bool-cases (type == 0x0033)) [
      | inl share ↦
          let no_cookie : (type == 0x002c) ≡ false = ground (arith, share) in
          rw (no_version, share, no_cookie) (share_round (ground (arith, e, no_version, share)))
      | inr no_share ↦ elim (Bool-cases (type == 0x002c)) [
        | inl cookie ↦
            rw (no_version, no_share, cookie)
              (cookie_round (ground (arith, e, no_version, no_share, cookie)))
        | inr no_cookie ↦
            let same : t ≡ s = ground (arith, e, no_version, no_share, no_cookie) in
            rw (no_version, no_share, no_cookie, same) r
      ]
    ]
  ]

-- An extension in front of other bytes.
extension-front :
    (p : Bytes)
    → AreBytes p
    → 4 ≤ length p
    → load_be16 p 2 ≤ length (drop 4 p)
    → p
      ≡ encode_extension (load_be16 p 0, take (load_be16 p 2) (drop 4 p))
        ++ drop (load_be16 p 2) (drop 4 p)
extension-front p b four inside =
    drop-be16 p 0 b (omega (arith, four))
    ∙ ap (λ z. store_be16 (load_be16 p 0) ++ z)
        (drop-be16 p 2 b four
          ∙ ap₂ (λ m z. store_be16 m ++ z) (sym counted) (sym (take-append-drop len q)))
    ∙ sym (encode_extension-append (load_be16 p 0) (take len q) (drop len q))
  where
    len : ℕ
    len = load_be16 p 2

    q : Bytes
    q = drop 4 p

    counted : length (take len q) ≡ len
    counted = omega (arith, length-take len q, inside)

-- The bytes that the loop goes through are a list of extensions, and it reads the last of each type.
pub hello_loop-Read :
    (n : ℕ) (p : Bytes) (s : Progress) (v k c : Option Bytes) {t : Progress}
    → AreBytes p
    → length p ≤ n
    → hello_loop n p s ≡ ok t
    → Read v k c s
    → (es : List (ℕ × Bytes)) × (p ≡ encode_extensions es)
      × AllFit es
      × Read (last_of 0x002b es v) (last_of 0x0033 es k) (last_of 0x002c es c) t
unfolding hello_loop
hello_loop-Read n [] s v k c {t} b h e r =
    let same : t ≡ s = ground (arith, e) in ([], refl, tt, rw same r)
hello_loop-Read zero (x ∷ p) s v k c b h e r = absurd (omega arith)
hello_loop-Read (suc n) (x ∷ p) s v k c {t} b h e r =
    let q = drop 4 (x ∷ p) in
    let type = load_be16 (x ∷ p) 0 in
    let len = load_be16 (x ∷ p) 2 in
    let (done, e₁, r₁) = >>=-eq-ok (fail_if (ltb (length (x ∷ p)) 4) bad_handshake) _ e in
    let (checked, e₂, r₂) = >>=-eq-ok (fail_if (ltb (length q) len) bad_handshake) _ r₁ in
    let (next, e₃, r₃) = >>=-eq-ok (hello_extension type q len s) _ r₂ in
    let four : 4 ≤ length (x ∷ p) = ground (arith, e₁) in
    let inside : len ≤ length q = ground (arith, e₂) in
    let bytes : AreBytes q = AreBytes-drop 4 (x ∷ p) b in
    let read = hello_extension-Read q len s bytes inside r type e₃ in
    let (es, wire, fit, all) =
      hello_loop-Read n (drop len q) next _ _ _ (AreBytes-drop len q bytes)
        (omega (arith, four, length-drop 4 (x ∷ p), length-drop len q)) r₃ read in
    let front = extension-front (x ∷ p) b four inside in
    let fits : length (take len q) < 65536 =
      omega (arith, length-take len q, load_be16-lt (x ∷ p) 2) in
    (
      (type, take len q) ∷ es,
      front ∙ ap (λ z. encode_extension (type, take len q) ++ z) wire,
      (load_be16-lt (x ∷ p) 0, fits, AreBytes-take len q bytes, fit),
      all,
    )
