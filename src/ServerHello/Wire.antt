-- ===== src/ServerHello/Wire.antt =====
-- ServerHello on the wire: its fields and its list of extensions, as RFC 8446 lays them out.
use native.Mathlib.Numerals.{towards_suc}
use xbox360_tls.Base.{
  ℕ, ◌+◌, ◌≤◌, ◌<◌, ◌≡◌, refl, sym, ap, ap₂, ◌∙◌, ◌⊎◌, true, false, Option, none, some, List, [],
  ◌∷◌, ◌++◌, ◌==◌, if◌then◌else◌, length, length-drop, take, drop, drop-drop, arith,
}
use xbox360_tls.Bytes.{
  Bytes, AreBytes, AreBytes-drop, at, at-drop, store_be16, load_be16, size_be16, load_be16_size,
  store_be16-size_be16,
}
use xbox360_tls.Handshake.Message.{encode_message}
use xbox360_tls.Handshake.Flight.Extensions.{encode_extensions, AllFit}
use xbox360_tls.ServerHello.{ServerHelloInfo}

-- Two bytes with the length, and the bytes.
abbrev pub vector : Bytes → Bytes
vector d = store_be16 (length d) ++ d

-- The body of the message: legacy version, random, session id, cipher suite, no compression, extensions.
abbrev pub encode_hello : Bytes → Bytes → ℕ → List (ℕ × Bytes) → Bytes
encode_hello random session_id suite es =
    store_be16 0x0303
    ++ (random
        ++ (length session_id
            ∷ (session_id ++ (store_be16 suite ++ (0 ∷ vector (encode_extensions es))))))

-- The contents of the last extension of a type, or what there was before.
abbrev pub seen : ℕ → ℕ → Bytes → Option Bytes → Option Bytes
seen type t d before = if t == type then some d else before

abbrev pub last_of : ℕ → List (ℕ × Bytes) → Option Bytes → Option Bytes
last_of type [] before = before
last_of type ((t, d) ∷ es) before = last_of type es (seen type t d before)

-- The key share of a retry request is a group, that of a hello a group and a key.
abbrev pub ShareIs : Bytes → ServerHelloInfo → Type 0
ShareIs d info =
    ((info.hello_retry_request ≡ true) × (d ≡ store_be16 info.group) × (info.key_share ≡ []))
    ⊎ ((info.hello_retry_request ≡ false) × (d ≡ store_be16 info.group ++ vector info.key_share))

-- Only a retry request has a cookie.
abbrev pub CookieIs : Option Bytes → ServerHelloInfo → Type 0
CookieIs none info = info.cookie ≡ []
CookieIs (some d) info = (info.hello_retry_request ≡ true) × (d ≡ vector info.cookie)

-- `b` is a ServerHello with the fields of `info`, and `info` is what its extensions say.
pub record IsEncoded (b : Bytes) (info : ServerHelloInfo) : Type 0 where
  pub extensions : List (ℕ × Bytes)
  pub fit : AllFit extensions
  pub sized : length (encode_extensions extensions) < 65536
  pub wire :
      b ≡ encode_message 2 (encode_hello info.random info.session_id info.cipher_suite extensions)
  pub random : length info.random ≡ 32
  pub version : last_of 0x002b extensions none ≡ some (store_be16 info.selected_version)
  pub key_share : Bytes
  pub shared : last_of 0x0033 extensions none ≡ some key_share
  pub share : ShareIs key_share info
  pub cookie : CookieIs (last_of 0x002c extensions none) info

cons-drop : (p : Bytes) → 0 < length p → p ≡ at p 0 ∷ drop 1 p
cons-drop [] h = absurd (omega arith)
cons-drop (x ∷ p) h = refl

-- A byte, and a field of two bytes, at a place of a buffer.
pub drop-byte : (b : Bytes) (i : ℕ) → i < length b → drop i b ≡ at b i ∷ drop (i + 1) b
drop-byte b i h =
    cons-drop (drop i b) (omega (arith, length-drop i b))
    ∙ ap₂ (λ x p. x ∷ p) (sym (at-drop b i i 0 (omega arith))) (drop-drop i 1 (i + 1) b refl)

size_be16-at : (b : Bytes) (i : ℕ) → size_be16 b i ≡ size_be16 (drop i b) 0
unfolding size_be16
size_be16-at b i = rw (at-drop b i i 0 (omega arith), at-drop b i (i + 1) 1 refl) refl

pub drop-be16 :
    (b : Bytes) (i : ℕ)
    → AreBytes b
    → i + 2 ≤ length b
    → drop i b ≡ store_be16 (load_be16 b i) ++ drop (i + 2) b
drop-be16 b i h k =
    store_be16-size_be16 (drop i b) (AreBytes-drop i b h) (omega (arith, length-drop i b))
    ∙ ap₂ (λ n p. store_be16 n ++ p) (sym (load_be16_size b i h ∙ size_be16-at b i))
        (drop-drop i 2 (i + 2) b refl)

take_two : (n x y : ℕ) (b : Bytes) → take (n + 2) (x ∷ y ∷ b) ≡ x ∷ y ∷ take n b
take_two n x y b = simp towards_suc

-- The first `n + 2` bytes, of which two are a field.
pub take-be16 :
    (b : Bytes) (n : ℕ)
    → AreBytes b
    → 2 ≤ length b
    → take (n + 2) b ≡ store_be16 (load_be16 b 0) ++ take n (drop 2 b)
unfolding store_be16
take-be16 b n h k = ap (take (n + 2)) (drop-be16 b 0 h k) ∙ take_two n _ _ (drop 2 b)
