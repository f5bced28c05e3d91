-- ===== src/KeySchedule/Secrets.antt =====
-- The secrets against the diagram of RFC 8446, section 7.1.
use xbox360_tls.Base.{
  Option, none, some, ◌<◌, ◌≤◌, replicate, ◌≡◌, refl, [], ◌∷◌, ◌++◌, length, arith,
}
use xbox360_tls.Bytes.{Bytes, span, ok, err}
use xbox360_tls.Crypto.Sha256.{fresh, update, sha256}
use xbox360_tls.Crypto.Hkdf.Sizes.{
  length-final, length-hmac_sha256, length-hkdf_expand_label_sha256,
}
use xbox360_tls.Crypto.Hkdf.{hkdf_label, hkdf_extract_sha256, hkdf_expand_label_sha256}
use xbox360_tls.Crypto.Hkdf.Single.{expanded_label, hkdf_expand_label_sha256_single}
use xbox360_tls.ProtectedRecord.{TrafficKeys, label_key, label_iv, derive_traffic_keys_sha256}
use xbox360_tls.KeySchedule.{
  KeyScheduleSha256, zeros, empty_schedule, label_derived, label_c_hs_traffic, label_s_hs_traffic,
  label_c_ap_traffic, label_s_ap_traffic, derive_secret, derive_early_secret,
  derive_handshake_secret, derive_master_secret, Outcome, label_traffic_upd,
  update_traffic_secret_sha256,
}

length-sha256 : (m : Bytes) → length (sha256 m) ≡ 32
length-sha256 m = unfold sha256 in length-final (update fresh m)

derive_secret_ok :
    (secret label th : Bytes)
    → length label ≤ 249
    → length th ≤ 253
    → derive_secret secret label th ≡ ok (expanded_label secret label th)
unfolding derive_secret
derive_secret_ok secret label th h k = hkdf_expand_label_sha256_single secret label th h k

-- The labels of RFC 8446, section 7.1.
abbrev rfc_derived : Bytes
rfc_derived = b'd' ∷ b'e' ∷ b'r' ∷ b'i' ∷ b'v' ∷ b'e' ∷ b'd' ∷ []

abbrev rfc_c_hs_traffic : Bytes
rfc_c_hs_traffic =
    b'c' ∷ b' ' ∷ b'h' ∷ b's' ∷ b' ' ∷ b't' ∷ b'r' ∷ b'a' ∷ b'f' ∷ b'f' ∷ b'i' ∷ b'c' ∷ []

abbrev rfc_s_hs_traffic : Bytes
rfc_s_hs_traffic =
    b's' ∷ b' ' ∷ b'h' ∷ b's' ∷ b' ' ∷ b't' ∷ b'r' ∷ b'a' ∷ b'f' ∷ b'f' ∷ b'i' ∷ b'c' ∷ []

abbrev rfc_c_ap_traffic : Bytes
rfc_c_ap_traffic =
    b'c' ∷ b' ' ∷ b'a' ∷ b'p' ∷ b' ' ∷ b't' ∷ b'r' ∷ b'a' ∷ b'f' ∷ b'f' ∷ b'i' ∷ b'c' ∷ []

abbrev rfc_s_ap_traffic : Bytes
rfc_s_ap_traffic =
    b's' ∷ b' ' ∷ b'a' ∷ b'p' ∷ b' ' ∷ b't' ∷ b'r' ∷ b'a' ∷ b'f' ∷ b'f' ∷ b'i' ∷ b'c' ∷ []

-- The RFC's diagram, for a pre-shared key or none, a key that was agreed on, and the hashes of the two
-- transcripts, over the code's HKDF. Where there is no pre-shared key, the RFC has 32 zero bytes in
-- its place.
abbrev pub early : Option Bytes → Bytes
early none = hkdf_extract_sha256 (replicate 32 0) (replicate 32 0)
early (some psk) = hkdf_extract_sha256 (replicate 32 0) psk

pub handshake : Option Bytes → Bytes → Bytes
handshake psk ecdhe = hkdf_extract_sha256 (expanded_label (early psk) rfc_derived (sha256 [])) ecdhe

pub master : Option Bytes → Bytes → Bytes
master psk ecdhe =
    hkdf_extract_sha256 (expanded_label (handshake psk ecdhe) rfc_derived (sha256 []))
      (replicate 32 0)

abbrev pub rfc_schedule : Option Bytes → Bytes → Bytes → Bytes → KeyScheduleSha256
rfc_schedule psk ecdhe th₁ th₂ = record {
  early_secret = early psk;
  handshake_secret = handshake psk ecdhe;
  client_handshake_traffic_secret = expanded_label (handshake psk ecdhe) rfc_c_hs_traffic th₁;
  server_handshake_traffic_secret = expanded_label (handshake psk ecdhe) rfc_s_hs_traffic th₁;
  master_secret = master psk ecdhe;
  client_application_traffic_secret = expanded_label (master psk ecdhe) rfc_c_ap_traffic th₂;
  server_application_traffic_secret = expanded_label (master psk ecdhe) rfc_s_ap_traffic th₂;
}

derive_handshake_secret_ok :
    (ks : KeyScheduleSha256) (ecdhe th : Bytes)
    → length th ≤ 253
    → let secret =
        hkdf_extract_sha256 (expanded_label ks.early_secret label_derived (sha256 [])) ecdhe in
      derive_handshake_secret ks ecdhe th ≡ (
        record ks {
          handshake_secret = secret;
          client_handshake_traffic_secret = expanded_label secret label_c_hs_traffic th;
          server_handshake_traffic_secret = expanded_label secret label_s_hs_traffic th;
        },
        ok tt,
      )
unfolding derive_handshake_secret
derive_handshake_secret_ok ks ecdhe th h =
    rw
      (
        derive_secret_ok ks.early_secret label_derived (sha256 []) (omega arith)
            (omega (arith, length-sha256 [])),
        derive_secret_ok _ label_c_hs_traffic th (omega arith) h,
        derive_secret_ok _ label_s_hs_traffic th (omega arith) h,
      )
      refl

derive_master_secret_ok :
    (ks : KeyScheduleSha256) (th : Bytes)
    → length th ≤ 253
    → let secret =
        hkdf_extract_sha256 (expanded_label ks.handshake_secret label_derived (sha256 [])) zeros in
      derive_master_secret ks th ≡ (
        record ks {
          master_secret = secret;
          client_application_traffic_secret = expanded_label secret label_c_ap_traffic th;
          server_application_traffic_secret = expanded_label secret label_s_ap_traffic th;
        },
        ok tt,
      )
unfolding derive_master_secret
derive_master_secret_ok ks th h =
    rw
      (
        derive_secret_ok ks.handshake_secret label_derived (sha256 []) (omega arith)
            (omega (arith, length-sha256 [])),
        derive_secret_ok _ label_c_ap_traffic th (omega arith) h,
        derive_secret_ok _ label_s_ap_traffic th (omega arith) h,
      )
      refl

-- A call after one that succeeded.
abbrev and_then : Outcome → (KeyScheduleSha256 → Outcome) → Outcome
and_then (ks, ok u) f = f ks
and_then (ks, err e) f = (ks, err e)

-- A pre-shared key has a byte at least. What `derive_early_secret` has to be given: the key, or 32 zero
-- bytes where there is none.
abbrev IsPsk : Option Bytes → Type 0
IsPsk none = Unit
IsPsk (some psk) = 0 < length psk

abbrev key_material : Option Bytes → Bytes
key_material none = replicate 32 0
key_material (some psk) = psk

-- The three calls of a handshake, on a schedule that is empty.
pub derive_all : Bytes → Bytes → Bytes → Bytes → Outcome
derive_all psk ecdhe th₁ th₂ =
    and_then (derive_handshake_secret (derive_early_secret empty_schedule psk) ecdhe th₁)
      (λ ks. derive_master_secret ks th₂)

-- With transcript hashes of at most 253 bytes (SHA-256's have 32), deriving the early, the
-- handshake and the master secret in turn succeeds, and leaves the secrets that RFC 8446
-- prescribes for the agreed key and the hash of either transcript: with a pre-shared key if
-- derive_early_secret is given that key, which is not empty, and without one if it is given 32
-- zero bytes.
pub derive_all-rfc_schedule :
    (psk : Option Bytes) (ecdhe th₁ th₂ : Bytes)
    → IsPsk psk
    → length th₁ ≤ 253
    → length th₂ ≤ 253
    → derive_all (key_material psk) ecdhe th₁ th₂ ≡ (rfc_schedule psk ecdhe th₁ th₂, ok tt)
unfolding derive_all derive_early_secret handshake master
derive_all-rfc_schedule none ecdhe th₁ th₂ p h k =
    rw (derive_handshake_secret_ok _ ecdhe th₁ h, derive_master_secret_ok _ th₂ k) refl
derive_all-rfc_schedule (some psk) ecdhe th₁ th₂ p h k =
    rw (derive_handshake_secret_ok _ ecdhe th₁ h, derive_master_secret_ok _ th₂ k) refl

-- A traffic secret that is present is always replaced by the next one of RFC 8446, section 7.2,
-- with the key and the IV of that secret and the sequence number back at zero.
pub update_traffic_secret_sha256_lem :
    (secret : Bytes)
    → let next = expanded_label secret label_traffic_upd [] in
      (keys : TrafficKeys) × (update_traffic_secret_sha256 (span secret) ≡ ok (next, keys))
      × (keys.sequence_number ≡ 0)
      × (hkdf_expand_label_sha256 next label_key [] 16 ≡ ok keys.key)
      × (hkdf_expand_label_sha256 next label_iv [] 12 ≡ ok keys.iv)
      × (length keys.key ≡ 16)
      × (length keys.iv ≡ 12)
unfolding update_traffic_secret_sha256 derive_traffic_keys_sha256
update_traffic_secret_sha256_lem secret =
    let next = expanded_label secret label_traffic_upd [] in
    let (key, ek, lk) =
      length-hkdf_expand_label_sha256 next label_key [] 16 (omega arith) (omega arith) (omega arith)
        (omega arith) in
    let (iv, ei, li) =
      length-hkdf_expand_label_sha256 next label_iv [] 12 (omega arith) (omega arith) (omega arith)
        (omega arith) in
    (
      record { key = key; iv = iv; sequence_number = 0 },
      rw
          (
            hkdf_expand_label_sha256_single secret label_traffic_upd [] (omega arith) (omega arith),
            length-hmac_sha256 secret (hkdf_label label_traffic_upd [] 32 ++ (1 ∷ [])),
            ek,
            ei,
          )
          refl,
      refl,
      ek,
      ei,
      lk,
      li,
    )
