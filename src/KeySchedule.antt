-- ===== src/KeySchedule.antt =====
-- src/tls/key_schedule.cpp: the secrets of a connection.
pub mod Secrets
mod Tests
use xbox360_tls.Base.{ℕ, [], ◌∷◌, replicate}
use xbox360_tls.Bytes.{
  Bytes, ByteSpan, span, Error, invalid_argument, Result, ok, err, fail_if, ◌>>=◌, ◌>>◌,
}
use xbox360_tls.Crypto.Sha256.{sha256}
use xbox360_tls.Crypto.Hkdf.{hkdf_extract_sha256, hkdf_expand_label_sha256}
use xbox360_tls.ProtectedRecord.{TrafficKeys, derive_traffic_keys_sha256}

pub record KeyScheduleSha256 : Type 0 where
  pub early_secret : Bytes
  pub handshake_secret : Bytes
  pub client_handshake_traffic_secret : Bytes
  pub server_handshake_traffic_secret : Bytes
  pub master_secret : Bytes
  pub client_application_traffic_secret : Bytes
  pub server_application_traffic_secret : Bytes

abbrev pub zeros : Bytes
zeros = replicate 32 0

-- `memset(this, 0, sizeof(*this))`
abbrev pub empty_schedule : KeyScheduleSha256
empty_schedule = record {
  early_secret = zeros;
  handshake_secret = zeros;
  client_handshake_traffic_secret = zeros;
  server_handshake_traffic_secret = zeros;
  master_secret = zeros;
  client_application_traffic_secret = zeros;
  server_application_traffic_secret = zeros;
}

-- "derived"
abbrev pub label_derived : Bytes
label_derived = 0x64 ∷ 0x65 ∷ 0x72 ∷ 0x69 ∷ 0x76 ∷ 0x65 ∷ 0x64 ∷ []

-- "c hs traffic", "s hs traffic", "c ap traffic" and "s ap traffic" end alike.
abbrev traffic : Bytes
traffic = 0x20 ∷ 0x74 ∷ 0x72 ∷ 0x61 ∷ 0x66 ∷ 0x66 ∷ 0x69 ∷ 0x63 ∷ []

abbrev pub label_c_hs_traffic : Bytes
label_c_hs_traffic = 0x63 ∷ 0x20 ∷ 0x68 ∷ 0x73 ∷ traffic

abbrev pub label_s_hs_traffic : Bytes
label_s_hs_traffic = 0x73 ∷ 0x20 ∷ 0x68 ∷ 0x73 ∷ traffic

abbrev pub label_c_ap_traffic : Bytes
label_c_ap_traffic = 0x63 ∷ 0x20 ∷ 0x61 ∷ 0x70 ∷ traffic

abbrev pub label_s_ap_traffic : Bytes
label_s_ap_traffic = 0x73 ∷ 0x20 ∷ 0x61 ∷ 0x70 ∷ traffic

-- "traffic upd"
abbrev pub label_traffic_upd : Bytes
label_traffic_upd = 0x74 ∷ 0x72 ∷ 0x61 ∷ 0x66 ∷ 0x66 ∷ 0x69 ∷ 0x63 ∷ 0x20 ∷ 0x75 ∷ 0x70 ∷ 0x64 ∷ []

-- The state a call leaves, and what it returns.
abbrev pub Outcome : Type 0
Outcome = KeyScheduleSha256 × Result (Unit {0})

-- `if (e != XT_OK) return e;`: the state stays as it is at that point.
abbrev pub on_ok : KeyScheduleSha256 → Result Bytes → (Bytes → Outcome) → Outcome
on_ok ks (ok b) f = f b
on_ok ks (err e) f = (ks, err e)

unfoldable pub derive_secret : Bytes → Bytes → Bytes → Result Bytes
derive_secret secret label th = hkdf_expand_label_sha256 secret label th 32

unfoldable pub derive_early_secret : KeyScheduleSha256 → Bytes → KeyScheduleSha256
derive_early_secret ks psk = record ks { early_secret = hkdf_extract_sha256 zeros psk }

unfoldable pub derive_handshake_secret : KeyScheduleSha256 → Bytes → Bytes → Outcome
derive_handshake_secret ks ecdhe th =
    on_ok ks (derive_secret ks.early_secret label_derived (sha256 [])) (λ derived.
      let ks₁ = record ks { handshake_secret = hkdf_extract_sha256 derived ecdhe } in
      on_ok ks₁ (derive_secret ks₁.handshake_secret label_c_hs_traffic th) (λ client.
        let ks₂ = record ks₁ { client_handshake_traffic_secret = client } in
        on_ok ks₂ (derive_secret ks₂.handshake_secret label_s_hs_traffic th)
          (λ server. (record ks₂ { server_handshake_traffic_secret = server }, ok tt))))

unfoldable pub derive_master_secret : KeyScheduleSha256 → Bytes → Outcome
derive_master_secret ks th =
    on_ok ks (derive_secret ks.handshake_secret label_derived (sha256 [])) (λ derived.
      let ks₁ = record ks { master_secret = hkdf_extract_sha256 derived zeros } in
      on_ok ks₁ (derive_secret ks₁.master_secret label_c_ap_traffic th) (λ client.
        let ks₂ = record ks₁ { client_application_traffic_secret = client } in
        on_ok ks₂ (derive_secret ks₂.master_secret label_s_ap_traffic th)
          (λ server. (record ks₂ { server_application_traffic_secret = server }, ok tt))))

-- The next traffic secret, and its keys. The secret is replaced before the keys are derived.
unfoldable pub update_traffic_secret_sha256 : ByteSpan → Result (Bytes × TrafficKeys)
update_traffic_secret_sha256 traffic_secret = do
  fail_if traffic_secret.is_null invalid_argument
  next ← hkdf_expand_label_sha256 traffic_secret.bytes label_traffic_upd [] 32
  keys ← derive_traffic_keys_sha256 (span next)
  ok (next, keys)
