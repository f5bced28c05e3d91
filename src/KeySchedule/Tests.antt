-- ===== src/KeySchedule/Tests.antt =====
-- Schedules with a pre-shared key and without one, and the early secret that `connect` derives.
use xbox360_tls.Base.{ℕ, none, some, ap, ◌≡◌, ◌≢◌, refl, [], replicate, length, arith}
use xbox360_tls.Bytes.{Bytes, at, span, ok}
use xbox360_tls.Crypto.Hkdf.{hkdf_expand_label_sha256}
use xbox360_tls.Crypto.Hkdf.Single.{expanded_label}
use xbox360_tls.ProtectedRecord.{TrafficKeys, label_key, label_iv}
use xbox360_tls.Record.{seq_bytes}
use xbox360_tls.Crypto.Sha256.{
  rotr, ch, maj, bsig0, bsig1, ssig0, ssig1, block_words, extend_words, round, rounds, transform,
  flush, update_loop, update, word_bytes, final, sha256,
}
use xbox360_tls.Crypto.Hkdf.{hkdf_extract_sha256, padded_key, hmac_sha256}
use xbox360_tls.KeySchedule.{
  empty_schedule, derive_early_secret, label_traffic_upd, update_traffic_secret_sha256,
}
use xbox360_tls.KeySchedule.Secrets.{
  early, derive_all, rfc_schedule, derive_all-rfc_schedule, update_traffic_secret_sha256_lem,
}

abbrev head_of : Bytes → ℕ
head_of b = at b 0

-- With a pre-shared key, and without one.
derive_all-rfc_schedule_example :
    derive_all (replicate 32 3) (replicate 32 9) (replicate 32 1) (replicate 32 2) ≡ (
      rfc_schedule (some (replicate 32 3)) (replicate 32 9) (replicate 32 1) (replicate 32 2),
      ok tt,
    )
derive_all-rfc_schedule_example =
    derive_all-rfc_schedule (some (replicate 32 3)) (replicate 32 9) (replicate 32 1)
      (replicate 32 2) (omega arith) (omega arith) (omega arith)

derive_all-rfc_schedule-none :
    derive_all (replicate 32 0) (replicate 32 9) (replicate 32 1) (replicate 32 2)
    ≡ (rfc_schedule none (replicate 32 9) (replicate 32 1) (replicate 32 2), ok tt)
derive_all-rfc_schedule-none =
    derive_all-rfc_schedule none (replicate 32 9) (replicate 32 1) (replicate 32 2) tt (omega arith)
      (omega arith)

-- The key material that `connect` gives is empty: HMAC of no bytes, in place of 32 zero bytes.
early_of_connect : head_of ((derive_early_secret empty_schedule []).early_secret) ≡ 0xb6
unfolding derive_early_secret hkdf_extract_sha256 padded_key hmac_sha256 sha256 rotr ch maj bsig0
    bsig1 ssig0 ssig1 block_words extend_words round rounds transform flush update_loop update
    word_bytes final seq_bytes
early_of_connect = refl

early_of_rfc : head_of (early none) ≡ 0x33
unfolding hkdf_extract_sha256 padded_key hmac_sha256 sha256 rotr ch maj bsig0 bsig1 ssig0 ssig1
    block_words extend_words round rounds transform flush update_loop update word_bytes final
    seq_bytes
early_of_rfc = refl

early_differs : (derive_early_secret empty_schedule []).early_secret ≢ early none
early_differs e = absurd (omega (arith, ap head_of e, early_of_connect, early_of_rfc))

update_traffic_secret_sha256_lem_example :
    let next = expanded_label (replicate 32 5) label_traffic_upd [] in
    (keys : TrafficKeys) × (update_traffic_secret_sha256 (span (replicate 32 5)) ≡ ok (next, keys))
    × (keys.sequence_number ≡ 0)
    × (hkdf_expand_label_sha256 next label_key [] 16 ≡ ok keys.key)
    × (hkdf_expand_label_sha256 next label_iv [] 12 ≡ ok keys.iv)
    × (length keys.key ≡ 16)
    × (length keys.iv ≡ 12)
update_traffic_secret_sha256_lem_example = update_traffic_secret_sha256_lem (replicate 32 5)
