-- ===== src/Record/Tests.antt =====
-- A nonce.
use xbox360_tls.Base.{ℕ, ◌≡◌, refl, replicate, arith}
use xbox360_tls.Record.Nonce.{make_record_nonce_injective}

make_record_nonce_injective_example : ◌≡◌ {A = ℕ} 7 7
make_record_nonce_injective_example =
    make_record_nonce_injective (replicate 12 1) 7 7 refl (omega arith) (omega arith) refl
