-- ===== src/Crypto.antt =====
-- src/crypto: the hash, the key derivation and the record cipher.
pub mod Aes
pub mod Gcm
pub mod Sha256
pub mod Hkdf
