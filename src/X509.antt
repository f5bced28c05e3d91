-- ===== src/X509.antt =====
-- src/x509/x509.cpp: the reader of DER, certificates, and the check of the host name.
pub mod Der
pub mod Time
pub mod Certificate
pub mod Extensions
pub mod Parse
pub mod Hostname
