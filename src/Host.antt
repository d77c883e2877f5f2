-- ===== src/Host.antt =====
-- The untrusted server around the enclave (CryptoTestingApp).
pub mod Storage
pub mod Server
