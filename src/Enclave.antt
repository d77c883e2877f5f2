-- ===== src/Enclave.antt =====
-- CryptoEnclave: what runs inside of the enclave.
pub mod Bitset
pub mod Bytes
pub mod Bundle
pub mod Sgx
pub mod Context
pub mod Keywords
pub mod Select
pub mod Snapshot
pub mod Update
pub mod Machine
pub mod Meaning
pub mod Docs
pub mod Retrieve
pub mod Request
pub mod Init
pub mod Handler
pub mod Lifecycle
