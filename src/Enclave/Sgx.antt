-- ===== src/Enclave/Sgx.antt =====
-- The part of the SGX SDK that the enclave calls, which is not in the repository: AES-CMAC
-- (sgx_rijndael128_cmac_msg) and AES-GCM (sgx_rijndael128GCM_encrypt and _decrypt) as enc_aes_gcm
-- and dec_aes_gcm of EnclaveUtils.cpp use them, with the one fixed IV.
use veil_db.Base.{ℕ, ◌+◌, ◌≡◌, List, length}

-- AESGCM_MAC_SIZE + AESGCM_IV_SIZE
abbrev pub gcm_overhead : ℕ
gcm_overhead = 28

pub record Sgx : Type 0 where
  -- key, message
  pub hash : List ℕ → List ℕ → List ℕ
  -- key, text: the tag, the IV and the cipher text
  pub encrypt : List ℕ → List ℕ → List ℕ
  pub decrypt : List ℕ → List ℕ → List ℕ
  pub length-encrypt :
      (key plain : List ℕ) → length (encrypt key plain) ≡ gcm_overhead + length plain
  pub decrypt-encrypt : (key plain : List ℕ) → decrypt key (encrypt key plain) ≡ plain
