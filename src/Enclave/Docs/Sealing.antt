-- ===== src/Enclave/Docs/Sealing.antt =====
-- CryptoEnclave.cpp: encrypt_doc_plaintext and decrypt_cipher_into_slot, one after the other.
use veil_db.Base.{
  ℕ, zero, suc, ◌+◌, ◌-◌, ◌^◌, ◌≤◌, ◌<◌, ◌≡◌, refl, ap, ◌∙◌, List, [], ◌∷◌, ◌++◌, length, take,
  some, false, leb, Bool-cases, inl, inr, ok, bind-eq-ok, arith, min, length-append_bytes, le→leb,
  leb→le, subst,
}
use veil_db.Enclave.Bundle.{
  max_file_size, parse_doc_bundle_ex, pad_message, padding, pack_doc_bundle_v2,
  pack_doc_tombstone_v2, put_sized, magic_v2,
}
use veil_db.Enclave.Bundle.RoundTrip.{parse-pack_doc_bundle_v2}
use veil_db.Enclave.Sgx.{Sgx, gcm_overhead}
use veil_db.Enclave.Context.{CachedDocSlot}
use veil_db.Enclave.Docs.{
  trim_trailing_null, slot_of_bundle, pack_slot, encrypt_doc_plaintext, decrypt_cipher_into_slot,
}
use veil_db.Wire.Bytes.{append_u32}

-- The slots that a bundle can hold, and that come back: no zero byte at the end of either text.
pub record Fits (slot : CachedDocSlot) : Type 0 where
  pub room : 13 + (length slot.index_csv + length slot.body) ≤ max_file_size
  pub index_trimmed : trim_trailing_null slot.index_csv ≡ slot.index_csv
  pub body_trimmed : trim_trailing_null slot.body ≡ slot.body

-- The cipher text has the room of a slot, and decrypts to `slot`.
abbrev pub Opens : Sgx → List ℕ → List ℕ → CachedDocSlot → Type 0
Opens sgx key cipher slot =
    (length cipher ≤ gcm_overhead + max_file_size)
    × ((v : ℕ) × (decrypt_cipher_into_slot sgx key cipher ≡ ok (some (slot, v))))

length-take_le : (n : ℕ) (xs : List ℕ) → length (take n xs) ≤ n
length-take_le zero xs = omega arith
length-take_le (suc n) [] = omega arith
length-take_le (suc n) (x ∷ xs) = omega (arith, length-take_le n xs)

take-le : (n : ℕ) (xs : List ℕ) → length xs ≤ n → take n xs ≡ xs
take-le zero [] h = refl
take-le zero (x ∷ xs) h = absurd (omega (arith, h))
take-le (suc n) [] h = refl
take-le (suc n) (x ∷ xs) h = ap (◌∷◌ x) (take-le n xs (omega (arith, h)))

length-padding_le :
    (sgx : Sgx) (enc_key doc_id : List ℕ) (v fuel ctr left : ℕ)
    → length (padding sgx enc_key doc_id v fuel ctr left) ≤ left
unfolding padding
length-padding_le sgx enc_key doc_id v zero ctr left = omega arith
length-padding_le sgx enc_key doc_id v (suc fuel) ctr zero = omega arith
length-padding_le sgx enc_key doc_id v (suc fuel) ctr (suc left) =
    let n : ℕ = min 16 (suc left) in
    let block = sgx.hash enc_key (pad_message doc_id v ctr) in
    omega (
      arith,
      length-append_bytes (take n block)
          (padding sgx enc_key doc_id v fuel (ctr + 1) (suc left - n)),
      length-take_le n block,
      length-padding_le sgx enc_key doc_id v fuel (ctr + 1) (suc left - n),
    )

-- A bundle is no longer than the slot, whatever the hash.
length-packed :
    (sgx : Sgx) (index body : List ℕ) (v : ℕ) (enc_key doc_id bytes : List ℕ)
    → pack_doc_bundle_v2 sgx index body v enc_key doc_id ≡ ok bytes
    → (0 < length bytes) × (length bytes ≤ max_file_size)
unfolding pack_doc_bundle_v2
length-packed sgx index body v enc_key doc_id bytes e =
    let front : List ℕ = magic_v2 ∷ (append_u32 v ++ (put_sized index ++ put_sized body)) in
    let left : ℕ = max_file_size - length front in
    elim (Bool-cases (leb (length front) max_file_size)) [
      | inl f ↦
          let same : front ++ padding sgx enc_key doc_id v left 0 left ≡ bytes = cc (rw f at e) in
          subst (λ b. (0 < length b) × (length b ≤ max_file_size)) same
            (omega (
              arith,
              leb→le (length front) max_file_size f,
              length-append_bytes front (padding sgx enc_key doc_id v left 0 left),
              length-padding_le sgx enc_key doc_id v left 0 left,
            ))
      | inr f ↦ absurd (cc (rw f at e))
    ]

-- A tombstone is the bundle of the empty slot.
pack_slot-bundle :
    (sgx : Sgx) (index body : List ℕ) (v : ℕ) (key id : List ℕ)
    → pack_slot sgx (record { index_csv = index; body = body }) v key id
      ≡ pack_doc_bundle_v2 sgx index body v key id
unfolding pack_slot pack_doc_tombstone_v2
pack_slot-bundle sgx [] [] v key id = refl
pack_slot-bundle sgx [] (c ∷ cs) v key id = refl
pack_slot-bundle sgx (c ∷ cs) body v key id = refl

pub seal-Opens :
    (sgx : Sgx) (slot : CachedDocSlot) (v : ℕ) (key id : List ℕ)
    → Fits slot
    → v < 2 ^ 32
    → (packed : List ℕ) × (cipher : List ℕ) × (pack_slot sgx slot v key id ≡ ok packed)
      × (encrypt_doc_plaintext sgx key packed ≡ ok cipher)
      × Opens sgx key cipher slot
unfolding encrypt_doc_plaintext decrypt_cipher_into_slot slot_of_bundle
seal-Opens sgx slot v key id h small =
    let (bytes, packed, parsed) =
      bind-eq-ok (pack_doc_bundle_v2 sgx slot.index_csv slot.body v key id) parse_doc_bundle_ex
        (parse-pack_doc_bundle_v2 sgx slot.index_csv slot.body v key id h.room small) in
    let (some_bytes, few) = length-packed sgx slot.index_csv slot.body v key id bytes packed in
    let long : leb (length (sgx.encrypt key bytes)) gcm_overhead ≡ false =
      ground (arith, sgx.length-encrypt key bytes, some_bytes) in
    (
      bytes,
      sgx.encrypt key bytes,
      pack_slot-bundle sgx slot.index_csv slot.body v key id ∙ packed,
      rw (le→leb (length bytes) max_file_size few) refl,
      (
        omega (arith, sgx.length-encrypt key bytes, few),
        (
          v,
          rw
              (
                long,
                sgx.decrypt-encrypt key bytes,
                take-le max_file_size bytes few,
                parsed,
                h.index_trimmed,
                h.body_trimmed,
              )
              refl,
        ),
      ),
    )
