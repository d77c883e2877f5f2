-- ===== src/Enclave/Bundle/RoundTrip.antt =====
-- EnclaveUtils.cpp: packing a bundle, and parsing what was packed.
use veil_db.Base.{
  ℕ, zero, suc, ◌+◌, ◌-◌, ◌^◌, ◌≤◌, ◌<◌, ◌≡◌, refl, List, [], ◌∷◌, ◌++◌, length, take, replicate,
  All, true, false, ltb, leb, ◌==◌, if◌then◌else◌, ok, fault, bind, min, arith, le→leb,
  append_assoc, length-append_bytes, Ends,
}
use veil_db.Wire.Bytes.{append_u32, read_u32-append_u32, length-append_u32}
use veil_db.Enclave.Sgx.{Sgx}
use veil_db.Enclave.Bundle.{
  max_file_size, zero_filled, put_sized, pack_doc_bundle_v1, pack_doc_bundle_v2,
  pack_doc_bundle_legacy, padding, pad_message, until_zero, parse_doc_bundle_ex,
}
use veil_db.Enclave.Bundle.Sized.{
  take-all, length-take_few, length-put_sized, ltb-sized, parse_index-put_sized,
}

zero_filled-fits :
    (bytes : List ℕ)
    → length bytes ≤ max_file_size
    → zero_filled bytes ≡ ok (bytes ++ replicate (max_file_size - length bytes) 0)
unfolding zero_filled
zero_filled-fits bytes h = rw (le→leb (length bytes) max_file_size h) refl

-- A bundle of version 1 whose texts fit into the slot with their 9 bytes of header is parsed to
-- its index and its body.
pub parse-pack_doc_bundle_v1 :
    (index body : List ℕ)
    → 9 + (length index + length body) ≤ max_file_size
    → bind (pack_doc_bundle_v1 index body) parse_doc_bundle_ex
      ≡ ok (record { parsed = true; index_csv = index; body = body; slot_version = 0 })
unfolding pack_doc_bundle_v1 parse_doc_bundle_ex
parse-pack_doc_bundle_v1 index body h =
    let bytes = put_sized index ++ put_sized body in
    let fits : length (1 ∷ bytes) ≤ max_file_size = omega (
      arith,
      length-append_bytes (put_sized index) (put_sized body),
      length-put_sized index (omega (arith, h)),
      length-put_sized body (omega (arith, h)),
    ) in
    rw
      (
        zero_filled-fits (1 ∷ bytes) fits,
        append_assoc (put_sized index) (put_sized body)
            (replicate (max_file_size - length (1 ∷ bytes)) 0),
      )
      (parse_index-put_sized index body _ 0 (omega (arith, h)) (omega (arith, h)))

bundle_bytes : ℕ → List ℕ → List ℕ → List ℕ
bundle_bytes v index body = 2 ∷ (append_u32 v ++ (put_sized index ++ put_sized body))

length-bundle_bytes :
    (v : ℕ) (index body : List ℕ)
    → length index < 2 ^ 32
    → length body < 2 ^ 32
    → length (bundle_bytes v index body) ≡ 13 + (length index + length body)
unfolding bundle_bytes
length-bundle_bytes v index body h k = omega (
  arith,
  length-append_u32 v,
  length-append_bytes (append_u32 v) (put_sized index ++ put_sized body),
  length-append_bytes (put_sized index) (put_sized body),
  length-put_sized index h,
  length-put_sized body k,
)

parse-bundle_bytes :
    (v : ℕ) (index body rest : List ℕ)
    → v < 2 ^ 32
    → length index < 2 ^ 32
    → length body < 2 ^ 32
    → parse_doc_bundle_ex (bundle_bytes v index body ++ rest)
      ≡ ok (record { parsed = true; index_csv = index; body = body; slot_version = v })
unfolding bundle_bytes parse_doc_bundle_ex
parse-bundle_bytes v index body rest small h k =
    let sized = put_sized index ++ put_sized body in
    let long : 12 ≤ 4 + length (sized ++ rest) = omega (
      arith,
      length-append_bytes sized rest,
      length-append_bytes (put_sized index) (put_sized body),
      length-put_sized index h,
      length-put_sized body k,
    ) in
    rw
      (
        append_assoc (append_u32 v) sized rest,
        ltb-sized v 12 (sized ++ rest) long,
        read_u32-append_u32 v (sized ++ rest) small,
        append_assoc (put_sized index) (put_sized body) rest,
      )
      (parse_index-put_sized index body rest v h k)

pack_doc_bundle_v2-fits :
    (sgx : Sgx) (index body : List ℕ) (v : ℕ) (enc_key doc_id : List ℕ)
    → length (bundle_bytes v index body) ≤ max_file_size
    → let left = max_file_size - length (bundle_bytes v index body) in
      pack_doc_bundle_v2 sgx index body v enc_key doc_id
      ≡ ok (bundle_bytes v index body ++ padding sgx enc_key doc_id v left 0 left)
unfolding pack_doc_bundle_v2 bundle_bytes
pack_doc_bundle_v2-fits sgx index body v enc_key doc_id h =
    rw (le→leb (length (bundle_bytes v index body)) max_file_size h) refl

-- A bundle of version 2 whose texts fit with their 13 bytes of header is parsed to its index, its
-- body and the version of its slot, whatever the hash pads it with.
pub parse-pack_doc_bundle_v2 :
    (sgx : Sgx) (index body : List ℕ) (slot_version : ℕ) (enc_key doc_id : List ℕ)
    → 13 + (length index + length body) ≤ max_file_size
    → slot_version < 2 ^ 32
    → bind (pack_doc_bundle_v2 sgx index body slot_version enc_key doc_id) parse_doc_bundle_ex
      ≡ ok (record { parsed = true; index_csv = index; body = body; slot_version = slot_version })
parse-pack_doc_bundle_v2 sgx index body v enc_key doc_id h small =
    let hi : length index < 2 ^ 32 = omega (arith, h) in
    let hb : length body < 2 ^ 32 = omega (arith, h) in
    let fits : length (bundle_bytes v index body) ≤ max_file_size =
      omega (arith, length-bundle_bytes v index body hi hb, h) in
    rw (pack_doc_bundle_v2-fits sgx index body v enc_key doc_id fits)
      (parse-bundle_bytes v index body _ small hi hb)

-- A bundle of version 2 whose texts do not fit, each below 4 GB, was written beyond the slot.
pub pack_doc_bundle_v2_overrun :
    (sgx : Sgx) (index body : List ℕ) (slot_version : ℕ) (enc_key doc_id : List ℕ)
    → max_file_size < 13 + (length index + length body)
    → length index < 2 ^ 32
    → length body < 2 ^ 32
    → pack_doc_bundle_v2 sgx index body slot_version enc_key doc_id ≡ fault
unfolding pack_doc_bundle_v2 bundle_bytes
pack_doc_bundle_v2_overrun sgx index body v enc_key doc_id h hi hb =
    let over : leb (length (bundle_bytes v index body)) max_file_size ≡ false =
      ground (arith, length-bundle_bytes v index body hi hb, h) in
    rw (over) refl

length-padding :
    (sgx : Sgx)
    → ((key text : List ℕ) → length (sgx.hash key text) ≡ 16)
    → (enc_key doc_id : List ℕ) (v fuel ctr left : ℕ) → left ≤ fuel
    → length (padding sgx enc_key doc_id v fuel ctr left) ≡ left
unfolding padding
length-padding sgx wide enc_key doc_id v zero ctr left h = omega (arith, h)
length-padding sgx wide enc_key doc_id v (suc fuel) ctr zero h = refl
length-padding sgx wide enc_key doc_id v (suc fuel) ctr (suc left) h =
    let n : ℕ = min 16 (suc left) in
    let block = sgx.hash enc_key (pad_message doc_id v ctr) in
    omega (
      arith,
      length-append_bytes (take n block)
          (padding sgx enc_key doc_id v fuel (ctr + 1) (suc left - n)),
      length-take_few n block (omega (arith, wide enc_key (pad_message doc_id v ctr))),
      length-padding sgx wide enc_key doc_id v fuel (ctr + 1) (suc left - n) (omega (arith, h)),
    )

-- With a hash of 16 bytes, every bundle of version 2 that fits has the size of the slot, so that a
-- tombstone cannot be told from a document by its length.
pub length-pack_doc_bundle_v2 :
    (sgx : Sgx)
    → ((key text : List ℕ) → length (sgx.hash key text) ≡ 16)
    → (index body : List ℕ) (slot_version : ℕ) (enc_key doc_id : List ℕ)
    → 13 + (length index + length body) ≤ max_file_size
    → Ends false
        (λ slot. length slot ≡ max_file_size)
        (pack_doc_bundle_v2 sgx index body slot_version enc_key doc_id)
length-pack_doc_bundle_v2 sgx wide index body v enc_key doc_id h =
    let hi : length index < 2 ^ 32 = omega (arith, h) in
    let hb : length body < 2 ^ 32 = omega (arith, h) in
    let bytes : List ℕ = bundle_bytes v index body in
    let size : length bytes ≡ 13 + (length index + length body) =
      length-bundle_bytes v index body hi hb in
    let left : ℕ = max_file_size - length bytes in
    let fits : length bytes ≤ max_file_size = omega (arith, size, h) in
    rw (pack_doc_bundle_v2-fits sgx index body v enc_key doc_id fits, Ends)
      (omega (
        arith,
        length-append_bytes bytes (padding sgx enc_key doc_id v left 0 left),
        length-padding sgx wide enc_key doc_id v left 0 left (omega arith),
        size,
        h,
      ))

until_zero-append :
    (content : List ℕ) (n : ℕ)
    → All (λ c. c == 0 ≡ false) content
    → until_zero (content ++ replicate n 0) ≡ content
unfolding until_zero
until_zero-append [] zero h = refl
until_zero-append [] (suc n) h = refl
until_zero-append (c ∷ cs) n h = rw (h.0, until_zero-append cs n h.1) refl

-- A legacy bundle of at most 4095 bytes without a zero is parsed to them.
pub parse-pack_doc_bundle_legacy :
    (content : List ℕ)
    → length content < max_file_size
    → All (λ c. c == 0 ≡ false) content
    → bind (pack_doc_bundle_legacy content) parse_doc_bundle_ex
      ≡ ok (record { parsed = true; index_csv = content; body = []; slot_version = 0 })
unfolding pack_doc_bundle_legacy parse_doc_bundle_ex
parse-pack_doc_bundle_legacy content h plain =
    let shorter : (if ltb (length content) 4095 then length content else 4095) ≡ length content =
      ground (arith, h) in
    rw
      (
        shorter,
        take-all content,
        zero_filled-fits (0 ∷ content) (omega (arith, h)),
        until_zero-append content (max_file_size - length (0 ∷ content)) plain,
      )
      refl
