-- ===== src/Enclave/Bundle.antt =====
-- EnclaveUtils.cpp: the document bundles that are encrypted into a slot of MAX_FILE_SIZE bytes.
-- A string that is written at rising offsets is the list of what was written, filled up at the end.
pub mod Parse
pub mod Sized
pub mod RoundTrip
use veil_db.Base.{
  ℕ, zero, suc, ◌+◌, ◌-◌, ◌%◌, ◌^◌, List, [], ◌∷◌, ◌++◌, length, take, drop, replicate, Bool, true,
  false, ltb, leb, ◌==◌, if◌then◌else◌, Outcome, ok, fault, bind, ◌>>=◌, min,
}
use veil_db.Base.Decimal.{to_string}
use veil_db.Wire.Bytes.{append_u32, read_u32}
use veil_db.Enclave.Sgx.{Sgx}

abbrev pub max_file_size : ℕ
max_file_size = 4096

abbrev pub magic_legacy : ℕ
magic_legacy = 0

abbrev pub magic_v1 : ℕ
magic_v1 = 1

abbrev pub magic_v2 : ℕ
magic_v2 = 2

-- The zeros that are left of `std::string out(MAX_FILE_SIZE, '\0')`. What does not fit was written
-- beyond the string.
unfoldable pub zero_filled : List ℕ → Outcome (List ℕ)
zero_filled bytes =
    if leb (length bytes) max_file_size
    then ok (bytes ++ replicate (max_file_size - length bytes) 0)
    else fault

-- A length in 32 bits, and so many bytes of the text.
unfoldable pub put_sized : List ℕ → List ℕ
put_sized text = append_u32 (length text) ++ take (length text % 2 ^ 32) text

unfoldable pub pack_doc_bundle_v1 : List ℕ → List ℕ → Outcome (List ℕ)
unfolding zero_filled put_sized
pack_doc_bundle_v1 index body = zero_filled (magic_v1 ∷ (put_sized index ++ put_sized body))

unfoldable pub pack_doc_bundle_legacy : List ℕ → Outcome (List ℕ)
unfolding zero_filled
pack_doc_bundle_legacy content = zero_filled (
    magic_legacy
    ∷ take (if ltb (length content) (max_file_size - 1) then length content else max_file_size - 1)
        content)

-- The message that is hashed into the block `ctr` of the padding.
abbrev pub pad_message : List ℕ → ℕ → ℕ → List ℕ
pad_message doc_id slot_version ctr =
    doc_id ++ (to_string slot_version ++ b'p' ∷ b'a' ∷ b'd' ∷ to_string ctr)

-- The loop of fill_doc_bundle_padding, with fuel for `left` bytes: each block fills one at least.
unfoldable pub padding : Sgx → List ℕ → List ℕ → ℕ → ℕ → ℕ → ℕ → List ℕ
padding sgx enc_key doc_id slot_version zero ctr left = []
padding sgx enc_key doc_id slot_version (suc fuel) ctr zero = []
padding sgx enc_key doc_id slot_version (suc fuel) ctr (suc left) =
    take (min 16 (suc left)) (sgx.hash enc_key (pad_message doc_id slot_version ctr))
    ++ padding sgx enc_key doc_id slot_version fuel (ctr + 1) (suc left - min 16 (suc left))

-- pack_doc_bundle_v2 with fill_doc_bundle_padding.
unfoldable pub pack_doc_bundle_v2 : Sgx → List ℕ → List ℕ → ℕ → List ℕ → List ℕ → Outcome (List ℕ)
unfolding put_sized padding
pack_doc_bundle_v2 sgx index body slot_version enc_key doc_id =
    let bytes = magic_v2 ∷ (append_u32 slot_version ++ (put_sized index ++ put_sized body)) in
    let left = max_file_size - length bytes in
    if leb (length bytes) max_file_size
    then ok (bytes ++ padding sgx enc_key doc_id slot_version left 0 left)
    else fault

unfoldable pub pack_doc_tombstone_v2 : Sgx → ℕ → List ℕ → List ℕ → Outcome (List ℕ)
unfolding pack_doc_bundle_v2
pack_doc_tombstone_v2 sgx slot_version enc_key doc_id =
    pack_doc_bundle_v2 sgx [] [] slot_version enc_key doc_id

-- The result of parse_doc_bundle_ex and what it leaves in its outputs.
pub record Bundle : Type 0 where
  pub parsed : Bool
  pub index_csv : List ℕ
  pub body : List ℕ
  pub slot_version : ℕ

abbrev pub rejected : List ℕ → List ℕ → ℕ → Bundle
rejected index body version = record {
  parsed = false;
  index_csv = index;
  body = body;
  slot_version = version;
}

-- `index_out.resize(index_out.find('\0'))`
unfoldable pub until_zero : List ℕ → List ℕ
until_zero [] = []
until_zero (c ∷ cs) = let rest = until_zero cs in if c == 0 then [] else c ∷ rest

-- `assign(plain.data() + off, len)`, and the text from its end on.
unfoldable pub assign_text : ℕ → List ℕ → Outcome (List ℕ × List ℕ)
assign_text len rest = if ltb (length rest) len then fault else ok (take len rest, drop len rest)

-- What follows the magic byte of v1, or the version of v2: `rest` is the text from `off` on.
unfoldable pub parse_body : List ℕ → ℕ → List ℕ → Outcome Bundle
unfolding assign_text
parse_body index version rest = if ltb (length rest) 4 then ok (rejected index [] version) else do
  (body_len, rest') ← read_u32 rest
  if ltb (length rest') body_len then ok (rejected index [] version) else (do
    (body, behind) ← assign_text body_len rest'
    ok (record { parsed = true; index_csv = index; body = body; slot_version = version }))

unfoldable pub parse_index : ℕ → List ℕ → Outcome Bundle
unfolding parse_body assign_text
parse_index version rest = if ltb (length rest) 8 then ok (rejected [] [] version) else do
  (index_len, rest') ← read_u32 rest
  if ltb (length rest') index_len
      then ok (rejected [] [] version)
      else (do (index, behind) ← assign_text index_len rest'; parse_body index version behind)

unfoldable pub parse_doc_bundle_ex : List ℕ → Outcome Bundle
unfolding parse_index until_zero
parse_doc_bundle_ex [] = ok (rejected [] [] 0)
parse_doc_bundle_ex (magic ∷ rest) =
    if magic == magic_legacy
    then ok (record { parsed = true; index_csv = until_zero rest; body = []; slot_version = 0 })
    else if magic == magic_v2
    then (if ltb (length rest) 12
        then ok (rejected [] [] 0)
        else do (version, rest') ← read_u32 rest; parse_index version rest')
    else if magic == magic_v1
    then parse_index 0 rest
    else ok (rejected [] (magic ∷ rest) 0)
