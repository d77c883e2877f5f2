-- ===== src/Tests/Bundle.antt =====
-- Bundles and snapshots.
use veil_db.Base.{
  ◌++◌, ℕ, ◌≡◌, refl, List, [], ◌∷◌, length, replicate, some, none, true, false, ok, fault, bind,
  arith, Ends, length-replicate, same_text,
}
use veil_db.Base.Assoc.{keys}
use veil_db.Enclave.Sgx.{Sgx}
use veil_db.Enclave.Context.{ClientContext, make_fresh_context, zero_key}
use veil_db.Enclave.Bundle.{pack_doc_bundle_v1, pack_doc_bundle_v2, parse_doc_bundle_ex}
use veil_db.Enclave.Bundle.Parse.{Within, parse_doc_bundle_ex-Within}
use veil_db.Enclave.Bundle.RoundTrip.{
  parse-pack_doc_bundle_v1, parse-pack_doc_bundle_v2, pack_doc_bundle_v2_overrun,
  length-pack_doc_bundle_v2,
}
use veil_db.Enclave.Snapshot.{serialize_context_metadata, deserialize_context_metadata}
use veil_db.Enclave.Snapshot.RoundTrip.{
  FitsSnapshot, deserialize-serialize_context_metadata, deserialize-serialize_long_keyword,
}
use veil_db.Tests.Small.{toy}

abbrev an_index : List ℕ
an_index = b'c' ∷ b'a' ∷ b't' ∷ []

abbrev a_body : List ℕ
a_body = b'm' ∷ b'e' ∷ b'o' ∷ b'w' ∷ []

parse-pack_doc_bundle_v1_example :
    bind (pack_doc_bundle_v1 an_index a_body) parse_doc_bundle_ex
    ≡ ok (record { parsed = true; index_csv = an_index; body = a_body; slot_version = 0 })
parse-pack_doc_bundle_v1_example = parse-pack_doc_bundle_v1 an_index a_body (omega arith)

parse-pack_doc_bundle_v2_example :
    bind (pack_doc_bundle_v2 toy an_index a_body 5 zero_key (b'7' ∷ [])) parse_doc_bundle_ex
    ≡ ok (record { parsed = true; index_csv = an_index; body = a_body; slot_version = 5 })
parse-pack_doc_bundle_v2_example =
    parse-pack_doc_bundle_v2 toy an_index a_body 5 zero_key (b'7' ∷ []) (omega arith) (omega arith)

-- A body that fills a slot leaves no room for its header.
abbrev full_body : List ℕ
full_body = replicate 4096 65

full : length full_body ≡ 4096
full = length-replicate {A = ℕ} 4096 65

pack_doc_bundle_v2_overrun_example :
    pack_doc_bundle_v2 toy [] full_body 0 zero_key (b'7' ∷ []) ≡ fault
pack_doc_bundle_v2_overrun_example =
    pack_doc_bundle_v2_overrun toy [] full_body 0 zero_key (b'7' ∷ []) (omega (arith, full))
      (omega arith) (omega (arith, full))

-- A hash of 16 bytes.
abbrev wide : Sgx
wide = record toy { hash = λ key text. replicate 16 0 }

length-pack_doc_bundle_v2_example :
    Ends false (λ slot. length slot ≡ 4096) (pack_doc_bundle_v2 wide [] [] 0 zero_key (b'7' ∷ []))
length-pack_doc_bundle_v2_example =
    length-pack_doc_bundle_v2 wide (λ key text. refl) [] [] 0 zero_key (b'7' ∷ []) (omega arith)

parse_doc_bundle_ex-Within_example : Ends false (Within 3) (parse_doc_bundle_ex (2 ∷ 0 ∷ 0 ∷ []))
parse_doc_bundle_ex-Within_example = parse_doc_bundle_ex-Within (2 ∷ 0 ∷ 0 ∷ [])

abbrev a_context : ClientContext
a_context = record (make_fresh_context 9) { kvs = (an_index, 3) ∷ (a_body, 1) ∷ [] }

differ : same_text a_body an_index ≡ false
unfolding same_text
differ = refl

a_context-FitsSnapshot : FitsSnapshot a_context
unfolding make_fresh_context keys
a_context-FitsSnapshot = record {
  client_id = omega arith;
  key = refl;
  enc_key = omega arith;
  ck_max = omega arith;
  doc_ck_max = omega arith;
  dummy_count = omega arith;
  dummy_size = omega arith;
  endof_doc_id = omega arith;
  count = omega arith;
  distinct = ((differ, tt), (tt, tt));
  entries =
      ((omega arith, omega arith, omega arith), ((omega arith, omega arith, omega arith), tt));
  all_docs = λ k e. refl;
  dummy_replenish_counter = omega arith;
  retrieval_limit = omega arith;
  retrieval_threshold = omega arith;
  retrieval_batch_size = omega arith;
  versions = λ k. omega arith;
  outside = λ k e. refl;
}

deserialize-serialize_context_metadata_example :
    deserialize_context_metadata (serialize_context_metadata a_context)
    ≡ some (record a_context { ck = []; doc_ck = []; words_kvs = keys a_context.kvs })
deserialize-serialize_context_metadata_example =
    deserialize-serialize_context_metadata a_context a_context-FitsSnapshot

deserialize-serialize_long_keyword_example :
    deserialize_context_metadata (
      serialize_context_metadata
        (record a_context { kvs = a_context.kvs ++ (replicate 33 65, 1) ∷ [] }))
    ≡ none
unfolding make_fresh_context
deserialize-serialize_long_keyword_example =
    deserialize-serialize_long_keyword a_context (replicate 33 65) 1 a_context.kvs [] refl
      a_context-FitsSnapshot (omega arith) (omega arith) (λ k e. refl)
