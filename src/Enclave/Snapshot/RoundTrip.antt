-- ===== src/Enclave/Snapshot/RoundTrip.antt =====
-- CryptoEnclave.cpp: serialize_context_metadata and deserialize_context_metadata, one after the
-- other.
use veil_db.Base.{
  ℕ, suc, ◌+◌, ◌*◌, ◌^◌, length-append_bytes, ◌≤◌, ◌<◌, ◌≡◌, refl, sym, ap, ◌∙◌, subst, List, [],
  ◌∷◌, ◌++◌, length, All, Option, none, some, Bool, true, false, ltb, ◌==◌, if◌then◌else◌, arith,
}
use veil_db.Base.Assoc.{Assoc, keys, Distinct}
use veil_db.Protocol.{max_keyword_len}
use veil_db.Wire.Bytes.{append_u32, length-append_u32}
use veil_db.Enclave.Bitset.{total_file_no, bitmap_bytes}
use veil_db.Enclave.Bytes.{
  IsBitset, bitset_to_bytes, bytes_to_bitset, bytes_to_bitset-IsBitset, length-bitset_to_bytes,
  bitset_to_bytes-empty,
}
use veil_db.Enclave.Context.{ClientContext, make_fresh_context}
use veil_db.Enclave.Snapshot.{
  read_scalar, write_kvs, write_slots, serialize_context_metadata, read_kvs, read_slot_versions,
  is_negative, read_context, read_rest, and_then, deserialize_context_metadata,
}
use veil_db.Enclave.Snapshot.Parts.{
  IsEntry, read_scalar-append, read_len-append, read_optional-append, read_kvs-write_kvs,
  read_kvs_whole, read_slot_versions-write_slots, length-write_slots,
}

-- A context that a snapshot can hold.
pub record FitsSnapshot (c : ClientContext) : Type 0 where
  pub client_id : c.client_id < 2 ^ 31
  pub key : length c.key ≡ 16
  pub enc_key : length c.enc_key < 2 ^ 31
  pub ck_max : c.ck_max < 2 ^ 31
  pub doc_ck_max : c.doc_ck_max < 2 ^ 31
  pub dummy_count : c.dummy_count < 2 ^ 31
  pub dummy_size : c.dummy_size < 2 ^ 31
  pub endof_doc_id : c.endof_doc_id < 2 ^ 31
  pub count : length c.kvs < 2 ^ 31
  pub distinct : Distinct (keys c.kvs)
  -- no key is empty or longer than 32 bytes
  pub entries : All IsEntry c.kvs
  pub all_docs : IsBitset bitmap_bytes c.all_docs
  pub dummy_replenish_counter : c.dummy_replenish_counter < 2 ^ 31
  pub retrieval_limit : c.retrieval_limit < 2 ^ 31
  pub retrieval_threshold : c.retrieval_threshold < 2 ^ 31
  pub retrieval_batch_size : c.retrieval_batch_size < 2 ^ 31
  pub versions : (k : ℕ) → c.doc_slot_version k < 2 ^ 32
  pub outside : (k : ℕ) → ltb k total_file_no ≡ false → c.doc_slot_version k ≡ 0

not_negative : (n : ℕ) → n < 2 ^ 31 → is_negative n ≡ false
not_negative n h = ground arith

-- One read, and then the rest.
step :
    {A B : Type 0} {o : Option A} (g : A → Option B) {a : A} {r : Option B}
    → o ≡ some a
    → g a ≡ r
    → and_then o g ≡ r
step g {r = r} e h = subst (λ q. and_then q g ≡ r) (sym e) h

unless :
    {A : Type 0} {b : Bool} (m n : List ℕ → A) {p : List ℕ} {r : A}
    → b ≡ false
    → n p ≡ r
    → (if b then m else n) p ≡ r
unless m n {p = p} {r = r} e h = subst (λ q. (if q then m else n) p ≡ r) (sym e) h

-- The fields that are read before the entries of KVS.
abbrev restored_head : ClientContext → ClientContext
restored_head c = record (make_fresh_context c.client_id) {
  key = c.key;
  enc_key = c.enc_key;
  ck_max = c.ck_max;
  doc_ck_max = c.doc_ck_max;
  dummy_count = c.dummy_count;
  dummy_size = c.dummy_size;
  endof_doc_id = c.endof_doc_id;
}

read_context-head :
    (c : ClientContext) (n : ℕ) (rest : List ℕ)
    → FitsSnapshot c
    → n < 2 ^ 31
    → read_context (
        append_u32 c.client_id
        ++ (c.key
            ++ (append_u32 (length c.enc_key)
                ++ (c.enc_key
                    ++ (append_u32 c.ck_max
                        ++ (append_u32 c.doc_ck_max
                            ++ (append_u32 c.dummy_count
                                ++ (append_u32 c.dummy_size
                                    ++ (append_u32 c.endof_doc_id ++ (append_u32 n ++ rest))))))))))
      ≡ read_rest (restored_head c) n rest
unfolding read_context
read_context-head c n rest h small =
    step _ (read_scalar-append c.client_id _ (omega (arith, h.client_id))) (
      step _ (read_len-append 16 c.key _ h.key) (
        step _ (read_scalar-append (length c.enc_key) _ (omega (arith, h.enc_key))) (
          unless _ _ (not_negative (length c.enc_key) h.enc_key) (
            step _ (read_len-append (length c.enc_key) c.enc_key _ refl) (
              step _ (read_scalar-append c.ck_max _ (omega (arith, h.ck_max))) (
                step _ (read_scalar-append c.doc_ck_max _ (omega (arith, h.doc_ck_max))) (
                  step _ (read_scalar-append c.dummy_count _ (omega (arith, h.dummy_count))) (
                    step _ (read_scalar-append c.dummy_size _ (omega (arith, h.dummy_size))) (
                      step _ (read_scalar-append c.endof_doc_id _ (omega (arith, h.endof_doc_id))) (
                        step _ (read_scalar-append n rest (omega (arith, small)))
                          (unless _ _ (not_negative n small) refl)))))))))))

read_rest-tail :
    (c : ClientContext) (bitmap slots : List ℕ)
    → FitsSnapshot c
    → length bitmap ≡ bitmap_bytes
    → bytes_to_bitset bitmap_bytes bitmap ≡ c.all_docs
    → read_slot_versions slots ≡ some (c.doc_slot_version, [])
    → read_rest (restored_head c) (length c.kvs) (
        write_kvs c.kvs
        ++ (bitmap
            ++ (append_u32 c.dummy_replenish_counter
                ++ (append_u32 c.retrieval_limit
                    ++ (append_u32 c.retrieval_threshold
                        ++ (append_u32 c.retrieval_batch_size ++ slots))))))
      ≡ some (record c { ck = []; doc_ck = []; words_kvs = keys c.kvs }, [])
unfolding read_rest make_fresh_context
read_rest-tail c bitmap slots h size bits versions =
    step _ (read_kvs_whole c.kvs _ h.distinct h.entries) (
      step _ (read_len-append bitmap_bytes bitmap _ size) (
        step _
          (read_optional-append 0 c.dummy_replenish_counter _
            (omega (arith, h.dummy_replenish_counter)))
          (step _ (read_optional-append 100 c.retrieval_limit _ (omega (arith, h.retrieval_limit)))
            (step _
              (read_optional-append 5 c.retrieval_threshold _
                (omega (arith, h.retrieval_threshold)))
              (step _
                (read_optional-append 5 c.retrieval_batch_size _
                  (omega (arith, h.retrieval_batch_size)))
                (step _ versions (
                  ap
                    (λ b.
                      some (
                        record c { ck = []; doc_ck = []; words_kvs = keys c.kvs; all_docs = b },
                        [],
                      ))
                    bits)))))))

-- The metadata of a context whose numbers are ints that are not negative, and whose keywords are
-- between 1 and 32 bytes long and distinct, are read back whole: the context comes back with empty
-- caches and with the keywords of KVS for words_KVS.
pub deserialize-serialize_context_metadata :
    (c : ClientContext)
    → FitsSnapshot c
    → deserialize_context_metadata (serialize_context_metadata c)
      ≡ some (record c { ck = []; doc_ck = []; words_kvs = keys c.kvs })
unfolding deserialize_context_metadata serialize_context_metadata
deserialize-serialize_context_metadata c h =
    ap (λ r. and_then r (λ (restored, rest). some restored))
      (read_context-head c (length c.kvs) _ h h.count
        ∙ read_rest-tail c (bitset_to_bytes bitmap_bytes c.all_docs)
            (write_slots c.doc_slot_version 0 total_file_no) h
            (length-bitset_to_bytes bitmap_bytes c.all_docs)
            (bytes_to_bitset-IsBitset bitmap_bytes c.all_docs h.all_docs)
            (read_slot_versions-write_slots c.doc_slot_version h.versions h.outside))

pub length-serialize_context_metadata :
    (c : ClientContext)
    → length (serialize_context_metadata c)
      ≡ 48
        + length c.key
        + length c.enc_key
        + length (write_kvs c.kvs)
        + bitmap_bytes
        + 4 * total_file_no
unfolding serialize_context_metadata
length-serialize_context_metadata c = grind (
  arith,
  length-append_bytes,
  length-append_u32,
  length-bitset_to_bytes bitmap_bytes c.all_docs,
  length-write_slots c.doc_slot_version 0 total_file_no,
)

read_kvs-zero : (m : Assoc ℕ) (rest : List ℕ) → read_kvs 1 m (0 ∷ 0 ∷ 0 ∷ 0 ∷ rest) ≡ none
unfolding read_kvs read_scalar
read_kvs-zero m rest = refl

write_kvs-long :
    (w : List ℕ) (v : ℕ) (es : Assoc ℕ)
    → max_keyword_len < length w
    → write_kvs ((w, v) ∷ es) ≡ write_kvs es
unfolding write_kvs
write_kvs-long w v es h =
    let filled : length w == 0 ≡ false = ground (arith, h) in
    let long : ltb max_keyword_len (length w) ≡ true = ground (arith, h) in rw (filled, long) refl

failing : {A B : Type 0} {o : Option A} (g : A → Option B) → o ≡ none → and_then o g ≡ none
failing g e = ap (λ q. and_then q g) e

-- The keyword is left out wherever it stands.
write_kvs-skip :
    (w : List ℕ) (v : ℕ) (before after : Assoc ℕ)
    → max_keyword_len < length w
    → write_kvs (before ++ (w, v) ∷ after) ≡ write_kvs (before ++ after)
unfolding write_kvs
write_kvs-skip w v [] after h = write_kvs-long w v after h
write_kvs-skip w v ((k, u) ∷ before) after h = rw (write_kvs-skip w v before after h) refl

length-skip :
    (w : List ℕ) (v : ℕ) (before after : Assoc ℕ)
    → length (before ++ (w, v) ∷ after) ≡ suc (length (before ++ after))
length-skip w v [] after = refl
length-skip w v (e ∷ before) after = ap suc (length-skip w v before after)

read_kvs-long :
    (es : Assoc ℕ) (bitmap zeros tail : List ℕ)
    → Distinct (keys es)
    → All IsEntry es
    → bitmap ≡ 0 ∷ 0 ∷ 0 ∷ 0 ∷ zeros
    → read_kvs (suc (length es)) [] (write_kvs es ++ (bitmap ++ tail)) ≡ none
read_kvs-long es bitmap zeros tail d h start =
    read_kvs-write_kvs (suc (length es)) 1 [] es (bitmap ++ tail) (omega arith) d h
    ∙ ap (λ bits. read_kvs 1 es (bits ++ tail)) start
    ∙ read_kvs-zero es (zeros ++ tail)

read_rest-long :
    (restored : ClientContext) (es : Assoc ℕ) (bitmap zeros tail : List ℕ)
    → Distinct (keys es)
    → All IsEntry es
    → bitmap ≡ 0 ∷ 0 ∷ 0 ∷ 0 ∷ zeros
    → read_rest restored (suc (length es)) (write_kvs es ++ (bitmap ++ tail)) ≡ none
unfolding read_rest
read_rest-long restored es bitmap zeros tail d h start =
    failing _ (read_kvs-long es bitmap zeros tail d h start)

four_bytes : 4 ≤ bitmap_bytes
unfolding bitmap_bytes total_file_no
four_bytes = omega arith

-- What is written of a context whose KVS is written as that of `c`, and has one entry more.
written_kvs :
    (c : ClientContext) (kvs : Assoc ℕ)
    → write_kvs kvs ≡ write_kvs c.kvs
    → length kvs ≡ suc (length c.kvs)
    → FitsSnapshot c
    → length c.kvs + 1 < 2 ^ 31
    → ((k : ℕ) → k < 32 → c.all_docs k ≡ false)
    → deserialize_context_metadata (serialize_context_metadata (record c { kvs = kvs })) ≡ none
unfolding deserialize_context_metadata serialize_context_metadata
written_kvs c kvs same more h few off =
    let (zeros, start) = bitset_to_bytes-empty bitmap_bytes c.all_docs four_bytes off in
    rw (same, more)
      (failing (λ (restored, rest). some restored)
        (read_context-head c (suc (length c.kvs)) _ h (omega (arith, few))
          ∙ read_rest-long (restored_head c) c.kvs (bitset_to_bytes bitmap_bytes c.all_docs) zeros _
              h.distinct h.entries start))

-- A keyword of more than 32 bytes in KVS is left out of the snapshot, but counted. Where none of
-- the first 32 documents exists, the snapshot of a context that has one such keyword, wherever it
-- stands in KVS, and that without it would fit a snapshot, cannot be read back at all, if the
-- number of its keywords is an int.
pub deserialize-serialize_long_keyword :
    (c : ClientContext) (w : List ℕ) (version : ℕ) (before after : Assoc ℕ)
    → c.kvs ≡ before ++ after
    → FitsSnapshot c
    → max_keyword_len < length w
    → length c.kvs + 1 < 2 ^ 31
    → ((k : ℕ) → k < 32 → c.all_docs k ≡ false)
    → deserialize_context_metadata
        (serialize_context_metadata (record c { kvs = before ++ (w, version) ∷ after }))
      ≡ none
deserialize-serialize_long_keyword c w v before after parts h long few off =
    written_kvs c (before ++ (w, v) ∷ after)
      (write_kvs-skip w v before after long ∙ ap write_kvs (sym parts))
      (length-skip w v before after ∙ ap (λ m. suc (length m)) (sym parts)) h few off
