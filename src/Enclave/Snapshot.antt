-- ===== src/Enclave/Snapshot.antt =====
-- CryptoEnclave.cpp: the context metadata that is sealed into a snapshot, and its reader.
-- The pattern of a negative int stays the number below 2^32 that it is as an unsigned one.
pub mod Parts
pub mod RoundTrip
use veil_db.Base.{
  ℕ, zero, suc, ◌+◌, ◌*◌, ◌^◌, List, [], ◌∷◌, ◌++◌, length, get_elem?, take, drop, Option, none,
  some, Bool, true, false, ◌||◌, ltb, leb, ◌==◌, if◌then◌else◌,
}
use veil_db.Base.Assoc.{Assoc, find, keys}
use veil_db.Protocol.{max_keyword_len}
use veil_db.Wire.Bytes.{append_u32}
use veil_db.Enclave.Bitset.{Bitset, no_bits, total_file_no, bitmap_bytes}
use veil_db.Enclave.Bytes.{bitset_to_bytes, bytes_to_bitset}
use veil_db.Enclave.Context.{ClientContext, make_fresh_context}

-- A read at the pointer, which fails where too little is left.
abbrev pub Scan : Type 0 → Type 0
Scan A = List ℕ → Option (A × List ℕ)

abbrev pub and_then : {A B : Type 0} → Option A → (A → Option B) → Option B
and_then none f = none
and_then (some a) f = f a

infixl 5 ◌>>=◌
abbrev pub ◌>>=◌ : {A B : Type 0} → Scan A → (A → Scan B) → Scan B
◌>>=◌ m f p = and_then (m p) (λ (a, rest). f a rest)

abbrev pub pure : {A : Type 0} → A → Scan A
pure a p = some (a, p)

unfoldable pub read_scalar : Scan ℕ
read_scalar (a ∷ b ∷ c ∷ d ∷ p) = some (a + 256 * b + 65536 * c + 16777216 * d, p)
read_scalar _ = none

unfoldable pub read_len : ℕ → Scan (List ℕ)
read_len n p = if ltb (length p) n then none else some (take n p, drop n p)

-- `if (p + sizeof(int) <= end)`, and the value of a fresh context otherwise
unfoldable pub read_optional : ℕ → Scan ℕ
unfolding read_scalar
read_optional fresh p = if ltb (length p) 4 then some (fresh, p) else read_scalar p

-- The entries of KVS with a key that is not empty and not too long.
unfoldable pub write_kvs : Assoc ℕ → List ℕ
write_kvs [] = []
write_kvs ((key, version) ∷ kvs) =
    let rest = write_kvs kvs in
    if (length key == 0) || ltb max_keyword_len (length key)
    then rest
    else append_u32 (length key) ++ (key ++ (append_u32 version ++ rest))

-- doc_slot_version from slot `i` on, as memory has it
unfoldable pub write_slots : (ℕ → ℕ) → ℕ → ℕ → List ℕ
write_slots versions i zero = []
write_slots versions i (suc n) = append_u32 (versions i) ++ write_slots versions (i + 1) n

unfoldable pub serialize_context_metadata : ClientContext → List ℕ
unfolding write_kvs write_slots
serialize_context_metadata c =
    append_u32 c.client_id
    ++ (c.key
        ++ (append_u32 (length c.enc_key)
            ++ (c.enc_key
                ++ (append_u32 c.ck_max
                    ++ (append_u32 c.doc_ck_max
                        ++ (append_u32 c.dummy_count
                            ++ (append_u32 c.dummy_size
                                ++ (append_u32 c.endof_doc_id
                                    ++ (append_u32 (length c.kvs)
                                        ++ (write_kvs c.kvs
                                            ++ (bitset_to_bytes bitmap_bytes c.all_docs
                                                ++ (append_u32 c.dummy_replenish_counter
                                                    ++ (append_u32 c.retrieval_limit
                                                        ++ (append_u32 c.retrieval_threshold
                                                            ++ (append_u32 c.retrieval_batch_size
                                                            ++ write_slots c.doc_slot_version 0
                                                            total_file_no)))))))))))))))

-- `KVS.emplace`: a key that is there keeps its value.
unfoldable pub emplace : List ℕ → ℕ → Assoc ℕ → Assoc ℕ
emplace key version kvs = elim (find key kvs) [ some v ↦ kvs | none ↦ kvs ++ (key, version) ∷ [] ]

-- A length that is positive as an int and at most `max_keyword_len`
abbrev pub is_key_len : ℕ → Bool
is_key_len n = if n == 0 then false else leb n max_keyword_len

unfoldable pub read_kvs : ℕ → Assoc ℕ → Scan (Assoc ℕ)
unfolding read_scalar read_len emplace
read_kvs zero kvs = pure kvs
read_kvs (suc count) kvs = do
  key_len ← read_scalar
  if is_key_len key_len
      then (do
        key ← read_len key_len
        version ← read_scalar
        read_kvs count (emplace key version kvs))
      else λ p. none

unfoldable pub read_slots : ℕ → Scan (List ℕ)
unfolding read_scalar
read_slots zero = pure []
read_slots (suc n) = do v ← read_scalar; rest ← read_slots n; pure (v ∷ rest)

abbrev pub slot_at : Option ℕ → ℕ
slot_at none = 0
slot_at (some v) = v

-- Without the bytes of all slots, each has version 0.
unfoldable pub read_slot_versions : Scan (ℕ → ℕ)
unfolding read_slots
read_slot_versions p =
    if ltb (length p) (4 * total_file_no)
    then some ((λ slot. 0), p)
    else and_then (read_slots total_file_no p)
        (λ (versions, rest). some ((λ slot. slot_at (get_elem? versions slot)), rest))

-- `(int) n < 0`
abbrev pub is_negative : ℕ → Bool
is_negative n = leb (2 ^ 31) n

-- From the entries of KVS on, into `restored`. A field that may be missing is fresh in it.
unfoldable pub read_rest : ClientContext → ℕ → Scan ClientContext
unfolding read_len read_optional read_kvs read_slot_versions
read_rest restored count = do
  kvs ← read_kvs count []
  all_docs ← read_len bitmap_bytes
  dummy_replenish_counter ← read_optional restored.dummy_replenish_counter
  retrieval_limit ← read_optional restored.retrieval_limit
  retrieval_threshold ← read_optional restored.retrieval_threshold
  retrieval_batch_size ← read_optional restored.retrieval_batch_size
  versions ← read_slot_versions
  pure (record restored {
    kvs = kvs;
    words_kvs = keys kvs;
    all_docs = bytes_to_bitset bitmap_bytes all_docs;
    dummy_replenish_counter = dummy_replenish_counter;
    retrieval_limit = retrieval_limit;
    retrieval_threshold = retrieval_threshold;
    retrieval_batch_size = retrieval_batch_size;
    doc_slot_version = versions;
  })

unfoldable pub read_context : Scan ClientContext
unfolding read_scalar read_len read_rest make_fresh_context
read_context = do
  client_id ← read_scalar
  key ← read_len 16
  enc_key_len ← read_scalar
  if is_negative enc_key_len then (λ p. none) else do
    enc_key ← read_len enc_key_len
    ck_max ← read_scalar
    doc_ck_max ← read_scalar
    dummy_count ← read_scalar
    dummy_size ← read_scalar
    endof_doc_id ← read_scalar
    count ← read_scalar
    if is_negative count
        then (λ p. none)
        else read_rest
            (record (make_fresh_context client_id) {
              key = key;
              enc_key = enc_key;
              ck_max = ck_max;
              doc_ck_max = doc_ck_max;
              dummy_count = dummy_count;
              dummy_size = dummy_size;
              endof_doc_id = endof_doc_id;
            })
            count

-- `none` is the result false.
unfoldable pub deserialize_context_metadata : List ℕ → Option ClientContext
unfolding read_context
deserialize_context_metadata buf = and_then (read_context buf) (λ (restored, rest). some restored)
