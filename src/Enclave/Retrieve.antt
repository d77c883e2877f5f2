-- ===== src/Enclave/Retrieve.antt =====
-- CryptoEnclave.cpp: RetrieveDocs, which loads the documents of a SELECT among others that only
-- pad the access.
pub mod Padding
pub mod Plan
pub mod Access
pub mod Batches
pub mod Bodies
use veil_db.Base.{
  ℕ, zero, suc, ◌+◌, ◌-◌, ◌%◌, List, [], ◌∷◌, ◌++◌, length, get_elem?, take, drop, replicate,
  Option, none, some, Bool, true, false, ◌&&◌, ◌||◌, ltb, leb, ◌==◌, if◌then◌else◌, same_text,
  Outcome, ok, fault, stuck, bind, max,
}
use veil_db.Base.Int.{ℤ}
use veil_db.Base.Assoc.{Assoc, find, assign}
use veil_db.Base.Decimal.{to_string, atoi}
use veil_db.Enclave.Bitset.{Bitset, total_file_no}
use veil_db.Enclave.Bundle.{max_file_size}
use veil_db.Enclave.Sgx.{Sgx}
use veil_db.Enclave.Context.{
  CachedDocSlot, ClientContext, Enclave, Run, ◌>>=◌, ◌>>◌, pure, lift, get_ctx, set_ctx, draw,
}
use veil_db.Enclave.Docs.{
  is_empty, ocall_load_docs, decrypt_cipher_into_slot, spill_doc_ck_if_needed,
}
use veil_db.Enclave.Select.{doc_ids}

-- DocAccessMode
pub data DocAccessMode : Type 0 where
  doc_access_query doc_access_mutate_use doc_access_insert_decoy : DocAccessMode

-- ObfuscatedDocAccessPlan
pub record AccessPlan : Type 0 where
  pub mode : DocAccessMode
  pub access_ids : List (List ℕ)
  pub parse_ids : List (List ℕ)

-- ParsedDocRecord
pub record ParsedDocRecord : Type 0 where
  pub found : Bool
  pub index_csv : List ℕ
  pub body : List ℕ

-- Is an id one of the list?
unfoldable pub has_id : List (List ℕ) → List ℕ → Bool
has_id [] id = false
has_id (x ∷ xs) id = let rest = has_id xs id in if same_text x id then true else rest

unfoldable pub append_unique_doc_id : List (List ℕ) → List ℕ → List (List ℕ)
unfolding has_id
append_unique_doc_id ids id =
    if is_empty id then ids else if has_id ids id then ids else ids ++ id ∷ []

unfoldable pub append_all_unique : List (List ℕ) → List (List ℕ) → List (List ℕ)
unfolding append_unique_doc_id
append_all_unique ids [] = ids
append_all_unique ids (x ∷ xs) = append_all_unique (append_unique_doc_id ids x) xs

-- `v[rng() % v.size()]` of a vector that is not empty.
unfoldable pub pick_id : List (List ℕ) → Run (List ℕ)
pick_id ids = do
  r ← draw
  elim (get_elem? ids (r % length ids)) [ none ↦ λ s. fault | some id ↦ pure id ]

abbrev pub number_text : Option ℕ → Outcome (List ℕ)
number_text none = fault
number_text (some n) = ok (to_string n)

unfoldable pub pick_random_existing_doc_id : Run (List ℕ)
pick_random_existing_doc_id = do
  c ← get_ctx
  elim (doc_ids c.all_docs) [
    | [] ↦ pure []
    | first ∷ others ↦ do
      r ← draw
      lift (number_text (get_elem? (first ∷ others) (r % suc (length others))))
  ]

-- The end of pick_padding_doc_id, where no attempt has found an id.
unfoldable pub pick_any : List (List ℕ) → Run (List ℕ)
unfolding pick_id
pick_any [] = pure []
pick_any (id ∷ ids) = pick_id (id ∷ ids)

-- The attempts of pick_padding_doc_id without documents, and with some below `upper`.
unfoldable pub pad_blindly : ℕ → List (List ℕ) → Run (List ℕ)
unfolding pick_any has_id
pad_blindly zero real = pick_any real
pad_blindly (suc attempts) real = do
  r ← draw
  elim (has_id real (to_string (r % total_file_no + 1))) [
    | true ↦ pad_blindly attempts real
    | false ↦ pure (to_string (r % total_file_no + 1))
  ]

-- `d > 0 && d <= total_file_no && all_docs[d - 1] != 0`
unfoldable pub is_occupied : Bitset → ℕ → Bool
is_occupied all d = ltb 0 d && (leb d total_file_no && all (d - 1))

unfoldable pub pad_among : ℕ → ℕ → Bitset → List (List ℕ) → Run (List ℕ)
unfolding pick_any is_occupied
pad_among zero upper all real = pick_any real
pad_among (suc attempts) upper all real = do
  r ← draw
  elim (is_occupied all (r % upper + 1)) [
    | true ↦ pure (to_string (r % upper + 1))
    | false ↦ pad_among attempts upper all real
  ]

unfoldable pub pick_padding_doc_id : List (List ℕ) → Run (List ℕ)
unfolding pad_blindly pad_among
pick_padding_doc_id real = do
  c ← get_ctx
  elim (doc_ids c.all_docs) [
    | [] ↦ pad_blindly 256 real
    | first ∷ others ↦ elim real [
      | [] ↦ pure []
      | id ∷ ids ↦ pad_among 256 (max 1 c.endof_doc_id) c.all_docs (id ∷ ids)
    ]
  ]

-- The rounds of the padding loop, up to `target` ids.
unfoldable pub pad_rounds : ℕ → ℕ → List (List ℕ) → Run (List (List ℕ))
unfolding pick_padding_doc_id append_unique_doc_id
pad_rounds zero target ids = pure ids
pad_rounds (suc rounds) target ids = elim (ltb (length ids) target) [
  | false ↦ pure ids
  | true ↦ do
    id ← pick_padding_doc_id ids
    elim (is_empty id || (length (append_unique_doc_id ids id) == length ids)) [
      | true ↦ pure (append_unique_doc_id ids id)
      | false ↦ pad_rounds rounds target (append_unique_doc_id ids id)
    ]
]

-- The seeds of a plan, and the ids that it parses.
unfoldable pub plan_seeds : DocAccessMode → List (List ℕ) → Run (List (List ℕ))
unfolding pick_random_existing_doc_id
plan_seeds doc_access_query primary = pure primary
plan_seeds doc_access_mutate_use primary = pure primary
plan_seeds doc_access_insert_decoy primary = do
  decoy ← pick_random_existing_doc_id
  pure (if is_empty decoy then [] else decoy ∷ [])

abbrev pub plan_parsed : DocAccessMode → List (List ℕ) → List (List ℕ)
plan_parsed doc_access_query primary = primary
plan_parsed doc_access_mutate_use primary = primary
plan_parsed doc_access_insert_decoy primary = []

unfoldable pub build_doc_access_plan : DocAccessMode → List (List ℕ) → Run AccessPlan
unfolding plan_seeds append_all_unique pad_rounds
build_doc_access_plan mode primary = do
  seeds ← plan_seeds mode primary
  c ← get_ctx
  ids ← pad_rounds 256 c.retrieval_threshold (append_all_unique [] seeds)
  pure (record { mode = mode; access_ids = ids; parse_ids = plan_parsed mode primary })

-- decrypt_and_parse_doc_record
unfoldable pub record_of_slot : Option CachedDocSlot → ParsedDocRecord
record_of_slot none = record { found = false; index_csv = []; body = [] }
record_of_slot (some slot) = record { found = true; index_csv = slot.index_csv; body = slot.body }

-- The loop over parse_ids of execute_obfuscated_doc_access.
unfoldable pub parse_records :
    List (List ℕ) → Assoc CachedDocSlot → Assoc ParsedDocRecord → Assoc ParsedDocRecord
unfolding record_of_slot
parse_records [] doc_ck parsed = parsed
parse_records (id ∷ ids) doc_ck parsed = elim (find id doc_ck) [
  | none ↦ parse_records ids doc_ck parsed
  | some slot ↦ parse_records ids doc_ck (assign id (record_of_slot (some slot)) parsed)
]

-- The ids that are not cached.
unfoldable pub uncached_ids : List (List ℕ) → Assoc CachedDocSlot → List (List ℕ)
uncached_ids [] doc_ck = []
uncached_ids (id ∷ ids) doc_ck =
    let rest = uncached_ids ids doc_ck in
    elim (find id doc_ck) [ none ↦ id ∷ rest | some slot ↦ rest ]

-- A row of the result: the id and MAX_FILE_SIZE bytes.
unfoldable pub row_content : List ℕ → List ℕ
row_content body = take max_file_size body ++ replicate (max_file_size - length body) 0

-- The rows for the ids that were found.
unfoldable pub result_rows : List (List ℕ) → Assoc ParsedDocRecord → List (ℤ × List ℕ)
unfolding row_content
result_rows [] parsed = []
result_rows (id ∷ ids) parsed =
    let rest = result_rows ids parsed in
    elim (find id parsed) [
      | none ↦ rest
      | some r ↦ if r.found then (atoi id, row_content r.body) ∷ rest else rest
    ]

-- MAX_RESULT_DOCS
abbrev pub result_room : ℕ
result_room = 100

module _ (sgx : Sgx) where
  -- The slots of a batch enter the cache, if they are opened.
  unfoldable pub cache_opened : List (List ℕ) → List (List ℕ) → Run (Unit {0})
  unfolding decrypt_cipher_into_slot
  cache_opened [] ciphers = pure tt
  cache_opened (id ∷ ids) [] = λ s. fault
  cache_opened (id ∷ ids) (cipher ∷ ciphers) = do
    c ← get_ctx
    opened ← lift (decrypt_cipher_into_slot sgx c.key cipher)
    elim opened [
      | none ↦ cache_opened ids ciphers
      | some (slot, version) ↦ do
        set_ctx (record c { doc_ck = assign id slot c.doc_ck })
        cache_opened ids ciphers
    ]

  unfoldable pub load_batch : List (List ℕ) → Run (Unit {0})
  unfolding ocall_load_docs cache_opened
  load_batch ids = do ciphers ← ocall_load_docs sgx ids; cache_opened ids ciphers

  -- The loop over the batches, with fuel.
  unfoldable pub load_batches : ℕ → ℕ → List (List ℕ) → Run (Unit {0})
  unfolding load_batch
  load_batches fuel batch_size [] = pure tt
  load_batches zero batch_size (id ∷ ids) = λ s. stuck
  load_batches (suc fuel) batch_size (id ∷ ids) = do
    load_batch (take batch_size (id ∷ ids))
    load_batches fuel batch_size (drop batch_size (id ∷ ids))

  unfoldable pub materialize_access_ids : List (List ℕ) → Run (Unit {0})
  unfolding load_batches uncached_ids
  materialize_access_ids access_ids = do
    c ← get_ctx
    load_batches (length (uncached_ids access_ids c.doc_ck)) (max 1 c.retrieval_batch_size)
        (uncached_ids access_ids c.doc_ck)

  unfoldable pub execute_obfuscated_doc_access : AccessPlan → Run (Assoc ParsedDocRecord)
  unfolding materialize_access_ids parse_records spill_doc_ck_if_needed
  execute_obfuscated_doc_access plan = do
    materialize_access_ids plan.access_ids
    c ← get_ctx
    spill_doc_ck_if_needed sgx
    pure (parse_records plan.parse_ids c.doc_ck [])

  -- The rows beyond the arrays of result_doc are written beyond it.
  unfoldable pub retrieve_docs : List (List ℕ) → Run (List (ℤ × List ℕ))
  unfolding build_doc_access_plan execute_obfuscated_doc_access result_rows
  retrieve_docs real_ids = do
    plan ← build_doc_access_plan doc_access_query real_ids
    parsed ← execute_obfuscated_doc_access plan
    lift (
        if leb (length (result_rows real_ids parsed)) result_room
        then ok (result_rows real_ids parsed)
        else fault)
