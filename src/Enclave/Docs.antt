-- ===== src/Enclave/Docs.antt =====
-- CryptoEnclave.cpp: the document slots, in the cache doc_CK or encrypted on the host, and the
-- update of one. A document id is the decimal text that the code passes around.
pub mod Sealing
pub mod Slots
pub mod Cache
pub mod Change
pub mod Aside
use veil_db.Base.{
  ℕ, zero, suc, ◌+◌, ◌-◌, ◌%◌, ◌^◌, List, [], ◌∷◌, ◌++◌, length, get_elem?, take, map, Option, none,
  some, Bool, true, false, ◌&&◌, ltb, leb, ◌==◌, if◌then◌else◌, Outcome, ok, fault, stuck, bind,
  defined, max,
}
use veil_db.Base.Int.{ℤ, pos, negsuc}
use veil_db.Base.Assoc.{find, assign, erase, keys}
use veil_db.Base.Decimal.{to_string, atoi}
use veil_db.Enclave.Bitset.{total_file_no}
use veil_db.Enclave.Bundle.{
  max_file_size, Bundle, parse_doc_bundle_ex, pack_doc_bundle_v2, pack_doc_tombstone_v2,
}
use veil_db.Enclave.Sgx.{Sgx, gcm_overhead}
use veil_db.Enclave.Context.{
  CachedDocSlot, ClientContext, Enclave, Run, ◌>>=◌, ◌>>◌, pure, lift, get_ctx, set_ctx, draw,
}
use veil_db.Host.Storage.{store_docs, load_docs}

abbrev pub is_empty : List ℕ → Bool
is_empty [] = true
is_empty (c ∷ cs) = false

unfoldable pub trim_trailing_null : List ℕ → List ℕ
trim_trailing_null [] = []
trim_trailing_null (c ∷ cs) =
    let rest = trim_trailing_null cs in if is_empty rest && (c == 0) then [] else c ∷ rest

-- The place of an id in doc_slot_version, if it has one.
unfoldable pub slot_place : ℤ → Option ℕ
slot_place (pos zero) = none
slot_place (pos (suc i)) = if ltb i total_file_no then some i else none
slot_place (negsuc n) = none

-- `doc_slot_version[i] = version`
unfoldable pub set_version : ℕ → ℕ → (ℕ → ℕ) → ℕ → ℕ
set_version i version versions j = if j == i then version else versions j

-- The version of a bundle that is loaded replaces a lower one, if it is not 0.
unfoldable pub raise_version : Option ℕ → ℕ → (ℕ → ℕ) → ℕ → ℕ
unfolding set_version
raise_version none version versions = versions
raise_version (some i) version versions =
    if ltb 0 version then set_version i (max (versions i) version) versions else versions

-- decrypt_cipher_into_slot where it returns true: the slot and the version of its bundle.
unfoldable pub slot_of_bundle : List ℕ → Bundle → CachedDocSlot × ℕ
unfolding trim_trailing_null
slot_of_bundle plain b = (
  record {
    index_csv = trim_trailing_null b.index_csv;
    body = trim_trailing_null (if b.parsed then b.body else plain);
  },
  b.slot_version,
)

-- `candidate != target_int` is its negation.
abbrev pub is_target : ℕ → ℤ → Bool
is_target candidate (pos n) = candidate == n
is_target candidate (negsuc n) = false

-- What pick_decoy_doc_id returns when its attempts are over.
unfoldable pub last_decoy : ℤ → List ℕ
last_decoy target = if is_target 1 target then b'2' ∷ [] else b'1' ∷ []

-- The attempts of pick_decoy_doc_id.
unfoldable pub decoy_attempts : ℕ → ℤ → Run (List ℕ)
unfolding last_decoy
decoy_attempts zero target = pure (last_decoy target)
decoy_attempts (suc attempts) target = do
  r ← draw
  elim (is_target (r % total_file_no + 1) target) [
    | true ↦ decoy_attempts attempts target
    | false ↦ pure (to_string (r % total_file_no + 1))
  ]

unfoldable pub pick_decoy_doc_id : List ℕ → Run (List ℕ)
unfolding decoy_attempts
pick_decoy_doc_id target = decoy_attempts 256 (atoi target)

-- `mutate(target_it->second)` on the slot that was found.
unfoldable pub change_slot : List ℕ → CachedDocSlot → Run (Unit {0})
change_slot id slot = do c ← get_ctx; set_ctx (record c { doc_ck = assign id slot c.doc_ck })

-- A cipher text that is longer than an encdoc_struct is copied beyond it.
unfoldable pub all_fit : List (List ℕ) → Bool
all_fit [] = true
all_fit (cipher ∷ ciphers) = leb (length cipher) (gcm_overhead + max_file_size) && all_fit ciphers

module _ (sgx : Sgx) where
  -- fill_doc_label
  unfoldable pub doc_label : List ℕ → List ℕ → List ℕ
  doc_label key id = sgx.hash key (id ++ to_string 0)

  -- The content of an encdoc_struct has room for a bundle of MAX_FILE_SIZE bytes.
  unfoldable pub encrypt_doc_plaintext : List ℕ → List ℕ → Outcome (List ℕ)
  encrypt_doc_plaintext key packed =
      if leb (length packed) max_file_size then ok (sgx.encrypt key packed) else fault

  -- `none` is the result false.
  unfoldable pub decrypt_cipher_into_slot : List ℕ → List ℕ → Outcome (Option (CachedDocSlot × ℕ))
  unfolding slot_of_bundle
  decrypt_cipher_into_slot key stored =
      if leb (length stored) gcm_overhead
      then ok none
      else let plain = take max_file_size (sgx.decrypt key stored) in
        bind (parse_doc_bundle_ex plain) (λ b. ok (some (slot_of_bundle plain b)))

  -- The cipher texts that the host copies into the encdoc_structs of the enclave.
  unfoldable pub ocall_load_docs : List (List ℕ) → Run (List (List ℕ))
  unfolding all_fit
  ocall_load_docs ids = do
    c ← get_ctx
    ciphers ← (λ s. ok (load_docs (map (doc_label c.key) ids) s.edb, s))
    lift (defined (all_fit ciphers))
    pure ciphers

  unfoldable pub fetch_doc_slot_from_server : List ℕ → Run Bool
  unfolding ocall_load_docs decrypt_cipher_into_slot raise_version
  fetch_doc_slot_from_server id = do
    c ← get_ctx
    elim (find id c.doc_ck) [
      | some slot ↦ pure true
      | none ↦ do
        ciphers ← ocall_load_docs (id ∷ [])
        elim ciphers [
          | [] ↦ λ s. fault
          | cipher ∷ others ↦ do
            opened ← lift (decrypt_cipher_into_slot c.key cipher)
            elim opened [
              | none ↦ pure false
              | some (slot, version) ↦ do
                set_ctx (record c {
                  doc_slot_version =
                      raise_version (slot_place (atoi id)) version c.doc_slot_version;
                  doc_ck = assign id slot c.doc_ck;
                })
                pure true
            ]
        ]
    ]

  -- The choice of persist_cached_slot_to_server between the two bundles.
  unfoldable pub pack_slot : CachedDocSlot → ℕ → List ℕ → List ℕ → Outcome (List ℕ)
  unfolding pack_doc_tombstone_v2
  pack_slot slot version key id =
      if is_empty slot.index_csv && is_empty slot.body
      then pack_doc_tombstone_v2 sgx version key id
      else pack_doc_bundle_v2 sgx slot.index_csv slot.body version key id

  unfoldable pub persist_cached_slot_to_server : List ℕ → Bool → Run (Unit {0})
  unfolding pack_slot encrypt_doc_plaintext set_version
  persist_cached_slot_to_server id remove_from_cache = do
    c ← get_ctx
    elim (find id c.doc_ck) [
      | none ↦ pure tt
      | some slot ↦ elim (slot_place (atoi id)) [
        | none ↦ pure tt
        | some i ↦ do
          packed ← lift (pack_slot slot ((c.doc_slot_version i + 1) % 2 ^ 32) c.key id)
          cipher ← lift (encrypt_doc_plaintext c.key packed)
          (λ s. ok (
            tt,
            record s {
              ctx = record c {
                doc_slot_version =
                    set_version i ((c.doc_slot_version i + 1) % 2 ^ 32) c.doc_slot_version;
                doc_ck = if remove_from_cache then erase id c.doc_ck else c.doc_ck;
              };
              edb = store_docs ((doc_label c.key id, cipher) ∷ []) s.edb;
            },
          ))
      ]
    ]

  unfoldable pub persist_random_cached_slot : Run (Unit {0})
  unfolding persist_cached_slot_to_server
  persist_random_cached_slot = do
    c ← get_ctx
    elim (length c.doc_ck == 0) [
      | true ↦ pure tt
      | false ↦ do
        r ← draw
        elim (get_elem? (keys c.doc_ck) (r % length c.doc_ck)) [
          | none ↦ λ s. fault
          | some pick ↦ persist_cached_slot_to_server pick true
        ]
    ]

  -- The end of run_slot_update. The result is the slot that `mutate` was given, if there was one.
  unfoldable pub change_cached :
      List ℕ → (CachedDocSlot → CachedDocSlot) → Run (Option CachedDocSlot)
  unfolding change_slot persist_random_cached_slot
  change_cached target mutate = do
    c ← get_ctx
    elim (find target c.doc_ck) [
      | none ↦ pure none
      | some slot ↦ do
        change_slot target (mutate slot)
        persist_random_cached_slot
        pure (some slot)
    ]

  unfoldable pub run_slot_update :
      List ℕ → (CachedDocSlot → CachedDocSlot) → Run (Option CachedDocSlot)
  unfolding pick_decoy_doc_id fetch_doc_slot_from_server change_cached
  run_slot_update target mutate = do
    c ← get_ctx
    read_id ← elim (find target c.doc_ck) [
      | some slot ↦ pick_decoy_doc_id target
      | none ↦ pure target
    ]
    ignored ← fetch_doc_slot_from_server read_id
    ignored' ← fetch_doc_slot_from_server target
    change_cached target mutate

  -- The loop, with fuel: each round takes a slot out of the cache.
  unfoldable pub spill_rounds : ℕ → Run (Unit {0})
  unfolding persist_random_cached_slot
  spill_rounds zero = do
    c ← get_ctx
    elim (ltb c.doc_ck_max (length c.doc_ck)) [ true ↦ λ s. stuck | false ↦ pure tt ]
  spill_rounds (suc fuel) = do
    c ← get_ctx
    elim (ltb c.doc_ck_max (length c.doc_ck)) [
      | true ↦ do persist_random_cached_slot; spill_rounds fuel
      | false ↦ pure tt
    ]

  unfoldable pub spill_doc_ck_if_needed : Run (Unit {0})
  unfolding spill_rounds
  spill_doc_ck_if_needed = do c ← get_ctx; spill_rounds (length c.doc_ck)
