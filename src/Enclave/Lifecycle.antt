-- ===== src/Enclave/Lifecycle.antt =====
-- CryptoEnclave.cpp: the contexts of the clients in one enclave, how one of them is made the active
-- one, and how it goes to the storage and back.
pub mod Flush
pub mod Reload
pub mod Restart
pub mod Schedule
use veil_db.Base.{
  ℕ, zero, suc, ◌+◌, ◌%◌, ◌<◌, ◌≡◌, List, [], ◌∷◌, length, get_elem?, Option, none, some, Bool,
  true, false, ltb, leb, ◌==◌, ◌&&◌, ◌||◌, not, if◌then◌else◌, Outcome, ok, threw, fault, bind,
  seal_failed,
}
use veil_db.Base.Assoc.{Assoc, find, assign, keys}
use veil_db.Enclave.Bitset.{no_bits}
use veil_db.Enclave.Sgx.{Sgx}
use veil_db.Enclave.Context.{
  CachedDocSlot, ClientContext, Enclave, Run, ◌>>=◌, ◌>>◌, pure, lift, get_ctx, set_ctx,
  make_fresh_context,
}
use veil_db.Enclave.Keywords.{load_bitmap_from_storage, store_bitmap_batch, cache_bitmap}
use veil_db.Enclave.Snapshot.{serialize_context_metadata, deserialize_context_metadata}
use veil_db.Enclave.Docs.{persist_cached_slot_to_server}
use veil_db.Host.Storage.{EncDatabase}

-- sgx_calc_sealed_data_size, sgx_seal_data and sgx_unseal_data of the SGX SDK, which is not in the
-- repository. A sealed text has a header (sgx_sealed_data_t) and is opened by the enclave again.
pub record Sealer : Type 0 where
  -- `none` is a status other than SGX_SUCCESS.
  pub seal : List ℕ → Option (List ℕ)
  pub unseal : List ℕ → Option (List ℕ)
  -- sizeof(sgx_sealed_data_t)
  pub header : ℕ
  pub header-some : 0 < header
  pub length-seal :
      (plain sealed : List ℕ) → seal plain ≡ some sealed → length sealed ≡ header + length plain
  pub unseal-seal : (plain sealed : List ℕ) → seal plain ≡ some sealed → unseal sealed ≡ some plain

-- ContextManager::CachedContext
pub record CachedContext : Type 0 where
  pub ctx : ClientContext
  pub edb_id : ℕ

-- ContextManager, with the databases and the snapshots of the host by their edb_id. No snapshot is
-- the empty one.
pub record ContextManager : Type 0 where
  pub ctx : ClientContext
  pub current_edb_id : ℕ
  pub inactive_cache : List (ℕ × CachedContext)
  pub edbs : ℕ → EncDatabase
  pub snapshots : ℕ → List ℕ
  pub random : ℕ → ℕ

abbrev pub max_inactive : ℕ
max_inactive = 4

abbrev pub snapshot_room : ℕ
snapshot_room = 2048000

-- `ClientContext{}`
unfoldable pub no_context : ClientContext
unfolding make_fresh_context
no_context = make_fresh_context 0

unfoldable pub has_active_context : ContextManager → Bool
has_active_context m = not (m.ctx.client_id == 0) || not (m.current_edb_id == 0)

-- The three operations of the unordered_map of inactive contexts.
unfoldable pub find_client : ℕ → List (ℕ × CachedContext) → Option CachedContext
find_client id [] = none
find_client id ((i, c) ∷ m) = if i == id then some c else find_client id m

unfoldable pub assign_client :
    ℕ → CachedContext → List (ℕ × CachedContext) → List (ℕ × CachedContext)
assign_client id c [] = (id, c) ∷ []
assign_client id c ((i, d) ∷ m) = if i == id then (id, c) ∷ m else (i, d) ∷ assign_client id c m

unfoldable pub erase_client : ℕ → List (ℕ × CachedContext) → List (ℕ × CachedContext)
erase_client id [] = []
erase_client id ((i, c) ∷ m) =
    let rest = erase_client id m in if i == id then rest else (i, c) ∷ rest

-- What an ocall or a handler works on, for one database, and what it leaves.
unfoldable pub enclave_of : ℕ → ContextManager → Enclave
enclave_of edb_id m = record { ctx = m.ctx; edb = m.edbs edb_id; random = m.random }

unfoldable pub put_back : ℕ → Enclave → ContextManager → ContextManager
put_back edb_id s m = record m {
  ctx = s.ctx;
  edbs = λ i. if i == edb_id then s.edb else m.edbs i;
  random = s.random;
}

unfoldable pub put_snapshot : ℕ → List ℕ → ContextManager → ContextManager
put_snapshot edb_id sealed m = record m {
  snapshots = λ i. if i == edb_id then sealed else m.snapshots i;
}

-- What ocall_load_context_snapshot leaves in a buffer of `snapshot_room` bytes.
unfoldable pub load_snapshot : List ℕ → List ℕ
load_snapshot file = if leb (length file) snapshot_room then file else []

unfoldable pub cache_active_context : ContextManager → ContextManager
unfolding has_active_context no_context assign_client
cache_active_context m =
    if has_active_context m
    then record m {
      ctx = no_context;
      current_edb_id = 0;
      inactive_cache =
          assign_client m.ctx.client_id (record { ctx = m.ctx; edb_id = m.current_edb_id })
            m.inactive_cache;
    }
    else m

module _ (sgx : Sgx) where
  unfoldable pub persist_slots : List (List ℕ) → Run (Unit {0})
  unfolding persist_cached_slot_to_server
  persist_slots [] = pure tt
  persist_slots (id ∷ ids) = do persist_cached_slot_to_server sgx id true; persist_slots ids

  -- The loop of load_active_context_from_storage over KVS, which stops when CK is full.
  unfoldable pub cache_words : Assoc ℕ → Run (Unit {0})
  unfolding load_bitmap_from_storage cache_bitmap
  cache_words [] = pure tt
  cache_words ((word, version) ∷ kvs) = do
    bm ← load_bitmap_from_storage sgx word version
    cache_bitmap word bm
    c ← get_ctx
    elim (length c.ck == c.ck_max) [ true ↦ pure tt | false ↦ cache_words kvs ]

module _ (sgx : Sgx) (sealer : Sealer) where
  unfoldable pub seal_context_metadata : ClientContext → Outcome (List ℕ)
  unfolding serialize_context_metadata
  seal_context_metadata c = elim (sealer.seal (serialize_context_metadata c)) [
    | none ↦ threw seal_failed
    | some sealed ↦ ok sealed
  ]

  -- `none` is the result false.
  unfoldable pub unseal_context_metadata : List ℕ → Option ClientContext
  unfolding deserialize_context_metadata
  unseal_context_metadata sealed =
      if ltb (length sealed) sealer.header then none else elim (sealer.unseal sealed) [
        | none ↦ none
        | some plain ↦ deserialize_context_metadata plain
      ]

  -- persist_active_context_to_storage on one database; the result is the snapshot.
  unfoldable pub persist_active : Run (List ℕ)
  unfolding store_bitmap_batch seal_context_metadata persist_slots
  persist_active = do
    c ← get_ctx
    store_bitmap_batch sgx (keys c.ck)
    flushed ← get_ctx
    sealed ← lift (seal_context_metadata flushed)
    persist_slots sgx (keys flushed.doc_ck)
    pure sealed

  -- load_active_context_from_storage on one database, with what the buffer holds.
  unfoldable pub load_context : List ℕ → Run Bool
  unfolding unseal_context_metadata cache_words
  load_context buf =
      elim (if length buf == 0 then none else unseal_context_metadata buf) as (λ _. Run Bool) [
        | none ↦ pure false
        | some restored ↦ do
          set_ctx (record restored { ck = []; doc_ck = [] })
          cache_words sgx restored.kvs
          pure true
      ]

  unfoldable pub persist_active_context_to_storage :
      ℕ → ContextManager → Outcome (Unit {0} × ContextManager)
  unfolding persist_active enclave_of put_back put_snapshot
  persist_active_context_to_storage edb_id m =
      bind (persist_active (enclave_of edb_id m))
        (λ (sealed, s). ok (tt, put_snapshot edb_id sealed (put_back edb_id s m)))

  unfoldable pub load_active_context_from_storage :
      ℕ → ContextManager → Outcome (Bool × ContextManager)
  unfolding load_context load_snapshot enclave_of put_back
  load_active_context_from_storage edb_id m =
      bind (load_context (load_snapshot (m.snapshots edb_id)) (enclave_of edb_id m)) (λ (loaded, s).
        if loaded
        then ok (true, record (put_back edb_id s m) { current_edb_id = edb_id })
        else ok (false, m))

  -- The end of evict_one_inactive_context_if_needed, once the victim is drawn.
  unfoldable pub evict : ℕ → CachedContext → ContextManager → Outcome (Unit {0} × ContextManager)
  unfolding persist_active_context_to_storage erase_client
  evict id victim m =
      bind
        (persist_active_context_to_storage victim.edb_id
          (record m { ctx = victim.ctx; current_edb_id = victim.edb_id }))
        (λ (u, m'). ok (
          tt,
          record m' {
            ctx = m.ctx;
            current_edb_id = m.current_edb_id;
            inactive_cache = erase_client id m'.inactive_cache;
          },
        ))

  unfoldable pub evict_one_inactive_context_if_needed :
      ContextManager → Outcome (Unit {0} × ContextManager)
  unfolding evict
  evict_one_inactive_context_if_needed m =
      if leb (length m.inactive_cache) max_inactive
      then ok (tt, m)
      else elim (get_elem? m.inactive_cache (m.random 0 % length m.inactive_cache)) [
        | none ↦ fault
        | some (id, victim) ↦ evict id victim (record m { random = λ i. m.random (suc i) })
      ]

  -- The end of ecall_schedule_context, where the client has no cached context. `none` is the
  -- result -1.
  unfoldable pub open_context :
      ℕ → ℕ → Bool → ContextManager → Outcome (Option (Unit {0}) × ContextManager)
  unfolding load_active_context_from_storage no_context make_fresh_context
  open_context client_id edb_id true m =
      ok (some tt, record m { ctx = make_fresh_context client_id; current_edb_id = edb_id })
  open_context client_id edb_id false m =
      bind (load_active_context_from_storage edb_id m) (λ (loaded, m').
        if loaded
        then ok (some tt, m')
        else ok (none, record m' { ctx = no_context; current_edb_id = 0 }))

  unfoldable pub ecall_schedule_context :
      ℕ → ℕ → Bool → ContextManager → Outcome (Option (Unit {0}) × ContextManager)
  unfolding has_active_context cache_active_context evict_one_inactive_context_if_needed find_client
      erase_client open_context
  ecall_schedule_context client_id edb_id create_if_missing m =
      if has_active_context m && (m.ctx.client_id == client_id) && (m.current_edb_id == edb_id)
      then ok (some tt, m)
      else bind (evict_one_inactive_context_if_needed (cache_active_context m)) (λ (u, m').
        elim (find_client client_id m'.inactive_cache) [
          | some cached ↦ ok (
            some tt,
            record m' {
              ctx = cached.ctx;
              current_edb_id = cached.edb_id;
              inactive_cache = erase_client client_id m'.inactive_cache;
            },
          )
          | none ↦ open_context client_id edb_id create_if_missing m'
        ])

  -- The context of a client with this database, if the cache has one.
  unfoldable pub find_edb : ℕ → List (ℕ × CachedContext) → Option (ℕ × CachedContext)
  find_edb edb_id [] = none
  find_edb edb_id ((i, c) ∷ m) = if c.edb_id == edb_id then some (i, c) else find_edb edb_id m

  unfoldable pub ecall_persist_context : ℕ → ContextManager → Outcome (Unit {0} × ContextManager)
  unfolding has_active_context persist_active_context_to_storage find_edb assign_client
  ecall_persist_context edb_id m =
      if has_active_context m && (m.current_edb_id == edb_id)
      then persist_active_context_to_storage edb_id m
      else elim (find_edb edb_id m.inactive_cache) [
        | none ↦ ok (tt, m)
        | some (id, cached) ↦
            bind
              (persist_active_context_to_storage edb_id
                (record m { ctx = cached.ctx; current_edb_id = edb_id }))
              (λ (u, m'). ok (
                tt,
                record m' {
                  ctx = m.ctx;
                  current_edb_id = m.current_edb_id;
                  inactive_cache =
                      assign_client id (record { ctx = m'.ctx; edb_id = cached.edb_id })
                        m'.inactive_cache;
                },
              ))
      ]
