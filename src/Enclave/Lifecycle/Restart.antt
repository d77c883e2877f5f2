-- ===== src/Enclave/Lifecycle/Restart.antt =====
-- The two functions of Reload on the ContextManager, with the databases and snapshots of the host.
use veil_db.Base.{
  ℕ, ◌+◌, ◌≤◌, ◌≡◌, refl, List, length, Bool, true, false, Outcome, ok, threw, fault, stuck, bind,
  Ends, Ends-bind, arith, ◌==◌, some, not, if◌then◌else◌,
}
use veil_db.Enclave.Bitset.{Bitset}
use veil_db.Enclave.Sgx.{Sgx}
use veil_db.Enclave.Context.{CachedDocSlot, ClientContext, Enclave}
use veil_db.Enclave.Keywords.Index.{Apart}
use veil_db.Enclave.Docs.{doc_label}
use veil_db.Enclave.Docs.Slots.{IsSlotId}
use veil_db.Enclave.Request.Documents.{Stands}
use veil_db.Enclave.Keywords.{is_some}
use veil_db.Enclave.Keywords.Search.{Ends-may}
use veil_db.Enclave.Snapshot.{serialize_context_metadata}
use veil_db.Enclave.Snapshot.RoundTrip.{FitsSnapshot}
use veil_db.Enclave.Lifecycle.{
  Sealer, ContextManager, enclave_of, put_back, put_snapshot, persist_active, load_context,
  load_snapshot, snapshot_room, persist_active_context_to_storage, load_active_context_from_storage,
}
use veil_db.Enclave.Lifecycle.Reload.{flushed, restored, persist_active-Sealed, load_context-State}

assoc_Ends :
    {A B C : Type 0} (may : Bool) (m : Outcome A) (f : A → B) (g : B → Outcome C) (P : C → Type 0)
    → Ends may P (bind m (λ a. g (f a)))
    → Ends may P (bind (bind m (λ a. ok (f a))) g)
assoc_Ends may (ok a) f g P h = h
assoc_Ends may (threw e) f g P h = h
assoc_Ends may fault f g P h = h
assoc_Ends may stuck f g P h = h

-- A context is stored, another one becomes active, and the stored one is loaded.
abbrev pub restarted :
    Sgx → Sealer → ℕ → ClientContext → ℕ → ContextManager → Outcome (Bool × ContextManager)
restarted sgx sealer edb_id other other_edb m =
    bind (persist_active_context_to_storage sgx sealer edb_id m) (λ (u, m').
      load_active_context_from_storage sgx sealer edb_id
        (record m' { ctx = other; current_edb_id = other_edb }))

module _ (sgx : Sgx) (key : List ℕ) (IsClear IsBlank : List ℕ → Type 0)
    (apart : Apart sgx key IsClear IsBlank)
    (doc_apart : (a b : List ℕ)
      → IsSlotId a
      → IsSlotId b
      → doc_label sgx key a ≡ doc_label sgx key b
      → a ≡ b)
    (postings : List ℕ → Bitset) (all : Bitset) (docs : List ℕ → CachedDocSlot) (sealer : Sealer)
    (edb_id : ℕ) where
  abbrev State : Enclave → Type 0
  State = Stands sgx key IsClear IsBlank apart doc_apart postings all docs

  -- The result is true, the database `edb_id` is the active one, and stands for the index.
  abbrev Active : Bool × ContextManager → Type 0
  Active (loaded, m) = (loaded ≡ true) × (m.current_edb_id ≡ edb_id) × State (enclave_of edb_id m)

  load-Active :
      (m : ContextManager) (s : Enclave) (c other : ClientContext) (other_edb : ℕ) (sealed : List ℕ)
      → sealer.seal (serialize_context_metadata c) ≡ some sealed
      → FitsSnapshot c
      → sealer.header + length (serialize_context_metadata c) ≤ snapshot_room
      → State (record s { ctx = restored c })
      → Ends false Active (
          load_active_context_from_storage sgx sealer edb_id
            (record (put_snapshot edb_id sealed (put_back edb_id s m)) {
              ctx = other;
              current_edb_id = other_edb;
            }))
  unfolding load_active_context_from_storage enclave_of put_back put_snapshot
  load-Active m s c other other_edb sealed e fits room h =
      let same : edb_id == edb_id ≡ true = ground arith in
      let m' : ContextManager = record (put_snapshot edb_id sealed (put_back edb_id s m)) {
        ctx = other;
        current_edb_id = other_edb;
      } in
      rw (same, Ends)
        (Ends-bind false (λ (loaded, s'). (loaded ≡ true) × State s') _
          (load_context sgx sealer (load_snapshot sealed) (record s { ctx = other }))
          (λ (loaded, s').
            if loaded
            then ok (true, record (put_back edb_id s' m') { current_edb_id = edb_id })
            else ok (false, m'))
          (load_context-State sgx key IsClear IsBlank apart doc_apart postings all docs sealer c
            sealed e fits room s other h)
          (λ (loaded, s') (found, h'). rw (found, same, Ends) (refl, refl, h')))

  -- Where the state of a database stands for posting lists and documents, no two labels meet, the
  -- context that is left when CK is stored (its keywords are of 1 to 32 bytes and its numbers are
  -- ints that are not negative) fits a snapshot, and the snapshot fits the buffer of
  -- load_active_context_from_storage: the context is stored and, after any other context has been
  -- the active one, loaded and active again, and the state stands for the same posting lists and
  -- documents. All of it ends within its arrays, and in an exception only where the sealing of that
  -- context fails.
  pub restarted-Stands :
      (m : ContextManager) (other : ClientContext) (other_edb : ℕ)
      → FitsSnapshot (flushed sgx m.ctx)
      → sealer.header + length (serialize_context_metadata (flushed sgx m.ctx)) ≤ snapshot_room
      → Stands sgx key IsClear IsBlank apart doc_apart postings all docs (enclave_of edb_id m)
      → Ends
          (not (is_some (sealer.seal (serialize_context_metadata (flushed sgx m.ctx)))))
          (λ (loaded, m').
            (loaded ≡ true)
            × (m'.current_edb_id ≡ edb_id)
            × Stands sgx key IsClear IsBlank apart doc_apart postings all docs
                (enclave_of edb_id m'))
          (restarted sgx sealer edb_id other other_edb m)
  unfolding persist_active_context_to_storage enclave_of
  restarted-Stands m other other_edb fits room h =
      let c : ClientContext = flushed sgx m.ctx in
      let may : Bool = not (is_some (sealer.seal (serialize_context_metadata c))) in
      let After : Bool × ContextManager → Type 0 = Active in
      let reload : Unit {0} × ContextManager → Outcome (Bool × ContextManager) = λ (u, m').
        load_active_context_from_storage sgx sealer edb_id
          (record m' { ctx = other; current_edb_id = other_edb }) in
      let stored : List ℕ × Enclave → Unit {0} × ContextManager =
        λ (sealed, s). (tt, put_snapshot edb_id sealed (put_back edb_id s m)) in
      assoc_Ends may (persist_active sgx sealer (enclave_of edb_id m)) stored reload After (
        Ends-bind may
          (λ (sealed, s).
            (sealer.seal (serialize_context_metadata c) ≡ some sealed)
            × State (record s { ctx = restored c }))
          After (persist_active sgx sealer (enclave_of edb_id m)) (λ r. reload (stored r))
          (persist_active-Sealed sgx key IsClear IsBlank apart doc_apart postings all docs sealer
            (enclave_of edb_id m) h)
          (λ (sealed, s) (e, k).
            Ends-may may After (reload (stored (sealed, s)))
              (load-Active m s c other other_edb sealed e fits room k)))
