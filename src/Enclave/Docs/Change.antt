-- ===== src/Enclave/Docs/Change.antt =====
-- CryptoEnclave.cpp: run_slot_update, where the slots stand for a map from ids to them.
use veil_db.Base.{
  ℕ, zero, suc, ◌+◌, ◌%◌, ◌≡◌, refl, List, Option, none, some, false, Bool-cases, inl, inr, ok,
  bind, Ends, Ends-bind,
}
use veil_db.Base.Int.{ℤ}
use veil_db.Base.Assoc.{Assoc, find, assign}
use veil_db.Base.Decimal.{atoi}
use veil_db.Enclave.Bitset.{total_file_no}
use veil_db.Enclave.Sgx.{Sgx}
use veil_db.Enclave.Context.{CachedDocSlot, Enclave, Run, pure}
use veil_db.Enclave.Docs.{
  doc_label, fetch_doc_slot_from_server, persist_random_cached_slot, is_target, last_decoy,
  decoy_attempts, pick_decoy_doc_id, change_slot, change_cached, run_slot_update,
}
use veil_db.Enclave.Docs.Sealing.{Fits}
use veil_db.Enclave.Docs.Slots.{
  IsSlotId, drawn-IsSlotId, one-IsSlotId, two-IsSlotId, replaced, Holds, redrawn, assign-Holds,
}
use veil_db.Enclave.Docs.Cache.{fetch_doc_slot_from_server-Holds, persist_random_cached_slot-Holds}

module _ (sgx : Sgx) (key : List ℕ)
    (apart : (a b : List ℕ)
      → IsSlotId a
      → IsSlotId b
      → doc_label sgx key a ≡ doc_label sgx key b
      → a ≡ b)
    (Aside : Enclave → Type 0)
    (aside-kept : (s : Enclave) (doc_ck : Assoc CachedDocSlot) (versions : ℕ → ℕ)
        (docs : Assoc (List ℕ)) (random : ℕ → ℕ)
      → Aside s
      → Aside (record s {
        ctx = record s.ctx { doc_ck = doc_ck; doc_slot_version = versions };
        edb = record s.edb { docs = docs };
        random = random;
      })) where
  abbrev H : (List ℕ → CachedDocSlot) → Enclave → Type 0
  H = Holds sgx key apart Aside aside-kept

  last_decoy-IsSlotId : (target : ℤ) → IsSlotId (last_decoy target)
  unfolding last_decoy
  last_decoy-IsSlotId target = elim (Bool-cases (is_target 1 target)) [
    | inl e ↦ rw e two-IsSlotId
    | inr e ↦ rw e one-IsSlotId
  ]

  decoy_attempts-Holds :
      (docs : List ℕ → CachedDocSlot) (n : ℕ) (target : ℤ) (s : Enclave)
      → H docs s
      → Ends false (λ (id, s'). IsSlotId id × H docs s') (decoy_attempts n target s)
  unfolding decoy_attempts
  decoy_attempts-Holds docs zero target s h = (last_decoy-IsSlotId target, h)
  decoy_attempts-Holds docs (suc n) target s h =
      let s' : Enclave = record s { random = λ j. s.random (suc j) } in
      let h' : H docs s' = redrawn sgx key apart Aside aside-kept h s'.random in
      elim (Bool-cases (is_target (s.random 0 % total_file_no + 1) target)) [
        | inl e ↦ rw (e, Ends) (decoy_attempts-Holds docs n target s' h')
        | inr e ↦ rw (e, Ends) (drawn-IsSlotId (s.random 0), h')
      ]

  -- The id that run_slot_update reads first.
  read_id-Holds :
      (docs : List ℕ → CachedDocSlot) (target : List ℕ) (o : Option CachedDocSlot) (s : Enclave)
      → IsSlotId target
      → H docs s
      → Ends false
          (λ (id, s'). IsSlotId id × H docs s')
          ((elim o as (λ _. Run (List ℕ)) [
            | some slot ↦ pick_decoy_doc_id target
            | none ↦ pure target
          ])
            s)
  unfolding pick_decoy_doc_id
  read_id-Holds docs target none s is h = (is, h)
  read_id-Holds docs target (some slot) s is h = decoy_attempts-Holds docs 256 (atoi target) s h

  change_cached-Holds :
      (docs : List ℕ → CachedDocSlot) (target : List ℕ) (mutate : CachedDocSlot → CachedDocSlot)
      (s : Enclave)
      → IsSlotId target
      → Fits (mutate (docs target))
      → find target s.ctx.doc_ck ≡ some (docs target)
      → H docs s
      → Ends false
          (λ (old, s').
            (old ≡ some (docs target)) × H (replaced target (mutate (docs target)) docs) s')
          (change_cached sgx target mutate s)
  unfolding change_cached change_slot
  change_cached-Holds docs target mutate s is fit e h =
      let docs' : List ℕ → CachedDocSlot = replaced target (mutate (docs target)) docs in
      let s' : Enclave = record s {
        ctx = record s.ctx { doc_ck = assign target (mutate (docs target)) s.ctx.doc_ck };
      } in
      rw (e, Ends)
        (Ends-bind false _ _ (persist_random_cached_slot sgx s')
          (λ (u, s''). ok (some (docs target), s''))
          (persist_random_cached_slot-Holds sgx key apart Aside aside-kept docs' s' (
            assign-Holds sgx key apart Aside aside-kept h target (mutate (docs target))
              s.ctx.doc_slot_version is fit))
          (λ (u, s'') k. (refl, k)))

  -- Where the slots stand for a map from ids to an index and a body, and no two labels of slots
  -- meet: an update of the slot of an id by a slot that fits a bundle ends, without exception and
  -- within its arrays. It hands over the slot that the map had for the id, and the slots then stand
  -- for the map with the new slot there, whichever decoy is read and whichever slot is written.
  pub run_slot_update-Holds :
      (docs : List ℕ → CachedDocSlot) (target : List ℕ) (mutate : CachedDocSlot → CachedDocSlot)
      (s : Enclave)
      → IsSlotId target
      → Fits (mutate (docs target))
      → H docs s
      → Ends false
          (λ (old, s').
            (old ≡ some (docs target)) × H (replaced target (mutate (docs target)) docs) s')
          (run_slot_update sgx target mutate s)
  unfolding run_slot_update
  run_slot_update-Holds docs target mutate s is fit h =
      Ends-bind false _ _
        ((elim (find target s.ctx.doc_ck) as (λ _. Run (List ℕ)) [
          | some slot ↦ pick_decoy_doc_id target
          | none ↦ pure target
        ])
          s)
        (λ (read_id, s₁). bind (fetch_doc_slot_from_server sgx read_id s₁) (λ (a, s₂).
          bind (fetch_doc_slot_from_server sgx target s₂)
            (λ (b, s₃). change_cached sgx target mutate s₃)))
        (read_id-Holds docs target (find target s.ctx.doc_ck) s is h)
        (λ (read_id, s₁) (ris, h₁).
          Ends-bind false _ _ (fetch_doc_slot_from_server sgx read_id s₁)
            (λ (a, s₂).
              bind (fetch_doc_slot_from_server sgx target s₂)
                (λ (b, s₃). change_cached sgx target mutate s₃))
            (fetch_doc_slot_from_server-Holds sgx key apart Aside aside-kept docs s₁ read_id h₁ ris)
            (λ (a, s₂) (t₂, e₂, h₂).
              Ends-bind false _ _ (fetch_doc_slot_from_server sgx target s₂)
                (λ (b, s₃). change_cached sgx target mutate s₃)
                (fetch_doc_slot_from_server-Holds sgx key apart Aside aside-kept docs s₂ target h₂
                  is)
                (λ (b, s₃) (t₃, e₃, h₃). change_cached-Holds docs target mutate s₃ is fit e₃ h₃)))
