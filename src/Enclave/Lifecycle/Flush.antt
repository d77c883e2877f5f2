-- ===== src/Enclave/Lifecycle/Flush.antt =====
-- persist_active_context_to_storage: both caches go to the host.
use veil_db.Base.{
  ℕ, ◌≡◌, refl, ap, ◌∙◌, List, [], ◌∷◌, none, true, false, Option-cases, Bool-cases, inl, inr, Ends,
  Ends-bind, Ends-mono, arith, same_text, same_text_iff, subst, if◌then◌else◌,
}
use veil_db.Base.Assoc.{Assoc, find, keys, find-erase}
use veil_db.Enclave.Sgx.{Sgx}
use veil_db.Enclave.Context.{CachedDocSlot, ClientContext, Enclave}
use veil_db.Enclave.Keywords.{spill_word, spill_words}
use veil_db.Enclave.Docs.{doc_label, persist_cached_slot_to_server}
use veil_db.Enclave.Docs.Slots.{IsSlotId, Holds}
use veil_db.Enclave.Docs.Cache.{persist_cached_slot_to_server-Holds}
use veil_db.Enclave.Retrieve.{has_id}
use veil_db.Enclave.Lifecycle.{persist_slots}

-- What is in no key of a map is not found in it.
pub find-keys :
    {V : Type 0} (m : Assoc V) (w : List ℕ) → has_id (keys m) w ≡ false → find w m ≡ none
unfolding find keys has_id
find-keys [] w h = refl
find-keys ((j, v) ∷ m) w h = ground (arith, h, find-keys m w)

find-spill_words :
    (sgx : Sgx) (ws : List (List ℕ)) (c : ClientContext) (w : List ℕ)
    → find w (spill_words sgx ws c).ck ≡ (if has_id ws w then none else find w c.ck)
unfolding spill_words spill_word has_id
find-spill_words sgx [] c w = refl
find-spill_words sgx (u ∷ us) c w =
    ground (arith, find-spill_words sgx us (spill_word sgx u c) w, find-erase u w c.ck)

pub all_spilled :
    (sgx : Sgx) (c : ClientContext) (w : List ℕ) → find w (spill_words sgx (keys c.ck) c).ck ≡ none
all_spilled sgx c w = ground (arith, find-spill_words sgx (keys c.ck) c w, find-keys c.ck w)

-- Nothing changes by the removal of a key that is not there.
find-absent :
    {V : Type 0} (m : Assoc V) (id j : List ℕ)
    → find id m ≡ none
    → find j m ≡ (if has_id (id ∷ []) j then none else find j m)
unfolding has_id
find-absent m id j e = elim (Bool-cases (same_text id j)) [
  | inl f ↦ rw f (subst (λ i. find i m ≡ none) ((same_text_iff id j).0 f) e)
  | inr f ↦ rw f refl
]

module _ (sgx : Sgx) (key : List ℕ)
    (apart : (a b : List ℕ)
      → IsSlotId a
      → IsSlotId b
      → doc_label sgx key a ≡ doc_label sgx key b
      → a ≡ b)
    (Aside : Enclave → Type 0)
    (aside-kept : (s : Enclave) (doc_ck : Assoc CachedDocSlot) (versions : ℕ → ℕ)
        (docs : Assoc (List ℕ)) (random : ℕ → ℕ)
      → Aside s
      → Aside (record s {
        ctx = record s.ctx { doc_ck = doc_ck; doc_slot_version = versions };
        edb = record s.edb { docs = docs };
        random = random;
      }))
    (docs : List ℕ → CachedDocSlot) where
  abbrev State : Enclave → Type 0
  State = Holds sgx key apart Aside aside-kept docs

  persist-absent :
      (P : Unit {0} × Enclave → Type 0) (s : Enclave) (id : List ℕ)
      → find id s.ctx.doc_ck ≡ none
      → P (tt, s)
      → Ends false P (persist_cached_slot_to_server sgx id true s)
  unfolding persist_cached_slot_to_server
  persist-absent P s id e h = rw (e, Ends) h

  -- A slot that is cached or not is stored, and is then in the cache no more.
  persist-State :
      (s : Enclave) (id : List ℕ)
      → State s
      → Ends false
          (λ (u, s').
            State s'
            × ((j : List ℕ)
                → find j s'.ctx.doc_ck
                  ≡ (if has_id (id ∷ []) j then none else find j s.ctx.doc_ck)))
          (persist_cached_slot_to_server sgx id true s)
  unfolding has_id
  persist-State s id h = elim (Option-cases (find id s.ctx.doc_ck)) [
    | inl e ↦ persist-absent _ s id e (h, λ j. find-absent s.ctx.doc_ck id j e)
    | inr (slot, e) ↦
        Ends-mono false _ _ (persist_cached_slot_to_server sgx id true s)
          (persist_cached_slot_to_server-Holds sgx key apart Aside aside-kept docs s id slot h e)
          (λ (u, s') (h', erased).
            (h', λ j. ap (find j) erased ∙ ground (arith, find-erase id j s.ctx.doc_ck)))
  ]

  pub persist_slots-State :
      (ids : List (List ℕ)) (s : Enclave)
      → State s
      → Ends false
          (λ (u, s').
            State s'
            × ((j : List ℕ)
                → find j s'.ctx.doc_ck ≡ (if has_id ids j then none else find j s.ctx.doc_ck)))
          (persist_slots sgx ids s)
  unfolding persist_slots has_id
  persist_slots-State [] s h = (h, λ j. refl)
  persist_slots-State (id ∷ ids) s h =
      Ends-bind false
        (λ (u, s').
          State s'
          × ((j : List ℕ)
              → find j s'.ctx.doc_ck ≡ (if has_id (id ∷ []) j then none else find j s.ctx.doc_ck)))
        _ (persist_cached_slot_to_server sgx id true s) (λ (u, s'). persist_slots sgx ids s')
        (persist-State s id h)
        (λ (u, s') (h', f).
          Ends-mono false
            (λ (v, s'').
              State s''
              × ((j : List ℕ)
                  → find j s''.ctx.doc_ck ≡ (if has_id ids j then none else find j s'.ctx.doc_ck)))
            _ (persist_slots sgx ids s') (persist_slots-State ids s' h')
            (λ (v, s'') (h'', g). (h'', λ j. ground (arith, f j, g j))))
