-- ===== src/Enclave/Docs/Cache.antt =====
-- The operations on the cache of document slots, where the slots stand for a map from ids to them.
use veil_db.Base.{
  ℕ, zero, suc, ◌+◌, ◌-◌, ◌%◌, ◌^◌, ◌≤◌, ◌≡◌, refl, ap, ◌∙◌, sym, subst, fun_ext, List, [], ◌∷◌,
  length, none, some, Bool, true, false, ltb, ◌==◌, Bool-cases, Option-cases, inl, inr, ok, Ends,
  Ends-bind, Ends-mono, arith, same_text_iff,
}
use veil_db.Base.Assoc.{Assoc, find, assign, erase, find-assign}
use veil_db.Base.Decimal.{atoi}
use veil_db.Enclave.Sgx.{Sgx}
use veil_db.Enclave.Context.{CachedDocSlot, Enclave}
use veil_db.Host.Storage.{store_docs}
use veil_db.Enclave.Docs.{
  slot_place, raise_version, doc_label, pack_slot, encrypt_doc_plaintext, ocall_load_docs,
  decrypt_cipher_into_slot, fetch_doc_slot_from_server, persist_cached_slot_to_server, set_version,
  persist_random_cached_slot, spill_rounds, spill_doc_ck_if_needed,
}
use veil_db.Enclave.Docs.Sealing.{Fits, Opens, seal-Opens}
use veil_db.Enclave.Docs.Slots.{
  IsSlotId, slot_place-IsSlotId, length-erase, find-key, OpenAll, Holds, redrawn, assign-Holds,
  replaced-same, erase-Holds, ocall_load_docs-OpenAll,
}

module _ (sgx : Sgx) (key : List ℕ)
    (apart : (a b : List ℕ)
      → IsSlotId a
      → IsSlotId b
      → doc_label sgx key a ≡ doc_label sgx key b
      → a ≡ b)
    (Aside : Enclave → Type 0)
    (aside-kept : (s : Enclave) (doc_ck : Assoc CachedDocSlot) (versions : ℕ → ℕ)
        (docs : Assoc (List ℕ)) (random : ℕ → ℕ)
      → Aside s
      → Aside (record s {
        ctx = record s.ctx { doc_ck = doc_ck; doc_slot_version = versions };
        edb = record s.edb { docs = docs };
        random = random;
      })) where
  abbrev H : (List ℕ → CachedDocSlot) → Enclave → Type 0
  H = Holds sgx key apart Aside aside-kept

  -- A slot that is loaded and opened enters the cache as it is in the map.
  pub loaded-Holds :
      (docs : List ℕ → CachedDocSlot) (s : Enclave) (id : List ℕ) (versions : ℕ → ℕ)
      → H docs s
      → IsSlotId id
      → H docs (record s {
        ctx = record s.ctx {
          doc_slot_version = versions;
          doc_ck = assign id (docs id) s.ctx.doc_ck;
        };
      })
  loaded-Holds docs s id versions h is =
      let s' : Enclave = record s {
        ctx = record s.ctx {
          doc_slot_version = versions;
          doc_ck = assign id (docs id) s.ctx.doc_ck;
        };
      } in
      subst (λ d. H d s') (fun_ext (replaced-same sgx key apart Aside aside-kept h id))
        (assign-Holds sgx key apart Aside aside-kept h id (docs id) versions is (h.fitting id is))

  fetch-step :
      (P : Bool × Enclave → Type 0) (s : Enclave) (id cipher : List ℕ) (slot : CachedDocSlot)
      (v : ℕ)
      → find id s.ctx.doc_ck ≡ none
      → ocall_load_docs sgx (id ∷ []) s ≡ ok (cipher ∷ [], s)
      → decrypt_cipher_into_slot sgx s.ctx.key cipher ≡ ok (some (slot, v))
      → P (
        true,
        record s {
          ctx = record s.ctx {
            doc_slot_version = raise_version (slot_place (atoi id)) v s.ctx.doc_slot_version;
            doc_ck = assign id slot s.ctx.doc_ck;
          };
        },
      )
      → Ends false P (fetch_doc_slot_from_server sgx id s)
  unfolding fetch_doc_slot_from_server
  fetch-step P s id cipher slot v e l d p = rw (e, l, d, Ends) p

  -- A slot of any id is fetched to what the map has for it.
  pub fetch_doc_slot_from_server-Holds :
      (docs : List ℕ → CachedDocSlot) (s : Enclave) (id : List ℕ)
      → H docs s
      → IsSlotId id
      → Ends false
          (λ (fetched, s'). (fetched ≡ true) × (find id s'.ctx.doc_ck ≡ some (docs id)) × H docs s')
          (fetch_doc_slot_from_server sgx id s)
  fetch_doc_slot_from_server-Holds docs s id h is = elim (Option-cases (find id s.ctx.doc_ck)) [
    | inr (slot, e) ↦
        unfold fetch_doc_slot_from_server in
        rw (e, Ends) (refl, e ∙ ap some (h.cached id slot e), h)
    | inl e ↦
        let (ciphers, l, os) =
          ocall_load_docs-OpenAll sgx key apart Aside aside-kept h (id ∷ []) ((is, e), tt) in
        fetched ciphers l os e
  ]
    where
      fetched :
          (ciphers : List (List ℕ))
          → ocall_load_docs sgx (id ∷ []) s ≡ ok (ciphers, s)
          → OpenAll sgx key docs (id ∷ []) ciphers
          → find id s.ctx.doc_ck ≡ none
          → Ends false
              (λ (fetched, s').
                (fetched ≡ true) × (find id s'.ctx.doc_ck ≡ some (docs id)) × H docs s')
              (fetch_doc_slot_from_server sgx id s)
      fetched (cipher ∷ []) l ((few, (v, d)), rest) e =
          let opened : decrypt_cipher_into_slot sgx s.ctx.key cipher ≡ ok (some (docs id, v)) =
            ap (λ k. decrypt_cipher_into_slot sgx k cipher) h.keyed ∙ d in
          fetch-step _ s id cipher (docs id) v e l opened (
            refl,
            find-assign id id (docs id) s.ctx.doc_ck ∙ rw ((same_text_iff id id).1 refl) refl,
            loaded-Holds docs s id _ h is,
          )
      fetched [] l os e = elim os [ ]
      fetched (cipher ∷ c ∷ cs) l os e = elim os.1 [ ]

  persist-step :
      (P : Unit {0} × Enclave → Type 0) (s : Enclave) (id : List ℕ) (slot : CachedDocSlot) (i : ℕ)
      (packed cipher : List ℕ)
      → find id s.ctx.doc_ck ≡ some slot
      → slot_place (atoi id) ≡ some i
      → pack_slot sgx slot ((s.ctx.doc_slot_version i + 1) % 2 ^ 32) s.ctx.key id ≡ ok packed
      → encrypt_doc_plaintext sgx s.ctx.key packed ≡ ok cipher
      → P (
        tt,
        record s {
          ctx = record s.ctx {
            doc_slot_version =
                set_version i ((s.ctx.doc_slot_version i + 1) % 2 ^ 32) s.ctx.doc_slot_version;
            doc_ck = erase id s.ctx.doc_ck;
          };
          edb = store_docs ((doc_label sgx s.ctx.key id, cipher) ∷ []) s.edb;
        },
      )
      → Ends false P (persist_cached_slot_to_server sgx id true s)
  unfolding persist_cached_slot_to_server
  persist-step P s id slot i packed cipher e place p c h = rw (e, place, p, c, Ends) h

  -- A slot that is cached goes to the host under its next version, and leaves the cache.
  pub persist_cached_slot_to_server-Holds :
      (docs : List ℕ → CachedDocSlot) (s : Enclave) (id : List ℕ) (slot : CachedDocSlot)
      → H docs s
      → find id s.ctx.doc_ck ≡ some slot
      → Ends false
          (λ (u, s'). H docs s' × (s'.ctx.doc_ck ≡ erase id s.ctx.doc_ck))
          (persist_cached_slot_to_server sgx id true s)
  persist_cached_slot_to_server-Holds docs s id slot h e =
      let (i, place) = slot_place-IsSlotId id (h.known id slot e) in
      let (packed, cipher, p, c, o) =
        seal-Opens sgx slot ((s.ctx.doc_slot_version i + 1) % 2 ^ 32) s.ctx.key id
          (subst Fits (sym (h.cached id slot e)) (h.fitting id (h.known id slot e)))
          (omega arith) in
      persist-step _ s id slot i packed cipher e place p c (
        erase-Holds sgx key apart Aside aside-kept h id cipher slot _ e
            (subst (λ k. Opens sgx k cipher slot) h.keyed o),
        refl,
      )

  persist_picked :
      (docs : List ℕ → CachedDocSlot) (s : Enclave) (n : ℕ)
      → H docs s
      → length s.ctx.doc_ck ≡ suc n
      → Ends false
          (λ (u, s'). H docs s' × (length s'.ctx.doc_ck ≤ n))
          (persist_random_cached_slot sgx s)
  unfolding persist_random_cached_slot
  persist_picked docs s n h e =
      let some_slot : length s.ctx.doc_ck == 0 ≡ false = ground (arith, e) in
      let s' : Enclave = record s { random = λ j. s.random (suc j) } in
      let h' : H docs s' = redrawn sgx key apart Aside aside-kept h s'.random in
      let (k, v, key_at, f) =
        find-key (s.random 0 % length s.ctx.doc_ck) s.ctx.doc_ck (omega (arith, e)) in
      rw (some_slot, key_at, Ends)
        (Ends-mono false _ _ (persist_cached_slot_to_server sgx k true s')
          (persist_cached_slot_to_server-Holds docs s' k v h' f)
          (λ (u, s'') (hs, erased).
            (hs, rw erased (omega (arith, e, length-erase k v s.ctx.doc_ck f)))))

  pub persist_random_cached_slot-Holds :
      (docs : List ℕ → CachedDocSlot) (s : Enclave)
      → H docs s
      → Ends false (λ (u, s'). H docs s') (persist_random_cached_slot sgx s)
  persist_random_cached_slot-Holds docs s h = elim (Bool-cases (length s.ctx.doc_ck == 0)) [
    | inl e ↦ unfold persist_random_cached_slot in rw (e, Ends) h
    | inr e ↦
        Ends-mono false _ _ (persist_random_cached_slot sgx s)
          (persist_picked docs s (length s.ctx.doc_ck - 1) h (ground (arith, e))) (λ (u, s') k. k.0)
  ]

  -- Each round of the loop takes a slot out, so as many rounds as there are slots end it.
  spill_rounds-Holds :
      (docs : List ℕ → CachedDocSlot) (fuel : ℕ) (s : Enclave)
      → H docs s
      → length s.ctx.doc_ck ≤ fuel
      → Ends false (λ (u, s'). H docs s') (spill_rounds sgx fuel s)
  unfolding spill_rounds
  spill_rounds-Holds docs zero s h k =
      let e : ltb s.ctx.doc_ck_max (length s.ctx.doc_ck) ≡ false = ground (arith, k) in
      rw (e, Ends) h
  spill_rounds-Holds docs (suc fuel) s h k =
      elim (Bool-cases (ltb s.ctx.doc_ck_max (length s.ctx.doc_ck))) [
        | inl e ↦
            rw (e, Ends)
              (Ends-bind false _ _ (persist_random_cached_slot sgx s)
                (λ (u, s'). spill_rounds sgx fuel s')
                (persist_picked docs s (length s.ctx.doc_ck - 1) h (ground (arith, e)))
                (λ (u, s') (hs, less). spill_rounds-Holds docs fuel s' hs (omega (arith, less, k))))
        | inr e ↦ rw (e, Ends) h
      ]

  pub spill_doc_ck_if_needed-Holds :
      (docs : List ℕ → CachedDocSlot) (s : Enclave)
      → H docs s
      → Ends false (λ (u, s'). H docs s') (spill_doc_ck_if_needed sgx s)
  unfolding spill_doc_ck_if_needed
  spill_doc_ck_if_needed-Holds docs s h =
      spill_rounds-Holds docs (length s.ctx.doc_ck) s h (omega arith)
