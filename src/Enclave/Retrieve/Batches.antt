-- ===== src/Enclave/Retrieve/Batches.antt =====
-- materialize_access_ids, where the slots stand for a map from ids to them.
use veil_db.Base.{
  ℕ, zero, suc, ◌≤◌, ◌<◌, ◌≡◌, refl, ap, ◌∙◌, List, [], ◌∷◌, length, take, drop, none, some, false,
  Bool-cases, inl, inr, ok, Ends, Ends-bind, Ends-mono, arith, same_text, same_text_iff, All, max,
}
use veil_db.Base.Assoc.{Assoc, find, assign, find-assign, Distinct}
use veil_db.Enclave.Sgx.{Sgx}
use veil_db.Enclave.Context.{CachedDocSlot, Enclave}
use veil_db.Enclave.Keywords.Draws.{All-map}
use veil_db.Enclave.Docs.{doc_label, decrypt_cipher_into_slot}
use veil_db.Enclave.Docs.Slots.{IsSlotId, OpenAll, Holds, ocall_load_docs-OpenAll}
use veil_db.Enclave.Docs.Cache.{loaded-Holds}
use veil_db.Enclave.Retrieve.{
  has_id, uncached_ids, cache_opened, load_batch, load_batches, materialize_access_ids,
}
use veil_db.Enclave.Retrieve.Access.{
  Cached, Widens, All-split, All-join, Distinct-split, length-drop_suc, uncached_ids-All,
  uncached_ids-Distinct, uncached_ids-Cached,
}

Widens-trans :
    (docs : List ℕ → CachedDocSlot) (ids : List (List ℕ)) (id : List ℕ) (m m' : Assoc CachedDocSlot)
    → Widens docs ids (assign id (docs id) m) m'
    → Widens docs (id ∷ ids) m m'
unfolding has_id
Widens-trans docs ids id m m' (keeps, others) = (
  λ j e. keeps j (elim (Bool-cases (same_text id j)) [
    | inl f ↦
        find-assign id j (docs id) m ∙ rw f (ap (λ k. some (docs k)) ((same_text_iff id j).0 f))
    | inr f ↦ find-assign id j (docs id) m ∙ rw f e
  ]),
  λ j e. elim (Bool-cases (same_text id j)) [
    | inl f ↦ absurd (ground (arith, rw f at e))
    | inr f ↦ others j (rw f at e) ∙ find-assign id j (docs id) m ∙ rw f
  ],
)

module _ (sgx : Sgx) (key : List ℕ)
    (apart : (a b : List ℕ)
      → IsSlotId a
      → IsSlotId b
      → doc_label sgx key a ≡ doc_label sgx key b
      → a ≡ b)
    (Aside : Enclave → Type 0)
    (aside-kept : (s : Enclave) (doc_ck : Assoc CachedDocSlot) (versions : ℕ → ℕ)
        (docs : Assoc (List ℕ)) (random : ℕ → ℕ)
      → Aside s
      → Aside (record s {
        ctx = record s.ctx { doc_ck = doc_ck; doc_slot_version = versions };
        edb = record s.edb { docs = docs };
        random = random;
      }))
    (docs : List ℕ → CachedDocSlot) where
  abbrev H : Enclave → Type 0
  H = Holds sgx key apart Aside aside-kept docs

  -- The slots of the ids are cached; the size of a batch stays.
  abbrev pub Loaded : List (List ℕ) → Enclave → Unit {0} × Enclave → Type 0
  Loaded ids s (u, s') =
      H s' × Cached docs s'.ctx.doc_ck ids × Widens docs ids s.ctx.doc_ck s'.ctx.doc_ck

  cache-step :
      (P : Unit {0} × Enclave → Type 0) (s : Enclave) (id cipher : List ℕ)
      (ids ciphers : List (List ℕ)) (slot : CachedDocSlot) (v : ℕ)
      → decrypt_cipher_into_slot sgx s.ctx.key cipher ≡ ok (some (slot, v))
      → Ends false P (
          cache_opened sgx ids ciphers
            (record s { ctx = record s.ctx { doc_ck = assign id slot s.ctx.doc_ck } }))
      → Ends false P (cache_opened sgx (id ∷ ids) (cipher ∷ ciphers) s)
  unfolding cache_opened
  cache-step P s id cipher ids ciphers slot v e h = rw (e, Ends) h

  cache_opened-Holds :
      (ids ciphers : List (List ℕ)) (s : Enclave)
      → H s
      → All IsSlotId ids
      → OpenAll sgx key docs ids ciphers
      → Ends false (Loaded ids s) (cache_opened sgx ids ciphers s)
  cache_opened-Holds [] [] s h is o = unfold cache_opened in (h, tt, (λ j e. e, λ j e. refl))
  cache_opened-Holds [] (c ∷ cs) s h is o = elim o [ ]
  cache_opened-Holds (id ∷ ids) [] s h is o = elim o [ ]
  cache_opened-Holds (id ∷ ids) (c ∷ cs) s h is ((few, (v, d)), os) =
      let s' : Enclave = record s {
        ctx = record s.ctx { doc_ck = assign id (docs id) s.ctx.doc_ck };
      } in
      let h' : H s' =
        loaded-Holds sgx key apart Aside aside-kept docs s id s.ctx.doc_slot_version h is.0 in
      let here : find id s'.ctx.doc_ck ≡ some (docs id) =
        find-assign id id (docs id) s.ctx.doc_ck ∙ rw ((same_text_iff id id).1 refl) refl in
      cache-step (Loaded (id ∷ ids) s) s id c ids cs (docs id) v
        (ap (λ k. decrypt_cipher_into_slot sgx k c) h.keyed ∙ d)
        (Ends-mono false (Loaded ids s') _ (cache_opened sgx ids cs s')
          (cache_opened-Holds ids cs s' h' is.1 os)
          (λ (u, s'') (hs, all, widens). (
            hs,
            (widens.0 id here, all),
            Widens-trans docs ids id s.ctx.doc_ck s''.ctx.doc_ck widens,
          )))

  abbrev Missing : Enclave → List (List ℕ) → Type 0
  Missing s = All (λ id. IsSlotId id × (find id s.ctx.doc_ck ≡ none))

  load_batch-Holds :
      (ids : List (List ℕ)) (s : Enclave)
      → H s
      → Missing s ids
      → Ends false (Loaded ids s) (load_batch sgx ids s)
  load_batch-Holds ids s h missing =
      let (ciphers, e, os) = ocall_load_docs-OpenAll sgx key apart Aside aside-kept h ids missing in
      unfold load_batch in
      rw (e, Ends)
        (cache_opened-Holds ids ciphers s h (All-map _ IsSlotId ids (λ j k. k.0) missing) os)

  -- As many rounds as there are ids are enough, since no batch is empty.
  load_batches-Holds :
      (fuel n : ℕ) (ids : List (List ℕ)) (s : Enclave)
      → H s
      → length ids ≤ fuel
      → 0 < n
      → Distinct ids
      → Missing s ids
      → Ends false
          (λ (u, s').
            H s'
            × Cached docs s'.ctx.doc_ck ids
            × ((j : List ℕ)
                → find j s.ctx.doc_ck ≡ some (docs j)
                → find j s'.ctx.doc_ck ≡ some (docs j)))
          (load_batches sgx fuel n ids s)
  unfolding load_batches
  load_batches-Holds fuel n [] s h enough some_ids d missing = (h, tt, λ j e. e)
  load_batches-Holds zero n (x ∷ xs) s h enough some_ids d missing = absurd (omega (arith, enough))
  load_batches-Holds (suc fuel) n (x ∷ xs) s h enough some_ids d missing =
      let front : List (List ℕ) = take n (x ∷ xs) in
      let back : List (List ℕ) = drop n (x ∷ xs) in
      let (now, later) = All-split _ n (x ∷ xs) missing in
      let (d₁, d₂, fresh) = Distinct-split n (x ∷ xs) d in
      Ends-bind false (Loaded front s) _ (load_batch sgx front s)
        (λ (u, s'). load_batches sgx fuel n back s') (load_batch-Holds front s h now)
        (λ (u, s') (hs, all, widens).
          Ends-mono false _ _ (load_batches sgx fuel n back s')
            (load_batches-Holds fuel n back s' hs
              (omega (arith, length-drop_suc n x xs some_ids, enough)) some_ids d₂
              (still_missing back s s' front widens later fresh))
            (λ (v, s'') (hs', all', keeps). (
              hs',
              All-join _ n (x ∷ xs) (All-map _ _ front keeps all) all',
              λ j e. keeps j (widens.0 j e),
            )))
    where
      still_missing :
          (ids : List (List ℕ)) (s s' : Enclave) (front : List (List ℕ))
          → Widens docs front s.ctx.doc_ck s'.ctx.doc_ck
          → Missing s ids
          → All (λ j. has_id front j ≡ false) ids
          → Missing s' ids
      still_missing [] s s' front widens a b = tt
      still_missing (x ∷ xs) s s' front widens a b =
          ((a.0.0, widens.1 x b.0 ∙ a.0.1), still_missing xs s s' front widens a.1 b.1)

  -- Where the slots stand for a map: all the slots of an access are in the cache afterwards.
  pub materialize_access_ids-Holds :
      (ids : List (List ℕ)) (s : Enclave)
      → H s
      → All IsSlotId ids
      → Distinct ids
      → Ends false
          (λ (u, s'). H s' × Cached docs s'.ctx.doc_ck ids)
          (materialize_access_ids sgx ids s)
  unfolding materialize_access_ids
  materialize_access_ids-Holds ids s h is d =
      let missing : List (List ℕ) = uncached_ids ids s.ctx.doc_ck in
      Ends-mono false _ _
        (load_batches sgx (length missing) (max 1 s.ctx.retrieval_batch_size) missing s)
        (load_batches-Holds (length missing) (max 1 s.ctx.retrieval_batch_size) missing s h
          (omega arith) (omega arith) (uncached_ids-Distinct ids s.ctx.doc_ck d)
          (uncached_ids-All IsSlotId ids s.ctx.doc_ck is))
        (λ (u, s') (hs, all, keeps).
          (hs, uncached_ids-Cached docs ids s.ctx.doc_ck s'.ctx.doc_ck h.cached keeps all))
