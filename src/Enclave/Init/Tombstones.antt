-- ===== src/Enclave/Init/Tombstones.antt =====
-- CryptoEnclave.cpp: provision_all_doc_slot_tombstones.
use veil_db.Base.{
  ℕ, zero, suc, ◌+◌, ◌-◌, ◌≤◌, ◌<◌, ◌≡◌, refl, ap, sym, ◌∙◌, subst, List, [], ◌∷◌, some, false,
  Bool-cases, inl, inr, ok, Ends, Ends-bind, Ends-mono, arith, same_text, same_text_iff, leb,
  leb→le, min, max, ◌⊎◌,
}
use veil_db.Base.Assoc.{Assoc, find, assign, find-assign}
use veil_db.Base.Decimal.{to_string}
use veil_db.Enclave.Bitset.{total_file_no}
use veil_db.Enclave.Bundle.{pack_doc_tombstone_v2}
use veil_db.Enclave.Sgx.{Sgx}
use veil_db.Enclave.Context.{CachedDocSlot, Enclave}
use veil_db.Enclave.Docs.{doc_label, pack_slot, trim_trailing_null, encrypt_doc_plaintext}
use veil_db.Enclave.Docs.Sealing.{Fits, Opens, seal-Opens}
use veil_db.Enclave.Docs.Slots.{IsSlotId, Holds}
use veil_db.Enclave.Init.{
  slot_entries, provision_rounds, provision_all_doc_slot_tombstones, reset_slots,
}
use veil_db.Host.Storage.{store_all, store_docs}

abbrev pub empty_slot : CachedDocSlot
empty_slot = record { index_csv = []; body = [] }

pub empty_slot-Fits : Fits empty_slot
unfolding trim_trailing_null
empty_slot-Fits = record { room = omega arith; index_trimmed = refl; body_trimmed = refl }

not_le : (a b : ℕ) → leb a b ≡ false → b < a
not_le a b e = ground (arith, e)

nothing_found :
    (id : List ℕ) (slot : CachedDocSlot) (m : Assoc CachedDocSlot)
    → m ≡ []
    → find id m ≡ some slot
    → ⊥
unfolding find
nothing_found id slot [] e f = cc
nothing_found id slot (x ∷ m) e f = cc

module _ (sgx : Sgx) (key : List ℕ)
    (apart : (a b : List ℕ)
      → IsSlotId a
      → IsSlotId b
      → doc_label sgx key a ≡ doc_label sgx key b
      → a ≡ b) where
  -- The slots below `id` have a tombstone on the host.
  abbrev Below : ℕ → Assoc (List ℕ) → Type 0
  Below id m =
      (j : ℕ)
      → 0 < j
      → j < id
      → (cipher : List ℕ) × (find (doc_label sgx key (to_string j)) m ≡ some cipher)
        × Opens sgx key cipher empty_slot

  add-Below :
      (id : ℕ) (cipher : List ℕ) (m : Assoc (List ℕ))
      → Below id m
      → 0 < id
      → id ≤ total_file_no
      → Opens sgx key cipher empty_slot
      → Below (suc id) (assign (doc_label sgx key (to_string id)) cipher m)
  add-Below id cipher m below h k o j hj kj =
      let here : List ℕ = doc_label sgx key (to_string id) in
      let there : List ℕ = doc_label sgx key (to_string j) in
      elim (Bool-cases (same_text here there)) [
        | inl e ↦ (cipher, find-assign here there cipher m ∙ rw e refl, o)
        | inr e ↦
            let other : j < id = elim (below_or_same j id kj) [
              | inl less ↦ less
              | inr same ↦ absurd (
                  ground (
                    arith,
                    e,
                    (same_text_iff here there).1
                        (ap (λ n. doc_label sgx key (to_string n)) (sym same)),
                  ))
            ] in
            let (c, found, o') = below j hj other in
            (c, find-assign here there cipher m ∙ rw e found, o')
      ]
    where
      below_or_same : (j id : ℕ) → j < suc id → (j < id) ⊎ (j ≡ id)
      below_or_same j id h = ground (arith, h)

  entries-step :
      (P : List (List ℕ × List ℕ) → Type 0) (id n : ℕ) (packed cipher : List ℕ)
      → pack_slot sgx empty_slot 0 key (to_string id) ≡ ok packed
      → encrypt_doc_plaintext sgx key packed ≡ ok cipher
      → Ends false
          (λ rest. P ((doc_label sgx key (to_string id), cipher) ∷ rest))
          (slot_entries sgx key (id + 1) n)
      → Ends false P (slot_entries sgx key id (suc n))
  unfolding slot_entries pack_slot
  entries-step P id n packed cipher p c h =
      let tomb : pack_doc_tombstone_v2 sgx 0 key (to_string id) ≡ ok packed = p in
      rw (tomb, c, Ends)
        (Ends-bind false _ P (slot_entries sgx key (id + 1) n)
          (λ rest. ok ((doc_label sgx key (to_string id), cipher) ∷ rest)) h (λ rest k. k))

  slot_entries-Below :
      (n id stop : ℕ) (m : Assoc (List ℕ))
      → Below id m
      → 0 < id
      → id + n ≡ stop
      → stop ≤ suc total_file_no
      → Ends false (λ entries. Below stop (store_all entries m)) (slot_entries sgx key id n)
  unfolding slot_entries store_all
  slot_entries-Below zero id stop m below h e k = λ j hj kj. below j hj (omega (arith, e, kj))
  slot_entries-Below (suc n) id stop m below h e k =
      let (packed, cipher, p, c, o) =
        seal-Opens sgx empty_slot 0 key (to_string id) empty_slot-Fits (omega arith) in
      let m' : Assoc (List ℕ) = assign (doc_label sgx key (to_string id)) cipher m in
      let below' : Below (suc id) m' = add-Below id cipher m below h (omega (arith, e, k)) o in
      entries-step (λ entries. Below stop (store_all entries m)) id n packed cipher p c
        (slot_entries-Below n (id + 1) stop m' (λ j hj kj. below' j hj (omega (arith, kj)))
          (omega (arith, h)) (omega (arith, e)) k)

  -- What the loop leaves of the enclave.
  abbrev Tombs : Enclave → Unit {0} × Enclave → Type 0
  Tombs s (u, s') =
      (s' ≡ record s { edb = record s.edb { docs = s'.edb.docs } })
      × Below (suc total_file_no) s'.edb.docs

  provision_rounds-Tombs :
      (fuel batch_size start : ℕ) (s : Enclave)
      → s.ctx.key ≡ key
      → 0 < batch_size
      → 0 < start
      → suc total_file_no ≤ start + fuel
      → Below (min start (suc total_file_no)) s.edb.docs
      → Ends false (Tombs s) (provision_rounds sgx fuel batch_size start s)
  unfolding provision_rounds store_docs
  provision_rounds-Tombs zero batch_size start s e hb hs enough below =
      let over : leb start total_file_no ≡ false = ground (arith, enough) in
      rw (over, Ends) (refl, λ j hj kj. below j hj (omega (arith, enough, kj)))
  provision_rounds-Tombs (suc fuel) batch_size start s e hb hs enough below =
      elim (Bool-cases (leb start total_file_no)) [
        | inr f ↦
            rw (f, Ends)
              (refl, λ j hj kj. below j hj (omega (arith, kj, not_le start total_file_no f)))
        | inl f ↦
            let less = leb→le start total_file_no f in
            let n : ℕ = min batch_size (total_file_no - start + 1) in
            rw (f, Ends)
              (Ends-bind false _ (Tombs s) (slot_entries sgx s.ctx.key start n)
                (λ entries.
                  provision_rounds sgx fuel batch_size (start + batch_size)
                    (record s { edb = store_docs entries s.edb }))
                (subst
                  (λ k.
                    Ends false (λ entries. Below (start + n) (store_all entries s.edb.docs))
                      (slot_entries sgx k start n))
                  (sym e)
                  (slot_entries-Below n start (start + n) s.edb.docs
                    (λ j hj kj. below j hj (omega (arith, less, kj))) hs refl
                    (omega (arith, less))))
                (λ entries filled.
                  provision_rounds-Tombs fuel batch_size (start + batch_size)
                    (record s { edb = store_docs entries s.edb }) e hb (omega (arith, hs))
                    (omega (arith, enough, hb)) (λ j hj kj. filled j hj (omega (arith, kj, less)))))
      ]

  -- Every slot stands for an empty document after the slots have been provisioned, whatever the
  -- host held before. It ends, and touches nothing but the documents, their versions and the set
  -- of the documents.
  pub provision-Holds :
      (Aside : Enclave → Type 0)
      (aside-kept : (s : Enclave) (doc_ck : Assoc CachedDocSlot) (versions : ℕ → ℕ)
          (docs : Assoc (List ℕ)) (random : ℕ → ℕ)
        → Aside s
        → Aside (record s {
          ctx = record s.ctx { doc_ck = doc_ck; doc_slot_version = versions };
          edb = record s.edb { docs = docs };
          random = random;
        }))
      (s : Enclave)
      → s.ctx.key ≡ key
      → s.ctx.doc_ck ≡ []
      → Aside (record s { ctx = reset_slots s.ctx })
      → Ends false
          (λ (u, s').
            Holds sgx key apart Aside aside-kept (λ id. empty_slot) s'
            × (s'.ctx ≡ reset_slots s.ctx))
          (provision_all_doc_slot_tombstones sgx s)
  unfolding provision_all_doc_slot_tombstones reset_slots
  provision-Holds Aside aside-kept s e none_cached aside =
      let s₁ : Enclave = record s { ctx = reset_slots s.ctx } in
      Ends-mono false (Tombs s₁) _
        (provision_rounds sgx total_file_no (max 1 s.ctx.retrieval_batch_size) 1 s₁)
        (provision_rounds-Tombs total_file_no (max 1 s.ctx.retrieval_batch_size) 1 s₁ e
          (omega arith) (omega arith) (omega arith) (λ j hj kj. absurd (omega (arith, hj, kj))))
        (λ (u, s') (same, below). (
          subst (Holds sgx key apart Aside aside-kept (λ id. empty_slot)) (sym same) (record {
            keyed = e;
            known = λ id slot f. absurd (nothing_found id slot s.ctx.doc_ck none_cached f);
            cached = λ id slot f. absurd (nothing_found id slot s.ctx.doc_ck none_cached f);
            stored = λ id (n, same_id, h, k) f.
                let (c, found, o) = below n h (omega (arith, k)) in
                (c, ap (λ t. find (doc_label sgx key t) s'.edb.docs) same_id ∙ found, o);
            fitting = λ id is. empty_slot-Fits;
            aside = aside-kept s₁ s₁.ctx.doc_ck s₁.ctx.doc_slot_version s'.edb.docs s₁.random aside;
          }),
          ap (λ (t : Enclave). t.ctx) same,
        ))
