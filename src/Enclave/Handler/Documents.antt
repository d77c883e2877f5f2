-- ===== src/Enclave/Handler/Documents.antt =====
-- The parts of handle_update, DELETE among them, on an empty cache of bitmaps.
use veil_db.Base.{
  ℕ, zero, suc, ◌-◌, ◌≤◌, ◌<◌, ◌≡◌, refl, sym, subst, List, [], ◌∷◌, some, true, false, ok, bind,
  Ends, Ends-bind, arith, lt→ltb,
}
use veil_db.Base.Int.{pos}
use veil_db.Protocol.{UpdateRequest}
use veil_db.Enclave.Bitset.{Bitset, no_bits, set_bit, total_file_no}
use veil_db.Enclave.Sgx.{Sgx}
use veil_db.Enclave.Context.{CachedDocSlot, Enclave}
use veil_db.Enclave.Keywords.Index.{Apart}
use veil_db.Enclave.Update.{dummy_word, word_tokenize}
use veil_db.Enclave.Update.Empty.{overwritten}
use veil_db.Enclave.Docs.{doc_label, slot_place, run_slot_update}
use veil_db.Enclave.Docs.Change.{run_slot_update-Holds}
use veil_db.Enclave.Docs.Sealing.{Fits}
use veil_db.Enclave.Docs.Slots.{IsSlotId, replaced}
use veil_db.Enclave.Init.Tombstones.{empty_slot-Fits}
use veil_db.Enclave.Handler.{
  id_text, id_number, sent_index, cleared_slot, index_of, clear_document, mark_document, replenish,
  forget_old, learn_new, delete_document, index_document,
}
use veil_db.Enclave.Handler.Ready.{
  Aside, aside-kept, Ready, replace_aside, marked-Indexes, replenish-Ready, keywords-Ready,
  words_of, Words,
}

slot_place-pos : (n : ℕ) → 0 < n → n ≤ total_file_no → slot_place (pos n) ≡ some (n - 1)
unfolding slot_place
slot_place-pos zero h k = absurd (omega (arith, h))
slot_place-pos (suc i) h k =
    let same : suc i - 1 ≡ i = omega arith in
    rw (same, lt→ltb i total_file_no (omega (arith, k))) refl

-- The posting lists after UpdateKeywords with DEL on the old index, and with ADD on the new one.
abbrev pub forgotten : ℕ → List ℕ → (List ℕ → Bitset) → List ℕ → Bitset
forgotten n [] postings = postings
forgotten n (c ∷ old) postings =
    overwritten (words_of (word_tokenize (c ∷ old))) (set_bit no_bits (n - 1) false) postings

abbrev pub learned : ℕ → List ℕ → (List ℕ → Bitset) → List ℕ → Bitset
learned n [] postings = postings
learned n (c ∷ index) postings =
    overwritten (words_of (word_tokenize (c ∷ index))) (set_bit no_bits (n - 1) true) postings

module _ (sgx : Sgx) (key : List ℕ) (IsClear IsBlank : List ℕ → Type 0)
    (apart : Apart sgx key IsClear IsBlank)
    (doc_apart : (a b : List ℕ)
      → IsSlotId a
      → IsSlotId b
      → doc_label sgx key a ≡ doc_label sgx key b
      → a ≡ b)
    (clear_dummy : (d : ℕ) → IsClear (dummy_word d))
    (blank_dummy : (d : ℕ) → IsBlank (dummy_word d)) (fuel : ℕ) where
  abbrev State : (List ℕ → Bitset) → Bitset → (List ℕ → CachedDocSlot) → Enclave → Type 0
  State = Ready sgx key IsClear IsBlank apart doc_apart clear_dummy blank_dummy

  abbrev Valid : ℕ → Type 0
  Valid n = (0 < n) × (n ≤ total_file_no)

  abbrev Usable : List ℕ → Type 0
  Usable = Words sgx key IsClear IsBlank apart doc_apart clear_dummy blank_dummy fuel

  pub forget_old-Ready :
      (p : List ℕ → Bitset) (all : Bitset) (docs : List ℕ → CachedDocSlot) (s : Enclave) (n : ℕ)
      (old : List ℕ)
      → Valid n
      → Usable old
      → State p all docs s
      → Ends false
          (λ (u, s'). State (forgotten n old p) all docs s')
          (forget_old sgx fuel (pos n) old s)
  unfolding forget_old id_number
  forget_old-Ready p all docs s n [] range words h = h
  forget_old-Ready p all docs s n (c ∷ cs) range words h =
      keywords-Ready sgx key IsClear IsBlank apart doc_apart clear_dummy blank_dummy fuel p all docs
        s n false (c ∷ cs) range words h

  learn_new-Ready :
      (p : List ℕ → Bitset) (all : Bitset) (docs : List ℕ → CachedDocSlot) (s : Enclave) (n : ℕ)
      (index : List ℕ)
      → Valid n
      → Usable index
      → State p all docs s
      → Ends false
          (λ (u, s'). State (learned n index p) all docs s')
          (learn_new sgx fuel (pos n) index s)
  unfolding learn_new id_number
  learn_new-Ready p all docs s n [] range words h = h
  learn_new-Ready p all docs s n (c ∷ cs) range words h =
      keywords-Ready sgx key IsClear IsBlank apart doc_apart clear_dummy blank_dummy fuel p all docs
        s n true (c ∷ cs) range words h

  -- The set of the documents changes in one place, and the end of the ids may move.
  marked-Ready :
      (p : List ℕ → Bitset) (all all' : Bitset) (end : ℕ) (docs : List ℕ → CachedDocSlot)
      (s : Enclave)
      → State p all docs s
      → State p all' docs (record s { ctx = record s.ctx { all_docs = all'; endof_doc_id = end } })
  marked-Ready p all all' end docs s h =
      let (index, empty, fresh) = h.aside in
      replace_aside sgx key IsClear IsBlank apart doc_apart clear_dummy blank_dummy p p all all'
        docs s _ h refl
        (
          marked-Indexes sgx key IsClear IsBlank apart doc_apart clear_dummy blank_dummy p all all'
              s end index,
          empty,
          fresh,
        )

  pub index_document-Ready :
      (p : List ℕ → Bitset) (all : Bitset) (docs : List ℕ → CachedDocSlot) (s : Enclave) (n : ℕ)
      (req : UpdateRequest)
      → req.doc_id ≡ pos n
      → Valid n
      → Usable (sent_index req)
      → State p all docs s
      → Ends false
          (λ (u, s'). State (learned n (sent_index req) p) (set_bit all (n - 1) true) docs s')
          (index_document sgx fuel req s)
  unfolding index_document mark_document
  index_document-Ready p all docs s n req id range words h =
      let place = slot_place-pos n range.0 range.1 in
      let p' : List ℕ → Bitset = learned n (sent_index req) p in
      rw (id, place)
        (Ends-bind false (λ (u, s'). State p' all docs s')
          (λ (u, s'). State p' (set_bit all (n - 1) true) docs s')
          (learn_new sgx fuel (pos n) (sent_index req) s)
          (λ (u, s'). ok (tt, record s' { ctx = mark_document (some (n - 1)) s'.ctx }))
          (learn_new-Ready p all docs s n (sent_index req) range words h)
          (λ (u, s') h'.
            subst
              (λ a.
                State p' (set_bit a (n - 1) true) docs
                  (record s' { ctx = mark_document (some (n - 1)) s'.ctx }))
              h'.aside.0.occupied (marked-Ready p' all _ _ docs s' h')))

  IsSlotId-text : (n : ℕ) → Valid n → IsSlotId (id_text (pos n))
  unfolding id_text
  IsSlotId-text n (h, k) = (n, refl, h, k)

  pub slot-Ready :
      (p : List ℕ → Bitset) (all : Bitset) (docs : List ℕ → CachedDocSlot) (s : Enclave) (n : ℕ)
      (slot : CachedDocSlot)
      → Valid n
      → Fits slot
      → State p all docs s
      → Ends false
          (λ (old, s').
            (old ≡ some (docs (id_text (pos n))))
            × State p all (replaced (id_text (pos n)) slot docs) s')
          (run_slot_update sgx (id_text (pos n)) (λ old. slot) s)
  slot-Ready p all docs s n slot range fit h =
      run_slot_update-Holds sgx key doc_apart
        (Aside sgx key IsClear IsBlank apart doc_apart clear_dummy blank_dummy p all)
        (aside-kept sgx key IsClear IsBlank apart doc_apart clear_dummy blank_dummy p all) docs
        (id_text (pos n)) (λ old. slot) s (IsSlotId-text n range) fit h

  cleared_slot-Fits : Fits cleared_slot
  cleared_slot-Fits = empty_slot-Fits

  pub delete_document-Ready :
      (p : List ℕ → Bitset) (all : Bitset) (docs : List ℕ → CachedDocSlot) (s : Enclave) (n : ℕ)
      → let id : List ℕ = id_text (pos n) in
        let old : List ℕ = (docs id).index_csv in
        Valid n
        → Usable old
        → State p all docs s
        → Ends false
            (λ (u, s').
              State
                (forgotten n old p)
                (set_bit all (n - 1) false)
                (replaced id cleared_slot docs)
                s')
            (delete_document sgx fuel (pos n) s)
  unfolding delete_document index_of clear_document
  delete_document-Ready p all docs s n range words h =
      let id : List ℕ = id_text (pos n) in
      let old : List ℕ = (docs id).index_csv in
      let docs' : List ℕ → CachedDocSlot = replaced id cleared_slot docs in
      let p' : List ℕ → Bitset = forgotten n old p in
      let place = slot_place-pos n range.0 range.1 in
      rw (place) (
        Ends-bind false _ (λ (u, s'). State p' (set_bit all (n - 1) false) docs' s')
          (run_slot_update sgx id (λ slot. cleared_slot) s)
          (λ (o, s₁). bind (forget_old sgx fuel (pos n) (index_of o) s₁) (λ (u, s₂).
            replenish sgx fuel (record s₂ { ctx = clear_document (some (n - 1)) s₂.ctx })))
          (slot-Ready p all docs s n cleared_slot range cleared_slot-Fits h)
          (λ (o, s₁) (same, h₁).
            Ends-bind false (λ (u, s₂). State p' all docs' s₂)
              (λ (u, s'). State p' (set_bit all (n - 1) false) docs' s')
              (forget_old sgx fuel (pos n) (index_of o) s₁)
              (λ (u, s₂).
                replenish sgx fuel (record s₂ { ctx = clear_document (some (n - 1)) s₂.ctx }))
              (subst
                (λ t.
                  Ends false (λ (u, s₂). State p' all docs' s₂)
                    (forget_old sgx fuel (pos n) (index_of t) s₁))
                (sym same) (forget_old-Ready p all docs' s₁ n old range words h₁))
              (λ (u, s₂) h₂.
                let s₃ : Enclave = record s₂ { ctx = clear_document (some (n - 1)) s₂.ctx } in
                replenish-Ready sgx key IsClear IsBlank apart doc_apart clear_dummy blank_dummy fuel
                  p' (set_bit all (n - 1) false) docs' s₃
                  (subst (λ a. State p' (set_bit a (n - 1) false) docs' s₃) h₂.aside.0.occupied
                    (marked-Ready p' all _ _ docs' s₂ h₂)))))
