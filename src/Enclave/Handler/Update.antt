-- ===== src/Enclave/Handler/Update.antt =====
-- handle_update on an empty cache of bitmaps, as it is after ecall_update_init.
use veil_db.Base.{
  ◌||◌, ℕ, ◌-◌, ◌≤◌, ◌<◌, ◌≡◌, sym, subst, List, [], ◌∷◌, some, Bool, true, false, ◌==◌, bind, Ends,
  Ends-bind,
}
use veil_db.Base.Int.{pos}
use veil_db.Protocol.{UpdateRequest, op_delete, op_replace}
use veil_db.Enclave.Bitset.{Bitset, set_bit, total_file_no}
use veil_db.Enclave.Sgx.{Sgx}
use veil_db.Enclave.Context.{CachedDocSlot, Enclave, Run}
use veil_db.Enclave.Keywords.Index.{Apart}
use veil_db.Enclave.Update.{dummy_word}
use veil_db.Enclave.Docs.{doc_label, run_slot_update}
use veil_db.Enclave.Docs.Sealing.{Fits}
use veil_db.Enclave.Docs.Slots.{IsSlotId, replaced}
use veil_db.Enclave.Handler.{
  id_text, sent_index, new_slot, cleared_slot, index_of, replenish, forget_old, delete_document,
  index_document, finish_put, put_document, handle_update,
}
use veil_db.Enclave.Handler.Ready.{Ready, replenish-Ready, Words}
use veil_db.Enclave.Handler.Documents.{
  forgotten, learned, forget_old-Ready, index_document-Ready, slot-Ready, delete_document-Ready,
}

module _ (sgx : Sgx) (key : List ℕ) (IsClear IsBlank : List ℕ → Type 0)
    (apart : Apart sgx key IsClear IsBlank)
    (doc_apart : (a b : List ℕ)
      → IsSlotId a
      → IsSlotId b
      → doc_label sgx key a ≡ doc_label sgx key b
      → a ≡ b)
    (clear_dummy : (d : ℕ) → IsClear (dummy_word d))
    (blank_dummy : (d : ℕ) → IsBlank (dummy_word d)) (fuel : ℕ) where
  abbrev State : (List ℕ → Bitset) → Bitset → (List ℕ → CachedDocSlot) → Enclave → Type 0
  State = Ready sgx key IsClear IsBlank apart doc_apart clear_dummy blank_dummy

  abbrev Valid : ℕ → Type 0
  Valid n = (0 < n) × (n ≤ total_file_no)

  abbrev Usable : List ℕ → Type 0
  Usable = Words sgx key IsClear IsBlank apart doc_apart clear_dummy blank_dummy fuel

  -- The old index is only tokenized by some of the requests.
  abbrev Old : Bool → List ℕ → Type 0
  Old false old = Unit
  Old true old = Usable old

  -- What a request leaves of the posting lists and of the set of the documents, where `replace`
  -- says whether it is a REPLACE, and `old` is the index that the slot had.
  abbrev pub put_postings : Bool → List ℕ → ℕ → List ℕ → (List ℕ → Bitset) → List ℕ → Bitset
  put_postings false old n index p = learned n index p
  put_postings true [] n index p = p
  put_postings true (c ∷ old) n index p = learned n index (forgotten n (c ∷ old) p)

  abbrev pub put_all : Bool → List ℕ → ℕ → Bitset → Bitset
  put_all false old n all = set_bit all (n - 1) true
  put_all true [] n all = all
  put_all true (c ∷ old) n all = set_bit all (n - 1) true

  finish_put-Ready :
      (replace : Bool) (old : List ℕ) (p : List ℕ → Bitset) (all : Bitset)
      (docs : List ℕ → CachedDocSlot) (s : Enclave) (n : ℕ) (req : UpdateRequest)
      → req.doc_id ≡ pos n
      → Valid n
      → Old replace old
      → Usable (sent_index req)
      → State p all docs s
      → Ends false
          (λ (u, s').
            State
              (put_postings replace old n (sent_index req) p)
              (put_all replace old n all)
              docs
              s')
          (finish_put sgx fuel req replace old s)
  unfolding finish_put
  finish_put-Ready false old p all docs s n req id range words new_words h =
      index_document-Ready sgx key IsClear IsBlank apart doc_apart clear_dummy blank_dummy fuel p
        all docs s n req id range new_words h
  finish_put-Ready true [] p all docs s n req id range words new_words h = h
  finish_put-Ready true (c ∷ old) p all docs s n req id range words new_words h =
      let p' : List ℕ → Bitset = forgotten n (c ∷ old) p in
      Ends-bind false (λ (u, s'). State p' all docs s') _
        (forget_old sgx fuel req.doc_id (c ∷ old) s) (λ (u, s'). index_document sgx fuel req s')
        (subst
          (λ i. Ends false (λ (u, s'). State p' all docs s') (forget_old sgx fuel i (c ∷ old) s))
          (sym id)
          (forget_old-Ready sgx key IsClear IsBlank apart doc_apart clear_dummy blank_dummy fuel p
            all docs s n (c ∷ old) range words h))
        (λ (u, s') h'.
          index_document-Ready sgx key IsClear IsBlank apart doc_apart clear_dummy blank_dummy fuel
            p' all docs s' n req id range new_words h')

  put_document-Ready :
      (p : List ℕ → Bitset) (all : Bitset) (docs : List ℕ → CachedDocSlot) (s : Enclave) (n : ℕ)
      (req : UpdateRequest)
      → let id : List ℕ = id_text (pos n) in
        let old : List ℕ = (docs id).index_csv in
        req.doc_id ≡ pos n
        → Valid n
        → Fits (new_slot req)
        → Old (req.op == op_replace) old
        → Usable (sent_index req)
        → State p all docs s
        → Ends false
            (λ (u, s').
              State
                (put_postings (req.op == op_replace) old n (sent_index req) p)
                (put_all (req.op == op_replace) old n all)
                (replaced id (new_slot req) docs)
                s')
            (put_document sgx fuel req s)
  unfolding put_document index_of
  put_document-Ready p all docs s n req same_id range fit words new_words h =
      let id : List ℕ = id_text (pos n) in
      let old : List ℕ = (docs id).index_csv in
      let docs' : List ℕ → CachedDocSlot = replaced id (new_slot req) docs in
      let b : Bool = req.op == op_replace in
      let After : Unit {0} × Enclave → Type 0 =
        λ (u, s'). State (put_postings b old n (sent_index req) p) (put_all b old n all) docs' s' in
      Ends-bind false (λ (u, s₁). State p all docs s₁) After (replenish sgx fuel s)
        (λ (u, s₁).
          bind (run_slot_update sgx (id_text req.doc_id) (λ slot. new_slot req) s₁)
            (λ (o, s₂). finish_put sgx fuel req b (index_of o) s₂))
        (replenish-Ready sgx key IsClear IsBlank apart doc_apart clear_dummy blank_dummy fuel p all
          docs s h)
        (λ (u, s₁) h₁.
          Ends-bind false (λ (o, s₂). (o ≡ some (docs id)) × State p all docs' s₂) After
            (run_slot_update sgx (id_text req.doc_id) (λ slot. new_slot req) s₁)
            (λ (o, s₂). finish_put sgx fuel req b (index_of o) s₂)
            (subst
              (λ i.
                Ends false (λ (o, s₂). (o ≡ some (docs id)) × State p all docs' s₂)
                  (run_slot_update sgx (id_text i) (λ slot. new_slot req) s₁))
              (sym same_id)
              (slot-Ready sgx key IsClear IsBlank apart doc_apart clear_dummy blank_dummy fuel p all
                docs s₁ n (new_slot req) range fit h₁))
            (λ (o, s₂) (same, h₂).
              subst (λ t. Ends false After (finish_put sgx fuel req b (index_of t) s₂)) (sym same)
                (finish_put-Ready b old p all docs' s₂ n req same_id range words new_words h₂)))

  -- What handle_update leaves of the posting lists, of the set of the documents, and of the slot.
  abbrev pub postings_after :
      Bool → Bool → List ℕ → ℕ → List ℕ → (List ℕ → Bitset) → List ℕ → Bitset
  postings_after true replace old n index p = forgotten n old p
  postings_after false replace old n index p = put_postings replace old n index p

  abbrev pub all_after : Bool → Bool → List ℕ → ℕ → Bitset → Bitset
  all_after true replace old n all = set_bit all (n - 1) false
  all_after false replace old n all = put_all replace old n all

  abbrev pub slot_after : Bool → UpdateRequest → CachedDocSlot
  slot_after true req = cleared_slot
  slot_after false req = new_slot req

  -- On a state that stands for posting lists and documents, with no bitmap cached and none of the
  -- placeholders to come known, where no two labels meet: handle_update for the id of a slot and a
  -- document that fits it. The new index, if it is not empty, has a zero byte on which
  -- wordTokenize ends, and so has the old one in a DELETE or a REPLACE; none of the keywords that
  -- wordTokenize then gives is a placeholder. Then handle_update ends, without exception and within
  -- its arrays. The slot holds the new document or nothing. The posting list of every keyword of
  -- the old index, unless the request is an INSERT, is then empty, and that of every keyword of the
  -- new index, unless it is a DELETE, is this document alone, whatever the lists were before; a
  -- REPLACE of a slot without index changes the slot only. The other lists and slots stay as they
  -- are, and again no bitmap is cached.
  pub handle_update-Ready :
      (p : List ℕ → Bitset) (all : Bitset) (docs : List ℕ → CachedDocSlot) (s : Enclave) (n : ℕ)
      (req : UpdateRequest)
      → let id : List ℕ = id_text (pos n) in
        let old : List ℕ = (docs id).index_csv in
        let delete : Bool = req.op == op_delete in
        let replace : Bool = req.op == op_replace in
        req.doc_id ≡ pos n
        → Valid n
        → Fits (new_slot req)
        → Old (delete || replace) old
        → Usable (sent_index req)
        → State p all docs s
        → Ends false
            (λ (u, s').
              State
                (postings_after delete replace old n (sent_index req) p)
                (all_after delete replace old n all)
                (replaced id (slot_after delete req) docs)
                s')
            (handle_update sgx fuel req s)
  unfolding handle_update
  handle_update-Ready p all docs s n req same_id range fit words new_words h =
      by_op (req.op == op_delete) words
    where
      by_op :
          (delete : Bool)
          → Old (delete || (req.op == op_replace)) (docs (id_text (pos n))).index_csv
          → Ends false
              (λ (u, s').
                State
                  (postings_after delete
                    (req.op == op_replace)
                    (docs (id_text (pos n))).index_csv
                    n
                    (sent_index req)
                    p)
                  (all_after delete (req.op == op_replace) (docs (id_text (pos n))).index_csv n all)
                  (replaced (id_text (pos n)) (slot_after delete req) docs)
                  s')
              ((elim delete as (λ _. Run (Unit {0})) [
                | true ↦ delete_document sgx fuel req.doc_id
                | false ↦ put_document sgx fuel req
              ])
                s)
      by_op false old_words =
          put_document-Ready p all docs s n req same_id range fit old_words new_words h
      by_op true old_words =
          subst
            (λ i.
              Ends false
                (λ (u, s').
                  State (forgotten n (docs (id_text (pos n))).index_csv p)
                    (set_bit all (n - 1) false) (replaced (id_text (pos n)) cleared_slot docs) s')
                (delete_document sgx fuel i s))
            (sym same_id)
            (delete_document-Ready sgx key IsClear IsBlank apart doc_apart clear_dummy blank_dummy
              fuel p all docs s n range old_words h)
