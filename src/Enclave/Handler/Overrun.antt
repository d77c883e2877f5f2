-- ===== src/Enclave/Handler/Overrun.antt =====
-- handle_update for a document whose index has no zero byte, which wordTokenize is given as it is.
use veil_db.Base.{
  ℕ, ◌++◌, ◌≤◌, ◌<◌, ◌≡◌, refl, sym, subst, List, [], ◌∷◌, some, Bool, true, false, ◌==◌, ◌||◌,
  Outcome, ok, threw, fault, stuck, bind, Ends, All,
}
use veil_db.Base.Int.{ℤ, pos}
use veil_db.Protocol.{UpdateRequest, op_delete, op_replace}
use veil_db.Enclave.Bitset.{Bitset, total_file_no}
use veil_db.Enclave.Sgx.{Sgx}
use veil_db.Enclave.Context.{CachedDocSlot, Enclave, Run}
use veil_db.Enclave.Keywords.Index.{Apart}
use veil_db.Enclave.Update.{dummy_word, flush, tokens_from, word_tokenize, update_keywords}
use veil_db.Enclave.Docs.{doc_label, is_empty, run_slot_update}
use veil_db.Enclave.Docs.Sealing.{Fits}
use veil_db.Enclave.Docs.Slots.{IsSlotId, replaced}
use veil_db.Enclave.Init.Tombstones.{empty_slot-Fits}
use veil_db.Enclave.Handler.{
  id_text, new_slot, cleared_slot, index_of, replenish, forget_old, delete_document, finish_put,
  put_document, handle_update,
}
use veil_db.Enclave.Handler.Ready.{Ready, replenish-Ready}
use veil_db.Enclave.Handler.Documents.{slot-Ready}

-- No zero byte in a text.
abbrev pub Unterminated : List ℕ → Type 0
Unterminated = All (λ c. c == 0 ≡ false)

step-fault :
    (zero_byte comma : Bool) (word : List ℕ) (cut rest : Outcome (List (List ℕ)))
    → zero_byte ≡ false
    → cut ≡ fault
    → rest ≡ fault
    → (elim zero_byte as (λ _. Outcome (List (List ℕ))) [
      | true ↦ ok (flush word [])
      | false ↦ elim comma [ true ↦ bind cut (λ ws. ok (flush word ws)) | false ↦ rest ]
    ])
      ≡ fault
step-fault true comma word cut rest e h k = cc
step-fault false true word cut rest e h k = rw h refl
step-fault false false word cut rest e h k = k

tokens_from_overrun :
    (word content : List ℕ) → Unterminated content → tokens_from word content ≡ fault
unfolding tokens_from
tokens_from_overrun word [] h = refl
tokens_from_overrun word (c ∷ cs) h =
    step-fault (c == 0) (c == b',') word (tokens_from [] cs) (tokens_from (word ++ c ∷ []) cs) h.0
      (tokens_from_overrun [] cs h.1) (tokens_from_overrun (word ++ c ∷ []) cs h.1)

fault-bind :
    {A B : Type 0} (P : A → Type 0) (m : Outcome A) (f : A → Outcome B)
    → Ends false P m
    → ((a : A) → P a → f a ≡ fault)
    → bind m f ≡ fault
fault-bind P (ok a) f h k = k a h
fault-bind P (threw e) f h k = cc
fault-bind P fault f h k = refl
fault-bind P stuck f h k = elim h [ ]

module _ (sgx : Sgx) (fuel : ℕ) where
  forget_old_overrun :
      (id : ℤ) (old : List ℕ) (s : Enclave)
      → is_empty old ≡ false
      → Unterminated old
      → forget_old sgx fuel id old s ≡ fault
  unfolding forget_old update_keywords word_tokenize
  forget_old_overrun id [] s e h = cc
  forget_old_overrun id (c ∷ cs) s e h = rw (tokens_from_overrun [] (c ∷ cs) h) refl

  finish_put_overrun :
      (req : UpdateRequest) (old : List ℕ) (s : Enclave)
      → is_empty old ≡ false
      → Unterminated old
      → finish_put sgx fuel req true old s ≡ fault
  unfolding finish_put
  finish_put_overrun req [] s e h = cc
  finish_put_overrun req (c ∷ cs) s e h = rw (forget_old_overrun req.doc_id (c ∷ cs) s e h) refl

module _ (sgx : Sgx) (key : List ℕ) (IsClear IsBlank : List ℕ → Type 0)
    (apart : Apart sgx key IsClear IsBlank)
    (doc_apart : (a b : List ℕ)
      → IsSlotId a
      → IsSlotId b
      → doc_label sgx key a ≡ doc_label sgx key b
      → a ≡ b)
    (clear_dummy : (d : ℕ) → IsClear (dummy_word d))
    (blank_dummy : (d : ℕ) → IsBlank (dummy_word d)) (fuel : ℕ) where
  abbrev State : (List ℕ → Bitset) → Bitset → (List ℕ → CachedDocSlot) → Enclave → Type 0
  State = Ready sgx key IsClear IsBlank apart doc_apart clear_dummy blank_dummy

  abbrev Valid : ℕ → Type 0
  Valid n = (0 < n) × (n ≤ total_file_no)

  module _ (p : List ℕ → Bitset) (all : Bitset) (docs : List ℕ → CachedDocSlot) (s : Enclave)
      (n : ℕ) (range : Valid n) (some_index : is_empty (docs (id_text (pos n))).index_csv ≡ false)
      (open_index : Unterminated (docs (id_text (pos n))).index_csv) where
    delete_document_overrun : State p all docs s → delete_document sgx fuel (pos n) s ≡ fault
    unfolding delete_document index_of
    delete_document_overrun h =
        fault-bind
          (λ (o, s').
            (o ≡ some (docs (id_text (pos n))))
            × State p all (replaced (id_text (pos n)) cleared_slot docs) s')
          (run_slot_update sgx (id_text (pos n)) (λ slot. cleared_slot) s) _
          (slot-Ready sgx key IsClear IsBlank apart doc_apart clear_dummy blank_dummy fuel p all
            docs s n cleared_slot range empty_slot-Fits h)
          (λ (o, s₁) (same, h₁).
            rw
              (
                same,
                forget_old_overrun sgx fuel (pos n) (docs (id_text (pos n))).index_csv s₁ some_index
                    open_index,
              )
              refl)

    put_document_overrun :
        (req : UpdateRequest)
        → req.doc_id ≡ pos n
        → req.op == op_replace ≡ true
        → Fits (new_slot req)
        → State p all docs s
        → put_document sgx fuel req s ≡ fault
    unfolding put_document index_of
    put_document_overrun req same_id replace fit h =
        fault-bind (λ (u, s₁). State p all docs s₁) (replenish sgx fuel s) _
          (replenish-Ready sgx key IsClear IsBlank apart doc_apart clear_dummy blank_dummy fuel p
            all docs s h)
          (λ (u, s₁) h₁.
            fault-bind
              (λ (o, s').
                (o ≡ some (docs (id_text (pos n))))
                × State p all (replaced (id_text (pos n)) (new_slot req) docs) s')
              (run_slot_update sgx (id_text req.doc_id) (λ slot. new_slot req) s₁) _
              (subst
                (λ i.
                  Ends false
                    (λ (o, s').
                      (o ≡ some (docs (id_text (pos n))))
                      × State p all (replaced (id_text (pos n)) (new_slot req) docs) s')
                    (run_slot_update sgx (id_text i) (λ slot. new_slot req) s₁))
                (sym same_id)
                (slot-Ready sgx key IsClear IsBlank apart doc_apart clear_dummy blank_dummy fuel p
                  all docs s₁ n (new_slot req) range fit h₁))
              (λ (o, s₂) (same, h₂).
                rw (same, replace)
                  (finish_put_overrun sgx fuel req (docs (id_text (pos n))).index_csv s₂ some_index
                    open_index)))

    -- On a state that stands for posting lists and documents, with no bitmap cached and none of the
    -- placeholders to come known, where no two labels meet: a request whose texts fit a slot, for the id
    -- of a slot with an index that is not empty and has no zero byte. If it is a DELETE or a
    -- REPLACE, handle_update reads beyond an array, the copy that wordTokenize makes of the index.
    pub handle_update_overrun :
        (req : UpdateRequest)
        → req.doc_id ≡ pos n
        → (req.op == op_delete) || (req.op == op_replace) ≡ true
        → Fits (new_slot req)
        → State p all docs s
        → handle_update sgx fuel req s ≡ fault
    unfolding handle_update
    handle_update_overrun req same_id op fit h = by_op (req.op == op_delete) op
      where
        by_op :
            (delete : Bool)
            → delete || (req.op == op_replace) ≡ true
            → (elim delete as (λ _. Run (Unit {0})) [
              | true ↦ delete_document sgx fuel req.doc_id
              | false ↦ put_document sgx fuel req
            ])
                s
              ≡ fault
        by_op true op' =
            subst (λ i. delete_document sgx fuel i s ≡ fault) (sym same_id)
              (delete_document_overrun h)
        by_op false op' = put_document_overrun req same_id op' fit h
