-- ===== src/Enclave/Handler.antt =====
-- CryptoEnclave.cpp: handle_update, and ecall_handle_request over the two handlers.
pub mod Ready
pub mod Documents
pub mod Update
pub mod Overrun
use veil_db.Base.{
  ℕ, zero, suc, ◌+◌, ◌-◌, ◌%◌, List, [], ◌∷◌, length, Option, none, some, Bool, true, false, not,
  ltb, leb, ◌==◌, if◌then◌else◌,
}
use veil_db.Base.Int.{ℤ, pos, negsuc}
use veil_db.Base.Decimal.{to_string}
use veil_db.Protocol.{
  UpdateRequest, EncDbRequest, RequestBody, select_req, update_req, update_split, op_delete,
  op_replace,
}
use veil_db.Enclave.Bitset.{Bitset, set_bit, total_file_no}
use veil_db.Enclave.Sgx.{Sgx}
use veil_db.Enclave.Context.{CachedDocSlot, ClientContext, Run, ◌>>=◌, ◌>>◌, pure, get_ctx, set_ctx}
use veil_db.Enclave.Update.{update_keywords}
use veil_db.Enclave.Docs.{is_empty, trim_trailing_null, slot_place, run_slot_update}
use veil_db.Enclave.Init.{append_dummy_keywords}
use veil_db.Enclave.Request.{SelectResult, select_documents}

-- `std::to_string(req.doc_id)`
unfoldable pub id_text : ℤ → List ℕ
id_text (pos n) = to_string n
id_text (negsuc n) = b'-' ∷ to_string (suc n)

-- The id as UpdateKeywords has it, where 0 stands for all numbers that are not positive.
unfoldable pub id_number : ℤ → ℕ
id_number (pos n) = n
id_number (negsuc n) = 0

-- The index and the body of a request, as it sends them.
unfoldable pub sent_index : UpdateRequest → List ℕ
sent_index req = if req.flags == update_split then req.index_content else req.doc_content

-- What the slot gets, `index_str` and `body_str`.
unfoldable pub new_slot : UpdateRequest → CachedDocSlot
unfolding sent_index trim_trailing_null
new_slot req = record {
  index_csv =
      if req.flags == update_split
      then trim_trailing_null (sent_index req)
      else trim_trailing_null req.doc_content;
  body = trim_trailing_null req.doc_content;
}

abbrev pub cleared_slot : CachedDocSlot
cleared_slot = record { index_csv = []; body = [] }

-- The index of a slot that was changed; the texts are empty where there was none.
unfoldable pub index_of : Option CachedDocSlot → List ℕ
index_of none = []
index_of (some slot) = slot.index_csv

-- `all_docs[id_int - 1] = 0`, for an id in range.
unfoldable pub clear_document : Option ℕ → ClientContext → ClientContext
clear_document none c = c
clear_document (some i) c = record c { all_docs = set_bit c.all_docs i false }

-- `all_docs[id_int - 1] = 1`, and the end of the ids.
unfoldable pub mark_document : Option ℕ → ClientContext → ClientContext
mark_document none c = c
mark_document (some i) c = record c {
  all_docs = set_bit c.all_docs i true;
  endof_doc_id = if leb c.endof_doc_id (suc i) then suc (suc i) else c.endof_doc_id;
}

module _ (sgx : Sgx)
    -- the fuel of the waits for a placeholder
    (fuel : ℕ) where
  -- `dummy_replenish_counter++`, and a placeholder for every twentieth update.
  unfoldable pub replenish : Run (Unit {0})
  unfolding append_dummy_keywords
  replenish = do
    c ← get_ctx
    set_ctx (record c { dummy_replenish_counter = c.dummy_replenish_counter + 1 })
    elim ((c.dummy_replenish_counter + 1) % 20 == 0) [
      | true ↦ append_dummy_keywords sgx 1
      | false ↦ pure tt
    ]

  -- UpdateKeywords with DEL on the old index, if there is one.
  unfoldable pub forget_old : ℤ → List ℕ → Run (Unit {0})
  unfolding update_keywords id_number
  forget_old id old = elim (is_empty old) [
    | true ↦ pure tt
    | false ↦ update_keywords sgx fuel (id_number id) false old
  ]

  -- UpdateKeywords with ADD on the index that was sent, if it is not empty.
  unfoldable pub learn_new : ℤ → List ℕ → Run (Unit {0})
  unfolding update_keywords id_number
  learn_new id index = elim (is_empty index) [
    | true ↦ pure tt
    | false ↦ update_keywords sgx fuel (id_number id) true index
  ]

  unfoldable pub delete_document : ℤ → Run (Unit {0})
  unfolding run_slot_update forget_old index_of clear_document replenish id_text slot_place
  delete_document id = do
    old ← run_slot_update sgx (id_text id) (λ slot. cleared_slot)
    forget_old id (index_of old)
    c ← get_ctx
    set_ctx (clear_document (slot_place id) c)
    replenish

  -- The end of handle_update for a document that is there.
  unfoldable pub index_document : UpdateRequest → Run (Unit {0})
  unfolding learn_new sent_index mark_document slot_place
  index_document req = do
    learn_new req.doc_id (sent_index req)
    c ← get_ctx
    set_ctx (mark_document (slot_place req.doc_id) c)

  -- What follows the change of the slot, by whether the request is a REPLACE, which returns early
  -- where the slot had no index.
  unfoldable pub finish_put : UpdateRequest → Bool → List ℕ → Run (Unit {0})
  unfolding forget_old index_document
  finish_put req false old = index_document req
  finish_put req true old = elim (is_empty old) [
    | true ↦ pure tt
    | false ↦ do forget_old req.doc_id old; index_document req
  ]

  unfoldable pub put_document : UpdateRequest → Run (Unit {0})
  unfolding run_slot_update new_slot index_of finish_put replenish id_text
  put_document req = do
    replenish
    old ← run_slot_update sgx (id_text req.doc_id) (λ slot. new_slot req)
    finish_put req (req.op == op_replace) (index_of old)

  unfoldable pub handle_update : UpdateRequest → Run (Unit {0})
  unfolding delete_document put_document
  handle_update req = elim (req.op == op_delete) [
    | true ↦ delete_document req.doc_id
    | false ↦ put_document req
  ]

  -- ecall_handle_request; `none` where nothing is written to `out`.
  unfoldable pub handle_request : EncDbRequest → Run (Option SelectResult)
  unfolding handle_update select_documents
  handle_request req = elim req.body [
    | select_req r ↦ do
      res ← select_documents sgx r.select_type r.terms r.bool_expr
      pure (some res)
    | update_req r ↦ do handle_update r; pure none
    | _ ↦ pure none
  ]
