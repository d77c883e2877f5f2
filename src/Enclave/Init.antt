-- ===== src/Enclave/Init.antt =====
-- CryptoEnclave.cpp: how a context and its database start: the key, the placeholders of the keyword
-- index, and a tombstone in every document slot.
pub mod Placeholders
pub mod Tombstones
pub mod Empty
pub mod Labels
use veil_db.Base.{
  ℕ, zero, suc, ◌+◌, ◌-◌, List, [], ◌∷◌, ◌++◌, Option, none, some, true, false, leb, ltb,
  if◌then◌else◌, Outcome, ok, stuck, bind, ◌>>=◌, min, max,
}
use veil_db.Base.Int.{ℤ, pos, negsuc}
use veil_db.Base.Assoc.{Assoc, find, assign}
use veil_db.Base.Decimal.{to_string}
use veil_db.Enclave.Bitset.{no_bits, total_file_no}
use veil_db.Enclave.Bundle.{pack_doc_tombstone_v2}
use veil_db.Enclave.Sgx.{Sgx}
use veil_db.Enclave.Context.{ClientContext, Enclave, Run, zero_key}
use veil_db.Enclave.Keywords.{bitmap_label, bitmap_key, encrypt_bitmap_cipher}
use veil_db.Enclave.Update.{dummy_word}
use veil_db.Enclave.Docs.{doc_label, encrypt_doc_plaintext}
use veil_db.Host.Storage.{store_bitmap, store_docs}

-- PER_ROUND_SIZE
abbrev pub per_round_size : ℕ
per_round_size = 100

-- `m.insert({k, v})` leaves an entry that is there.
unfoldable pub insert_new : List ℕ → ℕ → Assoc ℕ → Assoc ℕ
insert_new k v m = elim (find k m) [ some old ↦ m | none ↦ assign k v m ]

-- The context after one round of the inner loop of append_dummy_keywords.
unfoldable pub add_dummy : ClientContext → ClientContext
unfolding insert_new
add_dummy c = record c {
  kvs = insert_new (dummy_word c.dummy_size) 0 c.kvs;
  words_kvs = c.words_kvs ++ dummy_word c.dummy_size ∷ [];
  dummy_count = c.dummy_count + 1;
  dummy_size = c.dummy_size + 1;
}

unfoldable pub add_dummies : ℕ → ClientContext → ClientContext
unfolding add_dummy
add_dummies zero c = c
add_dummies (suc n) c = add_dummies n (add_dummy c)

-- ecall_generate_init_key: the 16 bytes of sgx_read_rand if it succeeds, and the result of the call.
unfoldable pub generate_init_key : Option (List ℕ) → ClientContext → Outcome (ℤ × ClientContext)
generate_init_key (some bytes) c = ok (pos 0, record c { key = bytes })
generate_init_key none c = ok (negsuc 0, record c { key = zero_key })

-- The context that provision_all_doc_slot_tombstones starts from.
unfoldable pub reset_slots : ClientContext → ClientContext
reset_slots c = record c {
  all_docs = no_bits;
  endof_doc_id = total_file_no + 1;
  doc_slot_version = λ slot. if ltb slot total_file_no then 0 else c.doc_slot_version slot;
}

module _ (sgx : Sgx) where
  -- The label and the cipher text of the same round.
  unfoldable pub dummy_entry : ClientContext → List ℕ × List ℕ
  dummy_entry c = (
    bitmap_label sgx c.key (dummy_word c.dummy_size) 0,
    encrypt_bitmap_cipher sgx no_bits (bitmap_key sgx c.key (dummy_word c.dummy_size) 0),
  )

  unfoldable pub dummy_entries : ℕ → ClientContext → List (List ℕ × List ℕ)
  unfolding dummy_entry add_dummy
  dummy_entries zero c = []
  dummy_entries (suc n) c = dummy_entry c ∷ dummy_entries n (add_dummy c)

  unfoldable pub append_batch : ℕ → Run (Unit {0})
  unfolding add_dummies dummy_entries
  append_batch n s =
      ok (
        tt,
        record s { ctx = add_dummies n s.ctx; edb = store_bitmap (dummy_entries n s.ctx) s.edb },
      )

  -- The outer loop, with fuel; each round appends one placeholder at least.
  unfoldable pub append_rounds : ℕ → ℕ → Run (Unit {0})
  unfolding append_batch
  append_rounds fuel zero s = ok (tt, s)
  append_rounds zero (suc count) s = stuck
  append_rounds (suc fuel) (suc count) s =
      bind (append_batch (min (suc count) per_round_size) s)
        (λ (u, s'). append_rounds fuel (suc count - min (suc count) per_round_size) s')

  unfoldable pub append_dummy_keywords : ℕ → Run (Unit {0})
  unfolding append_rounds
  append_dummy_keywords count = append_rounds count count

  -- The labels and the cipher texts of a batch of `n` slots from `id` on.
  unfoldable pub slot_entries : List ℕ → ℕ → ℕ → Outcome (List (List ℕ × List ℕ))
  slot_entries key id zero = ok []
  slot_entries key id (suc n) = do
    packed ← pack_doc_tombstone_v2 sgx 0 key (to_string id)
    cipher ← encrypt_doc_plaintext sgx key packed
    rest ← slot_entries key (id + 1) n
    ok ((doc_label sgx key (to_string id), cipher) ∷ rest)

  -- The loop over the batches, with fuel.
  unfoldable pub provision_rounds : ℕ → ℕ → ℕ → Run (Unit {0})
  unfolding slot_entries
  provision_rounds zero batch_size start s = if leb start total_file_no then stuck else ok (tt, s)
  provision_rounds (suc fuel) batch_size start s = elim (leb start total_file_no) [
    | false ↦ ok (tt, s)
    | true ↦
        bind (slot_entries s.ctx.key start (min batch_size (total_file_no - start + 1))) (λ entries.
          provision_rounds fuel batch_size (start + batch_size)
            (record s { edb = store_docs entries s.edb }))
  ]

  unfoldable pub provision_all_doc_slot_tombstones : Run (Unit {0})
  unfolding provision_rounds reset_slots
  provision_all_doc_slot_tombstones s =
      provision_rounds total_file_no (max 1 s.ctx.retrieval_batch_size) 1
        (record s { ctx = reset_slots s.ctx })

  unfoldable pub update_init : Run (Unit {0})
  unfolding append_dummy_keywords provision_all_doc_slot_tombstones
  update_init s =
      bind
        (append_dummy_keywords s.ctx.dummy_size
          (record s { ctx = record s.ctx { dummy_size = 0; dummy_count = 0 } }))
        (λ (u, s'). provision_all_doc_slot_tombstones s')
