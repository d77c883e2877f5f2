-- ===== src/Enclave/Init/Empty.antt =====
-- CryptoEnclave.cpp: ecall_update_init, on the fresh context of a client.
use veil_db.Base.{ℕ, ◌≡◌, refl, ◌∙◌, ap, List, [], false, Ends, Ends-bind, Ends-mono, arith}
use veil_db.Base.Assoc.{find, keys}
use veil_db.Enclave.Bitset.{Bitset, no_bits}
use veil_db.Enclave.Sgx.{Sgx}
use veil_db.Enclave.Context.{Enclave, make_fresh_context}
use veil_db.Enclave.Keywords.Index.{Apart, Indexes}
use veil_db.Enclave.Update.{dummy_word}
use veil_db.Enclave.Docs.{doc_label}
use veil_db.Enclave.Docs.Slots.{IsSlotId}
use veil_db.Enclave.Init.{
  reset_slots, append_dummy_keywords, provision_all_doc_slot_tombstones, update_init,
}
use veil_db.Enclave.Init.Placeholders.{IsFresh, append_dummy_keywords-Indexes}
use veil_db.Enclave.Init.Tombstones.{empty_slot, provision-Holds}
use veil_db.Enclave.Request.Documents.{Indexes-kept, Stands}
use veil_db.Enclave.Docs.Aside.{Parts}
use veil_db.Host.Storage.{EncDatabase}

abbrev pub no_postings : List ℕ → Bitset
no_postings w = no_bits

-- The state of a new client after ecall_generate_init_key, with anything on the host.
abbrev pub new_client : ℕ → List ℕ → EncDatabase → (ℕ → ℕ) → Enclave
new_client client_id key edb random = record {
  ctx = record (make_fresh_context client_id) { key = key };
  edb = edb;
  random = random;
}

-- The index has no part in what is reset but the set of the documents.
pub reset-Indexes :
    (sgx : Sgx) (key : List ℕ) (IsClear IsBlank : List ℕ → Type 0)
    (apart : Apart sgx key IsClear IsBlank) (postings : List ℕ → Bitset) (all : Bitset)
    (s : Enclave)
    → Indexes sgx key IsClear IsBlank apart postings all s
    → Indexes sgx key IsClear IsBlank apart postings no_bits (record s { ctx = reset_slots s.ctx })
unfolding reset_slots
reset-Indexes sgx key IsClear IsBlank apart postings all s h = record {
  occupied = refl;
  keyed = h.keyed;
  cached = h.cached;
  versioned = h.versioned;
  stored = h.stored;
  absent = h.absent;
  blank = h.blank;
  clear = h.clear;
  distinct = h.distinct;
  sized = h.sized;
}

module _ (sgx : Sgx) (key : List ℕ) (IsClear IsBlank : List ℕ → Type 0)
    (apart : Apart sgx key IsClear IsBlank)
    (doc_apart : (a b : List ℕ)
      → IsSlotId a
      → IsSlotId b
      → doc_label sgx key a ≡ doc_label sgx key b
      → a ≡ b)
    (clear_dummy : (d : ℕ) → IsClear (dummy_word d)) where
  abbrev Index : Enclave → Type 0
  Index = Indexes sgx key IsClear IsBlank apart no_postings no_bits

  -- What ecall_update_init starts from: no placeholder is counted.
  abbrev uncounted : Enclave → Enclave
  uncounted s = record s { ctx = record s.ctx { dummy_size = 0; dummy_count = 0 } }

  uncounted-Indexes :
      (client_id : ℕ) (edb : EncDatabase) (random : ℕ → ℕ)
      → Index (uncounted (new_client client_id key edb random))
  unfolding make_fresh_context find keys
  uncounted-Indexes client_id edb random = record {
    occupied = refl;
    keyed = refl;
    cached = λ w bm f. absurd (ground (arith, f));
    versioned = λ w bm f. absurd (ground (arith, f));
    stored = λ w v f g. absurd (ground (arith, f));
    absent = λ w f. refl;
    blank = λ w b. refl;
    clear = λ w f. absurd (ground (arith, f));
    distinct = tt;
    sized = λ w k f. refl;
  }

  uncounted-IsFresh :
      (client_id : ℕ) (edb : EncDatabase) (random : ℕ → ℕ)
      → IsFresh sgx key IsClear IsBlank apart clear_dummy no_postings no_bits
          (uncounted (new_client client_id key edb random))
  unfolding make_fresh_context find
  uncounted-IsFresh client_id edb random d less = refl

  no_slots :
      (client_id : ℕ) (edb : EncDatabase) (random : ℕ → ℕ)
      → (new_client client_id key edb random).ctx.doc_ck ≡ []
  unfolding make_fresh_context
  no_slots client_id edb random = refl

  -- Where no two labels meet: ecall_update_init on the context of a new client ends, without
  -- exception and within its arrays, whatever the host holds, and the state then stands for no
  -- posting lists, no documents in use, and an empty index and body in every slot.
  pub update_init-Stands :
      (client_id : ℕ) (edb : EncDatabase) (random : ℕ → ℕ)
      → Ends false
          (λ (u, s').
            Stands sgx key IsClear IsBlank apart doc_apart no_postings no_bits
              (λ id. empty_slot)
              s')
          (update_init sgx (new_client client_id key edb random))
  unfolding update_init
  update_init-Stands client_id edb random =
      let s : Enclave = new_client client_id key edb random in
      Ends-bind false _ _ (append_dummy_keywords sgx s.ctx.dummy_size (uncounted s))
        (λ (u, s'). provision_all_doc_slot_tombstones sgx s')
        (append_dummy_keywords-Indexes sgx key IsClear IsBlank apart clear_dummy no_postings no_bits
          s.ctx.dummy_size (uncounted s) (uncounted-Indexes client_id edb random)
          (uncounted-IsFresh client_id edb random))
        (λ (u, s') (index, fresh, same, cache).
          Ends-mono false _ _ (provision_all_doc_slot_tombstones sgx s')
            (provision-Holds sgx key doc_apart Index
              (Indexes-kept sgx key IsClear IsBlank apart no_postings no_bits) s' index.keyed
              (ap (λ (t : Parts). t.1) same ∙ no_slots client_id edb random)
              (reset-Indexes sgx key IsClear IsBlank apart no_postings no_bits s' index))
            (λ (v, s'') k. k.0))
