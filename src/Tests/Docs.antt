-- ===== src/Tests/Docs.antt =====
-- Document slots, loaded and changed, beside the small index.
use veil_db.Base.{
  ℕ, ◌≤◌, ◌≡◌, refl, ap, List, [], ◌∷◌, length, drop, map, some, true, false, Outcome, ok, threw,
  fault, stuck, Ends, All, arith, max, inr, same_text,
}
use veil_db.Base.Assoc.{Assoc, find}
use veil_db.Base.Decimal.{to_string}
use veil_db.Query.Encode.{make_term, code}
use veil_db.Enclave.Bitset.{no_bits, total_file_no}
use veil_db.Enclave.Context.{CachedDocSlot, ClientContext, Enclave, zero_key, make_fresh_context}
use veil_db.Enclave.Meaning.{meaning}
use veil_db.Enclave.Select.{answer, doc_ids}
use veil_db.Enclave.Keywords.Index.{Apart, Indexes}
use veil_db.Enclave.Update.{dummy_word}
use veil_db.Enclave.Docs.{doc_label, trim_trailing_null, run_slot_update}
use veil_db.Enclave.Docs.Sealing.{Fits}
use veil_db.Enclave.Docs.Slots.{IsSlotId, replaced}
use veil_db.Enclave.Docs.Aside.{parts}
use veil_db.Enclave.Docs.Change.{run_slot_update-Holds}
use veil_db.Enclave.Retrieve.{doc_access_query, has_id, build_doc_access_plan, retrieve_docs}
use veil_db.Enclave.Retrieve.Plan.{build_doc_access_plan-Ends}
use veil_db.Enclave.Retrieve.Padding.{IsPlan}
use veil_db.Enclave.Retrieve.Bodies.{row, retrieve_docs-Holds}
use veil_db.Enclave.Init.{
  append_dummy_keywords, provision_all_doc_slot_tombstones, reset_slots, update_init,
}
use veil_db.Enclave.Init.Labels.{IsKeyword, IsDummy, snoc-injective, bitmap_label-Apart}
use veil_db.Enclave.Init.Placeholders.{IsFresh, append_dummy_keywords-Indexes}
use veil_db.Enclave.Init.Tombstones.{empty_slot, provision-Holds}
use veil_db.Enclave.Init.Empty.{no_postings, new_client, reset-Indexes, update_init-Stands}
use veil_db.Enclave.Request.{select_documents}
use veil_db.Enclave.Request.Answers.{result_of}
use veil_db.Enclave.Request.Documents.{Indexes-kept, Stands, select_documents-parsed}
use veil_db.Host.Storage.{empty_edb}
use veil_db.Tests.Small.{
  toy, toy-free, toy-apart, word_ab, word_cd, some_postings, some_state, some_state-Indexes,
}
use veil_db.Tests.Client.{expr_tokens, a_tree, at_end, parsed}

bitmap_label-Apart_example : Apart toy zero_key IsKeyword IsDummy
bitmap_label-Apart_example = bitmap_label-Apart toy zero_key toy-free

pub toy-doc_apart :
    (a b : List ℕ)
    → IsSlotId a
    → IsSlotId b
    → doc_label toy zero_key a ≡ doc_label toy zero_key b
    → a ≡ b
unfolding doc_label to_string
toy-doc_apart a b ia ib e = snoc-injective a b b'0' b'0' (ap (drop 16) e)

pub toy-clear : (d : ℕ) → IsKeyword (dummy_word d)
toy-clear d = inr (d, refl)

abbrev Index : Enclave → Type 0
Index = Indexes toy zero_key IsKeyword IsDummy toy-apart some_postings no_bits

abbrev pub empty_docs : List ℕ → CachedDocSlot
empty_docs id = empty_slot

abbrev pub Standing : (List ℕ → CachedDocSlot) → Enclave → Type 0
Standing = Stands toy zero_key IsKeyword IsDummy toy-apart toy-doc_apart some_postings no_bits

abbrev kept :
    (s : Enclave) (doc_ck : Assoc CachedDocSlot) (versions : ℕ → ℕ) (docs : Assoc (List ℕ))
    (random : ℕ → ℕ)
    → Index s
    → Index (record s {
      ctx = record s.ctx { doc_ck = doc_ck; doc_slot_version = versions };
      edb = record s.edb { docs = docs };
      random = random;
    })
kept = Indexes-kept toy zero_key IsKeyword IsDummy toy-apart some_postings no_bits

-- The state after the slots have been provisioned.
pub stocked_run : Outcome (Unit {0} × Enclave)
stocked_run = provision_all_doc_slot_tombstones toy some_state

unfoldable pub state_of : Outcome (Unit {0} × Enclave) → Enclave
state_of (ok (u, s)) = s
state_of (threw e) = some_state
state_of fault = some_state
state_of stuck = some_state

abbrev pub stocked : Enclave
stocked = state_of stocked_run

pub at_end-of :
    (P : Enclave → Type 0) (m : Outcome (Unit {0} × Enclave))
    → Ends false (λ (u, s). P s) m
    → P (state_of m)
unfolding state_of
at_end-of P (ok (u, s)) h = h
at_end-of P (threw e) h = cc
at_end-of P fault h = elim h [ ]
at_end-of P stuck h = elim h [ ]

no_slots : some_state.ctx.doc_ck ≡ []
unfolding make_fresh_context
no_slots = refl

provisioned :
    Ends false
      (λ (u, s'). Standing empty_docs s' × (s'.ctx ≡ reset_slots some_state.ctx))
      (provision_all_doc_slot_tombstones toy some_state)
provisioned =
    provision-Holds toy zero_key toy-doc_apart Index kept some_state some_state-Indexes.keyed
      no_slots
      (reset-Indexes toy zero_key IsKeyword IsDummy toy-apart some_postings no_bits some_state
        some_state-Indexes)

pub stocked-Standing : Standing empty_docs stocked × (stocked.ctx ≡ reset_slots some_state.ctx)
unfolding stocked_run make_fresh_context
stocked-Standing =
    at_end-of (λ s'. Standing empty_docs s' × (s'.ctx ≡ reset_slots some_state.ctx))
      (provision_all_doc_slot_tombstones toy some_state) provisioned

stocked_limit : stocked.ctx.retrieval_limit ≡ 100
unfolding make_fresh_context reset_slots
stocked_limit = ap (λ (c : ClientContext). c.retrieval_limit) stocked-Standing.1

abbrev pub id_seven : List ℕ
id_seven = to_string 7

seven-IsSlotId : IsSlotId id_seven
unfolding total_file_no
seven-IsSlotId = (7, refl, omega arith, omega arith)

abbrev pub a_document : CachedDocSlot
a_document = record { index_csv = word_ab; body = word_cd }

pub a_document-Fits : Fits a_document
unfolding trim_trailing_null
a_document-Fits = record { room = omega arith; index_trimmed = refl; body_trimmed = refl }

run_slot_update-Holds_example :
    Ends false
      (λ (old, s'). (old ≡ some empty_slot) × Standing (replaced id_seven a_document empty_docs) s')
      (run_slot_update toy id_seven (λ slot. a_document) stocked)
run_slot_update-Holds_example =
    run_slot_update-Holds toy zero_key toy-doc_apart Index kept empty_docs id_seven
      (λ slot. a_document) stocked seven-IsSlotId a_document-Fits stocked-Standing.0

build_doc_access_plan-Ends_example :
    Ends false
      (λ (plan, s').
        IsPlan plan.access_ids
        × All (λ id. has_id plan.access_ids id ≡ true) (id_seven ∷ [])
        × (length plan.access_ids ≤ max 1 stocked.ctx.retrieval_threshold)
        × (plan.parse_ids ≡ id_seven ∷ [])
        × Index s')
      (build_doc_access_plan doc_access_query (id_seven ∷ []) stocked)
build_doc_access_plan-Ends_example =
    build_doc_access_plan-Ends Index
      (λ s r h. kept s s.ctx.doc_ck s.ctx.doc_slot_version s.edb.docs r h) (id_seven ∷ []) stocked
      (seven-IsSlotId, tt) stocked-Standing.0.aside

retrieve_docs-Holds_example :
    Ends false
      (λ (rows, s'). (rows ≡ map (row empty_docs) (id_seven ∷ [])) × Standing empty_docs s')
      (retrieve_docs toy (id_seven ∷ []) stocked)
retrieve_docs-Holds_example =
    retrieve_docs-Holds toy zero_key toy-doc_apart Index kept empty_docs (id_seven ∷ []) stocked
      stocked-Standing.0 (seven-IsSlotId, tt) (omega arith)

select_documents-parsed_example :
    let terms : List (List ℕ) = map make_term (word_ab ∷ word_cd ∷ []) in
    let found : List ℕ = doc_ids (meaning some_postings no_bits terms a_tree) in
    Ends true
      (λ (res, s').
        (res ≡ result_of empty_docs (answer 0 stocked.ctx.retrieval_limit found))
        × Standing empty_docs s')
      (select_documents toy 0 terms (code a_tree) stocked)
select_documents-parsed_example =
    select_documents-parsed toy zero_key IsKeyword IsDummy toy-apart toy-doc_apart some_postings
      no_bits empty_docs 0 expr_tokens a_tree at_end stocked parsed (omega arith) (omega arith)
      (omega (arith, stocked_limit)) stocked-Standing.0

update_init-Stands_example :
    Ends false
      (λ (u, s').
        Stands toy zero_key IsKeyword IsDummy toy-apart toy-doc_apart no_postings no_bits empty_docs
          s')
      (update_init toy (new_client 3 zero_key empty_edb (λ i. i)))
update_init-Stands_example =
    update_init-Stands toy zero_key IsKeyword IsDummy toy-apart toy-doc_apart toy-clear 3 empty_edb
      (λ i. i)

some_state-IsFresh :
    IsFresh toy zero_key IsKeyword IsDummy toy-apart toy-clear some_postings no_bits some_state
unfolding make_fresh_context find same_text
some_state-IsFresh d less = refl

placeholders_appended :
    Ends false
      (λ (u, s').
        Index s'
        × IsFresh toy zero_key IsKeyword IsDummy toy-apart toy-clear some_postings no_bits s'
        × (parts s' ≡ parts some_state)
        × (s'.ctx.ck ≡ some_state.ctx.ck))
      (append_dummy_keywords toy 250 some_state)
placeholders_appended =
    append_dummy_keywords-Indexes toy zero_key IsKeyword IsDummy toy-apart toy-clear some_postings
      no_bits 250 some_state some_state-Indexes some_state-IsFresh
