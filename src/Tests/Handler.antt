-- ===== src/Tests/Handler.antt =====
-- handle_update, with "ab" on the host and no bitmap cached.
use veil_db.Base.{
  ℕ, ◌≤◌, ◌≡◌, refl, List, [], ◌∷◌, ◌++◌, Outcome, ok, threw, fault, stuck, Ends, Ends-mono, Option,
  some, none, true, false, arith, same_text,
}
use veil_db.Base.Assoc.{find}
use veil_db.Base.Int.{pos}
use veil_db.Protocol.{UpdateRequest, op_insert, op_delete, update_split}
use veil_db.Enclave.Bitset.{no_bits, set_bit, total_file_no}
use veil_db.Enclave.Context.{CachedDocSlot, Enclave, zero_key, make_fresh_context}
use veil_db.Enclave.Init.{provision_all_doc_slot_tombstones, reset_slots}
use veil_db.Enclave.Init.Labels.{IsKeyword, IsDummy}
use veil_db.Enclave.Init.Tombstones.{provision-Holds}
use veil_db.Enclave.Init.Empty.{reset-Indexes}
use veil_db.Enclave.Docs.{trim_trailing_null, run_slot_update}
use veil_db.Enclave.Docs.Sealing.{Fits}
use veil_db.Enclave.Docs.Slots.{replaced}
use veil_db.Enclave.Update.{dummy_word, word_tokenize, tokens_from, flush}
use veil_db.Enclave.Handler.{id_text, sent_index, new_slot, handle_update}
use veil_db.Enclave.Handler.Ready.{Aside, aside-kept, Ready, Words}
use veil_db.Enclave.Handler.Documents.{learned, slot-Ready}
use veil_db.Enclave.Handler.Update.{handle_update-Ready}
use veil_db.Enclave.Handler.Overrun.{handle_update_overrun}
use veil_db.Base.Decimal.{to_string}
use veil_db.Tests.Small.{
  toy, toy-apart, word_ab, word_cd, word_ab-IsKeyword, word_ab-no_dummy, host_postings, host_state,
  host_state-Indexes,
}
use veil_db.Tests.Docs.{
  toy-doc_apart, toy-clear, empty_docs, id_seven, state_of, at_end-of, a_document, a_document-Fits,
}

toy-blank : (d : ℕ) → IsDummy (dummy_word d)
toy-blank d = (d, refl)

abbrev Beside : Enclave → Type 0
Beside =
    Aside toy zero_key IsKeyword IsDummy toy-apart toy-doc_apart toy-clear toy-blank host_postings
      no_bits

abbrev State : Enclave → Type 0
State =
    Ready toy zero_key IsKeyword IsDummy toy-apart toy-doc_apart toy-clear toy-blank host_postings
      no_bits empty_docs

-- The state after the slots have been provisioned.
start_run : Outcome (Unit {0} × Enclave)
start_run = provision_all_doc_slot_tombstones toy host_state

abbrev start : Enclave
start = state_of start_run

host_Fresh : (d : ℕ) → host_state.ctx.dummy_size ≤ d → find (dummy_word d) host_state.ctx.kvs ≡ none
unfolding make_fresh_context find same_text
host_Fresh d h = refl

none_cached : host_state.ctx.ck ≡ []
none_cached = refl

no_slots : host_state.ctx.doc_ck ≡ []
unfolding make_fresh_context
no_slots = refl

host_Beside : Beside (record host_state { ctx = reset_slots host_state.ctx })
unfolding reset_slots
host_Beside = (
  reset-Indexes toy zero_key IsKeyword IsDummy toy-apart host_postings no_bits host_state
      host_state-Indexes,
  none_cached,
  host_Fresh,
)

start-Ready : State start
unfolding start_run
start-Ready = at_end-of State (provision_all_doc_slot_tombstones toy host_state) (
    Ends-mono false _ (λ (u, s'). State s') (provision_all_doc_slot_tombstones toy host_state)
      (provision-Holds toy zero_key toy-doc_apart Beside
        (aside-kept toy zero_key IsKeyword IsDummy toy-apart toy-doc_apart toy-clear toy-blank
          host_postings no_bits)
        host_state host_state-Indexes.keyed no_slots host_Beside)
      (λ (u, s') k. k.0))

abbrev Usable : List ℕ → Type 0
Usable = Words toy zero_key IsKeyword IsDummy toy-apart toy-doc_apart toy-clear toy-blank 0

-- The index "ab" with its zero byte.
abbrev index_ab : List ℕ
index_ab = word_ab ++ 0 ∷ []

-- INSERT of document 7, with the index "ab" and the body "cd".
abbrev request : UpdateRequest
request = record {
  op = op_insert;
  flags = update_split;
  doc_id = pos 7;
  doc_content = word_cd;
  index_content = index_ab;
}

fits : Fits (new_slot request)
unfolding new_slot sent_index trim_trailing_null
fits = a_document-Fits

new_words : Usable (sent_index request)
unfolding word_tokenize tokens_from flush sent_index
new_words = ((word_ab-IsKeyword, word_ab-no_dummy), tt)

total_room : 7 ≤ total_file_no
unfolding total_file_no
total_room = omega arith

-- The document 3 of "ab" is lost.
handle_update-Ready_example :
    Ends false
      (λ (u, s').
        Ready toy zero_key IsKeyword IsDummy toy-apart toy-doc_apart toy-clear toy-blank
          (learned 7 index_ab host_postings)
          (set_bit no_bits 6 true)
          (replaced id_seven (new_slot request) empty_docs)
          s')
      (handle_update toy 0 request start)
unfolding id_text sent_index
handle_update-Ready_example =
    handle_update-Ready toy zero_key IsKeyword IsDummy toy-apart toy-doc_apart toy-clear toy-blank 0
      host_postings no_bits empty_docs start 7 request refl (omega arith, total_room) fits tt
      new_words start-Ready

-- The slot 7 holds the document "cd" with the index "ab", whose zero byte is trimmed.
abbrev seven_docs : List ℕ → CachedDocSlot
seven_docs = replaced (id_text (pos 7)) a_document empty_docs

seven_run : Outcome (Option CachedDocSlot × Enclave)
seven_run = run_slot_update toy (id_text (pos 7)) (λ old. a_document) start

unfoldable state_after : Outcome (Option CachedDocSlot × Enclave) → Enclave
state_after (ok (o, s)) = s
state_after (threw e) = start
state_after fault = start
state_after stuck = start

after-of :
    (P : Enclave → Type 0) (m : Outcome (Option CachedDocSlot × Enclave))
    → Ends false (λ (o, s). (o ≡ some (empty_docs (id_text (pos 7)))) × P s) m
    → P (state_after m)
unfolding state_after
after-of P (ok (o, s)) h = h.1
after-of P (threw e) h = cc
after-of P fault h = elim h [ ]
after-of P stuck h = elim h [ ]

abbrev seven : Enclave
seven = state_after seven_run

seven-Ready :
    Ready toy zero_key IsKeyword IsDummy toy-apart toy-doc_apart toy-clear toy-blank host_postings
      no_bits seven_docs seven
unfolding seven_run
seven-Ready =
    after-of
      (Ready toy zero_key IsKeyword IsDummy toy-apart toy-doc_apart toy-clear toy-blank
        host_postings no_bits seven_docs)
      (run_slot_update toy (id_text (pos 7)) (λ old. a_document) start)
      (slot-Ready toy zero_key IsKeyword IsDummy toy-apart toy-doc_apart toy-clear toy-blank 0
        host_postings no_bits empty_docs start 7 a_document (omega arith, total_room)
        a_document-Fits start-Ready)

seven_index : (seven_docs (id_text (pos 7))).index_csv ≡ word_ab
unfolding id_text to_string same_text
seven_index = refl

-- DELETE of the document that is there.
abbrev delete_request : UpdateRequest
delete_request = record request { op = op_delete }

delete_request-Fits : Fits (new_slot delete_request)
unfolding new_slot sent_index trim_trailing_null
delete_request-Fits = a_document-Fits

handle_update_overrun_example : handle_update toy 0 delete_request seven ≡ fault
handle_update_overrun_example =
    handle_update_overrun toy zero_key IsKeyword IsDummy toy-apart toy-doc_apart toy-clear toy-blank
      0 host_postings no_bits seven_docs seven 7 (omega arith, total_room) (rw seven_index refl)
      (rw seven_index (refl, (refl, tt))) delete_request refl refl delete_request-Fits seven-Ready
