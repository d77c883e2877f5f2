-- ===== src/Tests/Lifecycle.antt =====
-- A context that is stored and loaded again, and one that comes back from the cache.
use veil_db.Base.{
  ℕ, ◌+◌, ◌≤◌, ◌≡◌, refl, ap, sym, subst, List, [], ◌++◌, length, drop, replicate, some, none, true,
  false, Ends, arith, same_text, zero, suc, ◌∙◌, length-replicate, Option, length-append_bytes,
}
use veil_db.Base.Assoc.{find, assign, keys}
use veil_db.Enclave.Bitset.{no_bits, total_file_no, bitmap_bytes}
use veil_db.Enclave.Context.{ClientContext, zero_key, make_fresh_context}
use veil_db.Enclave.Keywords.{spill_word, spill_words, next_version}
use veil_db.Enclave.Init.{reset_slots}
use veil_db.Enclave.Init.Labels.{IsKeyword, IsDummy}
use veil_db.Enclave.Request.Documents.{Stands}
use veil_db.Enclave.Snapshot.{serialize_context_metadata, write_kvs}
use veil_db.Enclave.Snapshot.RoundTrip.{FitsSnapshot, length-serialize_context_metadata}
use veil_db.Wire.Bytes.{append_u32}
use veil_db.Enclave.Lifecycle.{Sealer, ContextManager, enclave_of, snapshot_room, find_client}
use veil_db.Enclave.Lifecycle.Schedule.{there_and_back, ecall_schedule_context-back}
use veil_db.Enclave.Lifecycle.Reload.{flushed}
use veil_db.Enclave.Lifecycle.Restart.{restarted, restarted-Stands}
use veil_db.Tests.Small.{toy, toy-apart, word_ab, word_cd, some_postings, some_state}
use veil_db.Tests.Docs.{toy-doc_apart, empty_docs, stocked, stocked-Standing}

drop-pad : (n : ℕ) (xs : List ℕ) → drop n (replicate n 0 ++ xs) ≡ xs
drop-pad zero xs = refl
drop-pad (suc n) xs = drop-pad n xs

text_of : Option (List ℕ) → List ℕ
text_of none = []
text_of (some xs) = xs

-- A header before the plain text.
toy_sealer : Sealer
unfolding text_of
toy_sealer = record {
  seal = λ plain. some (replicate 560 0 ++ plain);
  unseal = λ sealed. some (drop 560 sealed);
  header = 560;
  header-some = omega arith;
  length-seal = λ plain sealed e.
      ap length (sym (ap text_of e))
      ∙ (length-append_bytes (replicate 560 0) plain
          ∙ ap (λ n. n + length plain) (length-replicate {A = ℕ} 560 0));
  unseal-seal = λ plain sealed e.
      ap (λ s. some (drop 560 s)) (sym (ap text_of e)) ∙ ap some (drop-pad 560 plain);
}

abbrev manager : ContextManager
manager = record {
  ctx = stocked.ctx;
  current_edb_id = 1;
  inactive_cache = [];
  edbs = λ i. stocked.edb;
  snapshots = λ i. [];
  random = stocked.random;
}

abbrev kept_context : ClientContext
kept_context = flushed toy (reset_slots some_state.ctx)

differ : same_text word_cd word_ab ≡ false
unfolding same_text
differ = refl

kept-FitsSnapshot : FitsSnapshot kept_context
unfolding make_fresh_context keys reset_slots spill_words spill_word assign find same_text
    total_file_no next_version
kept-FitsSnapshot = record {
  client_id = omega arith;
  key = refl;
  enc_key = omega arith;
  ck_max = omega arith;
  doc_ck_max = omega arith;
  dummy_count = omega arith;
  dummy_size = omega arith;
  endof_doc_id = omega arith;
  count = omega arith;
  distinct = ((differ, tt), (tt, tt));
  entries =
      ((omega arith, omega arith, omega arith), ((omega arith, omega arith, omega arith), tt));
  all_docs = λ k e. refl;
  dummy_replenish_counter = omega arith;
  retrieval_limit = omega arith;
  retrieval_threshold = omega arith;
  retrieval_batch_size = omega arith;
  versions = λ k. ground arith;
  outside = λ k e. ground arith;
}

kept_kvs : length (write_kvs kept_context.kvs) ≡ 20
unfolding make_fresh_context keys reset_slots spill_words spill_word assign find same_text
    next_version write_kvs append_u32
kept_kvs = refl

kept_room : 560 + length (serialize_context_metadata kept_context) ≤ snapshot_room
unfolding make_fresh_context keys reset_slots spill_words spill_word assign find same_text
    total_file_no next_version write_kvs bitmap_bytes
kept_room = omega (arith, length-serialize_context_metadata kept_context, kept_kvs)

restarted-Stands_example :
    Ends false
      (λ (loaded, m').
        (loaded ≡ true)
        × (m'.current_edb_id ≡ 1)
        × Stands toy zero_key IsKeyword IsDummy toy-apart toy-doc_apart some_postings no_bits
            empty_docs
            (enclave_of 1 m'))
      (restarted toy toy_sealer 1 (make_fresh_context 2) 2 manager)
unfolding enclave_of toy_sealer
restarted-Stands_example =
    restarted-Stands toy zero_key IsKeyword IsDummy toy-apart toy-doc_apart some_postings no_bits
      empty_docs toy_sealer 1 manager (make_fresh_context 2) 2
      (subst (λ c. FitsSnapshot (flushed toy c)) (sym stocked-Standing.1) kept-FitsSnapshot)
      (subst (λ c. 560 + length (serialize_context_metadata (flushed toy c)) ≤ snapshot_room)
        (sym stocked-Standing.1) kept_room)
      stocked-Standing.0

abbrev two_clients : ContextManager
two_clients = record manager { ctx = make_fresh_context 1 }

-- The second call asks for database 9, and gets database 1.
ecall_schedule_context-back_example :
    Ends false
      (λ (r₁, r₂, m').
        (r₁ ≡ some tt)
        × (r₂ ≡ some tt)
        × (m'.ctx ≡ make_fresh_context 1)
        × (m'.current_edb_id ≡ 1)
        × (find_client 2 m'.inactive_cache
            ≡ some (record { ctx = make_fresh_context 2; edb_id = 5 }))
        × (find_client 1 m'.inactive_cache ≡ none))
      (there_and_back toy toy_sealer 2 5 9 false two_clients)
unfolding make_fresh_context find_client
ecall_schedule_context-back_example =
    ecall_schedule_context-back toy toy_sealer two_clients 2 5 9 false refl refl refl refl
      (omega arith)
