-- ===== src/Tests/Index.antt =====
-- Search and the rounds of UpdateKeywords over the small index.
use veil_db.Base.{◌≡◌, refl, [], ◌∷◌, ◌++◌, true, false, arith, Ends, inl}
use veil_db.Enclave.Bitset.{no_bits, set_bit}
use veil_db.Enclave.Bytes.{bitset_to_bytes, bytes_to_bitset, bytes_to_bitset-bitset_to_bytes}
use veil_db.Enclave.Context.{zero_key}
use veil_db.Enclave.Keywords.{bitmap_label, store_bitmap_batch, search_keyword}
use veil_db.Enclave.Init.Labels.{IsKeyword, IsDummy}
use veil_db.Enclave.Keywords.Index.{Indexes, store_bitmap_batch-Indexes}
use veil_db.Enclave.Keywords.Search.{search_keyword-Indexes, search_keyword-uncached}
use veil_db.Enclave.Keywords.Labels.{bitmap_label-collision}
use veil_db.Enclave.Update.{update_word}
use veil_db.Enclave.Update.Index.{
  replaced, update_word-Indexes, update_word-uncached, update_word-empty,
}
use veil_db.Tests.Small.{
  toy, toy-apart, word_ab, word_cd, some_postings, some_state, word_ab-IsKeyword, word_cd-IsKeyword,
  word_ab-no_dummy, word_cd-no_dummy, some_state-Indexes, host_state, host_postings,
  host_state-Indexes, ab_known, ab_uncached, cd_cached, room, seven,
}

store_bitmap_batch-Indexes_example :
    Ends false
      (λ (u, s'). Indexes toy zero_key IsKeyword IsDummy toy-apart some_postings no_bits s')
      (store_bitmap_batch toy (word_cd ∷ []) some_state)
store_bitmap_batch-Indexes_example =
    store_bitmap_batch-Indexes toy zero_key IsKeyword IsDummy toy-apart some_postings no_bits
      (word_cd ∷ []) some_state (tt, tt) (cd_cached, tt) some_state-Indexes

search_keyword-Indexes_example :
    Ends true
      (λ (bm, s').
        (bm ≡ some_postings word_cd)
        × Indexes toy zero_key IsKeyword IsDummy toy-apart some_postings no_bits s')
      (search_keyword toy word_cd some_state)
search_keyword-Indexes_example =
    search_keyword-Indexes toy zero_key IsKeyword IsDummy toy-apart some_postings no_bits word_cd
      some_state some_state-Indexes

search_keyword-uncached_example :
    Ends false
      (λ (bm, s').
        (bm ≡ some_postings word_ab)
        × Indexes toy zero_key IsKeyword IsDummy toy-apart some_postings no_bits s')
      (search_keyword toy word_ab some_state)
search_keyword-uncached_example =
    search_keyword-uncached toy zero_key IsKeyword IsDummy toy-apart some_postings no_bits word_ab 1
      some_state ab_known ab_uncached some_state-Indexes

update_word-Indexes_example :
    Ends false
      (λ (u, s').
        Indexes toy zero_key IsKeyword IsDummy toy-apart
          (replaced some_postings word_cd (set_bit (some_postings word_cd) 7 true))
          no_bits
          s')
      (update_word toy 7 true 0 word_cd some_state)
update_word-Indexes_example =
    update_word-Indexes toy zero_key IsKeyword IsDummy toy-apart some_postings no_bits 7 true seven
      0 word_cd some_state word_cd-IsKeyword word_cd-no_dummy some_state-Indexes refl (inl room)

update_word-uncached_example :
    Ends false
      (λ (u, s').
        Indexes toy zero_key IsKeyword IsDummy toy-apart
          (replaced some_postings word_ab (set_bit (some_postings word_ab) 7 true))
          no_bits
          s')
      (update_word toy 7 true 0 word_ab some_state)
update_word-uncached_example =
    update_word-uncached toy zero_key IsKeyword IsDummy toy-apart some_postings no_bits 7 true seven
      0 word_ab 1 some_state ab_known ab_uncached word_ab-no_dummy some_state-Indexes refl

-- The document 4 of "ab" is lost.
update_word-empty_example :
    Ends false
      (λ (u, s').
        Indexes toy zero_key IsKeyword IsDummy toy-apart
          (replaced host_postings word_ab (set_bit no_bits 7 true))
          no_bits
          s')
      (update_word toy 7 true 0 word_ab host_state)
update_word-empty_example =
    update_word-empty toy zero_key IsKeyword IsDummy toy-apart host_postings no_bits 7 true seven 0
      word_ab host_state word_ab-IsKeyword word_ab-no_dummy host_state-Indexes refl

bytes_to_bitset-bitset_to_bytes_example :
    bytes_to_bitset 2 (bitset_to_bytes 2 (set_bit no_bits 9 true)) 9 ≡ true
bytes_to_bitset-bitset_to_bytes_example =
    bytes_to_bitset-bitset_to_bytes 2 (set_bit no_bits 9 true) 9

bitmap_label-collision_example :
    bitmap_label toy zero_key word_ab 12 ≡ bitmap_label toy zero_key (word_ab ++ b'1' ∷ []) 2
bitmap_label-collision_example = bitmap_label-collision toy zero_key word_ab 2 (omega arith)
