-- ===== src/Enclave/Update.antt =====
-- CryptoEnclave.cpp: UpdateKeywords, and wordTokenize of EnclaveUtils.cpp.
pub mod Index
pub mod Empty
use veil_db.Base.{
  ℕ, zero, suc, ◌+◌, ◌-◌, ◌%◌, List, [], ◌∷◌, ◌++◌, length, Option, none, some, Bool, true, false,
  ◌||◌, ltb, leb, ◌==◌, if◌then◌else◌, Outcome, ok, stuck, fault, bind, source_not_found,
  lack_of_capacity,
}
use veil_db.Base.Assoc.{Assoc, find, assign, erase}
use veil_db.Base.Decimal.{to_string}
use veil_db.Enclave.Bitset.{Bitset, no_bits, set_bit, total_file_no}
use veil_db.Enclave.Sgx.{Sgx}
use veil_db.Enclave.Context.{
  ClientContext, Enclave, Run, ◌>>=◌, ◌>>◌, pure, lift, raise, get_ctx, set_ctx, draw,
}
use veil_db.Enclave.Keywords.{
  remove_word, load_bitmap_from_storage, store_bitmap_batch, pick_random_uncached_word,
  shrink_cache, cache_bitmap,
}

-- A token that is not empty is given.
unfoldable pub flush : List ℕ → List (List ℕ) → List (List ℕ)
flush [] rest = rest
flush (c ∷ cs) rest = (c ∷ cs) ∷ rest

-- strtok with the delimiter ",": `word` is the token so far. The copy is not terminated, so strtok
-- reads beyond it where it finds no zero byte in it.
unfoldable pub tokens_from : List ℕ → List ℕ → Outcome (List (List ℕ))
unfolding flush
tokens_from word [] = fault
tokens_from word (c ∷ cs) = elim (c == 0) [
  | true ↦ ok (flush word [])
  | false ↦ elim (c == b',') [
    | true ↦ bind (tokens_from [] cs) (λ rest. ok (flush word rest))
    | false ↦ tokens_from (word ++ c ∷ []) cs
  ]
]

-- wordTokenize
unfoldable pub word_tokenize : List ℕ → Outcome (List (List ℕ))
unfolding tokens_from
word_tokenize content = tokens_from [] content

-- "dummy_" and the number of a placeholder
abbrev pub dummy_word : ℕ → List ℕ
dummy_word d = b'd' ∷ b'u' ∷ b'm' ∷ b'm' ∷ b'y' ∷ b'_' ∷ to_string d

-- A word that enters KVS: `CK[word] = bm; KVS[word] = 1; words_KVS.push_back(word);`
unfoldable pub add_word : List ℕ → Bitset → Run (Unit {0})
add_word word bm = do
  c ← get_ctx
  set_ctx (record c {
    ck = assign word bm c.ck;
    kvs = assign word 1 c.kvs;
    words_kvs = c.words_kvs ++ word ∷ [];
  })

-- The `while` that draws a placeholder until `word_in` is in KVS, with fuel. A modulus of zero,
-- which KVS with placeholders excludes, is undefined.
unfoldable pub draw_dummy : ℕ → List ℕ → ClientContext → Run (List ℕ)
draw_dummy zero word_in c = elim (find word_in c.kvs) [ some v ↦ pure word_in | none ↦ λ s. stuck ]
draw_dummy (suc fuel) word_in c = elim (find word_in c.kvs) [
  | some v ↦ pure word_in
  | none ↦ do
    r ← draw
    if c.dummy_size == 0 then (λ s. fault) else draw_dummy fuel (dummy_word (r % c.dummy_size)) c
]

module _ (sgx : Sgx)
    -- `id_int - 1`, and `*op == ADD`
    (bit : ℕ) (add : Bool) where
  -- The rounds that touch the word alone, by whether it is cached and whether it is in KVS.
  unfoldable pub update_in_cache : List ℕ → Option Bitset → Option ℕ → Run (Unit {0})
  unfolding add_word cache_bitmap load_bitmap_from_storage
  update_in_cache word (some bm) known = cache_bitmap word (set_bit bm bit add)
  update_in_cache word none (some version) = do
    bm ← load_bitmap_from_storage sgx word version
    cache_bitmap word (set_bit bm bit add)
  update_in_cache word none none = add_word word (set_bit no_bits bit add)

  -- The rounds on a full cache, which exchange a word with the host.
  unfoldable pub update_exchanging : ℕ → List ℕ → Option Bitset → Option ℕ → Run Bool
  unfolding add_word cache_bitmap load_bitmap_from_storage pick_random_uncached_word
  update_exchanging fuel word (some bm) known = do
    picked ← pick_random_uncached_word
    elim picked [
      | none ↦ pure false
      | some word_in ↦ do
        c ← get_ctx
        elim (find word_in c.kvs) [
          | none ↦ pure false
          | some version ↦ do
            bm_in ← load_bitmap_from_storage sgx word_in version
            cache_bitmap word_in bm_in
            cache_bitmap word (set_bit bm bit add)
            store_bitmap_batch sgx (word ∷ [])
            pure true
        ]
    ]
  update_exchanging fuel word none (some version) = do
    bm_in ← load_bitmap_from_storage sgx word version
    cache_bitmap word (set_bit bm_in bit add)
    store_bitmap_batch sgx (word ∷ [])
    pure true
  update_exchanging fuel word none none = do
    c ← get_ctx
    if c.dummy_count == 0 then raise lack_of_capacity else do
      word_in ← draw_dummy fuel [] c
      elim (find word_in c.kvs) [
        | none ↦ pure false
        | some version ↦ do
          bm_in ← load_bitmap_from_storage sgx word_in version
          c' ← get_ctx
          set_ctx (record c' {
            kvs = erase word_in c'.kvs;
            words_kvs = remove_word word_in c'.words_kvs;
            dummy_count = c'.dummy_count - 1;
          })
          add_word word (set_bit no_bits bit add)
          store_bitmap_batch sgx (word ∷ [])
          pure true
      ]

  -- One round of the loop of UpdateKeywords. `continue` skips the end of the round.
  unfoldable pub update_word : ℕ → List ℕ → Run (Unit {0})
  unfolding add_word update_in_cache update_exchanging store_bitmap_batch shrink_cache
  update_word fuel word = do
    c ← get_ctx
    elim (length c.ck == 0) [
      | true ↦ do add_word word (set_bit no_bits bit add); store_bitmap_batch sgx (word ∷ [])
      | false ↦ elim (ltb (length c.ck) c.ck_max) [
        | true ↦ do
          update_in_cache word (find word c.ck) (find word c.kvs)
          store_bitmap_batch sgx (word ∷ [])
        | false ↦ elim (length c.kvs == c.ck_max) [
          | true ↦ do
            update_in_cache word (find word c.ck) (find word c.kvs)
            store_bitmap_batch sgx (word ∷ [])
            shrink_cache sgx word
          | false ↦ do
            going_on ← update_exchanging fuel word (find word c.ck) (find word c.kvs)
            elim going_on [ true ↦ shrink_cache sgx word | false ↦ pure tt ]
        ]
      ]
    ]

  unfoldable pub update_words : ℕ → List (List ℕ) → Run (Unit {0})
  unfolding update_word
  update_words fuel [] = pure tt
  update_words fuel (w ∷ ws) = do update_word fuel w; update_words fuel ws

-- UpdateKeywords for the document `id`; an id out of range only prints a warning.
unfoldable pub update_keywords : Sgx → ℕ → ℕ → Bool → List ℕ → Run (Unit {0})
unfolding update_words word_tokenize total_file_no
update_keywords sgx fuel id add content = do
  words ← lift (word_tokenize content)
  if (id == 0) || ltb total_file_no id then pure tt else update_words sgx (id - 1) add fuel words
