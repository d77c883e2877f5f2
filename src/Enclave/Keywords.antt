-- ===== src/Enclave/Keywords.antt =====
-- CryptoEnclave.cpp: the keyword index. Bitmaps are cached in CK, and stored on the host under a
-- label and a key that are derived from the keyword and its version in KVS.
pub mod Index
pub mod Draws
pub mod Search
pub mod Labels
use veil_db.Base.{
  ℕ, zero, suc, ◌+◌, ◌-◌, ◌*◌, ◌/◌, ◌%◌, List, [], ◌∷◌, ◌++◌, length, get_elem?, Option, none, some,
  Bool, true, false, not, ltb, leb, ◌==◌, if◌then◌else◌, same_text, Outcome, ok, threw, fault,
  stuck, bind, no_keywords, source_not_found, lack_of_capacity, defined,
}
use veil_db.Base.Assoc.{Assoc, find, assign, erase, keys}
use veil_db.Base.Decimal.{to_string}
use veil_db.Enclave.Bitset.{Bitset, no_bits, set_bit, bitmap_bytes}
use veil_db.Enclave.Bytes.{bitset_to_bytes, bytes_to_bitset}
use veil_db.Enclave.Sgx.{Sgx, gcm_overhead}
use veil_db.Enclave.Context.{
  ClientContext, Enclave, Run, ◌>>=◌, ◌>>◌, pure, lift, raise, get_ctx, set_ctx, draw,
}
use veil_db.Host.Storage.{EncDatabase, store_bitmap, load_bitmap}

-- The messages of fill_bitmap_label and derive_bitmap_key.
abbrev pub label_message : List ℕ → ℕ → List ℕ
label_message word version = word ++ (to_string version ++ b'0' ∷ [])

abbrev pub key_message : List ℕ → ℕ → List ℕ
key_message word version = word ++ (to_string version ++ b'1' ∷ [])

-- What `m[k]` gives where `k` may be missing.
abbrev pub version_or_zero : Option ℕ → ℕ
version_or_zero none = 0
version_or_zero (some v) = v

abbrev pub bits_or_none : Option Bitset → Bitset
bits_or_none none = no_bits
bits_or_none (some bm) = bm

abbrev pub is_some {ℓ} : {A : Type ℓ} → Option A → Bool
is_some none = false
is_some (some a) = true

-- std::remove and erase of one value in a vector of strings.
unfoldable pub remove_word : List ℕ → List (List ℕ) → List (List ℕ)
remove_word w [] = []
remove_word w (x ∷ xs) = let rest = remove_word w xs in if same_text x w then rest else x ∷ rest

-- std::sample on `unsampled` items of which `n` are wanted.
unfoldable pub sample : List (List ℕ) → ℕ → Run (List (List ℕ))
sample [] n = pure []
sample (x ∷ xs) zero = pure []
sample (x ∷ xs) (suc n) = do
  r ← draw
  elim (ltb (r % suc (length xs)) (suc n)) [
    | true ↦ do rest ← sample xs n; pure (x ∷ rest)
    | false ↦ sample xs (suc n)
  ]

-- The attempts of pick_random_uncached_word.
unfoldable pub pick_attempts : ℕ → ClientContext → Run (Option (List ℕ))
pick_attempts zero c = pure none
pick_attempts (suc attempts) c = do
  r ← draw
  elim (get_elem? c.words_kvs (r % length c.words_kvs)) [
    | none ↦ λ s. fault
    | some candidate ↦ elim (find candidate c.ck) [
      | none ↦ pure (some candidate)
      | some bm ↦ pick_attempts attempts c
    ]
  ]

-- `none` is the result false.
unfoldable pub pick_random_uncached_word : Run (Option (List ℕ))
unfolding pick_attempts
pick_random_uncached_word = do
  c ← get_ctx
  if length c.words_kvs == 0
      then pure none
      else if leb (length c.words_kvs) (length c.ck)
      then pure none
      else pick_attempts 256 c

-- The keys of CK but `word`.
unfoldable pub words_without : List ℕ → List (List ℕ) → List (List ℕ)
unfolding remove_word
words_without w ws = remove_word w ws

-- `CK[word] = bm;`
unfoldable pub cache_bitmap : List ℕ → Bitset → Run (Unit {0})
cache_bitmap word bm = do c ← get_ctx; set_ctx (record c { ck = assign word bm c.ck })

module _ (sgx : Sgx) where
  -- fill_bitmap_label
  unfoldable pub bitmap_label : List ℕ → List ℕ → ℕ → List ℕ
  bitmap_label key word version = sgx.hash key (label_message word version)

  -- derive_bitmap_key
  unfoldable pub bitmap_key : List ℕ → List ℕ → ℕ → List ℕ
  bitmap_key key word version = sgx.hash key (key_message word version)

  unfoldable pub encrypt_bitmap_cipher : Bitset → List ℕ → List ℕ
  encrypt_bitmap_cipher bm enc_key = sgx.encrypt enc_key (bitset_to_bytes bitmap_bytes bm)

  -- A text that is too short for its header makes the length wrap, and one that is too short for a
  -- bitmap is read beyond its end.
  unfoldable pub decrypt_bitmap_cipher : List ℕ → List ℕ → Outcome Bitset
  decrypt_bitmap_cipher cipher enc_key =
      if leb (gcm_overhead + bitmap_bytes) (length cipher)
      then ok (bytes_to_bitset bitmap_bytes (sgx.decrypt enc_key cipher))
      else fault

  unfoldable pub load_bitmap_from_storage : List ℕ → ℕ → Run Bitset
  unfolding load_bitmap decrypt_bitmap_cipher
  load_bitmap_from_storage word version s =
      let (cipher, edb) = load_bitmap (bitmap_label s.ctx.key word version) s.edb in
      lift (decrypt_bitmap_cipher cipher (bitmap_key s.ctx.key word version))
        (record s { edb = edb })

  -- One round of the loop of store_bitmap_batch: the context after it, the label and the cipher.
  unfoldable pub next_version : ClientContext → List ℕ → ℕ
  next_version c word = version_or_zero (find word c.kvs) + 1

  unfoldable pub spill_word : List ℕ → ClientContext → ClientContext
  spill_word word c = record c {
    kvs = assign word (next_version c word) c.kvs;
    ck = erase word c.ck;
  }

  unfoldable pub spill_entry : List ℕ → ClientContext → List ℕ × List ℕ
  unfolding encrypt_bitmap_cipher
  spill_entry word c = (
    bitmap_label c.key word (next_version c word),
    encrypt_bitmap_cipher (bits_or_none (find word c.ck))
        (bitmap_key c.key word (next_version c word)),
  )

  unfoldable pub spill_words : List (List ℕ) → ClientContext → ClientContext
  unfolding spill_word
  spill_words [] c = c
  spill_words (w ∷ ws) c = spill_words ws (spill_word w c)

  unfoldable pub spill_entries : List (List ℕ) → ClientContext → List (List ℕ × List ℕ)
  unfolding spill_entry spill_word
  spill_entries [] c = []
  spill_entries (w ∷ ws) c = spill_entry w c ∷ spill_entries ws (spill_word w c)

  unfoldable pub store_bitmap_batch : List (List ℕ) → Run (Unit {0})
  unfolding spill_words spill_entries
  store_bitmap_batch words s = ok (
    tt,
    record s {
      ctx = spill_words words s.ctx;
      edb = store_bitmap (spill_entries words s.ctx) s.edb;
    },
  )

  -- The end of Search and of a round of UpdateKeywords: store what is over CK_max, but not `word`.
  unfoldable pub shrink_cache : List ℕ → Run (Unit {0})
  unfolding store_bitmap_batch words_without sample
  shrink_cache word = do
    c ← get_ctx
    if leb (length c.ck) c.ck_max then pure tt else do
      words_out ← sample (words_without word (keys c.ck)) (length c.ck - c.ck_max)
      store_bitmap_batch words_out

  -- `CK[w] = load_bitmap_from_storage(w, KVS[w])`, with the check of its version before it.
  unfoldable pub load_companion : List ℕ → Run Bitset
  unfolding load_bitmap_from_storage cache_bitmap
  load_companion word = do
    c ← get_ctx
    elim (find word c.kvs) [
      | none ↦ raise source_not_found
      | some version ↦ do bm ← load_bitmap_from_storage word version; cache_bitmap word bm; pure bm
    ]

  -- The choice that Search makes between its branches, by KVS and CK.
  unfoldable pub search_branch : List ℕ → Option ℕ → Option Bitset → Run Bitset
  unfolding load_companion pick_random_uncached_word
  search_branch word none cached = do
    picked ← pick_random_uncached_word
    elim picked [ none ↦ raise no_keywords | some w ↦ pure no_bits ]
  search_branch word (some version) none = load_companion word
  search_branch word (some version) (some bm) = do
    picked ← pick_random_uncached_word
    elim picked [
      | none ↦ raise no_keywords
      | some word_in ↦ do ignored ← load_companion word_in; pure bm
    ]

  unfoldable pub search_keyword : List ℕ → Run Bitset
  unfolding search_branch shrink_cache
  search_keyword word = do
    c ← get_ctx
    res ← search_branch word (find word c.kvs) (find word c.ck)
    shrink_cache word
    pure res
