-- ===== src/Enclave/Keywords/Index.antt =====
-- What the keyword index stands for: a posting list for each keyword, spread over the cache and
-- the host's store.
use veil_db.Base.{
  ℕ, ◌≡◌, subst, refl, sym, List, [], ◌∷◌, none, some, true, false, arith, same_text, same_text_iff,
  Bool-cases, inl, inr, All, Option-cases, Ends, ap, ◌∙◌, ◌⊎◌,
}
use veil_db.Base.Assoc.{
  find, assign, keys, find-assign, find-erase, Distinct, NotIn, Distinct-keys-erase, same_text_symm,
}
use veil_db.Enclave.Bitset.{Bitset, no_bits, bitmap_bytes}
use veil_db.Enclave.Bytes.{IsBitset}
use veil_db.Enclave.Sgx.{Sgx}
use veil_db.Enclave.Context.{Enclave, make_fresh_context, zero_key}
use veil_db.Host.Storage.{EncDatabase, store_bitmap}
use veil_db.Enclave.Keywords.{
  bitmap_label, bitmap_key, encrypt_bitmap_cipher, next_version, bits_or_none, spill_word,
  spill_entry, store_bitmap_batch, is_some,
}

-- No two labels of keywords that may be in the index meet, or they are those of keywords that stay
-- without documents, and what is stored under them is encrypted under the same key.
abbrev pub Apart : Sgx → List ℕ → (List ℕ → Type 0) → (List ℕ → Type 0) → Type 0
Apart sgx key IsClear IsBlank =
    (w u : List ℕ) (n m : ℕ)
    → IsClear w
    → IsClear u
    → bitmap_label sgx key w n ≡ bitmap_label sgx key u m
    → (w ≡ u) ⊎ (IsBlank w × IsBlank u × (bitmap_key sgx key w n ≡ bitmap_key sgx key u m))

module _ (sgx : Sgx) (key : List ℕ)
    -- the keywords that may be in the index, and those that stay without documents
    (IsClear IsBlank : List ℕ → Type 0) (apart : Apart sgx key IsClear IsBlank) where
  -- The cipher text of `bm` as a version of a keyword.
  abbrev pub sealed : List ℕ → ℕ → Bitset → List ℕ
  sealed w v bm = encrypt_bitmap_cipher sgx bm (bitmap_key sgx key w v)

  -- `postings` is the abstract index, and `all` the set of the documents.
  pub record Indexes (postings : List ℕ → Bitset) (all : Bitset) (s : Enclave) : Type 0 where
    pub occupied : s.ctx.all_docs ≡ all
    pub keyed : s.ctx.key ≡ key
    pub cached : (w : List ℕ) (bm : Bitset) → find w s.ctx.ck ≡ some bm → bm ≡ postings w
    pub versioned :
        (w : List ℕ) (bm : Bitset) → find w s.ctx.ck ≡ some bm → is_some (find w s.ctx.kvs) ≡ true
    pub stored :
        (w : List ℕ) (v : ℕ)
        → find w s.ctx.kvs ≡ some v
        → find w s.ctx.ck ≡ none
        → find (bitmap_label sgx key w v) s.edb.bitmaps ≡ some (sealed w v (postings w))
    pub absent : (w : List ℕ) → find w s.ctx.kvs ≡ none → postings w ≡ no_bits
    pub clear : (w : List ℕ) → is_some (find w s.ctx.kvs) ≡ true → IsClear w
    pub blank : (w : List ℕ) → IsBlank w → postings w ≡ no_bits
    pub distinct : Distinct (keys s.ctx.ck)
    pub sized : (w : List ℕ) → IsBitset bitmap_bytes (postings w)

  -- A fresh context stands for empty posting lists, whatever the host holds, if its key is the zero
  -- key that it starts with.
  pub make_fresh_context-Indexes :
      (client_id : ℕ) (edb : EncDatabase) (random : ℕ → ℕ)
      → key ≡ zero_key
      → Indexes
          (λ w. no_bits)
          no_bits
          (record { ctx = make_fresh_context client_id; edb = edb; random = random })
  unfolding make_fresh_context find keys
  make_fresh_context-Indexes client_id edb random e = record {
    occupied = refl;
    keyed = sym e;
    cached = λ w bm f. absurd (ground (arith, f));
    versioned = λ w bm f. absurd (ground (arith, f));
    stored = λ w v f g. absurd (ground (arith, f));
    absent = λ w f. refl;
    clear = λ w f. absurd (ground (arith, f));
    blank = λ w b. refl;
    distinct = tt;
    sized = λ w k f. refl;
  }

  -- One word out of the cache and into the store.
  abbrev spill_step : List ℕ → Enclave → Enclave
  spill_step w s = record s {
    ctx = spill_word sgx w s.ctx;
    edb = store_bitmap (spill_entry sgx w s.ctx ∷ []) s.edb;
  }

  module _ {postings : List ℕ → Bitset} {all : Bitset} {s : Enclave}
      (h : Indexes postings all s) where
    -- the version that is in KVS already goes up by one
    clear_cached : (w : List ℕ) (bm : Bitset) → find w s.ctx.ck ≡ some bm → IsClear w
    clear_cached w bm e = h.clear w (h.versioned w bm e)

    -- What is stored under a label that two keywords share is the same for both.
    pub meets :
        (w u : List ℕ) (n m : ℕ)
        → IsClear w
        → IsClear u
        → bitmap_label sgx key w n ≡ bitmap_label sgx key u m
        → (w ≡ u) ⊎ (sealed w n (postings w) ≡ sealed u m (postings u))
    meets w u n m cw cu e = elim (apart w u n m cw cu e) [
      | inl same ↦ inl same
      | inr (bw, bu, keys_same) ↦ inr (
          ap (encrypt_bitmap_cipher sgx (postings w)) keys_same
          ∙ ap (λ bm. encrypt_bitmap_cipher sgx bm (bitmap_key sgx key u m))
              (h.blank w bw ∙ sym (h.blank u bu)))
    ]

    spill_stored :
        (w u : List ℕ) (bm : Bitset) (v : ℕ)
        → find w s.ctx.ck ≡ some bm
        → find u (spill_step w s).ctx.kvs ≡ some v
        → find u (spill_step w s).ctx.ck ≡ none
        → find (bitmap_label sgx key u v) (spill_step w s).edb.bitmaps
          ≡ some (sealed u v (postings u))
    unfolding spill_word spill_entry store_bitmap
    spill_stored w u bm v e hk hc =
        let n = next_version sgx s.ctx w in
        let label = bitmap_label sgx s.ctx.key w n in
        let cipher =
          encrypt_bitmap_cipher sgx (bits_or_none (find w s.ctx.ck))
            (bitmap_key sgx s.ctx.key w n) in
        ground (
          arith,
          find-assign label (bitmap_label sgx key u v) cipher s.edb.bitmaps,
          same_text_iff label (bitmap_label sgx key u v),
          find-assign w u n s.ctx.kvs,
          find-erase w u s.ctx.ck,
          same_text_iff w u,
          h.cached w bm e,
          h.keyed,
          h.stored u v,
          h.clear u,
          clear_cached w bm e,
          meets w u n v,
        )

    -- A word that gets a version is clear if it was known or is `w`.
    assign_clear :
        (w u : List ℕ) (n : ℕ)
        → IsClear w
        → is_some (find u (assign w n s.ctx.kvs)) ≡ true
        → IsClear u
    assign_clear w u n k f = elim (Bool-cases (same_text w u)) [
      | inl same ↦ subst IsClear ((same_text_iff w u).0 same) k
      | inr other ↦ h.clear u (ground (arith, find-assign w u n s.ctx.kvs))
    ]

    spill_step-Indexes :
        (w : List ℕ) (bm : Bitset)
        → find w s.ctx.ck ≡ some bm
        → Indexes postings all (spill_step w s)
    unfolding spill_word
    spill_step-Indexes w bm e = record {
      occupied = h.occupied;
      keyed = h.keyed;
      cached = λ u b f. ground (arith, find-erase w u s.ctx.ck, h.cached u b);
      versioned = λ u b f. ground (
        arith,
        find-erase w u s.ctx.ck,
        find-assign w u (next_version sgx s.ctx w) s.ctx.kvs,
        h.versioned u b,
      );
      stored = λ u v. spill_stored w u bm v e;
      absent =
          λ u f. ground (arith, find-assign w u (next_version sgx s.ctx w) s.ctx.kvs, h.absent u);
      clear = λ u f. assign_clear w u (next_version sgx s.ctx w) (clear_cached w bm e) f;
      blank = h.blank;
      distinct = Distinct-keys-erase w s.ctx.ck h.distinct;
      sized = h.sized;
    }

  -- All words of a batch are cached, and none stands twice in it.
  abbrev IsCached : Enclave → List (List ℕ) → Type 0
  IsCached s = All (λ w. is_some (find w s.ctx.ck) ≡ true)

  store_step :
      (w : List ℕ) (ws : List (List ℕ)) (s : Enclave)
      → store_bitmap_batch sgx (w ∷ ws) s ≡ store_bitmap_batch sgx ws (spill_step w s)
  unfolding store_bitmap_batch store_bitmap
  store_step w ws s = refl

  IsCached-spill :
      (w : List ℕ) (ws : List (List ℕ)) (s : Enclave)
      → NotIn w ws
      → IsCached s ws
      → IsCached (spill_step w s) ws
  unfolding spill_word
  IsCached-spill w [] s n h = tt
  IsCached-spill w (u ∷ ws) s n h = (
    ground (arith, find-erase w u s.ctx.ck, same_text_symm w u, n.0, h.0),
    IsCached-spill w ws s n.1 h.1,
  )

  -- From a state in which the index stands for posting lists, where no two labels of known keywords
  -- may meet: writing a batch of keywords to the host, which are all cached and none of which stands
  -- twice in the batch, ends without exception and within its arrays, and the index stands for the
  -- same lists as before.
  pub store_bitmap_batch-Indexes :
      (postings : List ℕ → Bitset) (all : Bitset) (ws : List (List ℕ)) (s : Enclave)
      → Distinct ws
      → IsCached s ws
      → Indexes postings all s
      → Ends false (λ (u, s'). Indexes postings all s') (store_bitmap_batch sgx ws s)
  store_bitmap_batch-Indexes p all [] s d c h = unfold store_bitmap_batch store_bitmap in h
  store_bitmap_batch-Indexes p all (w ∷ ws) s d c h = rw (store_step w ws s) (
      store_bitmap_batch-Indexes p all ws (spill_step w s) d.1 (IsCached-spill w ws s d.0 c.1)
        (elim (Option-cases (find w s.ctx.ck)) [
          | inl e ↦ absurd (ground (arith, c.0))
          | inr (bm, e) ↦ spill_step-Indexes h w bm e
        ]))
