-- ===== src/Enclave/Update/Index.antt =====
-- What a round of UpdateKeywords does to the posting lists that the index stands for.
use veil_db.Base.{
  ℕ, ◌<◌, ◌≡◌, refl, sym, subst, List, [], ◌∷◌, length, none, some, Bool, true, false, ltb, ◌==◌,
  if◌then◌else◌, same_text, same_text_iff, same_text_refl, Bool-cases, Option-cases, inl, inr, ◌⊎◌,
  Outcome, ok, bind, Ends, Ends-bind, arith,
}
use veil_db.Base.Assoc.{Assoc, find, assign, find-assign, Distinct-keys-assign}
use veil_db.Enclave.Bitset.{Bitset, no_bits, set_bit, total_file_no, bitmap_bytes}
use veil_db.Enclave.Bytes.{IsBitset}
use veil_db.Enclave.Sgx.{Sgx}
use veil_db.Enclave.Context.{Enclave}
use veil_db.Enclave.Keywords.{store_bitmap_batch, shrink_cache, is_some, cache_bitmap}
use veil_db.Enclave.Keywords.Index.{Apart, Indexes, store_bitmap_batch-Indexes}
use veil_db.Enclave.Keywords.Search.{load_bitmap_from_storage-Index, shrink_cache-Index}
use veil_db.Enclave.Update.{add_word, update_in_cache, update_exchanging, update_word}

-- The posting lists with that of `w` replaced.
abbrev pub replaced : (List ℕ → Bitset) → List ℕ → Bitset → List ℕ → Bitset
replaced postings w bm u = if same_text w u then bm else postings u

set_bit-IsBitset :
    (bm : Bitset) (bit : ℕ) (add : Bool)
    → bit < total_file_no
    → IsBitset bitmap_bytes bm
    → IsBitset bitmap_bytes (set_bit bm bit add)
unfolding total_file_no bitmap_bytes
set_bit-IsBitset bm bit add h k i e = ground (arith, h, k i e)

module _ (sgx : Sgx) (key : List ℕ) (IsClear IsBlank : List ℕ → Type 0)
    (apart : Apart sgx key IsClear IsBlank) (postings : List ℕ → Bitset) (all : Bitset) where
  abbrev Index : (List ℕ → Bitset) → Enclave → Type 0
  Index p = Indexes sgx key IsClear IsBlank apart p all

  -- The state with a bitmap for `w` in the cache, and `w` in KVS.
  abbrev with_word : List ℕ → Bitset → Assoc ℕ → List (List ℕ) → Enclave → Enclave
  with_word w bm kvs words s = record s {
    ctx = record s.ctx { ck = assign w bm s.ctx.ck; kvs = kvs; words_kvs = words };
  }

  put-Index :
      (w : List ℕ) (bm : Bitset) (kvs : Assoc ℕ) (words : List (List ℕ)) (s : Enclave)
      → IsClear w
      → ¬ IsBlank w
      → IsBitset bitmap_bytes bm
      → is_some (find w kvs) ≡ true
      → ((u : List ℕ) → same_text w u ≡ false → find u kvs ≡ find u s.ctx.kvs)
      → Index postings s
      → Index (replaced postings w bm) (with_word w bm kvs words s)
  put-Index w bm kvs words s c nb size known others h = record {
    occupied = h.occupied;
    keyed = h.keyed;
    cached = λ u b f. ground (arith, find-assign w u bm s.ctx.ck, h.cached u b);
    versioned = λ u b f.
        ground (arith, find-assign w u bm s.ctx.ck, same_text_iff w u, others u, h.versioned u b);
    stored = λ u n f g. ground (arith, find-assign w u bm s.ctx.ck, others u, h.stored u n);
    absent = λ u f. ground (arith, same_text_iff w u, others u, h.absent u);
    clear = λ u f. elim (Bool-cases (same_text w u)) [
      | inl same ↦ subst IsClear ((same_text_iff w u).0 same) c
      | inr other ↦ h.clear u (ground (arith, others u other))
    ];
    blank = λ u b. elim (Bool-cases (same_text w u)) [
      | inl same ↦ absurd (nb (subst IsBlank (sym ((same_text_iff w u).0 same)) b))
      | inr other ↦ rw (other) (h.blank u b)
    ];
    distinct = Distinct-keys-assign w bm s.ctx.ck h.distinct;
    sized = λ u. elim (Bool-cases (same_text w u)) [
      | inl same ↦ rw (same) size
      | inr other ↦ rw (other) (h.sized u)
    ];
  }

  Written : (List ℕ → Bitset) → List ℕ → Enclave → Type 0
  Written p w s = Index p s × (is_some (find w s.ctx.ck) ≡ true)

  find-put : (w : List ℕ) (bm : Bitset) (m : Assoc Bitset) → is_some (find w (assign w bm m)) ≡ true
  find-put w bm m = ground (arith, find-assign w w bm m, same_text_refl w)

  store_one-Index :
      (p : List ℕ → Bitset) (w : List ℕ) (s : Enclave)
      → Written p w s
      → Ends false (λ (u, s'). Index p s') (store_bitmap_batch sgx (w ∷ []) s)
  unfolding Written
  store_one-Index p w s h =
      store_bitmap_batch-Indexes sgx key IsClear IsBlank apart p all (w ∷ []) s (tt, tt) (h.1, tt)
        h.0

  and_store :
      (p : List ℕ → Bitset) (w : List ℕ) (m : Outcome (Unit {0} × Enclave))
      → Ends false (λ (u, s). Written p w s) m
      → Ends false (λ (u, s). Index p s) (bind m (λ (u, s). store_bitmap_batch sgx (w ∷ []) s))
  and_store p w m h =
      Ends-bind false (λ (u, s). Written p w s) (λ (u, s). Index p s) m
        (λ (u, s). store_bitmap_batch sgx (w ∷ []) s) h (λ (u, s) k. store_one-Index p w s k)

  and_shrink :
      (p : List ℕ → Bitset) (w : List ℕ) (m : Outcome (Unit {0} × Enclave))
      → Ends false (λ (u, s). Index p s) m
      → Ends false (λ (u, s). Index p s) (bind m (λ (u, s). shrink_cache sgx w s))
  and_shrink p w m h =
      Ends-bind false (λ (u, s). Index p s) (λ (u, s). Index p s) m (λ (u, s). shrink_cache sgx w s)
        h (λ (u, s) k. shrink_cache-Index sgx key IsClear IsBlank apart p all w s k)

  -- A word that enters KVS.
  add_word-Index :
      (w : List ℕ) (bm : Bitset) (s : Enclave)
      → IsClear w
      → ¬ IsBlank w
      → IsBitset bitmap_bytes bm
      → Index postings s
      → Ends false (λ (u, s'). Written (replaced postings w bm) w s') (add_word w bm s)
  unfolding add_word Written
  add_word-Index w bm s c nb size h = (
    put-Index w bm (assign w 1 s.ctx.kvs) _ s c nb size
        (ground (arith, find-assign w w 1 s.ctx.kvs, same_text_refl w))
        (λ u e. ground (arith, find-assign w u 1 s.ctx.kvs, e)) h,
    find-put w bm s.ctx.ck,
  )

  -- A known word that is put into the cache.
  cache_bitmap-Index :
      (w : List ℕ) (v : ℕ) (bm : Bitset) (s : Enclave)
      → find w s.ctx.kvs ≡ some v
      → ¬ IsBlank w
      → IsBitset bitmap_bytes bm
      → Index postings s
      → Ends false (λ (u, s'). Written (replaced postings w bm) w s') (cache_bitmap w bm s)
  unfolding cache_bitmap Written
  cache_bitmap-Index w v bm s e nb size h =
      let known : is_some (find w s.ctx.kvs) ≡ true = rw e refl in
      (
        put-Index w bm s.ctx.kvs s.ctx.words_kvs s (h.clear w known) nb size known (λ u e. refl) h,
        find-put w bm s.ctx.ck,
      )

  module _ (bit : ℕ) (add : Bool) (small : bit < total_file_no) where
    -- The lists after a round: the bit of the document is set or cleared in that of the word.
    abbrev pub updated : List ℕ → List ℕ → Bitset
    updated w = replaced postings w (set_bit (postings w) bit add)

    sized_bit :
        (w : List ℕ) (s : Enclave)
        → Index postings s
        → IsBitset bitmap_bytes (set_bit (postings w) bit add)
    sized_bit w s h = set_bit-IsBitset (postings w) bit add small (h.sized w)

    update_in_cache-Index :
        (w : List ℕ) (s : Enclave)
        → IsClear w
        → ¬ IsBlank w
        → Index postings s
        → Ends false
            (λ (u, s'). Written (updated w) w s')
            (update_in_cache sgx bit add w (find w s.ctx.ck) (find w s.ctx.kvs) s)
    unfolding update_in_cache
    update_in_cache-Index w s c nb h = elim (Option-cases (find w s.ctx.kvs)) [
      | inl e ↦ elim (Option-cases (find w s.ctx.ck)) [
        | inl f ↦
            rw (e, f)
              (subst
                (λ b.
                  Ends false (λ (u, s'). Written (updated w) w s')
                    (add_word w (set_bit b bit add) s))
                (h.absent w e) (add_word-Index w _ s c nb (sized_bit w s h) h))
        | inr (bm, f) ↦ absurd (ground (arith, h.versioned w bm f))
      ]
      | inr (v, e) ↦ elim (Option-cases (find w s.ctx.ck)) [
        | inl f ↦
            rw
              (
                e,
                f,
                load_bitmap_from_storage-Index sgx key IsClear IsBlank apart postings all w v s e f
                    h,
              )
              (cache_bitmap-Index w v _ s e nb (sized_bit w s h) h)
        | inr (bm, f) ↦
            rw (e, f)
              (subst
                (λ b.
                  Ends false (λ (u, s'). Written (updated w) w s')
                    (cache_bitmap w (set_bit b bit add) s))
                (sym (h.cached w bm f)) (cache_bitmap-Index w v _ s e nb (sized_bit w s h) h))
      ]
    ]

    -- A round of UpdateKeywords on a cache that is not empty, and that has room or holds as many
    -- words as KVS: the posting list of the word, old or new, gets or loses the document, the other
    -- lists stay as they are, and nothing is thrown. No two labels of known keywords may meet.
    pub update_word-Indexes :
        (fuel : ℕ) (w : List ℕ) (s : Enclave)
        → IsClear w
        → ¬ IsBlank w
        → Indexes sgx key IsClear IsBlank apart postings all s
        → length s.ctx.ck == 0 ≡ false
        → (ltb (length s.ctx.ck) s.ctx.ck_max ≡ true) ⊎ (length s.ctx.kvs == s.ctx.ck_max ≡ true)
        → Ends false
            (λ (u, s'). Indexes sgx key IsClear IsBlank apart (updated w) all s')
            (update_word sgx bit add fuel w s)
    unfolding update_word
    update_word-Indexes fuel w s c nb h filled room =
        elim (Bool-cases (ltb (length s.ctx.ck) s.ctx.ck_max)) [
          | inl e ↦
              rw (filled, e, Ends) (and_store (updated w) w _ (update_in_cache-Index w s c nb h))
          | inr e ↦
              let full : length s.ctx.kvs == s.ctx.ck_max ≡ true = ground (arith, room) in
              rw (filled, e, full, Ends)
                (Ends-bind false (λ (u, s'). Written (updated w) w s')
                  (λ (u, s'). Index (updated w) s')
                  (update_in_cache sgx bit add w (find w s.ctx.ck) (find w s.ctx.kvs) s)
                  (λ (u, s').
                    bind (store_bitmap_batch sgx (w ∷ []) s') (λ (u, s''). shrink_cache sgx w s''))
                  (update_in_cache-Index w s c nb h)
                  (λ (u, s') k.
                    and_shrink (updated w) w (store_bitmap_batch sgx (w ∷ []) s')
                      (store_one-Index (updated w) w s' k)))
        ]

    exchange-Index :
        (fuel : ℕ) (w : List ℕ) (v : ℕ) (s : Enclave)
        → find w s.ctx.kvs ≡ some v
        → find w s.ctx.ck ≡ none
        → ¬ IsBlank w
        → Index postings s
        → Ends false
            (λ (going_on, s'). (going_on ≡ true) × Index (updated w) s')
            (update_exchanging sgx bit add fuel w none (some v) s)
    unfolding update_exchanging
    exchange-Index fuel w v s e f nb h =
        rw
          (
            load_bitmap_from_storage-Index sgx key IsClear IsBlank apart postings all w v s e f h,
            Ends,
          )
          (Ends-bind false (λ (u, s'). Written (updated w) w s')
            (λ (going_on, s'). (going_on ≡ true) × Index (updated w) s')
            (cache_bitmap w (set_bit (postings w) bit add) s)
            (λ (u, s'). bind (store_bitmap_batch sgx (w ∷ []) s') (λ (u, s''). ok (true, s'')))
            (cache_bitmap-Index w v _ s e nb (sized_bit w s h) h)
            (λ (u, s') k.
              Ends-bind false (λ (u, s''). Index (updated w) s'')
                (λ (going_on, s''). (going_on ≡ true) × Index (updated w) s'')
                (store_bitmap_batch sgx (w ∷ []) s') (λ (u, s''). ok (true, s''))
                (store_one-Index (updated w) w s' k) (λ (u, s'') i. (refl, i))))

    -- A round of UpdateKeywords on a known keyword that is not cached, and a cache that is not empty,
    -- however full: the posting list of the word gets or loses the document, the other lists stay as
    -- they are, and nothing is thrown. No two labels of known keywords may meet.
    pub update_word-uncached :
        (fuel : ℕ) (w : List ℕ) (v : ℕ) (s : Enclave)
        → find w s.ctx.kvs ≡ some v
        → find w s.ctx.ck ≡ none
        → ¬ IsBlank w
        → Indexes sgx key IsClear IsBlank apart postings all s
        → length s.ctx.ck == 0 ≡ false
        → Ends false
            (λ (u, s'). Indexes sgx key IsClear IsBlank apart (updated w) all s')
            (update_word sgx bit add fuel w s)
    unfolding update_word
    update_word-uncached fuel w v s e f nb h filled =
        let known : is_some (find w s.ctx.kvs) ≡ true = rw e refl in
        let c : IsClear w = h.clear w known in
        elim (Bool-cases (ltb (length s.ctx.ck) s.ctx.ck_max)) [
          | inl room ↦ update_word-Indexes fuel w s c nb h filled (inl room)
          | inr no_room ↦ elim (Bool-cases (length s.ctx.kvs == s.ctx.ck_max)) [
            | inl full ↦ update_word-Indexes fuel w s c nb h filled (inr full)
            | inr more ↦
                rw (filled, no_room, more, e, f, Ends)
                  (Ends-bind false (λ (going_on, s'). (going_on ≡ true) × Index (updated w) s')
                    (λ (u, s'). Index (updated w) s')
                    (update_exchanging sgx bit add fuel w none (some v) s) _
                    (exchange-Index fuel w v s e f nb h)
                    (λ (going_on, s') k.
                      rw (k.0) (
                        shrink_cache-Index sgx key IsClear IsBlank apart (updated w) all w s' k.1)))
          ]
        ]

    -- On an empty cache the round forgets what the posting list of its word was: afterwards it
    -- holds the document of the round alone, or nothing.
    pub update_word-empty :
        (fuel : ℕ) (w : List ℕ) (s : Enclave)
        → IsClear w
        → ¬ IsBlank w
        → Indexes sgx key IsClear IsBlank apart postings all s
        → length s.ctx.ck == 0 ≡ true
        → Ends false
            (λ (u, s').
              Indexes sgx key IsClear IsBlank apart
                (replaced postings w (set_bit no_bits bit add))
                all
                s')
            (update_word sgx bit add fuel w s)
    unfolding update_word
    update_word-empty fuel w s c nb h empty =
        rw (empty, Ends)
          (store_one-Index (replaced postings w (set_bit no_bits bit add)) w _
            (add_word-Index w _ s c nb (set_bit-IsBitset no_bits bit add small (λ i e. refl)) h))
