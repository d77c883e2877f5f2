-- ===== src/Enclave/Keywords/Search.antt =====
-- CryptoEnclave.cpp: Search, where the index stands for posting lists.
use veil_db.Base.{
  ℕ, ◌+◌, ◌-◌, ◌≡◌, refl, sym, List, Option, none, some, Bool, true, false, arith, length, Outcome,
  ok, threw, fault, stuck, Ends, Ends-bind, leb, same_text_iff, Bool-cases, Option-cases, inl, inr,
  no_keywords, le→leb,
}
use veil_db.Base.Assoc.{find, assign, keys, find-assign, Distinct-keys-assign}
use veil_db.Enclave.Bitset.{Bitset, no_bits, bitmap_bytes}
use veil_db.Enclave.Bytes.{
  IsBitset, bitset_to_bytes, length-bitset_to_bytes, bytes_to_bitset-IsBitset,
}
use veil_db.Enclave.Sgx.{Sgx}
use veil_db.Enclave.Context.{Enclave, Run, ◌>>=◌, pure, raise}
use veil_db.Host.Storage.{EncDatabase, load_bitmap}
use veil_db.Enclave.Keywords.{
  bitmap_label, bitmap_key, encrypt_bitmap_cipher, decrypt_bitmap_cipher, load_bitmap_from_storage,
  store_bitmap_batch, pick_random_uncached_word, words_without, remove_word, sample, shrink_cache,
  cache_bitmap, load_companion, search_branch, search_keyword, is_some,
}
use veil_db.Enclave.Keywords.Draws.{
  All-remove_word, Distinct-remove_word, All-keys, sample-Ends, IsUncached,
  pick_random_uncached_word-Ends,
}
use veil_db.Enclave.Keywords.Index.{Apart, Indexes, store_bitmap_batch-Indexes}

-- What encrypt_bitmap_cipher seals under a key, decrypt_bitmap_cipher opens under it to the same
-- 10000 bits, where no other bit was set.
pub decrypt-encrypt_bitmap :
    (sgx : Sgx) (k : List ℕ) (bm : Bitset)
    → IsBitset bitmap_bytes bm
    → decrypt_bitmap_cipher sgx (encrypt_bitmap_cipher sgx bm k) k ≡ ok bm
unfolding decrypt_bitmap_cipher encrypt_bitmap_cipher
decrypt-encrypt_bitmap sgx k bm h = rw (
  sgx.length-encrypt k (bitset_to_bytes bitmap_bytes bm),
  length-bitset_to_bytes bitmap_bytes bm,
  le→leb (28 + bitmap_bytes) (28 + bitmap_bytes) (omega arith),
  sgx.decrypt-encrypt k (bitset_to_bytes bitmap_bytes bm),
  bytes_to_bitset-IsBitset bitmap_bytes bm h,
)

load_bitmap-found :
    (label : List ℕ) (edb : EncDatabase) (cipher : List ℕ)
    → find label edb.bitmaps ≡ some cipher
    → load_bitmap label edb ≡ (cipher, edb)
unfolding load_bitmap
load_bitmap-found label edb cipher e = rw (e, load_bitmap) refl

pub Ends-may :
    {A : Type 0} (t : Bool) (P : A → Type 0) (m : Outcome A) → Ends false P m → Ends t P m
Ends-may t P (ok a) h = h
Ends-may t P (threw e) h = absurd (ground (arith, h))
Ends-may t P fault h = elim h [ ]
Ends-may t P stuck h = elim h [ ]

module _ (sgx : Sgx) (key : List ℕ) (IsClear IsBlank : List ℕ → Type 0)
    (apart : Apart sgx key IsClear IsBlank) (postings : List ℕ → Bitset) (all : Bitset) where
  abbrev Index : Enclave → Type 0
  Index = Indexes sgx key IsClear IsBlank apart postings all

  Index-redrawn : (s : Enclave) (r : ℕ → ℕ) → Index s → Index (record s { random = r })
  Index-redrawn s r h = record {
    occupied = h.occupied;
    keyed = h.keyed;
    cached = h.cached;
    versioned = h.versioned;
    stored = h.stored;
    absent = h.absent;
    blank = h.blank;
    clear = h.clear;
    distinct = h.distinct;
    sized = h.sized;
  }

  -- Putting the posting list of a known keyword into the cache.
  pub Index-cached :
      (w : List ℕ) (v : ℕ) (s : Enclave)
      → find w s.ctx.kvs ≡ some v
      → Index s
      → Index (record s { ctx = record s.ctx { ck = assign w (postings w) s.ctx.ck } })
  Index-cached w v s e h = record {
    occupied = h.occupied;
    keyed = h.keyed;
    cached = λ u b f.
        ground (arith, find-assign w u (postings w) s.ctx.ck, same_text_iff w u, h.cached u b);
    versioned = λ u b f.
        ground (arith, find-assign w u (postings w) s.ctx.ck, same_text_iff w u, h.versioned u b);
    stored = λ u n f g. h.stored u n f (ground (arith, find-assign w u (postings w) s.ctx.ck));
    absent = h.absent;
    blank = h.blank;
    clear = h.clear;
    distinct = Distinct-keys-assign w (postings w) s.ctx.ck h.distinct;
    sized = h.sized;
  }

  pub load_bitmap_from_storage-Index :
      (w : List ℕ) (v : ℕ) (s : Enclave)
      → find w s.ctx.kvs ≡ some v
      → find w s.ctx.ck ≡ none
      → Index s
      → load_bitmap_from_storage sgx w v s ≡ ok (postings w, s)
  unfolding load_bitmap_from_storage
  load_bitmap_from_storage-Index w v s e f h =
      let k = bitmap_key sgx s.ctx.key w v in
      let stored : find (bitmap_label sgx s.ctx.key w v) s.edb.bitmaps
          ≡ some (encrypt_bitmap_cipher sgx (postings w) k) =
        rw h.keyed (h.stored w v e f) in
      rw
        (
          load_bitmap-found (bitmap_label sgx s.ctx.key w v) s.edb _ stored,
          decrypt-encrypt_bitmap sgx k (postings w) (h.sized w),
        )
        refl

  -- An uncached keyword: its companion load gives its posting list, or throws if it is unknown.
  load_companion-Index :
      (w : List ℕ) (v : ℕ) (s : Enclave)
      → find w s.ctx.kvs ≡ some v
      → find w s.ctx.ck ≡ none
      → Index s
      → Ends false (λ (bm, s'). (bm ≡ postings w) × Index s') (load_companion sgx w s)
  unfolding load_companion cache_bitmap
  load_companion-Index w v s e f h =
      rw (e, load_bitmap_from_storage-Index w v s e f h, Ends) (refl, Index-cached w v s e h)

  -- What the branches of Search give: the posting list, and the index as it was.
  Found : List ℕ → Bitset × Enclave → Type 0
  Found w (bm, s) = (bm ≡ postings w) × Index s

  companion-Index :
      (w : List ℕ) (s : Enclave)
      → find w s.ctx.ck ≡ none
      → Index s
      → Ends true (Found w) (load_companion sgx w s)
  unfolding Found load_companion
  companion-Index w s f h = elim (Option-cases (find w s.ctx.kvs)) [
    | inl e ↦ rw (e, Ends) refl
    | inr (v, e) ↦
        Ends-may true (Found w) (load_companion sgx w s) (load_companion-Index w v s e f h)
  ]

  Picked : Enclave → Enclave → Type 0
  Picked s s' = Index s' × (s'.ctx ≡ s.ctx)

  pick_word-Ends :
      (s : Enclave)
      → Index s
      → Ends true (λ (w, s'). Picked s s' × IsUncached s.ctx.ck w) (pick_random_uncached_word s)
  unfolding Picked
  pick_word-Ends s h =
      pick_random_uncached_word-Ends (Picked s) (λ s' r k. (Index-redrawn s' r k.0, k.1)) true s
        (h, refl)

  -- An unknown keyword: a word is picked for the same look from outside, and no bits are given.
  unknown-Ends :
      (w : List ℕ) (o : Option (List ℕ)) (s : Enclave)
      → postings w ≡ no_bits
      → Index s
      → Ends true
          (Found w)
          ((elim o as (λ _. Run Bitset) [ none ↦ raise no_keywords | some u ↦ pure no_bits ]) s)
  unfolding Found
  unknown-Ends w none s e h = refl
  unknown-Ends w (some u) s e h = (sym e, h)

  -- A cached keyword: an uncached one takes its place on the host's side.
  cached-Ends :
      (w : List ℕ) (bm : Bitset) (o : Option (List ℕ)) (s : Enclave)
      → bm ≡ postings w
      → IsUncached s.ctx.ck o
      → Index s
      → Ends true (Found w) (
          (elim o as (λ _. Run Bitset) [
            | none ↦ raise no_keywords
            | some u ↦ do ignored ← load_companion sgx u; pure bm
          ])
            s)
  unfolding Found
  cached-Ends w bm none s e f h = refl
  cached-Ends w bm (some u) s e f h =
      Ends-bind true (Found u) (Found w) (load_companion sgx u s) (λ (_, s'). ok (bm, s'))
        (companion-Index u s f h) (λ (b, s') k. (e, k.1))

  search_branch-Index :
      (w : List ℕ) (s : Enclave)
      → Index s
      → Ends true (Found w) (search_branch sgx w (find w s.ctx.kvs) (find w s.ctx.ck) s)
  unfolding search_branch Picked
  search_branch-Index w s h = elim (Option-cases (find w s.ctx.kvs)) [
    | inl e ↦
        rw (e, Ends)
          (Ends-bind true _ (Found w) (pick_random_uncached_word s) _ (pick_word-Ends s h)
            (λ (o, s') k. unknown-Ends w o s' (h.absent w e) k.0.0))
    | inr (v, e) ↦ elim (Option-cases (find w s.ctx.ck)) [
      | inl f ↦ rw (e, f, Ends) (companion-Index w s f h)
      | inr (bm, f) ↦
          rw (e, f, Ends)
            (Ends-bind true _ (Found w) (pick_random_uncached_word s) _ (pick_word-Ends s h)
              (λ (o, s') k. cached-Ends w bm o s' (h.cached w bm f) (rw (k.0.1) k.1) k.0.0))
    ]
  ]

  -- The eviction leaves the index as it was.
  pub shrink_cache-Index :
      (w : List ℕ) (s : Enclave) → Index s → Ends false (λ (u, s'). Index s') (shrink_cache sgx w s)
  unfolding shrink_cache words_without
  shrink_cache-Index w s h = elim (Bool-cases (leb (length s.ctx.ck) s.ctx.ck_max)) [
    | inl e ↦ rw (e, Ends) h
    | inr e ↦
        rw (e, Ends)
          (Ends-bind false _ (λ (u, s'). Index s')
            (sample (remove_word w (keys s.ctx.ck)) (length s.ctx.ck - s.ctx.ck_max) s)
            (λ (out, s'). store_bitmap_batch sgx out s')
            (sample-Ends (λ s'. Index s' × (s'.ctx ≡ s.ctx))
              (λ s' r k. (Index-redrawn s' r k.0, k.1)) (λ u. is_some (find u s.ctx.ck) ≡ true) _ _
              s (h, refl) (Distinct-remove_word w (keys s.ctx.ck) h.distinct)
              (All-remove_word _ w (keys s.ctx.ck) (All-keys s.ctx.ck)))
            (λ (out, s') k.
              store_bitmap_batch-Indexes sgx key IsClear IsBlank apart postings all out s' k.1
                (rw (k.0.1) k.2) k.0.0))
  ]

  -- From a state in which the index stands for posting lists, Search gives the posting list of its
  -- keyword and leaves the index standing for the same lists, or it throws; it always ends and
  -- leaves no array, whichever random numbers it draws. No two labels of known keywords may meet.
  pub search_keyword-Indexes :
      (w : List ℕ) (s : Enclave)
      → Indexes sgx key IsClear IsBlank apart postings all s
      → Ends true
          (λ (bm, s'). (bm ≡ postings w) × Indexes sgx key IsClear IsBlank apart postings all s')
          (search_keyword sgx w s)
  unfolding search_keyword Found
  search_keyword-Indexes w s h =
      Ends-bind true (Found w) _ (search_branch sgx w (find w s.ctx.kvs) (find w s.ctx.ck) s) _
        (search_branch-Index w s h)
        (λ (bm, s') k.
          Ends-bind true (λ (u, s''). Index s'') _ (shrink_cache sgx w s')
            (λ (u, s''). ok (bm, s''))
            (Ends-may true _ (shrink_cache sgx w s') (shrink_cache-Index w s' k.1))
            (λ (u, s'') i. (k.0, i)))

  -- From such a state, in which no two labels of known keywords meet, Search of a known keyword that
  -- is not cached gives its posting list, keeps the index standing for the same lists, and throws
  -- nothing.
  pub search_keyword-uncached :
      (w : List ℕ) (v : ℕ) (s : Enclave)
      → find w s.ctx.kvs ≡ some v
      → find w s.ctx.ck ≡ none
      → Indexes sgx key IsClear IsBlank apart postings all s
      → Ends false
          (λ (bm, s'). (bm ≡ postings w) × Indexes sgx key IsClear IsBlank apart postings all s')
          (search_keyword sgx w s)
  unfolding search_keyword search_branch
  search_keyword-uncached w v s e f h =
      rw (e, f, Ends)
        (Ends-bind false (λ (bm, s'). (bm ≡ postings w) × Index s') _ (load_companion sgx w s) _
          (load_companion-Index w v s e f h)
          (λ (bm, s') k.
            Ends-bind false (λ (u, s''). Index s'') _ (shrink_cache sgx w s')
              (λ (u, s''). ok (bm, s'')) (shrink_cache-Index w s' k.1) (λ (u, s'') i. (k.0, i))))
