-- ===== src/Enclave/Init/Placeholders.antt =====
-- CryptoEnclave.cpp: append_dummy_keywords, on a state that stands for a keyword index.
use veil_db.Base.{
  ℕ, zero, suc, ◌-◌, ◌≤◌, ◌≡◌, refl, ap, ◌∙◌, subst, List, [], ◌∷◌, none, some, false, Bool-cases,
  inl, inr, Ends, Ends-bind, Ends-mono, arith, same_text, same_text_iff, min, if◌then◌else◌,
}
use mathlib.Core.List.{tail}
use veil_db.Base.Assoc.{find, find-assign}
use veil_db.Base.Decimal.{to_string-injective}
use veil_db.Enclave.Bitset.{Bitset, no_bits}
use veil_db.Enclave.Sgx.{Sgx}
use veil_db.Enclave.Context.{Enclave}
use veil_db.Enclave.Keywords.{bitmap_label, bitmap_key, encrypt_bitmap_cipher}
use veil_db.Enclave.Keywords.Index.{Apart, Indexes, sealed, meets}
use veil_db.Enclave.Update.{dummy_word}
use veil_db.Enclave.Init.{
  insert_new, add_dummy, add_dummies, dummy_entry, dummy_entries, append_batch, append_rounds,
  append_dummy_keywords, per_round_size,
}
use veil_db.Enclave.Docs.Aside.{parts}
use veil_db.Host.Storage.{store_bitmap}

pub dummy_word-injective : (d e : ℕ) → dummy_word d ≡ dummy_word e → d ≡ e
dummy_word-injective d e h =
    to_string-injective d e (ap (λ t. tail (tail (tail (tail (tail (tail t)))))) h)

module _ (sgx : Sgx) (key : List ℕ) (IsClear IsBlank : List ℕ → Type 0)
    (apart : Apart sgx key IsClear IsBlank) (clear_dummy : (d : ℕ) → IsClear (dummy_word d))
    (postings : List ℕ → Bitset) (all : Bitset) where
  abbrev Index : Enclave → Type 0
  Index = Indexes sgx key IsClear IsBlank apart postings all

  -- No name of a placeholder that is still to come is known.
  abbrev pub IsFresh : Enclave → Type 0
  IsFresh s = (d : ℕ) → s.ctx.dummy_size ≤ d → find (dummy_word d) s.ctx.kvs ≡ none

  -- One placeholder in KVS and on the host.
  dummy_state : Enclave → Enclave
  dummy_state s = record s {
    ctx = add_dummy s.ctx;
    edb = store_bitmap (dummy_entry sgx s.ctx ∷ []) s.edb;
  }

  module _ {s : Enclave} (h : Index s) (fresh : IsFresh s) where
    abbrev new_word : List ℕ
    new_word = dummy_word s.ctx.dummy_size

    abbrev is_new : find new_word s.ctx.kvs ≡ none
    is_new = fresh s.ctx.dummy_size (omega arith)

    find-insert :
        (u : List ℕ)
        → find u (insert_new new_word 0 s.ctx.kvs)
          ≡ (if same_text new_word u then some 0 else find u s.ctx.kvs)
    unfolding insert_new
    find-insert u = rw (is_new, insert_new) (find-assign new_word u 0 s.ctx.kvs)

    dummy_stored :
        (u : List ℕ) (v : ℕ)
        → find u (insert_new new_word 0 s.ctx.kvs) ≡ some v
        → find u s.ctx.ck ≡ none
        → find (bitmap_label sgx key u v) (store_bitmap (dummy_entry sgx s.ctx ∷ []) s.edb).bitmaps
          ≡ some (sealed sgx key IsClear IsBlank apart u v (postings u))
    unfolding store_bitmap dummy_entry
    dummy_stored u v hk hc =
        let label = bitmap_label sgx s.ctx.key new_word 0 in
        let cipher = encrypt_bitmap_cipher sgx no_bits (bitmap_key sgx s.ctx.key new_word 0) in
        let none_yet : postings new_word ≡ no_bits = h.absent new_word is_new in
        ground (
          arith,
          find-assign label (bitmap_label sgx key u v) cipher s.edb.bitmaps,
          same_text_iff label (bitmap_label sgx key u v),
          find-insert u,
          same_text_iff new_word u,
          h.keyed,
          none_yet,
          h.stored u v,
          h.clear u,
          clear_dummy s.ctx.dummy_size,
          meets sgx key IsClear IsBlank apart h new_word u 0 v,
        )

    dummy_state-Indexes : Index (dummy_state s)
    unfolding dummy_state add_dummy
    dummy_state-Indexes = record {
      occupied = h.occupied;
      keyed = h.keyed;
      cached = h.cached;
      versioned = λ u b f. ground (arith, find-insert u, h.versioned u b f);
      stored = dummy_stored;
      absent = λ u f. h.absent u (ground (arith, find-insert u, f));
      clear = λ u f. elim (Bool-cases (same_text new_word u)) [
        | inl e ↦ subst IsClear ((same_text_iff new_word u).0 e) (clear_dummy s.ctx.dummy_size)
        | inr e ↦ h.clear u (ground (arith, find-insert u, f, e))
      ];
      blank = h.blank;
      distinct = h.distinct;
      sized = h.sized;
    }

    dummy_state-IsFresh : IsFresh (dummy_state s)
    unfolding dummy_state add_dummy
    dummy_state-IsFresh d less = elim (Bool-cases (same_text new_word (dummy_word d))) [
      | inl e ↦
          let same =
            dummy_word-injective s.ctx.dummy_size d ((same_text_iff new_word (dummy_word d)).0 e) in
          absurd (omega (arith, same, less))
      | inr e ↦ find-insert (dummy_word d) ∙ rw e (fresh d (omega (arith, less)))
    ]

  -- The index, with names to come, and what the placeholders have no part in.
  abbrev Kept : Enclave → Unit {0} × Enclave → Type 0
  Kept s (u, s') = Index s' × IsFresh s' × (parts s' ≡ parts s) × (s'.ctx.ck ≡ s.ctx.ck)

  dummy_state-parts :
      (s : Enclave) → (parts (dummy_state s) ≡ parts s) × ((dummy_state s).ctx.ck ≡ s.ctx.ck)
  unfolding dummy_state add_dummy store_bitmap
  dummy_state-parts s = (refl, refl)

  batch-step :
      (n : ℕ) (s : Enclave) → append_batch sgx (suc n) s ≡ append_batch sgx n (dummy_state s)
  unfolding append_batch add_dummies dummy_entries store_bitmap dummy_state
  batch-step n s = refl

  append_batch-Kept :
      (n : ℕ) (s : Enclave) → Index s → IsFresh s → Ends false (Kept s) (append_batch sgx n s)
  append_batch-Kept zero s h fresh =
      unfold append_batch add_dummies dummy_entries store_bitmap in (h, fresh, refl, refl)
  append_batch-Kept (suc n) s h fresh = rw (batch-step n s) (
      Ends-mono false (Kept (dummy_state s)) (Kept s) (append_batch sgx n (dummy_state s))
        (append_batch-Kept n (dummy_state s) (dummy_state-Indexes h fresh)
          (dummy_state-IsFresh h fresh))
        (λ (u, s') k.
          let (same, cache) = dummy_state-parts s in (k.0, k.1, k.2 ∙ same, k.3 ∙ cache)))

  append_rounds-Kept :
      (fuel count : ℕ) (s : Enclave)
      → Index s
      → IsFresh s
      → count ≤ fuel
      → Ends false (Kept s) (append_rounds sgx fuel count s)
  unfolding append_rounds
  append_rounds-Kept fuel zero s h fresh k = (h, fresh, refl, refl)
  append_rounds-Kept zero (suc count) s h fresh k = absurd (omega (arith, k))
  append_rounds-Kept (suc fuel) (suc count) s h fresh k =
      let n : ℕ = min (suc count) per_round_size in
      Ends-bind false (Kept s) (Kept s) (append_batch sgx n s)
        (λ (u, s'). append_rounds sgx fuel (suc count - n) s') (append_batch-Kept n s h fresh)
        (λ (u, s') (h', fresh', same, cache).
          Ends-mono false (Kept s') (Kept s) (append_rounds sgx fuel (suc count - n) s')
            (append_rounds-Kept fuel (suc count - n) s' h' fresh' (omega (arith, k)))
            (λ (v, s'') k. (k.0, k.1, k.2 ∙ same, k.3 ∙ cache)))

  -- Where no name of a placeholder from the counter on is a keyword that is known, and no two
  -- labels meet: any number of placeholders is appended, in batches of at most 100, and the index
  -- stands for the same posting lists, with names still to come.
  pub append_dummy_keywords-Indexes :
      (count : ℕ) (s : Enclave)
      → Index s
      → IsFresh s
      → Ends false
          (λ (u, s'). Index s' × IsFresh s' × (parts s' ≡ parts s) × (s'.ctx.ck ≡ s.ctx.ck))
          (append_dummy_keywords sgx count s)
  unfolding append_dummy_keywords
  append_dummy_keywords-Indexes count s h fresh =
      append_rounds-Kept count count s h fresh (omega arith)
