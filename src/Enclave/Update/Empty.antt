-- ===== src/Enclave/Update/Empty.antt =====
-- CryptoEnclave.cpp: the rounds of UpdateKeywords on an empty cache of bitmaps.
use veil_db.Base.{
  ℕ, ◌≤◌, ◌<◌, ◌≡◌, refl, ap, sym, ◌∙◌, subst, fun_ext, List, [], ◌∷◌, length, none, Bool, true,
  false, ◌==◌, if◌then◌else◌, same_text, same_text_iff, Bool-cases, inl, inr, ok, Ends, Ends-bind,
  Ends-mono, All, Outcome, threw, fault, stuck,
}
use veil_db.Base.Assoc.{find, assign, erase, find-assign}
use veil_db.Enclave.Bitset.{Bitset, no_bits, set_bit, total_file_no}
use veil_db.Enclave.Sgx.{Sgx}
use veil_db.Enclave.Context.{Enclave}
use veil_db.Enclave.Keywords.{spill_words, spill_word, store_bitmap_batch}
use veil_db.Enclave.Keywords.Index.{Apart, Indexes}
use veil_db.Enclave.Update.{add_word, update_word, update_words, dummy_word}
use veil_db.Enclave.Update.Index.{replaced, update_word-empty}
use veil_db.Enclave.Docs.Aside.{parts}
use veil_db.Enclave.Retrieve.{has_id}
use veil_db.Host.Storage.{store_bitmap}

-- The cache after a word has entered an empty one and has been stored.
erase-assign_empty : (w : List ℕ) (bm : Bitset) → erase w (assign w bm []) ≡ []
unfolding erase assign
erase-assign_empty w bm = rw ((same_text_iff w w).1 refl) refl

-- What is left of the parts of the state by a round: the cache empty, the slots, the placeholders
-- and their counter as they were, and the words of KVS that are not the word of the round.
abbrev pub Left : List ℕ → Enclave → Enclave → Type 0
Left w s s' =
    (s'.ctx.ck ≡ [])
    × (parts s' ≡ parts s)
    × (s'.ctx.dummy_size ≡ s.ctx.dummy_size)
    × ((u : List ℕ) → same_text w u ≡ false → find u s'.ctx.kvs ≡ find u s.ctx.kvs)

module _ (sgx : Sgx) (bit : ℕ) (add : Bool) where
  update_word-Left :
      (fuel : ℕ) (w : List ℕ) (s : Enclave)
      → s.ctx.ck ≡ []
      → Ends false (λ (u, s'). Left w s s') (update_word sgx bit add fuel w s)
  unfolding update_word add_word store_bitmap_batch spill_words spill_word store_bitmap
  update_word-Left fuel w s e =
      let none_cached : length s.ctx.ck == 0 ≡ true = ap (λ m. length m == 0) e in
      rw (none_cached, Ends)
        (
          ap (λ m. erase w (assign w (set_bit no_bits bit add) m)) e
              ∙ erase-assign_empty w (set_bit no_bits bit add),
          refl,
          refl,
          λ u other.
              find-assign w u _ (assign w 1 s.ctx.kvs)
              ∙ rw other (find-assign w u 1 s.ctx.kvs ∙ rw other),
        )

-- Every posting list of a row of words is the same one.
abbrev pub overwritten : List (List ℕ) → Bitset → (List ℕ → Bitset) → List ℕ → Bitset
overwritten ws bm postings u = if has_id ws u then bm else postings u

overwritten-replaced :
    (w : List ℕ) (ws : List (List ℕ)) (bm : Bitset) (postings : List ℕ → Bitset) (u : List ℕ)
    → overwritten ws bm (replaced postings w bm) u ≡ overwritten (w ∷ ws) bm postings u
unfolding has_id
overwritten-replaced w ws bm postings u = elim (Bool-cases (same_text w u)) [
  | inl e ↦ elim (Bool-cases (has_id ws u)) [ inl f ↦ rw (e, f) | inr f ↦ rw (e, f) ]
  | inr e ↦ rw e
]

Ends-both :
    {A : Type 0} (t : Bool) (P Q : A → Type 0) (m : Outcome A)
    → Ends t P m
    → Ends t Q m
    → Ends t (λ a. P a × Q a) m
Ends-both t P Q (ok a) h k = (h, k)
Ends-both t P Q (threw e) h k = h
Ends-both t P Q fault h k = h
Ends-both t P Q stuck h k = h

module _ (sgx : Sgx) (key : List ℕ) (IsClear IsBlank : List ℕ → Type 0)
    (apart : Apart sgx key IsClear IsBlank) (all : Bitset) where
  -- The index, an empty cache, and names of placeholders to come.
  abbrev pub Idle : (List ℕ → Bitset) → Enclave → Type 0
  Idle postings s =
      Indexes sgx key IsClear IsBlank apart postings all s
      × (s.ctx.ck ≡ [])
      × ((d : ℕ) → s.ctx.dummy_size ≤ d → find (dummy_word d) s.ctx.kvs ≡ none)

module _ (sgx : Sgx) (key : List ℕ) (IsClear IsBlank : List ℕ → Type 0)
    (apart : Apart sgx key IsClear IsBlank) (all : Bitset)
    (blank_dummy : (d : ℕ) → IsBlank (dummy_word d)) (bit : ℕ) (add : Bool)
    (small : bit < total_file_no) where
  abbrev Quiet : (List ℕ → Bitset) → Enclave → Type 0
  Quiet = Idle sgx key IsClear IsBlank apart all

  update_word-Idle :
      (fuel : ℕ) (w : List ℕ) (postings : List ℕ → Bitset) (s : Enclave)
      → IsClear w
      → ¬ IsBlank w
      → Quiet postings s
      → Ends false
          (λ (u, s').
            Quiet (replaced postings w (set_bit no_bits bit add)) s' × (parts s' ≡ parts s))
          (update_word sgx bit add fuel w s)
  update_word-Idle fuel w postings s c nb (h, e, fresh) =
      Ends-mono false _ _ (update_word sgx bit add fuel w s)
        (Ends-both false _ _ (update_word sgx bit add fuel w s)
          (update_word-empty sgx key IsClear IsBlank apart postings all bit add small fuel w s c nb
            h (ap (λ m. length m == 0) e))
          (update_word-Left sgx bit add fuel w s e))
        (λ (u, s') (index, (empty, kept, size, others)). (
          (
            index,
            empty,
            λ d less.
                others (dummy_word d) (other_word w d nb) ∙ fresh d (subst (λ n. n ≤ d) size less),
          ),
          kept,
        ))
    where
      other_word : (w : List ℕ) (d : ℕ) → ¬ IsBlank w → same_text w (dummy_word d) ≡ false
      other_word w d nb = elim (Bool-cases (same_text w (dummy_word d))) [
        | inl e ↦
            absurd (nb (subst IsBlank (sym ((same_text_iff w (dummy_word d)).0 e)) (blank_dummy d)))
        | inr e ↦ e
      ]

  pub update_words-Idle :
      (fuel : ℕ) (ws : List (List ℕ)) (postings : List ℕ → Bitset) (s : Enclave)
      → All (λ w. IsClear w × ¬ IsBlank w) ws
      → Quiet postings s
      → Ends false
          (λ (u, s').
            Quiet (overwritten ws (set_bit no_bits bit add) postings) s' × (parts s' ≡ parts s))
          (update_words sgx bit add fuel ws s)
  unfolding update_words has_id
  update_words-Idle fuel [] postings s a h = (h, refl)
  update_words-Idle fuel (w ∷ ws) postings s a h =
      Ends-bind false _ _ (update_word sgx bit add fuel w s)
        (λ (u, s'). update_words sgx bit add fuel ws s')
        (update_word-Idle fuel w postings s a.0.0 a.0.1 h)
        (λ (u, s') (h', kept).
          Ends-mono false _ _ (update_words sgx bit add fuel ws s')
            (update_words-Idle fuel ws (replaced postings w (set_bit no_bits bit add)) s' a.1 h')
            (λ (v, s'') (h'', kept'). (
              subst (λ p. Quiet p s'')
                  (fun_ext (overwritten-replaced w ws (set_bit no_bits bit add) postings)) h'',
              kept' ∙ kept,
            )))
