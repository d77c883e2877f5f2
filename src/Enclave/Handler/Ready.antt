-- ===== src/Enclave/Handler/Ready.antt =====
-- The steps of handle_update on an empty cache of bitmaps, as it is after ecall_update_init.
use veil_db.Base.{
  [], ok, if◌then◌else◌, ◌∷◌, Outcome, threw, fault, stuck, ℕ, ◌+◌, ◌-◌, ◌%◌, ◌≤◌, ◌<◌, ◌≡◌, refl,
  ◌∙◌, List, Bool, false, ltb, ◌==◌, ◌||◌, Bool-cases, inl, inr, Ends, Ends-mono, All, arith,
}
use veil_db.Base.Assoc.{Assoc}
use veil_db.Enclave.Bitset.{Bitset, no_bits, set_bit, total_file_no}
use veil_db.Enclave.Sgx.{Sgx}
use veil_db.Enclave.Context.{CachedDocSlot, Enclave, ◌>>=◌, lift, pure}
use veil_db.Enclave.Keywords.Index.{Apart, Indexes}
use veil_db.Enclave.Update.{dummy_word, update_words, update_keywords, word_tokenize}
use veil_db.Enclave.Update.Empty.{Idle, overwritten, update_words-Idle}
use veil_db.Enclave.Docs.{doc_label}
use veil_db.Enclave.Docs.Aside.{parts, Holds-parts}
use veil_db.Enclave.Docs.Slots.{IsSlotId, Holds}
use veil_db.Enclave.Init.{append_dummy_keywords}
use veil_db.Enclave.Init.Placeholders.{IsFresh, append_dummy_keywords-Indexes}
use veil_db.Enclave.Request.Documents.{Indexes-kept}
use veil_db.Enclave.Handler.{replenish}

-- The words that wordTokenize gives, if it returns.
abbrev pub words_of : Outcome (List (List ℕ)) → List (List ℕ)
words_of (ok ws) = ws
words_of (threw e) = []
words_of fault = []
words_of stuck = []

module _ (sgx : Sgx) (key : List ℕ) (IsClear IsBlank : List ℕ → Type 0)
    (apart : Apart sgx key IsClear IsBlank)
    (doc_apart : (a b : List ℕ)
      → IsSlotId a
      → IsSlotId b
      → doc_label sgx key a ≡ doc_label sgx key b
      → a ≡ b)
    (clear_dummy : (d : ℕ) → IsClear (dummy_word d))
    (blank_dummy : (d : ℕ) → IsBlank (dummy_word d)) where
  abbrev pub Aside : (List ℕ → Bitset) → Bitset → Enclave → Type 0
  Aside postings all = Idle sgx key IsClear IsBlank apart all postings

  abbrev pub aside-kept :
      (postings : List ℕ → Bitset) (all : Bitset) (s : Enclave) (doc_ck : Assoc CachedDocSlot)
      (versions : ℕ → ℕ) (docs : Assoc (List ℕ)) (random : ℕ → ℕ)
      → Aside postings all s
      → Aside postings all (record s {
        ctx = record s.ctx { doc_ck = doc_ck; doc_slot_version = versions };
        edb = record s.edb { docs = docs };
        random = random;
      })
  aside-kept postings all s doc_ck versions docs random (h, empty, fresh) = (
    Indexes-kept sgx key IsClear IsBlank apart postings all s doc_ck versions docs random h,
    empty,
    fresh,
  )

  -- The state stands for posting lists and documents, and no bitmap is cached.
  abbrev pub Ready : (List ℕ → Bitset) → Bitset → (List ℕ → CachedDocSlot) → Enclave → Type 0
  Ready postings all docs =
      Holds sgx key doc_apart (Aside postings all) (aside-kept postings all) docs

  pub replace_aside :
      (p p' : List ℕ → Bitset) (all all' : Bitset) (docs : List ℕ → CachedDocSlot) (s s' : Enclave)
      → Ready p all docs s
      → parts s' ≡ parts s
      → Aside p' all' s'
      → Ready p' all' docs s'
  replace_aside p p' all all' docs s s' h kept a =
      Holds-parts sgx key doc_apart (Aside p all) (Aside p' all') (aside-kept p all)
        (aside-kept p' all') docs s s' h kept a

  counted-Indexes :
      (p : List ℕ → Bitset) (all : Bitset) (s : Enclave) (n : ℕ)
      → Indexes sgx key IsClear IsBlank apart p all s
      → Indexes sgx key IsClear IsBlank apart p all
          (record s { ctx = record s.ctx { dummy_replenish_counter = n } })
  counted-Indexes p all s n h = record {
    occupied = h.occupied;
    keyed = h.keyed;
    cached = h.cached;
    versioned = h.versioned;
    stored = h.stored;
    absent = h.absent;
    blank = h.blank;
    clear = h.clear;
    distinct = h.distinct;
    sized = h.sized;
  }

  pub marked-Indexes :
      (p : List ℕ → Bitset) (all all' : Bitset) (s : Enclave) (n : ℕ)
      → Indexes sgx key IsClear IsBlank apart p all s
      → Indexes sgx key IsClear IsBlank apart p all'
          (record s { ctx = record s.ctx { all_docs = all'; endof_doc_id = n } })
  marked-Indexes p all all' s n h = record {
    occupied = refl;
    keyed = h.keyed;
    cached = h.cached;
    versioned = h.versioned;
    stored = h.stored;
    absent = h.absent;
    blank = h.blank;
    clear = h.clear;
    distinct = h.distinct;
    sized = h.sized;
  }

  module _ (fuel : ℕ) where
    pub replenish-Ready :
        (p : List ℕ → Bitset) (all : Bitset) (docs : List ℕ → CachedDocSlot) (s : Enclave)
        → Ready p all docs s
        → Ends false (λ (u, s'). Ready p all docs s') (replenish sgx fuel s)
    unfolding replenish
    replenish-Ready p all docs s h =
        let n : ℕ = s.ctx.dummy_replenish_counter + 1 in
        let s₁ : Enclave = record s { ctx = record s.ctx { dummy_replenish_counter = n } } in
        let (index, empty, fresh) = h.aside in
        let index₁ : Indexes sgx key IsClear IsBlank apart p all s₁ =
          counted-Indexes p all s n index in
        elim (Bool-cases (n % 20 == 0)) [
          | inl e ↦
              rw (e, Ends)
                (Ends-mono false
                  (λ (r : Unit {0} × Enclave).
                    Indexes sgx key IsClear IsBlank apart p all r.1
                    × IsFresh sgx key IsClear IsBlank apart clear_dummy p all r.1
                    × (parts r.1 ≡ parts s₁)
                    × (r.1.ctx.ck ≡ s₁.ctx.ck))
                  (λ (u, s'). Ready p all docs s') (append_dummy_keywords sgx 1 s₁)
                  (append_dummy_keywords-Indexes sgx key IsClear IsBlank apart clear_dummy p all 1
                    s₁ index₁ fresh)
                  (λ (u, s') (index', fresh', same, cache).
                    replace_aside p p all all docs s s' h same (index', cache ∙ empty, fresh')))
          | inr e ↦ rw (e, Ends) (replace_aside p p all all docs s s₁ h refl (index₁, empty, fresh))
        ]

    -- A document number in range.
    abbrev pub InRange : ℕ → Type 0
    InRange n = (0 < n) × (n ≤ total_file_no)

    -- The keywords of an index: strtok ends on it, and none of them is a placeholder.
    abbrev pub Words : List ℕ → Type 0
    Words [] = Unit
    Words (c ∷ cs) = Ends false (All (λ w. IsClear w × ¬ IsBlank w)) (word_tokenize (c ∷ cs))

    in_range : (n : ℕ) → InRange n → (n == 0) || ltb total_file_no n ≡ false
    in_range n (h, k) = ground (arith, h, k)

    tokenized-Ready :
        (p : List ℕ → Bitset) (all : Bitset) (docs : List ℕ → CachedDocSlot) (s : Enclave) (n : ℕ)
        (add : Bool) (m : Outcome (List (List ℕ)))
        → InRange n
        → Ends false (All (λ w. IsClear w × ¬ IsBlank w)) m
        → Ready p all docs s
        → Ends false
            (λ (u, s').
              Ready (overwritten (words_of m) (set_bit no_bits (n - 1) add) p) all docs s')
            ((lift m >>= λ words.
                if (n == 0) || ltb total_file_no n
                then pure tt
                else update_words sgx (n - 1) add fuel words)
              s)
    tokenized-Ready p all docs s n add (ok ws) range words h =
        rw (in_range n range, Ends)
          (Ends-mono false _ _ (update_words sgx (n - 1) add fuel ws s)
            (update_words-Idle sgx key IsClear IsBlank apart all blank_dummy (n - 1) add
              (omega (arith, range.0, range.1)) fuel ws p s words h.aside)
            (λ (u, s') (idle, kept). replace_aside p _ all all docs s s' h kept idle))
    tokenized-Ready p all docs s n add (threw e) range words h = cc
    tokenized-Ready p all docs s n add fault range words h = elim words [ ]
    tokenized-Ready p all docs s n add stuck range words h = elim words [ ]

    pub keywords-Ready :
        (p : List ℕ → Bitset) (all : Bitset) (docs : List ℕ → CachedDocSlot) (s : Enclave) (n : ℕ)
        (add : Bool) (content : List ℕ)
        → InRange n
        → Ends false (All (λ w. IsClear w × ¬ IsBlank w)) (word_tokenize content)
        → Ready p all docs s
        → Ends false
            (λ (u, s').
              Ready
                (overwritten (words_of (word_tokenize content)) (set_bit no_bits (n - 1) add) p)
                all
                docs
                s')
            (update_keywords sgx fuel n add content s)
    unfolding update_keywords
    keywords-Ready p all docs s n add content range words h =
        tokenized-Ready p all docs s n add (word_tokenize content) range words h
