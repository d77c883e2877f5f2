-- ===== src/Enclave/Docs/Aside.antt =====
-- The parts of the state that the document slots are made of, beside the keyword index: Search and
-- what it calls.
use veil_db.Base.{
  ℕ, zero, suc, ◌-◌, ◌%◌, ◌≡◌, refl, ap, sym, ◌∙◌, List, [], ◌∷◌, length, get_elem?, Option, none,
  some, Bool, true, false, Bool-cases, Option-cases, inl, inr, Outcome, ok, threw, fault, stuck,
  bind, no_keywords, Ensures, Ensures-mono, Ends, ltb, leb, ◌==◌,
}
use veil_db.Base.Assoc.{Assoc, find, keys}
use veil_db.Enclave.Bitset.{Bitset, no_bits}
use veil_db.Enclave.Sgx.{Sgx}
use veil_db.Enclave.Context.{CachedDocSlot, ClientContext, Enclave, Run, ◌>>=◌, pure, raise}
use veil_db.Enclave.Keywords.{
  bitmap_label, bitmap_key, decrypt_bitmap_cipher, load_bitmap_from_storage, spill_word,
  spill_words, store_bitmap_batch, words_without, sample, shrink_cache, pick_attempts,
  pick_random_uncached_word, cache_bitmap, load_companion, search_branch, search_keyword,
}
use veil_db.Enclave.Docs.{doc_label}
use veil_db.Enclave.Docs.Slots.{IsSlotId, Holds}
use veil_db.Host.Storage.{EncDatabase, load_bitmap, store_bitmap}

-- What the document slots are made of, and the limit of a SELECT.
abbrev pub Parts : Type 0
Parts = List ℕ × Assoc CachedDocSlot × Assoc (List ℕ) × ℕ

abbrev pub parts : Enclave → Parts
parts s = (s.ctx.key, s.ctx.doc_ck, s.edb.docs, s.ctx.retrieval_limit)

abbrev pub Keeping : {A : Type 0} → Enclave → Outcome (A × Enclave) → Type 0
Keeping s m = Ensures (λ (a, s'). parts s' ≡ parts s) m

pub Keeping-bind :
    {A B : Type 0} (s : Enclave) (m : Outcome (A × Enclave))
    (f : A × Enclave → Outcome (B × Enclave))
    → Keeping s m
    → ((a : A) (s' : Enclave) → Keeping s' (f (a, s')))
    → Keeping s (bind m f)
Keeping-bind s (ok (a, s')) f h k =
    Ensures-mono (λ (b, s''). parts s'' ≡ parts s') (λ (b, s''). parts s'' ≡ parts s) (f (a, s'))
      (k a s') (λ (b, s'') e. e ∙ h)
Keeping-bind s (threw e) f h k = tt
Keeping-bind s fault f h k = tt
Keeping-bind s stuck f h k = tt

-- What is shown of a value that is returned, and what is kept.
pub Ends-Keeping :
    {A : Type 0} (t : Bool) (P Q : A × Enclave → Type 0) (s : Enclave) (m : Outcome (A × Enclave))
    → Ends t P m
    → Keeping s m
    → ((a : A) (s' : Enclave) → P (a, s') → parts s' ≡ parts s → Q (a, s'))
    → Ends t Q m
Ends-Keeping t P Q s (ok (a, s')) h e k = k a s' h e
Ends-Keeping t P Q s (threw x) h e k = h
Ends-Keeping t P Q s fault h e k = elim h [ ]
Ends-Keeping t P Q s stuck h e k = elim h [ ]

-- A choice between two ways to go on.
pub option-Keeping :
    {A B : Type 0} (o : Option A) (n : Run B) (f : A → Run B) (s : Enclave)
    → Keeping s (n s)
    → ((a : A) → Keeping s (f a s))
    → Keeping s ((elim o as (λ _. Run B) [ none ↦ n | some a ↦ f a ]) s)
option-Keeping none n f s h k = h
option-Keeping (some a) n f s h k = k a

pub bool-Keeping :
    {B : Type 0} (b : Bool) (f g : Run B) (s : Enclave)
    → Keeping s (f s)
    → Keeping s (g s)
    → Keeping s ((elim b as (λ _. Run B) [ true ↦ f | false ↦ g ]) s)
bool-Keeping true f g s h k = h
bool-Keeping false f g s h k = k

sample-Keeping : (ws : List (List ℕ)) (n : ℕ) (s : Enclave) → Keeping s (sample ws n s)
unfolding sample
sample-Keeping [] n s = refl
sample-Keeping (x ∷ xs) zero s = refl
sample-Keeping (x ∷ xs) (suc n) s =
    let s' : Enclave = record s { random = λ j. s.random (suc j) } in
    elim (Bool-cases (ltb (s.random 0 % suc (length xs)) (suc n))) [
      | inl e ↦
          rw (e, Ensures)
            (Keeping-bind s' (sample xs n s') (λ (us, s''). ok (x ∷ us, s''))
              (sample-Keeping xs n s') (λ us s''. refl))
      | inr e ↦ rw (e, Ensures) (sample-Keeping xs (suc n) s')
    ]

pick_attempts-Keeping : (n : ℕ) (c : ClientContext) (s : Enclave) → Keeping s (pick_attempts n c s)
unfolding pick_attempts
pick_attempts-Keeping zero c s = refl
pick_attempts-Keeping (suc n) c s =
    let s' : Enclave = record s { random = λ j. s.random (suc j) } in
    elim (Option-cases (get_elem? c.words_kvs (s.random 0 % length c.words_kvs))) [
      | inl e ↦ rw (e, Ensures) tt
      | inr (w, e) ↦ elim (Option-cases (find w c.ck)) [
        | inl f ↦ rw (e, f, Ensures) refl
        | inr (bm, f) ↦ rw (e, f, Ensures) (pick_attempts-Keeping n c s')
      ]
    ]

pub pick_random_uncached_word-Keeping : (s : Enclave) → Keeping s (pick_random_uncached_word s)
unfolding pick_random_uncached_word
pick_random_uncached_word-Keeping s = elim (Bool-cases (length s.ctx.words_kvs == 0)) [
  | inl e ↦ rw (e, Ensures) refl
  | inr e ↦ elim (Bool-cases (leb (length s.ctx.words_kvs) (length s.ctx.ck))) [
    | inl f ↦ rw (e, f, Ensures) refl
    | inr f ↦ rw (e, f, Ensures) (pick_attempts-Keeping 256 s.ctx s)
  ]
]

pub cache_bitmap-Keeping :
    (w : List ℕ) (bm : Bitset) (s : Enclave) → Keeping s (cache_bitmap w bm s)
unfolding cache_bitmap
cache_bitmap-Keeping w bm s = refl

load_bitmap-docs : (label : List ℕ) (edb : EncDatabase) → (load_bitmap label edb).1.docs ≡ edb.docs
unfolding load_bitmap
load_bitmap-docs label edb = elim (Option-cases (find label edb.bitmaps)) [
  | inl e ↦ rw (e, load_bitmap) refl
  | inr (c, e) ↦ rw (e, load_bitmap) refl
]

module _ (sgx : Sgx) where
  spill_words-parts :
      (ws : List (List ℕ)) (c : ClientContext)
      → ((spill_words sgx ws c).key ≡ c.key)
        × ((spill_words sgx ws c).doc_ck ≡ c.doc_ck)
        × ((spill_words sgx ws c).retrieval_limit ≡ c.retrieval_limit)
  unfolding spill_words spill_word
  spill_words-parts [] c = (refl, refl, refl)
  spill_words-parts (w ∷ ws) c = spill_words-parts ws (spill_word sgx w c)

  pub store_bitmap_batch-Keeping :
      (ws : List (List ℕ)) (s : Enclave) → Keeping s (store_bitmap_batch sgx ws s)
  unfolding store_bitmap_batch store_bitmap
  store_bitmap_batch-Keeping ws s = let (k, d, l) = spill_words-parts ws s.ctx in rw (k, d, l) refl

  pub load_bitmap_from_storage-Keeping :
      (w : List ℕ) (v : ℕ) (s : Enclave) → Keeping s (load_bitmap_from_storage sgx w v s)
  unfolding load_bitmap_from_storage
  load_bitmap_from_storage-Keeping w v s = lifted (
      decrypt_bitmap_cipher sgx (load_bitmap (bitmap_label sgx s.ctx.key w v) s.edb).0
        (bitmap_key sgx s.ctx.key w v))
    where
      lifted :
          (m : Outcome Bitset)
          → Keeping s (
              bind m (λ a.
                ok (a, record s { edb = (load_bitmap (bitmap_label sgx s.ctx.key w v) s.edb).1 })))
      lifted (ok a) =
          ap (λ (d : Assoc (List ℕ)). (s.ctx.key, s.ctx.doc_ck, d, s.ctx.retrieval_limit))
            (load_bitmap-docs (bitmap_label sgx s.ctx.key w v) s.edb)
      lifted (threw e) = tt
      lifted fault = tt
      lifted stuck = tt

  pub shrink_cache-Keeping : (w : List ℕ) (s : Enclave) → Keeping s (shrink_cache sgx w s)
  unfolding shrink_cache
  shrink_cache-Keeping w s = elim (Bool-cases (leb (length s.ctx.ck) s.ctx.ck_max)) [
    | inl e ↦ rw (e, Ensures) refl
    | inr e ↦
        let ws : List (List ℕ) = words_without w (keys s.ctx.ck) in
        let n : ℕ = length s.ctx.ck - s.ctx.ck_max in
        rw (e, Ensures)
          (Keeping-bind s (sample ws n s) (λ (us, s'). store_bitmap_batch sgx us s')
            (sample-Keeping ws n s) (λ us s'. store_bitmap_batch-Keeping us s'))
  ]

  load_companion-Keeping : (w : List ℕ) (s : Enclave) → Keeping s (load_companion sgx w s)
  unfolding load_companion cache_bitmap
  load_companion-Keeping w s = elim (Option-cases (find w s.ctx.kvs)) [
    | inl e ↦ rw (e, Ensures) tt
    | inr (v, e) ↦
        rw (e, Ensures)
          (Keeping-bind s (load_bitmap_from_storage sgx w v s)
            (λ (bm, s'). bind (cache_bitmap w bm s') (λ (u, s''). ok (bm, s'')))
            (load_bitmap_from_storage-Keeping w v s) (λ bm s'. refl))
  ]

  search_branch-Keeping :
      (w : List ℕ) (known : Option ℕ) (cached : Option Bitset) (s : Enclave)
      → Keeping s (search_branch sgx w known cached s)
  unfolding search_branch
  search_branch-Keeping w none cached s =
      Keeping-bind s (pick_random_uncached_word s)
        (λ (picked, s').
          (elim picked as (λ _. Run Bitset) [ none ↦ raise no_keywords | some u ↦ pure no_bits ])
            s')
        (pick_random_uncached_word-Keeping s)
        (λ picked s'.
          option-Keeping picked (raise no_keywords) (λ u. pure no_bits) s' tt (λ u. refl))
  search_branch-Keeping w (some v) none s = load_companion-Keeping w s
  search_branch-Keeping w (some v) (some bm) s =
      Keeping-bind s (pick_random_uncached_word s)
        (λ (picked, s').
          (elim picked as (λ _. Run Bitset) [
            | none ↦ raise no_keywords
            | some u ↦ load_companion sgx u >>= (λ ignored. pure bm)
          ])
            s')
        (pick_random_uncached_word-Keeping s)
        (λ picked s'.
          option-Keeping picked (raise no_keywords)
            (λ u. load_companion sgx u >>= (λ ignored. pure bm)) s' tt
            (λ u.
              Keeping-bind s' (load_companion sgx u s') (λ (b, s''). ok (bm, s''))
                (load_companion-Keeping u s') (λ b s''. refl)))

  pub search_keyword-Keeping : (w : List ℕ) (s : Enclave) → Keeping s (search_keyword sgx w s)
  unfolding search_keyword
  search_keyword-Keeping w s =
      Keeping-bind s (search_branch sgx w (find w s.ctx.kvs) (find w s.ctx.ck) s)
        (λ (res, s'). bind (shrink_cache sgx w s') (λ (u, s''). ok (res, s'')))
        (search_branch-Keeping w (find w s.ctx.kvs) (find w s.ctx.ck) s)
        (λ res s'.
          Keeping-bind s' (shrink_cache sgx w s') (λ (u, s''). ok (res, s''))
            (shrink_cache-Keeping w s') (λ u s''. refl))

  module _ (key : List ℕ)
      (apart : (a b : List ℕ)
        → IsSlotId a
        → IsSlotId b
        → doc_label sgx key a ≡ doc_label sgx key b
        → a ≡ b)
      -- what the slots have no part in, before and after
      (Before After : Enclave → Type 0)
      (before-kept : (s : Enclave) (doc_ck : Assoc CachedDocSlot) (versions : ℕ → ℕ)
          (docs : Assoc (List ℕ)) (random : ℕ → ℕ)
        → Before s
        → Before (record s {
          ctx = record s.ctx { doc_ck = doc_ck; doc_slot_version = versions };
          edb = record s.edb { docs = docs };
          random = random;
        }))
      (after-kept : (s : Enclave) (doc_ck : Assoc CachedDocSlot) (versions : ℕ → ℕ)
          (docs : Assoc (List ℕ)) (random : ℕ → ℕ)
        → After s
        → After (record s {
          ctx = record s.ctx { doc_ck = doc_ck; doc_slot_version = versions };
          edb = record s.edb { docs = docs };
          random = random;
        })) where
    -- The slots stand for the same map where their parts are the same.
    pub Holds-parts :
        (docs : List ℕ → CachedDocSlot) (s s' : Enclave)
        → Holds sgx key apart Before before-kept docs s
        → parts s' ≡ parts s
        → After s'
        → Holds sgx key apart After after-kept docs s'
    Holds-parts docs s s' h e aside = record {
      keyed = ap (λ (t : Parts). t.0) e ∙ h.keyed;
      known = λ id slot f. h.known id slot (ap (λ (t : Parts). find id t.1) (sym e) ∙ f);
      cached = λ id slot f. h.cached id slot (ap (λ (t : Parts). find id t.1) (sym e) ∙ f);
      stored = λ id is f.
          let (c, g, o) = h.stored id is (ap (λ (t : Parts). find id t.1) (sym e) ∙ f) in
          (c, ap (λ (t : Parts). find (doc_label sgx key id) t.2) e ∙ g, o);
      fitting = h.fitting;
      aside = aside;
    }
