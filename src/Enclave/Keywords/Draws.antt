-- ===== src/Enclave/Keywords/Draws.antt =====
-- The random choices: std::sample in the eviction, and pick_random_uncached_word.
use veil_db.Base.{
  ℕ, zero, suc, ◌%◌, ◌<◌, ◌≡◌, refl, List, [], ◌∷◌, Option, none, some, Bool, true, false, arith,
  length, All, get_elem?, ok, Ends, Ends-bind, ltb, leb, ◌==◌, same_text, same_text_iff, Bool-cases,
  Option-cases, inl, inr,
}
use veil_db.Base.Assoc.{Assoc, find, keys, Distinct}
use veil_db.Enclave.Bitset.{Bitset}
use veil_db.Enclave.Context.{ClientContext, Enclave}
use veil_db.Enclave.Keywords.{
  pick_attempts, pick_random_uncached_word, remove_word, sample, is_some,
}

-- Lists of words: what holds of all of them, and that none stands twice.
pub All-map :
    (P Q : List ℕ → Type 0) (ws : List (List ℕ)) → ((w : List ℕ) → P w → Q w) → All P ws → All Q ws
All-map P Q [] f h = tt
All-map P Q (w ∷ ws) f h = (f w h.0, All-map P Q ws f h.1)

All-both :
    (P Q : List ℕ → Type 0) (ws : List (List ℕ)) → All P ws → All Q ws → All (λ w. P w × Q w) ws
All-both P Q [] h k = tt
All-both P Q (w ∷ ws) h k = ((h.0, k.0), All-both P Q ws h.1 k.1)

pub All-remove_word :
    (P : List ℕ → Type 0) (w : List ℕ) (ws : List (List ℕ)) → All P ws → All P (remove_word w ws)
unfolding remove_word
All-remove_word P w [] h = tt
All-remove_word P w (x ∷ xs) h = elim (Bool-cases (same_text x w)) [
  | inl e ↦ rw (e, All) (All-remove_word P w xs h.1)
  | inr e ↦ rw (e, All) (h.0, All-remove_word P w xs h.1)
]

pub Distinct-remove_word :
    (w : List ℕ) (ws : List (List ℕ)) → Distinct ws → Distinct (remove_word w ws)
unfolding remove_word
Distinct-remove_word w [] h = tt
Distinct-remove_word w (x ∷ xs) h = elim (Bool-cases (same_text x w)) [
  | inl e ↦ rw (e, Distinct) (Distinct-remove_word w xs h.1)
  | inr e ↦ rw (e, Distinct) (All-remove_word _ w xs h.0, Distinct-remove_word w xs h.1)
]

pub All-keys : (m : Assoc Bitset) → All (λ w. is_some (find w m) ≡ true) (keys m)
unfolding find keys
All-keys [] = tt
All-keys ((j, bm) ∷ m) = (
  ground (arith, same_text_iff j j),
  All-map _ _ (keys m) (λ w h. ground (arith, h)) (All-keys m),
)

get_elem?-some :
    (i : ℕ) (ws : List (List ℕ)) → i < length ws → (w : List ℕ) × (get_elem? ws i ≡ some w)
get_elem?-some i [] h = absurd (omega arith)
get_elem?-some zero (w ∷ ws) h = (w, refl)
get_elem?-some (suc i) (w ∷ ws) h = get_elem?-some i ws (omega arith)

-- The word that is picked is not cached.
abbrev pub IsUncached : Assoc Bitset → Option (List ℕ) → Type 0
IsUncached ck none = Unit
IsUncached ck (some w) = find w ck ≡ none

-- A predicate that the drawing of numbers does not change.
module _ (I : Enclave → Type 0)
    (redrawn : (s : Enclave) (r : ℕ → ℕ) → I s → I (record s { random = r })) where
  -- The words that sample returns are distinct ones of those that it was given.
  pub sample-Ends :
      (P : List ℕ → Type 0) (ws : List (List ℕ)) (n : ℕ) (s : Enclave)
      → I s
      → Distinct ws
      → All P ws
      → Ends false (λ (us, s'). I s' × Distinct us × All P us) (sample ws n s)
  unfolding sample
  sample-Ends P [] n s i d h = (i, tt, tt)
  sample-Ends P (x ∷ xs) zero s i d h = (i, tt, tt)
  sample-Ends P (x ∷ xs) (suc n) s i d h =
      let s' : Enclave = record s { random = λ j. s.random (suc j) } in
      elim (Bool-cases (ltb (s.random 0 % suc (length xs)) (suc n))) [
        | inl e ↦
            rw (e, Ends)
              (Ends-bind false _ _ (sample xs n s') (λ (us, s'). ok (x ∷ us, s'))
                (sample-Ends (λ w. P w × (same_text w x ≡ false)) xs n s' (redrawn s _ i) d.1
                  (All-both P _ xs h.1 d.0))
                (λ (us, s'') k. (
                  k.0,
                  (All-map _ _ us (λ w b. b.1) k.2, k.1),
                  (h.0, All-map _ _ us (λ w b. b.0) k.2),
                )))
        | inr e ↦ rw (e, Ends) (sample-Ends P xs (suc n) s' (redrawn s _ i) d.1 h.1)
      ]

  pick_attempts-Ends :
      (t : Bool) (n : ℕ) (c : ClientContext) (s : Enclave)
      → I s
      → 0 < length c.words_kvs
      → Ends t (λ (w, s'). I s' × IsUncached c.ck w) (pick_attempts n c s)
  unfolding pick_attempts
  pick_attempts-Ends t zero c s i h = (i, tt)
  pick_attempts-Ends t (suc n) c s i h =
      let (w, e) = get_elem?-some (s.random 0 % length c.words_kvs) c.words_kvs (omega arith) in
      elim (Option-cases (find w c.ck)) [
        | inl f ↦ rw (e, f, Ends) (redrawn s _ i, f)
        | inr (bm, f) ↦
            rw (e, f, Ends)
              (pick_attempts-Ends t n c (record s { random = λ j. s.random (suc j) })
                (redrawn s _ i) h)
      ]

  pub pick_random_uncached_word-Ends :
      (t : Bool) (s : Enclave)
      → I s
      → Ends t (λ (w, s'). I s' × IsUncached s.ctx.ck w) (pick_random_uncached_word s)
  unfolding pick_random_uncached_word
  pick_random_uncached_word-Ends t s i = elim (Bool-cases (length s.ctx.words_kvs == 0)) [
    | inl e ↦ rw (e, Ends) (i, tt)
    | inr e ↦ elim (Bool-cases (leb (length s.ctx.words_kvs) (length s.ctx.ck))) [
      | inl f ↦ rw (e, f, Ends) (i, tt)
      | inr f ↦ rw (e, f, Ends) (pick_attempts-Ends t 256 s.ctx s i (ground arith))
    ]
  ]
