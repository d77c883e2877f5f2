-- ===== src/Enclave/Retrieve/Access.antt =====
-- CryptoEnclave.cpp: one batch of materialize_access_ids.
use veil_db.Base.{
  ℕ, zero, suc, ◌≤◌, ◌<◌, ◌≡◌, refl, ap, ◌∙◌, List, [], ◌∷◌, length, take, drop, none, some, false,
  Option-cases, inl, inr, arith, same_text, All,
}
use veil_db.Base.Assoc.{Assoc, find, Distinct, same_text_symm}
use veil_db.Enclave.Context.{CachedDocSlot}
use veil_db.Enclave.Keywords.Draws.{All-map}
use veil_db.Enclave.Retrieve.{has_id, uncached_ids}

-- The cache has the slots of the ids, as they are in the map.
abbrev pub Cached : (List ℕ → CachedDocSlot) → Assoc CachedDocSlot → List (List ℕ) → Type 0
Cached docs doc_ck = All (λ id. find id doc_ck ≡ some (docs id))

-- Only slots of the given ids enter the cache, and only as they are in the map.
abbrev pub Widens :
    (List ℕ → CachedDocSlot) → List (List ℕ) → Assoc CachedDocSlot → Assoc CachedDocSlot → Type 0
Widens docs ids m m' =
    ((j : List ℕ) → find j m ≡ some (docs j) → find j m' ≡ some (docs j))
    × ((j : List ℕ) → has_id ids j ≡ false → find j m' ≡ find j m)

-- A list that is cut in two.
pub All-split :
    (P : List ℕ → Type 0) (n : ℕ) (ids : List (List ℕ))
    → All P ids
    → All P (take n ids) × All P (drop n ids)
All-split P zero ids h = (tt, h)
All-split P (suc n) [] h = (tt, tt)
All-split P (suc n) (x ∷ xs) h = let (a, b) = All-split P n xs h.1 in ((h.0, a), b)

pub All-join :
    (P : List ℕ → Type 0) (n : ℕ) (ids : List (List ℕ))
    → All P (take n ids)
    → All P (drop n ids)
    → All P ids
All-join P zero ids a b = b
All-join P (suc n) [] a b = tt
All-join P (suc n) (x ∷ xs) a b = (a.0, All-join P n xs a.1 b)

All-both :
    (P Q : List ℕ → Type 0) (ids : List (List ℕ)) → All P ids → All Q ids → All (λ j. P j × Q j) ids
All-both P Q [] a b = tt
All-both P Q (x ∷ xs) a b = ((a.0, b.0), All-both P Q xs a.1 b.1)

pub Distinct-split :
    (n : ℕ) (ids : List (List ℕ))
    → Distinct ids
    → Distinct (take n ids)
      × Distinct (drop n ids)
      × All (λ j. has_id (take n ids) j ≡ false) (drop n ids)
unfolding has_id
Distinct-split zero ids d = (tt, d, none_of ids)
  where
    none_of : (ids : List (List ℕ)) → All (λ j. has_id [] j ≡ false) ids
    none_of [] = tt
    none_of (x ∷ xs) = (refl, none_of xs)
Distinct-split (suc n) [] d = (tt, tt, tt)
Distinct-split (suc n) (x ∷ xs) d =
    let (a, b, c) = Distinct-split n xs d.1 in
    let (front, back) = All-split (λ y. same_text y x ≡ false) n xs d.0 in
    (
      (front, a),
      b,
      All-map (λ j. (same_text j x ≡ false) × (has_id (take n xs) j ≡ false))
          (λ j. has_id (x ∷ take n xs) j ≡ false) (drop n xs)
          (λ j (e, f). rw (same_text_symm x j ∙ e, f) refl) (All-both _ _ (drop n xs) back c),
    )

pub length-drop_suc :
    (n : ℕ) (x : List ℕ) (xs : List (List ℕ)) → 0 < n → length (drop n (x ∷ xs)) ≤ length xs
length-drop_suc zero x xs h = absurd (omega (arith, h))
length-drop_suc (suc n) x xs h = length-drop_le n xs
  where
    length-drop_le : (n : ℕ) (xs : List (List ℕ)) → length (drop n xs) ≤ length xs
    length-drop_le zero xs = omega arith
    length-drop_le (suc n) [] = omega arith
    length-drop_le (suc n) (x ∷ xs) = omega (arith, length-drop_le n xs)

-- The ids that are not cached.
pub uncached_ids-All :
    (P : List ℕ → Type 0) (ids : List (List ℕ)) (m : Assoc CachedDocSlot)
    → All P ids
    → All (λ id. P id × (find id m ≡ none)) (uncached_ids ids m)
unfolding uncached_ids
uncached_ids-All P [] m h = tt
uncached_ids-All P (x ∷ xs) m h = elim (Option-cases (find x m)) [
  | inl e ↦ rw (e, All) ((h.0, e), uncached_ids-All P xs m h.1)
  | inr (v, e) ↦ rw (e, All) (uncached_ids-All P xs m h.1)
]

pub uncached_ids-Distinct :
    (ids : List (List ℕ)) (m : Assoc CachedDocSlot) → Distinct ids → Distinct (uncached_ids ids m)
unfolding uncached_ids
uncached_ids-Distinct [] m d = tt
uncached_ids-Distinct (x ∷ xs) m d = elim (Option-cases (find x m)) [
  | inl e ↦
      rw (e, Distinct)
        (
          All-map _ (λ y. same_text y x ≡ false) (uncached_ids xs m) (λ y k. k.0)
              (uncached_ids-All _ xs m d.0),
          uncached_ids-Distinct xs m d.1,
        )
  | inr (v, e) ↦ rw (e, Distinct) (uncached_ids-Distinct xs m d.1)
]

-- What was cached, and what was not and is now.
pub uncached_ids-Cached :
    (docs : List ℕ → CachedDocSlot) (ids : List (List ℕ)) (m m' : Assoc CachedDocSlot)
    → ((j : List ℕ) (v : CachedDocSlot) → find j m ≡ some v → v ≡ docs j)
    → ((j : List ℕ) → find j m ≡ some (docs j) → find j m' ≡ some (docs j))
    → Cached docs m' (uncached_ids ids m)
    → Cached docs m' ids
unfolding uncached_ids
uncached_ids-Cached docs [] m m' is keeps h = tt
uncached_ids-Cached docs (x ∷ xs) m m' is keeps h = elim (Option-cases (find x m)) [
  | inl e ↦
      let k : Cached docs m' (x ∷ uncached_ids xs m) = rw (e, All) at h in
      (k.0, uncached_ids-Cached docs xs m m' is keeps k.1)
  | inr (v, e) ↦
      let k : Cached docs m' (uncached_ids xs m) = rw (e, All) at h in
      (keeps x (e ∙ ap some (is x v e)), uncached_ids-Cached docs xs m m' is keeps k)
]
