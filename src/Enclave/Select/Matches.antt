-- ===== src/Enclave/Select/Matches.antt =====
-- The ids that a SELECT finds, and the aggregates over them.
use veil_db.Base.{
  ℕ, zero, suc, ◌+◌, ◌*◌, ◌/◌, ◌≤◌, ◌<◌, ◌≡◌, refl, List, [], ◌∷◌, length, All, Bool, true, false,
  ltb, leb, ◌==◌, if◌then◌else◌, arith, Bool-cases, inl, inr, subst, ap, ◌∙◌, ◌⊎◌, ◌^◌, lt→ltb,
}
use native.Mathlib.Nat.{le-div_iff_mul-le, div-lt_iff_lt-mul, mul-le-mul}
use veil_db.Enclave.Bitset.{Bitset, total_file_no}
use veil_db.Enclave.Select.{matches_from, doc_ids, back, sum, agg_value}

-- Whether an id is among some.
abbrev pub is_among : ℕ → List ℕ → Bool
is_among id [] = false
is_among id (x ∷ xs) = if x == id then true else is_among id xs

-- In ascending order, all above `low` and at most `high`.
abbrev pub Ascending : ℕ → ℕ → List ℕ → Type 0
Ascending low high [] = Unit
Ascending low high (x ∷ xs) = (low < x) × (x ≤ high) × Ascending x high xs

Ascending-lower : (a b high : ℕ) (xs : List ℕ) → a ≤ b → Ascending b high xs → Ascending a high xs
Ascending-lower a b high [] h k = tt
Ascending-lower a b high (x ∷ xs) h k = (omega (arith, k.0), k.1, k.2)

matches_from-Ascending : (bm : Bitset) (i n : ℕ) → Ascending i (i + n) (matches_from bm i n)
unfolding matches_from
matches_from-Ascending bm i zero = tt
matches_from-Ascending bm i (suc n) =
    let rest : Ascending (i + 1) (i + suc n) (matches_from bm (i + 1) n) =
      subst (λ e. Ascending (i + 1) e (matches_from bm (i + 1) n)) (omega arith)
        (matches_from-Ascending bm (i + 1) n) in
    elim (Bool-cases (bm i)) [
      | inl e ↦ rw (e, Ascending) (omega arith, omega arith, rest)
      | inr e ↦ rw (e, Ascending) (Ascending-lower i (i + 1) (i + suc n) _ (omega arith) rest)
    ]

is_among-matches_from :
    (bm : Bitset) (i n j : ℕ)
    → is_among (suc j) (matches_from bm i n)
      ≡ (if leb i j then (if ltb j (i + n) then bm j else false) else false)
unfolding matches_from
is_among-matches_from bm i zero j = ground arith
is_among-matches_from bm i (suc n) j = elim (Bool-cases (i == j)) [
  | inl e ↦
      let same : i ≡ j = ground arith in
      elim (Bool-cases (bm i)) [
        | inl f ↦ rw (f) (ground (arith, ap bm same))
        | inr f ↦ rw (f) (ground (arith, is_among-matches_from bm (i + 1) n j, ap bm same))
      ]
  | inr e ↦ elim (Bool-cases (bm i)) [
    | inl f ↦ rw (f) (ground (arith, is_among-matches_from bm (i + 1) n j))
    | inr f ↦ rw (f) (ground (arith, is_among-matches_from bm (i + 1) n j))
  ]
]

-- The ids that a SELECT collects are in ascending order between 1 and 10000, and id j + 1 is among
-- them exactly if bit j of the final bitmap is set.
pub doc_ids-matches :
    (bm : Bitset)
    → Ascending 0 total_file_no (doc_ids bm)
      × ((j : ℕ) → is_among (suc j) (doc_ids bm) ≡ (if ltb j total_file_no then bm j else false))
unfolding doc_ids
doc_ids-matches bm = (
  matches_from-Ascending bm 0 total_file_no,
  λ j. is_among-matches_from bm 0 total_file_no j ∙ ground arith,
)

-- Of ids in ascending order: the last is the largest, and the sum stays low.
back-bounds :
    (low high first : ℕ) (ids : List ℕ)
    → low < first
    → first ≤ high
    → Ascending first high ids
    → (first ≤ back first ids) × (back first ids ≤ high) × All (λ x. x ≤ back first ids) ids
unfolding back
back-bounds low high first [] h f k = (omega arith, f, tt)
back-bounds low high first (x ∷ xs) h f k =
    let rest = back-bounds first high x xs k.0 k.1 k.2 in
    (omega (arith, rest.0, k.0), rest.1, (rest.0, rest.2))

All-above : (low high : ℕ) (ids : List ℕ) → Ascending low high ids → All (λ x. low ≤ x) ids
All-above low high [] k = tt
All-above low high (x ∷ xs) k = (
  omega (arith, k.0),
  All-above low high xs (Ascending-lower low x high xs (omega (arith, k.0)) k.2),
)

length-Ascending :
    (low high : ℕ) (ids : List ℕ) → low ≤ high → Ascending low high ids → length ids + low ≤ high
length-Ascending low high [] h k = omega (arith, h)
length-Ascending low high (x ∷ xs) h k = omega (arith, length-Ascending x high xs k.1 k.2, k.0)

sum-bounds :
    (low high : ℕ) (ids : List ℕ)
    → All (λ x. low ≤ x) ids
    → All (λ x. x ≤ high) ids
    → (low * length ids ≤ sum ids) × (sum ids ≤ high * length ids)
unfolding sum
sum-bounds low high [] h k = (omega arith, omega arith)
sum-bounds low high (x ∷ xs) h k =
    let rest = sum-bounds low high xs h.1 k.1 in
    (ground (arith, rest.0, h.0), ground (arith, rest.1, k.0))

is_among-back : (first : ℕ) (rest : List ℕ) → is_among (back first rest) (first ∷ rest) ≡ true
unfolding back
is_among-back first [] = ground arith
is_among-back first (x ∷ xs) = ground (arith, is_among-back x xs)

average-bounds :
    (low high total n : ℕ)
    → 0 < n
    → low * n ≤ total
    → total ≤ high * n
    → (low ≤ total / n) × (total / n ≤ high)
average-bounds low high total n h f g =
    let below : total / n < suc high = (div-lt_iff_lt-mul h).1 (ground (arith, g, h)) in
    ((le-div_iff_mul-le h).1 f, omega (arith, below))

within_int : (b n s : ℕ) → b ≤ total_file_no → n + 0 ≤ total_file_no → s ≤ b * n → s < 2 ^ 31
unfolding total_file_no
within_int b n s h f g =
    let product : b * n ≤ 10000 * 10000 = mul-le-mul {m₂ = 10000} h (omega (arith, f)) in
    omega (arith, product, g)

-- What the aggregates over some ids are: MAX is one of them and none is above it, MIN is one and
-- none is below it, AVG lies between these, and SUM is an int.
abbrev pub Aggregates : List ℕ → Type 0
Aggregates ids =
    (is_among (agg_value 1 ids) ids ≡ true)
    × All (λ x. x ≤ agg_value 1 ids) ids
    × (is_among (agg_value 2 ids) ids ≡ true)
    × All (λ x. agg_value 2 ids ≤ x) ids
    × (agg_value 2 ids ≤ agg_value 4 ids)
    × (agg_value 4 ids ≤ agg_value 1 ids)
    × (agg_value 3 ids < 2 ^ 31)

agg_value-filled :
    (bm : Bitset) (first : ℕ) (rest : List ℕ) → doc_ids bm ≡ first ∷ rest → Aggregates (doc_ids bm)
unfolding agg_value
agg_value-filled bm first rest e =
    let ascending : Ascending 0 total_file_no (first ∷ rest) =
      subst (Ascending 0 total_file_no) e (doc_ids-matches bm).0 in
    let top = back-bounds 0 total_file_no first rest ascending.0 ascending.1 ascending.2 in
    let below : All (λ x. x ≤ back first rest) (first ∷ rest) = (top.0, top.2) in
    let above : All (λ x. first ≤ x) (first ∷ rest) =
      (omega arith, All-above first total_file_no rest ascending.2) in
    let sums = sum-bounds first (back first rest) (first ∷ rest) above below in
    let few = length-Ascending 0 total_file_no (first ∷ rest) (omega arith) ascending in
    let average =
      average-bounds first (back first rest) (sum (first ∷ rest)) (length (first ∷ rest))
        (omega arith) sums.0 sums.1 in
    rw (e) (
      is_among-back first rest,
      below,
      ground arith,
      above,
      average.0,
      average.1,
      within_int (back first rest) (length (first ∷ rest)) (sum (first ∷ rest)) top.1 few sums.1,
    )

List-cases : (ids : List ℕ) → (ids ≡ []) ⊎ ((first : ℕ) × (rest : List ℕ) × (ids ≡ first ∷ rest))
List-cases [] = inl refl
List-cases (first ∷ rest) = inr (first, rest, refl)

-- For a SELECT with a match: MAX is one of the matching ids and no id is above it, MIN is one and
-- none is below it, AVG lies between them, and SUM does not leave the range of an int.
pub agg_value-doc_ids :
    (bm : Bitset) (j : ℕ) → j < total_file_no → bm j ≡ true → Aggregates (doc_ids bm)
agg_value-doc_ids bm j h e = elim (List-cases (doc_ids bm)) [
  | inl f ↦
      absurd (
        ground (arith, ap (is_among (suc j)) f, (doc_ids-matches bm).1 j, lt→ltb j total_file_no h))
  | inr (first, rest, f) ↦ agg_value-filled bm first rest f
]
