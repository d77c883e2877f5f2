-- ===== src/Enclave/Request/Answers.antt =====
-- CryptoEnclave.cpp: the ids of an answer of handle_select.
use veil_db.Base.{
  ℕ, zero, suc, ◌+◌, ◌≤◌, ◌<◌, ◌≡◌, refl, ap, List, [], ◌∷◌, map, length, take, Bool-cases, inl,
  inr, All, arith, ltb, leb, ◌==◌,
}
use veil_db.Base.Decimal.{to_string}
use veil_db.Enclave.Bitset.{Bitset, total_file_no}
use veil_db.Enclave.Context.{CachedDocSlot}
use veil_db.Enclave.Select.{Answer, retrieve, aggregate, answer, doc_ids, matches_from}
use veil_db.Enclave.Docs.Slots.{IsSlotId}
use veil_db.Enclave.Retrieve.{result_room}
use veil_db.Enclave.Retrieve.Bodies.{row}
use veil_db.Enclave.Request.{SelectResult, rows, aggregated}

-- The result of an answer, where `docs` are the documents.
abbrev pub result_of : (List ℕ → CachedDocSlot) → Answer → SelectResult
result_of docs (retrieve ids) = rows (map (row docs) (map to_string ids))
result_of docs (aggregate value count) = aggregated value count

matches_from-range :
    (bm : Bitset) (i n : ℕ) → All (λ d. (i < d) × (d ≤ i + n)) (matches_from bm i n)
unfolding matches_from
matches_from-range bm i zero = tt
matches_from-range bm i (suc n) =
    let rest = widen (matches_from bm (i + 1) n) i n (matches_from-range bm (i + 1) n) in
    elim (Bool-cases (bm i)) [
      | inl e ↦ rw (e, All) ((omega arith, omega arith), rest)
      | inr e ↦ rw (e, All) rest
    ]
  where
    widen :
        (ds : List ℕ) (i n : ℕ)
        → All (λ d. (i + 1 < d) × (d ≤ i + 1 + n)) ds
        → All (λ d. (i < d) × (d ≤ i + suc n)) ds
    widen [] i n h = tt
    widen (d ∷ ds) i n h = ((omega (arith, h.0.0), omega (arith, h.0.1)), widen ds i n h.1)

doc_ids-range : (bm : Bitset) → All (λ d. (0 < d) × (d ≤ total_file_no)) (doc_ids bm)
unfolding doc_ids
doc_ids-range bm = matches_from-range bm 0 total_file_no

pub texts-IsSlotId :
    (ds : List ℕ) → All (λ d. (0 < d) × (d ≤ total_file_no)) ds → All IsSlotId (map to_string ds)
texts-IsSlotId [] h = tt
texts-IsSlotId (d ∷ ds) h = ((d, refl, h.0.0, h.0.1), texts-IsSlotId ds h.1)

All-take : (P : ℕ → Type 0) (n : ℕ) (ds : List ℕ) → All P ds → All P (take n ds)
All-take P zero ds h = tt
All-take P (suc n) [] h = tt
All-take P (suc n) (d ∷ ds) h = (h.0, All-take P n ds h.1)

length-take_few : (n : ℕ) (ds : List ℕ) → length (take n ds) ≤ n
length-take_few zero ds = omega arith
length-take_few (suc n) [] = omega arith
length-take_few (suc n) (d ∷ ds) = omega (arith, length-take_few n ds)

pub length-texts : (ds : List ℕ) → length (map to_string ds) ≡ length ds
length-texts [] = refl
length-texts (d ∷ ds) = ap suc (length-texts ds)

-- An answer has an aggregate, or at most 100 ids of slots.
abbrev pub Loadable : Answer → Type 0
Loadable (retrieve ids) = All (λ d. (0 < d) × (d ≤ total_file_no)) ids × (length ids ≤ result_room)
Loadable (aggregate value count) = Unit

pub answer-Loadable :
    (type limit : ℕ) (bm : Bitset)
    → type ≤ 4
    → limit ≤ result_room
    → Loadable (answer type limit (doc_ids bm))
unfolding answer
answer-Loadable type limit bm few h = elim (Bool-cases (type == 0)) [
  | inl e ↦ elim (Bool-cases (ltb limit (length (doc_ids bm)))) [
    | inl f ↦
        rw (e, f, Loadable)
          (
            All-take _ limit (doc_ids bm) (doc_ids-range bm),
            omega (arith, h, length-take_few limit (doc_ids bm)),
          )
    | inr f ↦ rw (e, f, Loadable) (doc_ids-range bm, ground (arith, f, h))
  ]
  | inr e ↦ elim (Bool-cases (leb type 4)) [
    | inl f ↦ rw (e, f, Loadable) tt
    | inr f ↦ absurd (ground (arith, f, few))
  ]
]
