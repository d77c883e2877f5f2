-- ===== src/Enclave/Retrieve/Padding.antt =====
-- Lists of ids none of which stands twice, and what append_unique_doc_id adds to them.
use veil_db.Base.{
  ℕ, zero, suc, ◌+◌, ◌≤◌, ◌<◌, ◌≡◌, refl, ap, ◌∙◌, subst, List, [], ◌∷◌, ◌++◌, length, get_elem?,
  some, true, false, Bool-cases, inl, inr, arith, same_text, same_text_iff, All, leb→le,
}
use veil_db.Base.Int.{pos}
use veil_db.Base.Assoc.{Distinct, same_text_symm}
use veil_db.Base.Decimal.{to_string, atoi, atoi-to_string}
use veil_db.Enclave.Bitset.{Bitset, total_file_no}
use veil_db.Enclave.Docs.{is_empty}
use veil_db.Enclave.Docs.Slots.{IsSlotId}
use veil_db.Enclave.Retrieve.{has_id, append_unique_doc_id, append_all_unique, is_occupied}

-- The text of a number that is not 0 is not empty.
IsSlotId-is_empty : (id : List ℕ) → IsSlotId id → is_empty id ≡ false
unfolding atoi
IsSlotId-is_empty (c ∷ cs) is = refl
IsSlotId-is_empty [] (n, same, h, k) =
    let e : pos 0 ≡ pos n = ap atoi same ∙ atoi-to_string n in absurd (ground (arith, e, h))

-- An id of the list has what all of them have.
pub All-has_id :
    (P : List ℕ → Type 0) (ids : List (List ℕ)) (id : List ℕ)
    → All P ids
    → has_id ids id ≡ true
    → P id
unfolding has_id
All-has_id P [] id h e = cc
All-has_id P (x ∷ xs) id h e = elim (Bool-cases (same_text x id)) [
  | inl f ↦ subst P ((same_text_iff x id).0 f) h.0
  | inr f ↦ All-has_id P xs id h.1 (rw f at e)
]

All-snoc :
    (P : List ℕ → Type 0) (ids : List (List ℕ)) (id : List ℕ)
    → All P ids
    → P id
    → All P (ids ++ id ∷ [])
All-snoc P [] id h p = (p, tt)
All-snoc P (x ∷ xs) id h p = (h.0, All-snoc P xs id h.1 p)

Distinct-snoc :
    (ids : List (List ℕ)) (id : List ℕ)
    → Distinct ids
    → has_id ids id ≡ false
    → Distinct (ids ++ id ∷ [])
unfolding has_id
Distinct-snoc [] id d e = (tt, tt)
Distinct-snoc (x ∷ xs) id d e = elim (Bool-cases (same_text x id)) [
  | inl f ↦ absurd (cc (rw f at e))
  | inr f ↦ (
    All-snoc (λ y. same_text y x ≡ false) xs id d.0 (same_text_symm id x ∙ f),
    Distinct-snoc xs id d.1 (rw f at e),
  )
]

has_id-snoc :
    (ids : List (List ℕ)) (id j : List ℕ) → has_id ids j ≡ true → has_id (ids ++ id ∷ []) j ≡ true
unfolding has_id
has_id-snoc [] id j e = cc
has_id-snoc (x ∷ xs) id j e = elim (Bool-cases (same_text x j)) [
  | inl f ↦ rw f
  | inr f ↦ rw f (has_id-snoc xs id j (rw f at e))
]

has_id-last : (ids : List (List ℕ)) (id : List ℕ) → has_id (ids ++ id ∷ []) id ≡ true
unfolding has_id
has_id-last [] id = rw ((same_text_iff id id).1 refl) refl
has_id-last (x ∷ xs) id = elim (Bool-cases (same_text x id)) [
  | inl f ↦ rw f
  | inr f ↦ rw f (has_id-last xs id)
]

length-snoc : (ids : List (List ℕ)) (id : List ℕ) → length (ids ++ id ∷ []) ≡ suc (length ids)
length-snoc [] id = refl
length-snoc (x ∷ xs) id = ap suc (length-snoc xs id)

-- All ids of the one list are in the other.
abbrev pub Keeps : List (List ℕ) → List (List ℕ) → Type 0
Keeps ids ids' = (j : List ℕ) → has_id ids j ≡ true → has_id ids' j ≡ true

-- What an id that is appended leaves of a list of slot ids, none of which stands twice.
abbrev pub IsPlan : List (List ℕ) → Type 0
IsPlan ids = All IsSlotId ids × Distinct ids

append_unique_doc_id-IsPlan :
    (ids : List (List ℕ)) (id : List ℕ)
    → IsPlan ids
    → IsSlotId id
    → IsPlan (append_unique_doc_id ids id)
      × Keeps ids (append_unique_doc_id ids id)
      × (has_id (append_unique_doc_id ids id) id ≡ true)
      × (length (append_unique_doc_id ids id) ≤ suc (length ids))
unfolding append_unique_doc_id
append_unique_doc_id-IsPlan ids id (a, d) is =
    let e : is_empty id ≡ false = IsSlotId-is_empty id is in
    elim (Bool-cases (has_id ids id)) [
      | inl f ↦ rw (e, f) ((a, d), λ j h. h, f, omega arith)
      | inr f ↦
          rw (e, f)
            (
              (All-snoc IsSlotId ids id a is, Distinct-snoc ids id d f),
              λ j. has_id-snoc ids id j,
              has_id-last ids id,
              omega (arith, length-snoc ids id),
            )
    ]

pub append_all_unique-IsPlan :
    (ids xs : List (List ℕ))
    → IsPlan ids
    → All IsSlotId xs
    → let res : List (List ℕ) = append_all_unique ids xs in
      IsPlan res
      × Keeps ids res
      × All (λ id. has_id res id ≡ true) xs
      × (length res ≤ length ids + length xs)
unfolding append_all_unique
append_all_unique-IsPlan ids [] p h = (p, λ j e. e, tt, omega arith)
append_all_unique-IsPlan ids (x ∷ xs) p h =
    let (p', keeps, here, few) = append_unique_doc_id-IsPlan ids x p h.0 in
    let (q, keeps', all, few') = append_all_unique-IsPlan (append_unique_doc_id ids x) xs p' h.1 in
    (q, λ j e. keeps' j (keeps j e), (keeps' x here, all), omega (arith, few, few'))

pub get_elem?-slot :
    (ids : List (List ℕ)) (i : ℕ)
    → All IsSlotId ids
    → i < length ids
    → (id : List ℕ) × (get_elem? ids i ≡ some id) × IsSlotId id
get_elem?-slot [] i h k = absurd (omega (arith, k))
get_elem?-slot (x ∷ xs) zero h k = (x, refl, h.0)
get_elem?-slot (x ∷ xs) (suc i) h k = get_elem?-slot xs i h.1 (omega (arith, k))

-- No id, or that of a slot.
abbrev pub IsPadding : List ℕ → Type 0
IsPadding [] = Unit
IsPadding (c ∷ cs) = IsSlotId (c ∷ cs)

pub IsSlotId-IsPadding : (id : List ℕ) → IsSlotId id → IsPadding id
IsSlotId-IsPadding [] h = tt
IsSlotId-IsPadding (c ∷ cs) h = h

pub is_occupied-IsSlotId :
    (all : Bitset) (d : ℕ) → is_occupied all d ≡ true → IsSlotId (to_string d)
unfolding is_occupied
is_occupied-IsSlotId all d e =
    (d, refl, ground (arith, e), leb→le d total_file_no (ground (arith, e)))

pub padded-IsPlan :
    (ids : List (List ℕ)) (id : List ℕ)
    → IsPlan ids
    → IsPadding id
    → IsPlan (append_unique_doc_id ids id)
      × Keeps ids (append_unique_doc_id ids id)
      × (length (append_unique_doc_id ids id) ≤ suc (length ids))
unfolding append_unique_doc_id
padded-IsPlan ids [] p q = (p, λ j e. e, omega arith)
padded-IsPlan ids (c ∷ cs) p q =
    let (p', keeps, here, few) = append_unique_doc_id-IsPlan ids (c ∷ cs) p q in (p', keeps, few)
