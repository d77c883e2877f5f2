-- ===== src/Enclave/Retrieve/Bodies.antt =====
-- CryptoEnclave.cpp: RetrieveDocs, where the slots stand for a map from ids to them.
use veil_db.Base.{
  ℕ, ◌≤◌, ◌≡◌, refl, ap, ◌∙◌, sym, subst, List, [], ◌∷◌, length, map, some, true, false, Bool-cases,
  inl, inr, ok, bind, Ends, Ends-bind, All, same_text, same_text_iff, leb, le→leb, suc,
  if◌then◌else◌, fault,
}
use veil_db.Base.Int.{ℤ}
use veil_db.Base.Assoc.{Assoc, find, assign, find-assign}
use veil_db.Base.Decimal.{atoi}
use veil_db.Enclave.Sgx.{Sgx}
use veil_db.Enclave.Context.{CachedDocSlot, Enclave, lift}
use veil_db.Enclave.Keywords.Draws.{All-map}
use veil_db.Enclave.Docs.{doc_label, spill_doc_ck_if_needed}
use veil_db.Enclave.Docs.Slots.{IsSlotId, Holds, redrawn}
use veil_db.Enclave.Docs.Cache.{spill_doc_ck_if_needed-Holds}
use veil_db.Enclave.Retrieve.{
  AccessPlan, ParsedDocRecord, doc_access_query, record_of_slot, parse_records, row_content,
  result_rows, result_room, materialize_access_ids, execute_obfuscated_doc_access,
  build_doc_access_plan, retrieve_docs, has_id,
}
use veil_db.Enclave.Retrieve.Plan.{build_doc_access_plan-Ends}
use veil_db.Enclave.Retrieve.Padding.{All-has_id, IsPlan}
use veil_db.Enclave.Retrieve.Access.{Cached}
use veil_db.Enclave.Retrieve.Batches.{materialize_access_ids-Holds}

-- The record of an id that is parsed.
abbrev record_for : (List ℕ → CachedDocSlot) → List ℕ → ParsedDocRecord
record_for docs id = record_of_slot (some (docs id))

parse-step :
    (docs : List ℕ → CachedDocSlot) (m : Assoc CachedDocSlot) (x : List ℕ) (xs : List (List ℕ))
    (p : Assoc ParsedDocRecord)
    → find x m ≡ some (docs x)
    → parse_records (x ∷ xs) m p ≡ parse_records xs m (assign x (record_for docs x) p)
unfolding parse_records
parse-step docs m x xs p e = rw (e, parse_records) refl

parse_records-keeps :
    (docs : List ℕ → CachedDocSlot) (m : Assoc CachedDocSlot) (ids : List (List ℕ))
    (p : Assoc ParsedDocRecord) (j : List ℕ)
    → Cached docs m ids
    → find j p ≡ some (record_for docs j)
    → find j (parse_records ids m p) ≡ some (record_for docs j)
parse_records-keeps docs m [] p j h e = unfold parse_records in e
parse_records-keeps docs m (x ∷ xs) p j h e = rw (parse-step docs m x xs p h.0) (
    parse_records-keeps docs m xs (assign x (record_for docs x) p) j h.1
      (elim (Bool-cases (same_text x j)) [
        | inl f ↦
            find-assign x j (record_for docs x) p
            ∙ rw f (ap (λ k. some (record_for docs k)) ((same_text_iff x j).0 f))
        | inr f ↦ find-assign x j (record_for docs x) p ∙ rw f e
      ]))

-- What is cached is parsed.
parse_records-Cached :
    (docs : List ℕ → CachedDocSlot) (m : Assoc CachedDocSlot) (ids : List (List ℕ))
    (p : Assoc ParsedDocRecord)
    → Cached docs m ids
    → All (λ j. find j (parse_records ids m p) ≡ some (record_for docs j)) ids
parse_records-Cached docs m [] p h = tt
parse_records-Cached docs m (x ∷ xs) p h =
    let p' : Assoc ParsedDocRecord = assign x (record_for docs x) p in
    let e : find x p' ≡ some (record_for docs x) =
      find-assign x x (record_for docs x) p ∙ rw ((same_text_iff x x).1 refl) refl in
    subst (λ q. All (λ j. find j q ≡ some (record_for docs j)) (x ∷ xs))
      (sym (parse-step docs m x xs p h.0))
      (parse_records-keeps docs m xs p' x h.1 e, parse_records-Cached docs m xs p' h.1)

-- The row of a document.
abbrev pub row : (List ℕ → CachedDocSlot) → List ℕ → ℤ × List ℕ
row docs id = (atoi id, row_content (docs id).body)

result_rows-map :
    (docs : List ℕ → CachedDocSlot) (p : Assoc ParsedDocRecord) (ids : List (List ℕ))
    → All (λ j. find j p ≡ some (record_for docs j)) ids
    → result_rows ids p ≡ map (row docs) ids
unfolding result_rows record_of_slot
result_rows-map docs p [] h = refl
result_rows-map docs p (x ∷ xs) h =
    rw (h.0, result_rows) (ap (◌∷◌ (row docs x)) (result_rows-map docs p xs h.1))

length-map : (f : List ℕ → ℤ × List ℕ) (ids : List (List ℕ)) → length (map f ids) ≡ length ids
length-map f [] = refl
length-map f (x ∷ xs) = ap suc (length-map f xs)

module _ (sgx : Sgx) (key : List ℕ)
    (apart : (a b : List ℕ)
      → IsSlotId a
      → IsSlotId b
      → doc_label sgx key a ≡ doc_label sgx key b
      → a ≡ b)
    (Aside : Enclave → Type 0)
    (aside-kept : (s : Enclave) (doc_ck : Assoc CachedDocSlot) (versions : ℕ → ℕ)
        (docs : Assoc (List ℕ)) (random : ℕ → ℕ)
      → Aside s
      → Aside (record s {
        ctx = record s.ctx { doc_ck = doc_ck; doc_slot_version = versions };
        edb = record s.edb { docs = docs };
        random = random;
      }))
    (docs : List ℕ → CachedDocSlot) where
  abbrev H : Enclave → Type 0
  H = Holds sgx key apart Aside aside-kept docs

  -- An access whose parsed ids are among those that it loads.
  execute-Holds :
      (plan : AccessPlan) (s : Enclave)
      → H s
      → IsPlan plan.access_ids
      → All (λ id. has_id plan.access_ids id ≡ true) plan.parse_ids
      → Ends false
          (λ (parsed, s').
            All (λ id. find id parsed ≡ some (record_for docs id)) plan.parse_ids × H s')
          (execute_obfuscated_doc_access sgx plan s)
  unfolding execute_obfuscated_doc_access
  execute-Holds plan s h (is, d) among =
      Ends-bind false _ _ (materialize_access_ids sgx plan.access_ids s)
        (λ (u, s').
          bind (spill_doc_ck_if_needed sgx s')
            (λ (v, s''). ok (parse_records plan.parse_ids s'.ctx.doc_ck [], s'')))
        (materialize_access_ids-Holds sgx key apart Aside aside-kept docs plan.access_ids s h is d)
        (λ (u, s') (hs, all).
          let cached : Cached docs s'.ctx.doc_ck plan.parse_ids =
            All-map _ _ plan.parse_ids (λ j e. All-has_id _ plan.access_ids j all e) among in
          Ends-bind false _ _ (spill_doc_ck_if_needed sgx s')
            (λ (v, s''). ok (parse_records plan.parse_ids s'.ctx.doc_ck [], s''))
            (spill_doc_ck_if_needed-Holds sgx key apart Aside aside-kept docs s' hs)
            (λ (v, s'') hs'.
              (parse_records-Cached docs s'.ctx.doc_ck plan.parse_ids [] cached, hs')))

  -- Where the slots stand for a map from ids to documents, and no two labels of slots meet: for at
  -- most 100 ids of slots, RetrieveDocs ends, without exception and within its arrays, in a row
  -- for each id in their order, with its number and its body filled up with zeros, whatever is
  -- cached, whichever ids pad the access and whichever slots are written back. The slots then
  -- stand for the same map.
  pub retrieve_docs-Holds :
      (ids : List (List ℕ)) (s : Enclave)
      → H s
      → All IsSlotId ids
      → length ids ≤ result_room
      → Ends false (λ (rows, s'). (rows ≡ map (row docs) ids) × H s') (retrieve_docs sgx ids s)
  unfolding retrieve_docs
  retrieve_docs-Holds ids s h is few =
      Ends-bind false _ _ (build_doc_access_plan doc_access_query ids s)
        (λ (plan, s'). bind (execute_obfuscated_doc_access sgx plan s') (λ (parsed, s'').
          lift
            (if leb (length (result_rows ids parsed)) result_room
              then ok (result_rows ids parsed)
              else fault)
            s''))
        (build_doc_access_plan-Ends H (λ s r h. redrawn sgx key apart Aside aside-kept h r) ids s is
          h)
        (λ (plan, s') (p, among, size, same, hs).
          Ends-bind false _ _ (execute_obfuscated_doc_access sgx plan s')
            (λ (parsed, s'').
              lift
                (if leb (length (result_rows ids parsed)) result_room
                  then ok (result_rows ids parsed)
                  else fault)
                s'')
            (execute-Holds plan s' hs p (rw same among))
            (λ (parsed, s'') (found, hs').
              let rows = result_rows-map docs parsed ids (rw same at found) in
              rw (rows, length-map (row docs) ids, le→leb (length ids) 100 few, Ends) (refl, hs')))
