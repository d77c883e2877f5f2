-- ===== src/Enclave/Retrieve/Plan.antt =====
-- The access plan: the ids that are asked for, and the padding.
use veil_db.Base.{
  ℕ, zero, suc, ◌+◌, ◌%◌, ◌≤◌, ◌≡◌, refl, List, [], ◌∷◌, length, true, false, ltb, ◌==◌, ◌||◌,
  Bool-cases, inl, inr, ok, Ends, Ends-bind, Ends-mono, arith, All, max, ◌⊎◌, ltb→lt,
}
use veil_db.Base.Decimal.{to_string}
use veil_db.Enclave.Bitset.{Bitset, total_file_no}
use veil_db.Enclave.Context.{Enclave, Run, pure}
use veil_db.Enclave.Docs.{is_empty}
use veil_db.Enclave.Keywords.Draws.{All-map}
use veil_db.Enclave.Docs.Slots.{IsSlotId, drawn-IsSlotId}
use veil_db.Enclave.Select.{doc_ids}
use veil_db.Enclave.Retrieve.{
  doc_access_query, has_id, append_unique_doc_id, append_all_unique, pick_id, pick_any, pad_blindly,
  is_occupied, pad_among, pick_padding_doc_id, pad_rounds, build_doc_access_plan, plan_seeds,
}
use veil_db.Enclave.Retrieve.Padding.{
  Keeps, IsPlan, append_all_unique-IsPlan, get_elem?-slot, IsPadding, IsSlotId-IsPadding,
  is_occupied-IsSlotId, padded-IsPlan,
}

numbers-cases : (ds : List ℕ) → (ds ≡ []) ⊎ ((d : ℕ) × (rest : List ℕ) × (ds ≡ d ∷ rest))
numbers-cases [] = inl refl
numbers-cases (d ∷ ds) = inr (d, ds, refl)

-- A predicate that the drawing of numbers does not change.
module _ (I : Enclave → Type 0)
    (redrawn : (s : Enclave) (r : ℕ → ℕ) → I s → I (record s { random = r })) where
  abbrev Padded : List ℕ × Enclave → Type 0
  Padded (id, s) = IsPadding id × I s

  pick_any-Ends :
      (real : List (List ℕ)) (s : Enclave)
      → All IsSlotId real
      → I s
      → Ends false Padded (pick_any real s)
  unfolding pick_any pick_id
  pick_any-Ends [] s h i = (tt, i)
  pick_any-Ends (x ∷ xs) s h i =
      let (id, e, is) = get_elem?-slot (x ∷ xs) (s.random 0 % length (x ∷ xs)) h (omega arith) in
      rw (e, Ends) (IsSlotId-IsPadding id is, redrawn s _ i)

  pad_blindly-Ends :
      (n : ℕ) (real : List (List ℕ)) (s : Enclave)
      → All IsSlotId real
      → I s
      → Ends false Padded (pad_blindly n real s)
  unfolding pad_blindly
  pad_blindly-Ends zero real s h i = pick_any-Ends real s h i
  pad_blindly-Ends (suc n) real s h i =
      let s' : Enclave = record s { random = λ j. s.random (suc j) } in
      elim (Bool-cases (has_id real (to_string (s.random 0 % total_file_no + 1)))) [
        | inl e ↦ rw (e, Ends) (pad_blindly-Ends n real s' h (redrawn s _ i))
        | inr e ↦ rw (e, Ends) (IsSlotId-IsPadding _ (drawn-IsSlotId (s.random 0)), redrawn s _ i)
      ]

  pad_among-Ends :
      (n upper : ℕ) (all : Bitset) (real : List (List ℕ)) (s : Enclave)
      → All IsSlotId real
      → I s
      → Ends false Padded (pad_among n upper all real s)
  unfolding pad_among
  pad_among-Ends zero upper all real s h i = pick_any-Ends real s h i
  pad_among-Ends (suc n) upper all real s h i =
      let s' : Enclave = record s { random = λ j. s.random (suc j) } in
      elim (Bool-cases (is_occupied all (s.random 0 % upper + 1))) [
        | inl e ↦ rw (e, Ends) (IsSlotId-IsPadding _ (is_occupied-IsSlotId all _ e), redrawn s _ i)
        | inr e ↦ rw (e, Ends) (pad_among-Ends n upper all real s' h (redrawn s _ i))
      ]

  pick_padding_doc_id-Ends :
      (real : List (List ℕ)) (s : Enclave)
      → All IsSlotId real
      → I s
      → Ends false Padded (pick_padding_doc_id real s)
  unfolding pick_padding_doc_id
  pick_padding_doc_id-Ends [] s h i = elim (numbers-cases (doc_ids s.ctx.all_docs)) [
    | inl e ↦ rw (e, Ends) (pad_blindly-Ends 256 [] s h i)
    | inr (d, ds, e) ↦ rw (e, Ends) (tt, i)
  ]
  pick_padding_doc_id-Ends (x ∷ xs) s h i = elim (numbers-cases (doc_ids s.ctx.all_docs)) [
    | inl e ↦ rw (e, Ends) (pad_blindly-Ends 256 (x ∷ xs) s h i)
    | inr (d, ds, e) ↦
        rw (e, Ends) (pad_among-Ends 256 (max 1 s.ctx.endof_doc_id) s.ctx.all_docs (x ∷ xs) s h i)
  ]

  -- What the padding leaves of the ids before it.
  abbrev Grown : List (List ℕ) → ℕ → List (List ℕ) × Enclave → Type 0
  Grown ids target (ids', s) =
      IsPlan ids' × Keeps ids ids' × (length ids' ≤ max (length ids) target) × I s

  pad_rounds-Ends :
      (n target : ℕ) (ids : List (List ℕ)) (s : Enclave)
      → IsPlan ids
      → I s
      → Ends false (Grown ids target) (pad_rounds n target ids s)
  unfolding pad_rounds
  pad_rounds-Ends zero target ids s p i = (p, λ j e. e, omega arith, i)
  pad_rounds-Ends (suc n) target ids s p i = elim (Bool-cases (ltb (length ids) target)) [
    | inr e ↦ rw (e, Ends) (p, λ j e. e, omega arith, i)
    | inl e ↦
        let more = ltb→lt (length ids) target e in
        rw (e, Ends)
          (Ends-bind false Padded (Grown ids target) (pick_padding_doc_id ids s)
            (λ (id, s').
              (elim (is_empty id || (length (append_unique_doc_id ids id) == length ids))
                  as (λ _. Run (List (List ℕ))) [
                    | true ↦ pure (append_unique_doc_id ids id)
                    | false ↦ pad_rounds n target (append_unique_doc_id ids id)
                  ])
                s')
            (pick_padding_doc_id-Ends ids s p.0 i)
            (λ (id, s') (q, i').
              let (p', keeps, few) = padded-IsPlan ids id p q in
              let fits : length (append_unique_doc_id ids id) ≤ max (length ids) target =
                omega (arith, few, more) in
              elim (Bool-cases
                (is_empty id || (length (append_unique_doc_id ids id) == length ids))) [
                  | inl f ↦ rw (f, Ends) (p', keeps, fits, i')
                  | inr f ↦
                      rw (f, Ends)
                        (Ends-mono false _ _ (pad_rounds n target (append_unique_doc_id ids id) s')
                          (pad_rounds-Ends n target (append_unique_doc_id ids id) s' p' i')
                          (λ (ids', s'') (p'', keeps', few', i'').
                            (p'', λ j e. keeps' j (keeps j e), omega (arith, few', fits), i'')))
                ]))
  ]

  -- A query for ids of slots plans an access that has all of them, to slots only, to none twice,
  -- and to no more than are asked for or the threshold demands; it ends whatever is drawn, and
  -- parses the ids that are asked for.
  pub build_doc_access_plan-Ends :
      (primary : List (List ℕ)) (s : Enclave)
      → All IsSlotId primary
      → I s
      → Ends false
          (λ (plan, s').
            IsPlan plan.access_ids
            × All (λ id. has_id plan.access_ids id ≡ true) primary
            × (length plan.access_ids ≤ max (length primary) s.ctx.retrieval_threshold)
            × (plan.parse_ids ≡ primary)
            × I s')
          (build_doc_access_plan doc_access_query primary s)
  unfolding build_doc_access_plan plan_seeds
  build_doc_access_plan-Ends primary s h i =
      let seeds : List (List ℕ) = append_all_unique [] primary in
      let (p, keeps, here, few) = append_all_unique-IsPlan [] primary (tt, tt) h in
      Ends-bind false (Grown seeds s.ctx.retrieval_threshold) _
        (pad_rounds 256 s.ctx.retrieval_threshold seeds s)
        (λ (ids, s').
          ok (record { mode = doc_access_query; access_ids = ids; parse_ids = primary }, s'))
        (pad_rounds-Ends 256 s.ctx.retrieval_threshold seeds s p i)
        (λ (ids, s') (p', keeps', few', i'). (
          p',
          All-map (λ id. has_id seeds id ≡ true) _ primary keeps' here,
          omega (arith, few, few'),
          refl,
          i',
        ))
