-- ===== src/Enclave/Request/Documents.antt =====
-- A SELECT from its expression to the bodies of the documents: the parser, the stack machine, the
-- keyword index and the document slots together.
use veil_db.Base.{
  ℕ, ◌+◌, ◌≤◌, ◌≡◌, refl, sym, ap, ◌∙◌, subst, List, map, length, true, ok, Ends, Ends-bind, Safely,
}
use veil_db.Base.Assoc.{Assoc}
use veil_db.Base.Decimal.{to_string}
use veil_db.Query.Parser.{Ast, Cursor, parse_tokens}
use veil_db.Query.Encode.{make_term, code}
use veil_db.Query.Safety.{IndexedBelow, parse_tokens-Safely}
use veil_db.Enclave.Bitset.{Bitset}
use veil_db.Enclave.Sgx.{Sgx}
use veil_db.Enclave.Context.{CachedDocSlot, Enclave}
use veil_db.Enclave.Machine.{eval_bool_expr}
use veil_db.Enclave.Meaning.{meaning, eval_bool_expr-code}
use veil_db.Enclave.Keywords.{search_keyword}
use veil_db.Enclave.Keywords.Index.{Apart, Indexes}
use veil_db.Enclave.Keywords.Search.{Ends-may, search_keyword-Indexes}
use veil_db.Enclave.Select.{Answer, retrieve, aggregate, answer, doc_ids, handle_select}
use veil_db.Enclave.Select.Finds.{length-map}
use veil_db.Enclave.Docs.{doc_label}
use veil_db.Enclave.Docs.Slots.{IsSlotId, Holds}
use veil_db.Enclave.Docs.Aside.{Parts, Ends-Keeping, search_keyword-Keeping, Holds-parts}
use veil_db.Enclave.Retrieve.{retrieve_docs, result_room}
use veil_db.Enclave.Retrieve.Bodies.{retrieve_docs-Holds}
use veil_db.Enclave.Request.{rows, load_answer, select_documents}
use veil_db.Enclave.Request.Answers.{
  result_of, Loadable, texts-IsSlotId, length-texts, answer-Loadable,
}

-- The slots have no part in what the index stands for.
module _ (sgx : Sgx) (key : List ℕ) (IsClear IsBlank : List ℕ → Type 0)
    (apart : Apart sgx key IsClear IsBlank) (postings : List ℕ → Bitset) (all : Bitset) where
  pub Indexes-kept :
      (s : Enclave) (doc_ck : Assoc CachedDocSlot) (versions : ℕ → ℕ) (docs : Assoc (List ℕ))
      (random : ℕ → ℕ)
      → Indexes sgx key IsClear IsBlank apart postings all s
      → Indexes sgx key IsClear IsBlank apart postings all (record s {
        ctx = record s.ctx { doc_ck = doc_ck; doc_slot_version = versions };
        edb = record s.edb { docs = docs };
        random = random;
      })
  Indexes-kept s doc_ck versions docs random h = record {
    occupied = h.occupied;
    keyed = h.keyed;
    cached = h.cached;
    versioned = h.versioned;
    stored = h.stored;
    absent = h.absent;
    blank = h.blank;
    clear = h.clear;
    distinct = h.distinct;
    sized = h.sized;
  }

module _ (sgx : Sgx) (key : List ℕ) (IsClear IsBlank : List ℕ → Type 0)
    (apart : Apart sgx key IsClear IsBlank)
    (doc_apart : (a b : List ℕ)
      → IsSlotId a
      → IsSlotId b
      → doc_label sgx key a ≡ doc_label sgx key b
      → a ≡ b)
    (postings : List ℕ → Bitset) (all : Bitset) (docs : List ℕ → CachedDocSlot) where
  abbrev Index : Enclave → Type 0
  Index = Indexes sgx key IsClear IsBlank apart postings all

  -- The state stands for the posting lists and for the documents.
  abbrev pub Stands : Enclave → Type 0
  Stands =
      Holds sgx key doc_apart Index (Indexes-kept sgx key IsClear IsBlank apart postings all) docs

  search-Stands :
      (limit : ℕ) (s : Enclave) (w : List ℕ)
      → Stands s × (s.ctx.retrieval_limit ≡ limit)
      → Ends true
          (λ (bm, s'). (bm ≡ postings w) × (Stands s' × (s'.ctx.retrieval_limit ≡ limit)))
          (search_keyword sgx w s)
  search-Stands limit s w (h, l) =
      Ends-Keeping true (λ (bm, s'). (bm ≡ postings w) × Index s') _ s (search_keyword sgx w s)
        (search_keyword-Indexes sgx key IsClear IsBlank apart postings all w s h.aside)
        (search_keyword-Keeping sgx w s)
        (λ bm s' (same, index) kept. (
          same,
          (
            Holds-parts sgx key doc_apart Index Index
                (Indexes-kept sgx key IsClear IsBlank apart postings all)
                (Indexes-kept sgx key IsClear IsBlank apart postings all) docs s s' h kept index,
            ap (λ (t : Parts). t.3) kept ∙ l,
          ),
        ))

  handle_select-Stands :
      (type limit : ℕ) (terms : List (List ℕ)) (t : Ast) (s : Enclave)
      → IndexedBelow (length terms) t
      → length terms ≤ 16
      → s.ctx.retrieval_limit ≡ limit
      → Stands s
      → Ends true
          (λ (ans, s').
            (ans ≡ answer type limit (doc_ids (meaning postings all terms t))) × Stands s')
          (handle_select sgx type terms (code t) s)
  unfolding handle_select
  handle_select-Stands type limit terms t s below few l h =
      Ends-bind true _ _
        (eval_bool_expr (λ s w. search_keyword sgx w s) (λ s. s.ctx.all_docs) terms (code t) s)
        (λ (bm, s'). ok (answer type s'.ctx.retrieval_limit (doc_ids bm), s'))
        (eval_bool_expr-code (λ s w. search_keyword sgx w s) (λ s. s.ctx.all_docs) terms true
          postings all (λ s. Stands s × (s.ctx.retrieval_limit ≡ limit))
          (λ s (h, l). h.aside.occupied) (λ s w h. search-Stands limit s w h) t s below few (h, l))
        (λ (bm, s') (same, (hs, ls)). (
          ap (λ n. answer type n (doc_ids bm)) ls ∙ ap (λ b. answer type limit (doc_ids b)) same,
          hs,
        ))

  load_answer-Stands :
      (ans : Answer) (s : Enclave)
      → Stands s
      → Loadable ans
      → Ends true (λ (res, s'). (res ≡ result_of docs ans) × Stands s') (load_answer sgx ans s)
  unfolding load_answer
  load_answer-Stands (aggregate value count) s h k = (refl, h)
  load_answer-Stands (retrieve ids) s h (range, few) =
      Ends-bind true _ _ (retrieve_docs sgx (map to_string ids) s)
        (λ (found, s'). ok (rows found, s'))
        (Ends-may true _ (retrieve_docs sgx (map to_string ids) s) (
          retrieve_docs-Holds sgx key doc_apart Index
            (Indexes-kept sgx key IsClear IsBlank apart postings all) docs (map to_string ids) s h
            (texts-IsSlotId ids range) (rw (length-texts ids) few)))
        (λ (found, s') (same, hs). (ap rows same, hs))

  -- Where the state stands for posting lists and for documents, and no two labels meet, for the
  -- tokens of an expression that parse with at most 16 keywords, for the types 0 to 4 and a limit
  -- of at most 100: a SELECT with the keywords and the code that the client makes of them throws,
  -- or results in the bodies of the documents, up to the limit, that the parsed expression means
  -- over the posting lists, or in the aggregate over all of them. No array or stack is left, and
  -- the state stands for the same posting lists and the same documents afterwards.
  pub select_documents-parsed :
      (type : ℕ) (tokens : List (List ℕ)) (t : Ast) (p : Cursor) (s : Enclave)
      → parse_tokens tokens ≡ ok (t, p)
      → length p.keywords ≤ 16
      → type ≤ 4
      → s.ctx.retrieval_limit ≤ result_room
      → Stands s
      → let terms : List (List ℕ) = map make_term p.keywords in
        let found : List ℕ = doc_ids (meaning postings all terms t) in
        Ends true
          (λ (res, s').
            (res ≡ result_of docs (answer type s.ctx.retrieval_limit found)) × Stands s')
          (select_documents sgx type terms (code t) s)
  unfolding select_documents
  select_documents-parsed type tokens t p s parsed few kinds limited h =
      let terms : List (List ℕ) = map make_term p.keywords in
      let limit : ℕ = s.ctx.retrieval_limit in
      let found : List ℕ = doc_ids (meaning postings all terms t) in
      let same = length-map make_term p.keywords in
      let safe : Safely {A = Ast × Cursor}
          (λ (t, c).
            IndexedBelow (length c.keywords) t
            × (length c.keywords + length c.rest ≤ length tokens))
          (ok (t, p)) =
        subst (Safely {A = Ast × Cursor} _) parsed (parse_tokens-Safely tokens) in
      Ends-bind true _ _ (handle_select sgx type terms (code t) s)
        (λ (ans, s'). load_answer sgx ans s')
        (handle_select-Stands type limit terms t s (subst (λ n. IndexedBelow n t) (sym same) safe.0)
          (subst (λ n. n ≤ 16) (sym same) few) refl h)
        (λ (ans, s') (is, hs).
          subst
            (λ a.
              Ends true
                (λ (res, s''). (res ≡ result_of docs (answer type limit found)) × Stands s'')
                (load_answer sgx a s'))
            (sym is)
            (load_answer-Stands (answer type limit found) s' hs
              (answer-Loadable type limit (meaning postings all terms t) kinds limited)))
