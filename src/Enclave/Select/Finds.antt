-- ===== src/Enclave/Select/Finds.antt =====
-- handle_select on the code of a query: the machine, Search and the collecting of ids together.
use veil_db.Base.{
  ℕ, suc, ◌+◌, ◌≤◌, ◌≡◌, refl, sym, ap, subst, List, [], ◌∷◌, map, length, ok, Ends, Ends-bind,
  Safely, true,
}
use veil_db.Query.Parser.{Ast, Cursor, parse_tokens}
use veil_db.Query.Encode.{make_term, code}
use veil_db.Query.Safety.{IndexedBelow, parse_tokens-Safely}
use veil_db.Enclave.Bitset.{Bitset}
use veil_db.Enclave.Sgx.{Sgx}
use veil_db.Enclave.Context.{Enclave}
use veil_db.Enclave.Machine.{eval_bool_expr}
use veil_db.Enclave.Meaning.{meaning, eval_bool_expr-code}
use veil_db.Enclave.Keywords.{search_keyword}
use veil_db.Enclave.Keywords.Index.{Apart, Indexes}
use veil_db.Enclave.Keywords.Search.{search_keyword-Indexes}
use veil_db.Enclave.Select.{answer, doc_ids, handle_select}

pub length-map : (f : List ℕ → List ℕ) (ts : List (List ℕ)) → length (map f ts) ≡ length ts
length-map f [] = refl
length-map f (t ∷ ts) = ap suc (length-map f ts)

module _ (sgx : Sgx) (key : List ℕ) (IsClear IsBlank : List ℕ → Type 0)
    (apart : Apart sgx key IsClear IsBlank) (postings : List ℕ → Bitset) (all : Bitset) where
  -- Where the index stands for posting lists, and no two labels of known keywords meet, a SELECT
  -- with the code of a query over at most 16 terms either throws, or answers from the documents
  -- that the query means over those lists: by its type and the limit of the context. The index
  -- then stands for the same lists, and no array or stack is left.
  pub handle_select-code :
      (type : ℕ) (terms : List (List ℕ)) (t : Ast) (s : Enclave)
      → IndexedBelow (length terms) t
      → length terms ≤ 16
      → Indexes sgx key IsClear IsBlank apart postings all s
      → Ends true
          (λ (ans, s').
            (ans ≡ answer type s'.ctx.retrieval_limit (doc_ids (meaning postings all terms t)))
            × Indexes sgx key IsClear IsBlank apart postings all s')
          (handle_select sgx type terms (code t) s)
  unfolding handle_select
  handle_select-code type terms t s below few h =
      Ends-bind true _ _
        (eval_bool_expr (λ s w. search_keyword sgx w s) (λ s. s.ctx.all_docs) terms (code t) s)
        (λ (bm, s'). ok (answer type s'.ctx.retrieval_limit (doc_ids bm), s'))
        (eval_bool_expr-code (λ s w. search_keyword sgx w s) (λ s. s.ctx.all_docs) terms true
          postings all (Indexes sgx key IsClear IsBlank apart postings all) (λ s h. h.occupied)
          (λ s w h. search_keyword-Indexes sgx key IsClear IsBlank apart postings all w s h) t s
          below few h)
        (λ (bm, s') k. (ap (λ b. answer type s'.ctx.retrieval_limit (doc_ids b)) k.0, k.1))

  -- Where the index stands for posting lists, and no two labels of known keywords meet, for the
  -- tokens of an expression that parse with at most 16 keywords: a SELECT with the keywords and the code that the client makes of them answers from the
  -- documents that the parsed expression means over the posting lists of the keywords, each cut to
  -- 32 bytes, or throws. The index stands for the same lists afterwards.
  pub handle_select-parsed :
      (type : ℕ) (tokens : List (List ℕ)) (t : Ast) (p : Cursor) (s : Enclave)
      → parse_tokens tokens ≡ ok (t, p)
      → length p.keywords ≤ 16
      → Indexes sgx key IsClear IsBlank apart postings all s
      → let terms : List (List ℕ) = map make_term p.keywords in
        Ends true
          (λ (ans, s').
            (ans ≡ answer type s'.ctx.retrieval_limit (doc_ids (meaning postings all terms t)))
            × Indexes sgx key IsClear IsBlank apart postings all s')
          (handle_select sgx type terms (code t) s)
  handle_select-parsed type tokens t p s parsed few h =
      let same = length-map make_term p.keywords in
      let safe : Safely {A = Ast × Cursor}
          (λ (t, c).
            IndexedBelow (length c.keywords) t
            × (length c.keywords + length c.rest ≤ length tokens))
          (ok (t, p)) =
        subst (Safely {A = Ast × Cursor} _) parsed (parse_tokens-Safely tokens) in
      handle_select-code type (map make_term p.keywords) t s
        (subst (λ n. IndexedBelow n t) (sym same) safe.0) (subst (λ n. n ≤ 16) (sym same) few) h
