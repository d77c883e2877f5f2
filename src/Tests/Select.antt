-- ===== src/Tests/Select.antt =====
-- SELECT over the small index.
use veil_db.Base.{
  ℕ, suc, ◌<◌, ◌≡◌, refl, List, [], ◌∷◌, ltb, if◌then◌else◌, Ends, arith, true, false,
}
use veil_db.Query.Parser.{Ast, term, and, not}
use veil_db.Query.Encode.{code}
use veil_db.Enclave.Bitset.{Bitset, no_bits, set_bit, total_file_no}
use veil_db.Enclave.Context.{zero_key}
use veil_db.Enclave.Machine.{eval_bool_expr}
use veil_db.Enclave.Meaning.{meaning, eval_bool_expr-code}
use veil_db.Enclave.Keywords.{search_keyword}
use veil_db.Enclave.Keywords.Index.{Indexes}
use veil_db.Enclave.Keywords.Search.{search_keyword-Indexes}
use veil_db.Enclave.Select.{doc_ids}
use veil_db.Enclave.Select.Matches.{
  Ascending, Aggregates, is_among, doc_ids-matches, agg_value-doc_ids,
}
use veil_db.Enclave.Init.Labels.{IsKeyword, IsDummy}
use veil_db.Tests.Small.{
  toy, toy-apart, word_ab, word_cd, some_postings, some_state, some_state-Indexes,
}

abbrev words : List (List ℕ)
words = word_ab ∷ word_cd ∷ []

-- ab AND NOT cd
abbrev a_query : Ast
a_query = and (term 0) (not (term 1))

eval_bool_expr-code_example :
    Ends true
      (λ (bm, s').
        (bm ≡ meaning some_postings no_bits words a_query)
        × Indexes toy zero_key IsKeyword IsDummy toy-apart some_postings no_bits s')
      (eval_bool_expr
        (λ s w. search_keyword toy w s)
        (λ s. s.ctx.all_docs)
        words
        (code a_query)
        some_state)
eval_bool_expr-code_example =
    eval_bool_expr-code (λ s w. search_keyword toy w s) (λ s. s.ctx.all_docs) words true
      some_postings no_bits (Indexes toy zero_key IsKeyword IsDummy toy-apart some_postings no_bits)
      (λ s h. h.occupied)
      (λ s w h.
        search_keyword-Indexes toy zero_key IsKeyword IsDummy toy-apart some_postings no_bits w s h)
      a_query some_state (omega arith, omega arith) (omega arith) some_state-Indexes

abbrev two_bits : Bitset
two_bits = set_bit (set_bit no_bits 3 true) 9998 true

doc_ids-matches_example :
    Ascending 0 total_file_no (doc_ids two_bits)
    × ((j : ℕ)
        → is_among (suc j) (doc_ids two_bits) ≡ (if ltb j total_file_no then two_bits j else false))
doc_ids-matches_example = doc_ids-matches two_bits

three : 3 < total_file_no
unfolding total_file_no
three = omega arith

agg_value-doc_ids_example : Aggregates (doc_ids two_bits)
agg_value-doc_ids_example = agg_value-doc_ids two_bits 3 three refl
