-- ===== src/Enclave/Select.antt =====
-- CryptoEnclave.cpp: handle_select, up to the loading of the documents by RetrieveDocs.
-- A document id, which the code writes as a decimal text and reads back with atoi, is its number.
pub mod Matches
pub mod Finds
use veil_db.Base.{
  ℕ, zero, suc, ◌+◌, ◌-◌, ◌/◌, List, [], ◌∷◌, length, take, Bool, true, false, ◌&&◌, ltb, leb, ◌==◌,
  if◌then◌else◌, Outcome, ok, bind,
}
use veil_db.Enclave.Bitset.{Bitset, total_file_no}
use veil_db.Enclave.Sgx.{Sgx}
use veil_db.Enclave.Context.{Enclave, Run, ◌>>=◌, pure, get_ctx}
use veil_db.Enclave.Machine.{eval_bool_expr}
use veil_db.Enclave.Keywords.{search_keyword}
use veil_db.Protocol.{SelectRequest}

-- The ids of the bits that are set among `n` positions from `i` on.
unfoldable pub matches_from : Bitset → ℕ → ℕ → List ℕ
matches_from bm i zero = []
matches_from bm i (suc n) =
    let rest = matches_from bm (i + 1) n in if bm i then (i + 1) ∷ rest else rest

-- `doc_ids` as the loop over the final bitmap leaves it.
unfoldable pub doc_ids : Bitset → List ℕ
unfolding matches_from total_file_no
doc_ids bm = matches_from bm 0 total_file_no

-- `doc_ids.back()` and `doc_ids.front()` of a vector that is not empty.
unfoldable pub back : ℕ → List ℕ → ℕ
back first [] = first
back first (id ∷ ids) = back id ids

unfoldable pub sum : List ℕ → ℕ
sum [] = 0
sum (id ∷ ids) = id + sum ids

-- agg_value for the request's type. Without a match it stays 0.
unfoldable pub agg_value : ℕ → List ℕ → ℕ
unfolding back sum
agg_value type [] = 0
agg_value type (first ∷ rest) =
    if type == 1
    then back first rest
    else if type == 2
    then first
    else if type == 3
    then sum (first ∷ rest)
    else if type == 4
    then sum (first ∷ rest) / length (first ∷ rest)
    else 0

-- What the handler hands over: the ids that RetrieveDocs is called for, or an aggregate with the
-- number of matches, doc_id[0] and doc_id[1] of the result.
pub data Answer : Type 0 where
  retrieve : List ℕ → Answer
  aggregate : ℕ → ℕ → Answer

-- The branches on the request's type. `doc_ids.resize` to a limit.
unfoldable pub answer : ℕ → ℕ → List ℕ → Answer
unfolding agg_value
answer type limit ids =
    if type == 0
    then retrieve (if ltb limit (length ids) then take limit ids else ids)
    else if leb type 4
    then aggregate (agg_value type ids) (length ids)
    else retrieve ids

unfoldable pub handle_select : Sgx → ℕ → List (List ℕ) → List ℕ → Run Answer
unfolding answer doc_ids search_keyword eval_bool_expr
handle_select sgx type terms bool_expr = do
  final_bm ← eval_bool_expr (λ s w. search_keyword sgx w s) (λ s. s.ctx.all_docs) terms bool_expr
  c ← get_ctx
  pure (answer type c.retrieval_limit (doc_ids final_bm))
