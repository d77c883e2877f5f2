-- ===== src/Enclave/Request.antt =====
-- CryptoEnclave.cpp: handle_select as a whole, with the loading of the documents.
pub mod Answers
pub mod Documents
use veil_db.Base.{ℕ, List, map}
use veil_db.Base.Int.{ℤ}
use veil_db.Base.Decimal.{to_string}
use veil_db.Enclave.Sgx.{Sgx}
use veil_db.Enclave.Context.{Run, ◌>>=◌, pure}
use veil_db.Enclave.Select.{Answer, retrieve, aggregate, handle_select}
use veil_db.Enclave.Retrieve.{retrieve_docs}

-- What result_doc holds afterwards: the rows, or doc_id[0] and doc_id[1] of an aggregate.
pub data SelectResult : Type 0 where
  rows : List (ℤ × List ℕ) → SelectResult
  aggregated : ℕ → ℕ → SelectResult

module _ (sgx : Sgx) where
  unfoldable pub load_answer : Answer → Run SelectResult
  unfolding retrieve_docs
  load_answer (retrieve ids) = do found ← retrieve_docs sgx (map to_string ids); pure (rows found)
  load_answer (aggregate value count) = pure (aggregated value count)

  unfoldable pub select_documents : ℕ → List (List ℕ) → List ℕ → Run SelectResult
  unfolding handle_select load_answer
  select_documents type terms bool_expr = do
    found ← handle_select sgx type terms bool_expr
    load_answer found
