-- ===== src/Enclave/Machine.antt =====
-- CryptoEnclave.cpp: the stack machine of handle_select, over the keyword search that it calls.
use veil_db.Base.{
  ℕ, ◌+◌, List, [], ◌∷◌, get_elem?, none, some, Outcome, ok, fault, ◌>>=◌, ltb, ◌==◌, if◌then◌else◌,
  true, false,
}
use veil_db.Protocol.{op_term, op_and, op_or, op_not, max_terms, max_bool_expr}
use veil_db.Enclave.Bitset.{Bitset, bit_and, bit_or, bit_without}

-- `req.terms[term_index]`: the array has 16 terms, and those beyond the ones sent are empty.
unfoldable pub term_at : List (List ℕ) → ℕ → Outcome (List ℕ)
term_at terms i = elim (get_elem? terms i) [
  | some t ↦ ok t
  | none ↦ if ltb i max_terms then ok [] else fault
]

-- Two pops and a push; to pop an empty stack is undefined.
unfoldable pub binary : (Bitset → Bitset → Bitset) → List Bitset → Outcome (List Bitset)
binary f (right ∷ left ∷ rest) = ok (f left right ∷ rest)
binary f (b ∷ []) = fault
binary f [] = fault

unfoldable pub complement : Bitset → List Bitset → Outcome (List Bitset)
complement all (word ∷ rest) = ok (bit_without all word ∷ rest)
complement all [] = fault

-- The branches for AND, OR and NOT; any other token does nothing.
unfoldable pub apply_op : Bitset → ℕ → List Bitset → Outcome (List Bitset)
unfolding binary complement
apply_op all token stk =
    if token == op_and
    then binary bit_and stk
    else if token == op_or
    then binary bit_or stk
    else if token == op_not
    then complement all stk
    else ok stk

unfoldable pub top : List Bitset → Outcome Bitset
top [] = fault
top (b ∷ rest) = ok b

module _ {S : Type 0}
    -- Search of the enclave's state, and its all_docs
    (search : S → List ℕ → Outcome (Bitset × S)) (all_docs : S → Bitset)
    (terms : List (List ℕ)) where
  -- `stk.push(Search(edb_id, keyword));` for the term `i`
  unfoldable pub push_term : ℕ → List Bitset → S → Outcome (List Bitset × S)
  unfolding term_at
  push_term i stk s = do keyword ← term_at terms i; (bm, s') ← search s keyword; ok (bm ∷ stk, s')

  unfoldable pub run_op : ℕ → List Bitset → S → Outcome (List Bitset × S)
  unfolding apply_op
  run_op token stk s = do stk' ← apply_op (all_docs s) token stk; ok (stk', s)

  -- The loop, at position `i` of the expression. The operand of a last token is read beyond
  -- `bool_len`, where the array is zero, or beyond the array.
  unfoldable pub run : ℕ → List ℕ → List Bitset → S → Outcome (List Bitset × S)
  unfolding push_term run_op
  run i [] stk s = ok (stk, s)
  run i (token ∷ []) stk s =
      if token == op_term
      then (if ltb (i + 1) max_bool_expr then push_term 0 stk s else fault)
      else run_op token stk s
  run i (token ∷ operand ∷ code) stk s = elim (token == op_term) [
    | true ↦ do (stk', s') ← push_term operand stk s; run (i + 2) code stk' s'
    | false ↦ do (stk', s') ← run_op token stk s; run (i + 1) (operand ∷ code) stk' s'
  ]

  -- The final bitmap of handle_select.
  unfoldable pub eval_bool_expr : List ℕ → S → Outcome (Bitset × S)
  unfolding run top
  eval_bool_expr bool_expr s = do (stk, s') ← run 0 bool_expr [] s; bm ← top stk; ok (bm, s')
