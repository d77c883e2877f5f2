-- ===== src/Enclave/Meaning.antt =====
-- The meaning of a query over posting lists, beside its code on the enclave's stack machine.
use veil_db.Base.{
  ℕ, zero, suc, ◌+◌, ◌%◌, ◌≤◌, ◌<◌, ◌≡◌, refl, List, [], ◌∷◌, ◌++◌, length, get_elem?, Option, none,
  some, Outcome, ok, bind, Ends, Ends-bind, Ends-mono, Bool, false, arith, append_assoc, append-nil,
  ◌==◌,
}
use veil_db.Protocol.{op_term, op_and, op_or, op_not}
use veil_db.Query.Parser.{Ast, term, and, or, not}
use veil_db.Query.Encode.{code}
use veil_db.Query.Safety.{IndexedBelow}
use veil_db.Enclave.Bitset.{Bitset, bit_and, bit_or, bit_without}
use veil_db.Enclave.Machine.{term_at, push_term, run_op, run, top, eval_bool_expr}

-- What a query means, where `view` gives the posting list of a keyword.
abbrev pub term_view : (List ℕ → Bitset) → Option (List ℕ) → Bitset
term_view view none = view []
term_view view (some t) = view t

abbrev pub meaning : (List ℕ → Bitset) → Bitset → List (List ℕ) → Ast → Bitset
meaning view all terms (term i) = term_view view (get_elem? terms i)
meaning view all terms (and a b) = bit_and (meaning view all terms a) (meaning view all terms b)
meaning view all terms (or a b) = bit_or (meaning view all terms a) (meaning view all terms b)
meaning view all terms (not a) = bit_without all (meaning view all terms a)

get_elem?-some :
    (i : ℕ) (ts : List (List ℕ)) → i < length ts → (t : List ℕ) × (get_elem? ts i ≡ some t)
get_elem?-some i [] h = absurd (omega arith)
get_elem?-some zero (t ∷ ts) h = (t, refl)
get_elem?-some (suc i) (t ∷ ts) h = get_elem?-some i ts (omega arith)

term_at-some :
    (terms : List (List ℕ)) (i : ℕ) (t : List ℕ)
    → get_elem? terms i ≡ some t
    → term_at terms i ≡ ok t
unfolding term_at
term_at-some terms i t e = rw (e, term_at)

module _ {S : Type 0} (search : S → List ℕ → Outcome (Bitset × S)) (all_docs : S → Bitset)
    (terms : List (List ℕ)) (may_throw : Bool) (view : List ℕ → Bitset) (all : Bitset)
    -- an invariant under which the search answers by `view` and keeps to it
    (Shows : S → Type 0) (all_docs-Shows : (s : S) → Shows s → all_docs s ≡ all)
    (search-Shows : (s : S) (w : List ℕ)
      → Shows s
      → Ends may_throw (λ (bm, s'). (bm ≡ view w) × Shows s') (search s w)) where
  abbrev Pushed : Ast → List Bitset → List Bitset × S → Type 0
  Pushed t stk (stk', s') = (stk' ≡ meaning view all terms t ∷ stk) × Shows s'

  push_term-Ends :
      (i : ℕ) (stk : List Bitset) (s : S)
      → i < length terms
      → Shows s
      → Ends may_throw (Pushed (term i) stk) (push_term search all_docs terms i stk s)
  unfolding push_term
  push_term-Ends i stk s h inv =
      let (t, e) = get_elem?-some i terms h in
      rw (term_at-some terms i t e, Ends)
        (Ends-bind may_throw _ (Pushed (term i) stk) (search s t) (λ (bm, s'). ok (bm ∷ stk, s'))
          (search-Shows s t inv) (λ (bm, s') r. (rw (e, r.0), r.1)))

  -- One round of the loop on an operator.
  run-op :
      (token i : ℕ) (rest : List ℕ) (stk : List Bitset) (s : S) (P Q : List Bitset × S → Type 0)
      → token == op_term ≡ false
      → Ends may_throw P (run_op search all_docs terms token stk s)
      → ((j : ℕ) (r : List Bitset × S)
          → P r
          → Ends may_throw Q (run search all_docs terms j rest r.0 r.1))
      → Ends may_throw Q (run search all_docs terms i (token ∷ rest) stk s)
  unfolding run
  run-op token i [] stk s P Q other h k =
      rw (other, Ends)
        (Ends-mono may_throw P Q (run_op search all_docs terms token stk s) h (λ r p. k 0 r p))
  run-op token i (b ∷ bs) stk s P Q other h k =
      rw (other, Ends)
        (Ends-bind may_throw P Q (run_op search all_docs terms token stk s)
          (λ (stk', s'). run search all_docs terms (i + 1) (b ∷ bs) stk' s') h
          (λ r p. k (i + 1) r p))

  run-push :
      (n i : ℕ) (rest : List ℕ) (stk : List Bitset) (s : S) (P Q : List Bitset × S → Type 0)
      → Ends may_throw P (push_term search all_docs terms n stk s)
      → ((j : ℕ) (r : List Bitset × S)
          → P r
          → Ends may_throw Q (run search all_docs terms j rest r.0 r.1))
      → Ends may_throw Q (run search all_docs terms i (op_term ∷ n ∷ rest) stk s)
  unfolding run
  run-push n i rest stk s P Q h k =
      Ends-bind may_throw P Q (push_term search all_docs terms n stk s)
        (λ (stk', s'). run search all_docs terms (i + 2) rest stk' s') h (λ r p. k (i + 2) r p)

  -- After the code of `t` the machine stands before what follows, with its value on the stack.
  run-code :
      (t : Ast) (i : ℕ) (rest : List ℕ) (stk : List Bitset) (s : S) (Q : List Bitset × S → Type 0)
      → IndexedBelow (length terms) t
      → length terms ≤ 16
      → Shows s
      → ((j : ℕ) (r : List Bitset × S)
          → Pushed t stk r
          → Ends may_throw Q (run search all_docs terms j rest r.0 r.1))
      → Ends may_throw Q (run search all_docs terms i (code t ++ rest) stk s)
  unfolding code
  run-code (term n) i rest stk s Q h few inv k =
      let small : n % 256 ≡ n = omega arith in
      rw small (run-push n i rest stk s _ Q (push_term-Ends n stk s h inv) k)
  run-code (and a b) i rest stk s Q h few inv k =
      rw
        (
          append_assoc (code a) (code b ++ op_and ∷ []) rest,
          append_assoc (code b) (op_and ∷ []) rest,
        )
        (run-code a i (code b ++ op_and ∷ rest) stk s Q h.0 few inv λ j (stk₁, s₁) p.
          run-code b j (op_and ∷ rest) stk₁ s₁ Q h.1 few p.1 λ j' (stk₂, s₂) q.
            run-op op_and j' rest stk₂ s₂ (Pushed (and a b) stk) Q refl
              (unfold run_op in rw (q.0, p.0, Ends) (refl, q.1)) k)
  run-code (or a b) i rest stk s Q h few inv k =
      rw
        (append_assoc (code a) (code b ++ op_or ∷ []) rest, append_assoc (code b) (op_or ∷ []) rest)
        (run-code a i (code b ++ op_or ∷ rest) stk s Q h.0 few inv λ j (stk₁, s₁) p.
          run-code b j (op_or ∷ rest) stk₁ s₁ Q h.1 few p.1 λ j' (stk₂, s₂) q.
            run-op op_or j' rest stk₂ s₂ (Pushed (or a b) stk) Q refl
              (unfold run_op in rw (q.0, p.0, Ends) (refl, q.1)) k)
  run-code (not a) i rest stk s Q h few inv k = rw (append_assoc (code a) (op_not ∷ []) rest) (
      run-code a i (op_not ∷ rest) stk s Q h few inv λ j (stk₁, s₁) p.
        run-op op_not j rest stk₁ s₁ (Pushed (not a) stk) Q refl
          (unfold run_op in rw (p.0, all_docs-Shows s₁ p.1, Ends) (refl, p.1)) k)

  -- The code of a query whose indices are all below the number of the terms, with at most 16 of
  -- them, run from an empty stack where the view of the index holds: it gives the bitmap that the
  -- query means, and the view still holds. It ends in an exception only where a search may, and
  -- never leaves its arrays or its stack.
  pub eval_bool_expr-code :
      (t : Ast) (s : S)
      → IndexedBelow (length terms) t
      → length terms ≤ 16
      → Shows s
      → Ends may_throw
          (λ (bm, s'). (bm ≡ meaning view all terms t) × Shows s')
          (eval_bool_expr search all_docs terms (code t) s)
  unfolding eval_bool_expr
  eval_bool_expr-code t s h few inv =
      Ends-bind may_throw (Pushed t []) _ (run search all_docs terms 0 (code t) [] s)
        (λ (stk, s'). bind (top stk) (λ bm. ok (bm, s')))
        (rw append-nil at (run-code t 0 [] [] s (Pushed t []) h few inv (λ j r p. unfold run in p)))
        (λ (stk, s') p. rw (p.0, Ends) (refl, p.1))
