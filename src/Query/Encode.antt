-- ===== src/Query/Encode.antt =====
-- QueryCodec.h: make_term and encode_bool_expr.
use veil_db.Base.{
  ℕ, ◌+◌, ◌%◌, ◌≤◌, ◌≡◌, List, [], ◌∷◌, ◌++◌, length, take, arith, Outcome, ok, fault, ltb, bind,
  ◌>>=◌, if◌then◌else◌, append_assoc, length-append_bytes, leb, leb→le, Bool-cases, inl, inr, ◌∙◌,
}
use veil_db.Protocol.{op_term, op_and, op_or, op_not, max_keyword_len, max_bool_expr}
use veil_db.Query.Parser.{Ast, term, and, or, not}

-- The bytes of the term that `len` counts; the rest of its array is zero.
unfoldable pub make_term : List ℕ → List ℕ
make_term keyword = take max_keyword_len keyword

-- `out[len++] = b;` into an array of 128 bytes, the list of those that are written.
unfoldable pub put : ℕ → List ℕ → Outcome (List ℕ)
put b out = if ltb (length out) max_bool_expr then ok (out ++ b ∷ []) else fault

-- A null child writes nothing.
unfoldable pub encode_bool_expr : Ast → List ℕ → Outcome (List ℕ)
unfolding put
encode_bool_expr (term i) out = do out₁ ← put op_term out; put (i % 256) out₁
encode_bool_expr (and a b) out = do
  out₁ ← encode_bool_expr a out
  out₂ ← encode_bool_expr b out₁
  put op_and out₂
encode_bool_expr (or a b) out = do
  out₁ ← encode_bool_expr a out
  out₂ ← encode_bool_expr b out₁
  put op_or out₂
encode_bool_expr (not a) out = do out₁ ← encode_bool_expr a out; put op_not out₁

-- Postfix code, without the buffer.
unfoldable pub code : Ast → List ℕ
code (term i) = op_term ∷ i % 256 ∷ []
code (and a b) = code a ++ (code b ++ op_and ∷ [])
code (or a b) = code a ++ (code b ++ op_or ∷ [])
code (not a) = code a ++ op_not ∷ []

-- `bytes` after `out`, if they fit.
abbrev pub append_bounded : List ℕ → List ℕ → Outcome (List ℕ)
append_bounded bytes out =
    if leb (length out + length bytes) max_bool_expr then ok (out ++ bytes) else fault

regroup :
    (x y out : List ℕ)
    → length out + length x ≤ max_bool_expr
    → append_bounded y (out ++ x) ≡ append_bounded (x ++ y) out
regroup x y out h =
    ground (arith, length-append_bytes out x, length-append_bytes x y, append_assoc out x y)

bounded-then :
    (x y out : List ℕ) (f : List ℕ → Outcome (List ℕ))
    → ((o : List ℕ) → length o ≤ max_bool_expr → f o ≡ append_bounded y o)
    → bind (append_bounded x out) f ≡ append_bounded (x ++ y) out
bounded-then x y out f h = elim (Bool-cases (leb (length out + length x) max_bool_expr)) [
  | inl e ↦
      let fits : length out + length x ≤ max_bool_expr = leb→le _ _ e in
      rw e (h (out ++ x) (omega (arith, length-append_bytes out x)) ∙ regroup x y out fits)
  | inr e ↦ rw e (ground (arith, length-append_bytes x y))
]

put-bounded :
    (b : ℕ) (out : List ℕ) → length out ≤ max_bool_expr → put b out ≡ append_bounded (b ∷ []) out
unfolding put
put-bounded b out h = ground arith

-- The code is appended where it fits in the 128 bytes of the buffer, and written beyond it
-- otherwise.
pub encode_bool_expr-code :
    (t : Ast) (out : List ℕ)
    → length out ≤ max_bool_expr
    → encode_bool_expr t out ≡ append_bounded (code t) out
unfolding encode_bool_expr code
encode_bool_expr-code (term i) out h =
    rw (put-bounded op_term out h)
      (bounded-then (op_term ∷ []) (i % 256 ∷ []) out _ (λ o. put-bounded (i % 256) o))
encode_bool_expr-code (and a b) out h = rw (encode_bool_expr-code a out h) (
    bounded-then (code a) (code b ++ op_and ∷ []) out _ (λ o k.
      rw (encode_bool_expr-code b o k)
        (bounded-then (code b) (op_and ∷ []) o _ (λ u. put-bounded op_and u))))
encode_bool_expr-code (or a b) out h = rw (encode_bool_expr-code a out h) (
    bounded-then (code a) (code b ++ op_or ∷ []) out _ (λ o k.
      rw (encode_bool_expr-code b o k)
        (bounded-then (code b) (op_or ∷ []) o _ (λ u. put-bounded op_or u))))
encode_bool_expr-code (not a) out h =
    rw (encode_bool_expr-code a out h)
      (bounded-then (code a) (op_not ∷ []) out _ (λ o. put-bounded op_not o))
