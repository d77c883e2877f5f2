-- ===== src/Tests/Query.antt =====
-- A query from its tokens to its code.
use veil_db.Base.{ℕ, ◌+◌, ◌≤◌, ◌≡◌, List, [], ◌∷◌, length, arith, ok, Safely}
use veil_db.Query.Parser.{term, and, not, parse_tokens}
use veil_db.Query.Safety.{IndexedBelow, parse_tokens-Safely}
use veil_db.Query.Encode.{code, encode_bool_expr, encode_bool_expr-code}

-- A AND NOT B
abbrev a_not_b : List (List ℕ)
a_not_b = (b'A' ∷ []) ∷ (b'A' ∷ b'N' ∷ b'D' ∷ []) ∷ (b'N' ∷ b'O' ∷ b'T' ∷ []) ∷ (b'B' ∷ []) ∷ []

parse_tokens-Safely_example :
    Safely
      (λ (t, c).
        IndexedBelow (length c.keywords) t × (length c.keywords + length c.rest ≤ length a_not_b))
      (parse_tokens a_not_b)
parse_tokens-Safely_example = parse_tokens-Safely a_not_b

encode_bool_expr-code_example :
    encode_bool_expr (and (term 0) (not (term 1))) [] ≡ ok (1 ∷ 0 ∷ 1 ∷ 1 ∷ 4 ∷ 2 ∷ [])
unfolding code
encode_bool_expr-code_example = encode_bool_expr-code (and (term 0) (not (term 1))) [] (omega arith)
