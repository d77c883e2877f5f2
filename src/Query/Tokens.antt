-- ===== src/Query/Tokens.antt =====
-- QueryCodec.h: to_upper and tokenize_query, in the C locale.
use veil_db.Base.{ℕ, ◌-◌, List, [], ◌∷◌, ◌++◌, map, leb, ◌==◌, if◌then◌else◌, Bool, ◌&&◌, ◌||◌}

-- The bytes that std::isspace accepts.
abbrev pub is_space : ℕ → Bool
is_space c = c == 32 || (leb 9 c && leb c 13)

abbrev pub is_paren : ℕ → Bool
is_paren c = c == b'(' || c == b')'

toupper : ℕ → ℕ
toupper c = if leb b'a' c && leb c b'z' then c - 32 else c

unfoldable pub to_upper : List ℕ → List ℕ
unfolding toupper
to_upper = map toupper

-- The lambda `flush`, on the tokens and the current one.
abbrev pub flush : List (List ℕ) → List ℕ → List (List ℕ)
flush tokens [] = tokens
flush tokens (c ∷ cs) = tokens ++ (c ∷ cs) ∷ []

-- The loop over the input. Each branch makes one call, with its tokens and its current token.
unfoldable pub tokenize_loop : List (List ℕ) → List ℕ → List ℕ → List (List ℕ)
tokenize_loop tokens current [] = flush tokens current
tokenize_loop tokens current (ch ∷ input) =
    tokenize_loop
      (if is_space ch
        then flush tokens current
        else if is_paren ch
        then flush tokens current ++ (ch ∷ []) ∷ []
        else tokens)
      (if is_space ch then [] else if is_paren ch then [] else current ++ ch ∷ []) input

unfoldable pub tokenize_query : List ℕ → List (List ℕ)
unfolding tokenize_loop
tokenize_query = tokenize_loop [] []
