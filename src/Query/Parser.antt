-- ===== src/Query/Parser.antt =====
-- QueryCodec.h: ASTNode and BoolExprParser.
use veil_db.Base.{
  ℕ, zero, suc, ◌+◌, ◌*◌, List, [], ◌∷◌, ◌++◌, length, Outcome, ok, threw, stuck, unexpected_end,
  expect_close, bind, ◌==◌, if◌then◌else◌, Bool, true, false, same_text,
}

-- ASTNode, by its type; a term has its index.
pub data Ast : Type 0 where
  term : ℕ → Ast
  and or : Ast → Ast → Ast
  not : Ast → Ast

-- The parser's object: the tokens from `pos_` on, and `keywords_`.
pub record Cursor : Type 0 where
  pub rest : List (List ℕ)
  pub keywords : List (List ℕ)

-- A parser method: it may throw, and `stuck` is the end of the fuel.
abbrev pub Parse : Type 0 → Type 0
Parse A = Cursor → Outcome (A × Cursor)

infixl 5 ◌>>=◌ ◌>>◌
abbrev pub ◌>>=◌ : {A B : Type 0} → Parse A → (A → Parse B) → Parse B
◌>>=◌ m f c = bind (m c) (λ (a, c'). f a c')

abbrev pub ◌>>◌ : {B : Type 0} → Parse (Unit {0}) → Parse B → Parse B
m >> k = m >>= λ _. k

abbrev pub pure : {A : Type 0} → A → Parse A
pure a c = ok (a, c)

abbrev pub kw_or : List ℕ
kw_or = b'O' ∷ b'R' ∷ []

abbrev pub kw_and : List ℕ
kw_and = b'A' ∷ b'N' ∷ b'D' ∷ []

abbrev pub kw_not : List ℕ
kw_not = b'N' ∷ b'O' ∷ b'T' ∷ []

abbrev pub kw_open : List ℕ
kw_open = b'(' ∷ []

abbrev pub kw_close : List ℕ
kw_close = b')' ∷ []

-- Does the next token equal `token`?
unfoldable pub looks_at : List ℕ → List (List ℕ) → Bool
looks_at token [] = false
looks_at token (t ∷ ts) = same_text t token

abbrev pub skip : List (List ℕ) → List (List ℕ)
skip [] = []
skip (t ∷ ts) = ts

-- `match` in two parts, the test and the step.
abbrev pub advance : Cursor → Cursor
advance c = record c { rest = skip c.rest }

-- `if (match(token)) hit; else miss;`
unfoldable pub if_match : {A : Type 0} → List ℕ → Parse A → Parse A → Parse A
unfolding looks_at
if_match token hit miss c = elim (looks_at token c.rest) [ true ↦ hit (advance c) | false ↦ miss c ]

unfoldable pub expect : List ℕ → Parse (Unit {0})
unfolding if_match
expect token = if_match token (pure tt) (λ c. threw expect_close)

-- The position of a keyword, the length of the list where it is not there.
unfoldable pub find_index : List ℕ → List (List ℕ) → ℕ
find_index t [] = 0
find_index t (k ∷ ks) = if same_text k t then 0 else suc (find_index t ks)

unfoldable pub parse_word_at : List (List ℕ) → Parse Ast
unfolding find_index
parse_word_at [] c = threw unexpected_end
parse_word_at (t ∷ ts) c =
    let i = find_index t c.keywords in
    ok (
      term i,
      record {
        rest = ts;
        keywords = if i == length c.keywords then c.keywords ++ t ∷ [] else c.keywords;
      },
    )

unfoldable pub parse_word : Parse Ast
unfolding parse_word_at
parse_word c = parse_word_at c.rest c

-- The descent, a unit of fuel for each call. The loops of parse_expr and parse_term are functions.
unfoldable mutual
  unfolding if_match expect parse_word

  pub parse_expr : ℕ → Parse Ast
  parse_expr zero = λ c. stuck
  parse_expr (suc f) = do node ← parse_term f; or_loop f node

  pub or_loop : ℕ → Ast → Parse Ast
  or_loop zero node = λ c. stuck
  or_loop (suc f) node =
      if_match kw_or (do right ← parse_term f; or_loop f (or node right)) (pure node)

  pub parse_term : ℕ → Parse Ast
  parse_term zero = λ c. stuck
  parse_term (suc f) = do node ← parse_unary f; and_loop f node

  pub and_loop : ℕ → Ast → Parse Ast
  and_loop zero node = λ c. stuck
  and_loop (suc f) node =
      if_match kw_and (do right ← parse_unary f; and_loop f (and node right)) (pure node)

  pub parse_unary : ℕ → Parse Ast
  parse_unary zero = λ c. stuck
  parse_unary (suc f) = if_match kw_not (do node ← parse_unary f; pure (not node)) (parse_factor f)

  pub parse_factor : ℕ → Parse Ast
  parse_factor zero = λ c. stuck
  parse_factor (suc f) =
      if_match kw_open (do node ← parse_expr f; expect kw_close; pure node) parse_word

-- A parser over the tokens, asked for an expression.
unfoldable pub parse_tokens : List (List ℕ) → Outcome (Ast × Cursor)
parse_tokens tokens = parse_expr (6 * length tokens + 5) (record { rest = tokens; keywords = [] })
