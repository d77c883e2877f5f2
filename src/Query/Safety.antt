-- ===== src/Query/Safety.antt =====
-- QueryCodec.h: BoolExprParser on any tokens.
use veil_db.Base.{
  ℕ, zero, suc, ◌+◌, ◌*◌, ◌≤◌, ◌<◌, ◌≡◌, refl, ap, List, [], ◌∷◌, ◌++◌, length, arith, ok, threw,
  Safely, Safely-bind, Safely-mono, true, Bool-cases, inl, inr, length-append, expect_close,
}
use veil_db.Query.Parser.{
  Ast, term, and, or, not, Cursor, Parse, ◌>>=◌, ◌>>◌, pure, kw_or, kw_and, kw_not, kw_open,
  kw_close, looks_at, skip, advance, if_match, expect, find_index, parse_word_at, parse_word,
  parse_expr, or_loop, parse_term, and_loop, parse_unary, parse_factor, parse_tokens,
}

-- Every index of the tree is below `n`.
abbrev pub IndexedBelow : ℕ → Ast → Type 0
IndexedBelow n (term i) = i < n
IndexedBelow n (and a b) = IndexedBelow n a × IndexedBelow n b
IndexedBelow n (or a b) = IndexedBelow n a × IndexedBelow n b
IndexedBelow n (not a) = IndexedBelow n a

IndexedBelow-mono : (n m : ℕ) (t : Ast) → n ≤ m → IndexedBelow n t → IndexedBelow m t
IndexedBelow-mono n m (term i) h b = omega arith
IndexedBelow-mono n m (and s t) h b = (IndexedBelow-mono n m s h b.0, IndexedBelow-mono n m t h b.1)
IndexedBelow-mono n m (or s t) h b = (IndexedBelow-mono n m s h b.0, IndexedBelow-mono n m t h b.1)
IndexedBelow-mono n m (not t) h b = IndexedBelow-mono n m t h b

-- What holds when a method returns the tree `t`, having begun with `before`.
pub record Parsed (before : Cursor) (r : Ast × Cursor) : Type 0 where
  pub indexed : IndexedBelow (length r.1.keywords) r.0
  pub grown : length before.keywords ≤ length r.1.keywords
  pub counted : length r.1.keywords + length r.1.rest ≤ length before.keywords + length before.rest

-- The same, with a token read.
abbrev Reads : Cursor → Ast × Cursor → Type 0
Reads c r = Parsed c r × (length r.1.rest < length c.rest)

abbrev Keeps : Cursor → Ast × Cursor → Type 0
Keeps c r = Parsed c r × (length r.1.rest ≤ length c.rest)

length-skip :
    (token : List ℕ) (ts : List (List ℕ))
    → looks_at token ts ≡ true
    → length (skip ts) + 1 ≡ length ts
unfolding looks_at
length-skip token [] h = cc
length-skip token (t ∷ ts) h = omega arith

find_index-le : (t : List ℕ) (ks : List (List ℕ)) → find_index t ks ≤ length ks
unfolding find_index
find_index-le t [] = omega arith
find_index-le t (k ∷ ks) = ground (arith, find_index-le t ks)

length-snoc : (t : List ℕ) (ks : List (List ℕ)) → length (ks ++ t ∷ []) ≡ length ks + 1
length-snoc t ks = omega (arith, length-append ks (t ∷ []))

parse_word-Reads : (c : Cursor) → Safely (Reads c) (parse_word c)
unfolding parse_word
parse_word-Reads c = at c.rest refl
  where
    at : (ts : List (List ℕ)) → c.rest ≡ ts → Safely (Reads c) (parse_word_at ts c)
    at [] e = tt
    at (t ∷ ts) e =
        ground (arith, find_index-le t c.keywords, length-snoc t c.keywords, ap length e)

-- Both branches of a test on the next token.
Safely-if_match :
    {A : Type 0} (P : A × Cursor → Type 0) (token : List ℕ) (hit miss : Parse A) (c : Cursor)
    → (length (skip c.rest) + 1 ≡ length c.rest → Safely P (hit (advance c)))
    → Safely P (miss c)
    → Safely P (if_match token hit miss c)
unfolding if_match
Safely-if_match P token hit miss c h m = elim (Bool-cases (looks_at token c.rest)) [
  | inl e ↦ rw (e, Safely) (h (length-skip token c.rest e))
  | inr e ↦ rw (e, Safely) m
]

-- The loops: the tree so far is good at the cursor.
abbrev Holds : Ast → Cursor → Type 0
Holds t c = IndexedBelow (length c.keywords) t

module _ (c : Cursor) (t : Ast) (c₁ : Cursor) (r : Ast × Cursor) where
  Reads-then : Reads c (t, c₁) → Keeps c₁ r → Reads c r
  Reads-then h k = (
    record {
      indexed = k.0.indexed;
      grown = omega (arith, h.0.grown, k.0.grown);
      counted = omega (arith, h.0.counted, k.0.counted);
    },
    omega (arith, h.1, k.1),
  )

  Keeps-then :
      Reads (advance c) (t, c₁) → length (skip c.rest) + 1 ≡ length c.rest → Keeps c₁ r → Keeps c r
  Keeps-then h e k = (
    record {
      indexed = k.0.indexed;
      grown = omega (arith, h.0.grown, k.0.grown);
      counted = omega (arith, h.0.counted, k.0.counted);
    },
    omega (arith, h.1, k.1),
  )

module _ (c : Cursor) (t : Ast) where
  Keeps-refl : Holds t c → Keeps c (t, c)
  Keeps-refl h = (record { indexed = h; grown = omega arith; counted = omega arith }, omega arith)

  -- A tree that is read after one token.
  Reads-advance :
      (c₁ : Cursor)
      → Reads (advance c) (t, c₁)
      → length (skip c.rest) + 1 ≡ length c.rest
      → Reads c (t, c₁)
  Reads-advance c₁ h e = (
    record {
      indexed = h.0.indexed;
      grown = omega (arith, h.0.grown);
      counted = omega (arith, h.0.counted);
    },
    omega (arith, h.1),
  )

  Holds-left : (c₁ : Cursor) → length c.keywords ≤ length c₁.keywords → Holds t c → Holds t c₁
  Holds-left c₁ h k = IndexedBelow-mono _ _ t h k

expect-Safely :
    (token : List ℕ) (c : Cursor)
    → Safely
        (λ (u, c'). (c'.keywords ≡ c.keywords) × (length c'.rest < length c.rest))
        (expect token c)
unfolding expect
expect-Safely token c =
    Safely-if_match _ token (pure tt) (λ _. threw expect_close) c (λ e. (refl, omega arith)) tt

mutual
  unfolding parse_expr

  parse_expr-Reads :
      (f : ℕ) (c : Cursor) → 6 * length c.rest + 4 < f → Safely (Reads c) (parse_expr f c)
  parse_expr-Reads zero c h = absurd (omega arith)
  parse_expr-Reads (suc f) c h =
      Safely-bind (Reads c) (Reads c) (parse_term f c) (λ (t, c'). or_loop f t c')
        (parse_term-Reads f c (omega arith))
        (λ (t, c') r.
          Safely-mono (Keeps c') (Reads c) (or_loop f t c')
            (or_loop-Keeps f t c' (omega (arith, r.1)) r.0.indexed)
            (λ u k. Reads-then c t c' u r k))

  or_loop-Keeps :
      (f : ℕ) (t : Ast) (c : Cursor)
      → 6 * length c.rest < f
      → Holds t c
      → Safely (Keeps c) (or_loop f t c)
  or_loop-Keeps zero t c h k = absurd (omega arith)
  or_loop-Keeps (suc f) t c h k =
      Safely-if_match (Keeps c) kw_or (do right ← parse_term f; or_loop f (or t right)) (pure t) c
        (λ e.
          Safely-bind (Reads (advance c)) (Keeps c) (parse_term f (advance c))
            (λ (r, c'). or_loop f (or t r) c') (parse_term-Reads f (advance c) (omega arith))
            (λ (r, c') q.
              Safely-mono (Keeps c') (Keeps c) (or_loop f (or t r) c')
                (or_loop-Keeps f (or t r) c' (omega (arith, q.1))
                  (Holds-left c t c' q.0.grown k, q.0.indexed))
                (λ u z. Keeps-then c r c' u q e z)))
        (Keeps-refl c t k)

  parse_term-Reads :
      (f : ℕ) (c : Cursor) → 6 * length c.rest + 3 < f → Safely (Reads c) (parse_term f c)
  parse_term-Reads zero c h = absurd (omega arith)
  parse_term-Reads (suc f) c h =
      Safely-bind (Reads c) (Reads c) (parse_unary f c) (λ (t, c'). and_loop f t c')
        (parse_unary-Reads f c (omega arith))
        (λ (t, c') r.
          Safely-mono (Keeps c') (Reads c) (and_loop f t c')
            (and_loop-Keeps f t c' (omega (arith, r.1)) r.0.indexed)
            (λ u k. Reads-then c t c' u r k))

  and_loop-Keeps :
      (f : ℕ) (t : Ast) (c : Cursor)
      → 6 * length c.rest < f
      → Holds t c
      → Safely (Keeps c) (and_loop f t c)
  and_loop-Keeps zero t c h k = absurd (omega arith)
  and_loop-Keeps (suc f) t c h k =
      Safely-if_match (Keeps c) kw_and (do right ← parse_unary f; and_loop f (and t right)) (pure t)
        c
        (λ e.
          Safely-bind (Reads (advance c)) (Keeps c) (parse_unary f (advance c))
            (λ (r, c'). and_loop f (and t r) c') (parse_unary-Reads f (advance c) (omega arith))
            (λ (r, c') q.
              Safely-mono (Keeps c') (Keeps c) (and_loop f (and t r) c')
                (and_loop-Keeps f (and t r) c' (omega (arith, q.1))
                  (Holds-left c t c' q.0.grown k, q.0.indexed))
                (λ u z. Keeps-then c r c' u q e z)))
        (Keeps-refl c t k)

  parse_unary-Reads :
      (f : ℕ) (c : Cursor) → 6 * length c.rest + 2 < f → Safely (Reads c) (parse_unary f c)
  parse_unary-Reads zero c h = absurd (omega arith)
  parse_unary-Reads (suc f) c h =
      Safely-if_match (Reads c) kw_not (do node ← parse_unary f; pure (not node)) (parse_factor f) c
        (λ e.
          Safely-bind (Reads (advance c)) (Reads c) (parse_unary f (advance c))
            (λ (r, c'). ok (not r, c')) (parse_unary-Reads f (advance c) (omega arith))
            (λ (r, c') q.
              let z = Reads-advance c r c' q e in
              (record { indexed = z.0.indexed; grown = z.0.grown; counted = z.0.counted }, z.1)))
        (parse_factor-Reads f c (omega arith))

  parse_factor-Reads :
      (f : ℕ) (c : Cursor) → 6 * length c.rest + 1 < f → Safely (Reads c) (parse_factor f c)
  parse_factor-Reads zero c h = absurd (omega arith)
  parse_factor-Reads (suc f) c h =
      Safely-if_match (Reads c) kw_open (do node ← parse_expr f; expect kw_close; pure node)
        parse_word c
        (λ e.
          Safely-bind (Reads (advance c)) (Reads c) (parse_expr f (advance c))
            (λ (r, c'). (do expect kw_close; pure r) c')
            (parse_expr-Reads f (advance c) (omega arith))
            (λ (r, c') q.
              let z = Reads-advance c r c' q e in
              Safely-bind _ (Reads c) (expect kw_close c') (λ (u, c''). ok (r, c''))
                (expect-Safely kw_close c')
                (λ (u, c'') w. (
                  record {
                    indexed = rw w.0 z.0.indexed;
                    grown = omega (arith, ap length w.0, z.0.grown);
                    counted = omega (arith, ap length w.0, z.0.counted, w.1);
                  },
                  omega (arith, w.1, z.1),
                ))))
        (parse_word-Reads c)

-- On any tokens the parser ends, within the fuel that it is given: it throws, or it returns a tree
-- whose indices are within the keyword list. That list and the tokens that are left over are
-- together no more than the tokens given.
pub parse_tokens-Safely :
    (tokens : List (List ℕ))
    → Safely
        (λ (t, c).
          IndexedBelow (length c.keywords) t × (length c.keywords + length c.rest ≤ length tokens))
        (parse_tokens tokens)
unfolding parse_tokens
parse_tokens-Safely tokens =
    let start : Cursor = record { rest = tokens; keywords = [] } in
    Safely-mono (Reads start) _ (parse_expr (6 * length tokens + 5) start)
      (parse_expr-Reads (6 * length tokens + 5) start (omega arith))
      (λ (t, c) r. (r.0.indexed, omega (arith, r.0.counted)))
