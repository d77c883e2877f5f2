-- ===== src/Enclave/Bundle/Parse.antt =====
-- parse_doc_bundle_ex on any text.
use veil_db.Base.{
  ℕ, zero, suc, ◌+◌, ◌*◌, ◌≤◌, ◌≡◌, refl, List, [], ◌∷◌, length, take, drop, false, ltb, ◌==◌, ok,
  arith, Bool-cases, inl, inr, Ends,
}
use veil_db.Wire.Bytes.{read_u32}
use veil_db.Enclave.Bundle.{
  Bundle, until_zero, assign_text, parse_body, parse_index, parse_doc_bundle_ex,
}

read_u32_long :
    (p : List ℕ)
    → ltb (length p) 4 ≡ false
    → (v : ℕ) × (rest : List ℕ) × (read_u32 p ≡ ok (v, rest)) × (4 + length rest ≤ length p)
unfolding read_u32
read_u32_long [] h = absurd (ground (arith, h))
read_u32_long (a ∷ []) h = absurd (ground (arith, h))
read_u32_long (a ∷ b ∷ []) h = absurd (ground (arith, h))
read_u32_long (a ∷ b ∷ c ∷ []) h = absurd (ground (arith, h))
read_u32_long (a ∷ b ∷ c ∷ d ∷ rest) h =
    (a + 256 * b + 65536 * c + 16777216 * d, rest, refl, omega arith)

length-split : (n : ℕ) (xs : List ℕ) → length (take n xs) + length (drop n xs) ≤ length xs
length-split zero xs = omega arith
length-split (suc n) [] = omega arith
length-split (suc n) (x ∷ xs) = omega (arith, length-split n xs)

length-until_zero : (xs : List ℕ) → length (until_zero xs) ≤ length xs
unfolding until_zero
length-until_zero [] = omega arith
length-until_zero (c ∷ cs) = ground (arith, length-until_zero cs)

-- No more than what was given.
abbrev pub Within : ℕ → Bundle → Type 0
Within n b = length b.index_csv + length b.body ≤ n

parse_body-Within :
    (index : List ℕ) (version : ℕ) (rest : List ℕ) (n : ℕ)
    → length index + length rest ≤ n
    → Ends false (Within n) (parse_body index version rest)
unfolding parse_body assign_text
parse_body-Within index version rest n h = elim (Bool-cases (ltb (length rest) 4)) [
  | inl e ↦ rw (e, Ends) (omega (arith, h))
  | inr e ↦
      let (len, rest', read, shorter) = read_u32_long rest e in
      elim (Bool-cases (ltb (length rest') len)) [
        | inl f ↦ rw (e, read, f, Ends) (omega (arith, h))
        | inr f ↦ rw (e, read, f, Ends) (omega (arith, h, shorter, length-split len rest'))
      ]
]

parse_index-Within :
    (version : ℕ) (rest : List ℕ) (n : ℕ)
    → length rest ≤ n
    → Ends false (Within n) (parse_index version rest)
unfolding parse_index assign_text
parse_index-Within version rest n h = elim (Bool-cases (ltb (length rest) 8)) [
  | inl e ↦ rw (e, Ends) (omega arith)
  | inr e ↦
      let (len, rest', read, shorter) = read_u32_long rest (ground (arith, e)) in
      elim (Bool-cases (ltb (length rest') len)) [
        | inl f ↦ rw (e, read, f, Ends) (omega arith)
        | inr f ↦
            rw (e, read, f)
              (parse_body-Within (take len rest') version (drop len rest') n
                (omega (arith, h, shorter, length-split len rest')))
      ]
]

-- Whatever text is parsed, the parser never reads beyond its end and never throws, and what it
-- gives for the index and the body is together no longer than the text.
pub parse_doc_bundle_ex-Within :
    (plain : List ℕ) → Ends false (Within (length plain)) (parse_doc_bundle_ex plain)
unfolding parse_doc_bundle_ex
parse_doc_bundle_ex-Within [] = omega arith
parse_doc_bundle_ex-Within (magic ∷ rest) = elim (Bool-cases (magic == 0)) [
  | inl e ↦ rw (e, Ends) (omega (arith, length-until_zero rest))
  | inr e ↦ elim (Bool-cases (magic == 2)) [
    | inl f ↦ elim (Bool-cases (ltb (length rest) 12)) [
      | inl g ↦ rw (e, f, g, Ends) (omega arith)
      | inr g ↦
          let (version, rest', read, shorter) = read_u32_long rest (ground (arith, g)) in
          rw (e, f, g, read)
            (parse_index-Within version rest' (length (magic ∷ rest)) (omega (arith, shorter)))
    ]
    | inr f ↦ elim (Bool-cases (magic == 1)) [
      | inl g ↦ rw (e, f, g) (parse_index-Within 0 rest (length (magic ∷ rest)) (omega arith))
      | inr g ↦ rw (e, f, g, Ends) (omega arith)
    ]
  ]
]
