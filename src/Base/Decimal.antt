-- ===== src/Base/Decimal.antt =====
-- std::to_string of an int, the decimal digits that it writes, and atoi, which reads them.
use Prim.Native.Nat.{ℕ, zero, suc, ◌+◌, ◌*◌, ◌-◌, ◌/◌, ◌%◌, ◌<◌}
use mathlib.Core.Path.{◌≡◌, refl, ap, ◌∙◌, sym}
use mathlib.Core.Logic.{inl, inr}
use mathlib.Core.Bool.{Bool, true, false, not, ◌&&◌}
use mathlib.Core.List.{List, [], ◌∷◌, ◌++◌, tail}
use native.Mathlib.Omega.{arith}
use veil_db.Base.Tests.{ltb, leb, ◌==◌, if◌then◌else◌, Bool-cases}
use veil_db.Base.Lists.{All}
use veil_db.Base.Int.{ℤ, pos, negated}

-- The digits of `n`, with fuel above `n`.
digits : ℕ → ℕ → List ℕ
digits zero n = []
digits (suc f) n =
    let front = digits f (n / 10) in if ltb n 10 then (n + 48) ∷ [] else front ++ (n % 10 + 48) ∷ []

unfoldable pub to_string : ℕ → List ℕ
unfolding digits
to_string n = digits (suc n) n

abbrev pub is_digit : ℕ → Bool
is_digit c = leb 48 c && leb c 57

abbrev pub AllDigits : List ℕ → Type 0
AllDigits = All (λ c. is_digit c ≡ true)

-- The value of a row of digits after one that stands for `n`.
value_from : ℕ → List ℕ → ℕ
value_from n [] = n
value_from n (c ∷ cs) = value_from (n * 10 + (c - 48)) cs

value_from-snoc :
    (n : ℕ) (cs : List ℕ) (c : ℕ) → value_from n (cs ++ c ∷ []) ≡ value_from n cs * 10 + (c - 48)
unfolding value_from
value_from-snoc n [] c = refl
value_from-snoc n (d ∷ cs) c = value_from-snoc (n * 10 + (d - 48)) cs c

digits-value : (f n : ℕ) → n < f → value_from 0 (digits f n) ≡ n
unfolding digits value_from
digits-value zero n h = absurd (omega arith)
digits-value (suc f) n h = elim (Bool-cases (ltb n 10)) [
  | inl e ↦ rw e (omega arith)
  | inr e ↦ rw e (
      value_from-snoc 0 (digits f (n / 10)) (n % 10 + 48)
      ∙ rw (digits-value f (n / 10) (ground arith)) (omega arith))
]

pub AllDigits-append : (xs ys : List ℕ) → AllDigits xs → AllDigits ys → AllDigits (xs ++ ys)
AllDigits-append [] ys h k = k
AllDigits-append (x ∷ xs) ys h k = (h.0, AllDigits-append xs ys h.1 k)

digits-AllDigits : (f n : ℕ) → AllDigits (digits f n)
unfolding digits
digits-AllDigits zero n = tt
digits-AllDigits (suc f) n = elim (Bool-cases (ltb n 10)) [
  | inl e ↦ rw (e, All) (ground arith)
  | inr e ↦
      rw (e, All)
        (AllDigits-append (digits f (n / 10)) ((n % 10 + 48) ∷ []) (digits-AllDigits f (n / 10))
          (ground arith))
]

pub to_string-AllDigits : (n : ℕ) → AllDigits (to_string n)
unfolding to_string
to_string-AllDigits n = digits-AllDigits (suc n) n

-- The tens come before the units.
pub to_string-teens : (n : ℕ) → n < 10 → to_string (10 + n) ≡ 49 ∷ to_string n
unfolding to_string digits
to_string-teens n h = ground arith

-- Different numbers are written differently.
pub to_string-injective : (n m : ℕ) → to_string n ≡ to_string m → n ≡ m
unfolding to_string
to_string-injective n m e =
    cc (digits-value (suc n) n (omega arith), digits-value (suc m) m (omega arith))

-- A text that is empty or ends in a byte that is no digit.
unfoldable pub ends_plain : List ℕ → Bool
ends_plain [] = true
ends_plain (c ∷ []) = not (is_digit c)
ends_plain (c ∷ d ∷ cs) = ends_plain (d ∷ cs)

all_digits : List ℕ → Bool
all_digits [] = true
all_digits (c ∷ cs) = is_digit c && all_digits cs

-- What is left of a text without the digits at its end.
stem : List ℕ → List ℕ
unfolding all_digits
stem [] = []
stem (c ∷ cs) = let rest = stem cs in if is_digit c && all_digits cs then [] else c ∷ rest

stem-digits : (d : List ℕ) → AllDigits d → stem d ≡ []
unfolding stem
stem-digits [] h = refl
stem-digits (c ∷ cs) h = rw (h.0, all_lem cs h.1)
  where
    all_lem : (d : List ℕ) → AllDigits d → all_digits d ≡ true
    all_lem [] h = refl
    all_lem (c ∷ cs) h = rw (h.0, all_lem cs h.1)

not_all_digits :
    (c : ℕ) (cs d : List ℕ) → ends_plain (c ∷ cs) ≡ true → all_digits (c ∷ (cs ++ d)) ≡ false
unfolding ends_plain all_digits
not_all_digits c [] d h = ground arith
not_all_digits c (e ∷ cs) d h = ground (arith, not_all_digits e cs d h)

ends_plain-tail : (c : ℕ) (cs : List ℕ) → ends_plain (c ∷ cs) ≡ true → ends_plain cs ≡ true
unfolding ends_plain
ends_plain-tail c [] h = refl
ends_plain-tail c (d ∷ cs) h = h

stem-append : (w d : List ℕ) → ends_plain w ≡ true → AllDigits d → stem (w ++ d) ≡ w
unfolding stem
stem-append [] d h k = stem-digits d k
stem-append (c ∷ cs) d h k =
    rw (not_all_digits c cs d h, stem-append cs d (ends_plain-tail c cs h) k)

-- Where two texts end plain, they are the same if they are the same with digits behind them.
pub plain-injective :
    (w u d e : List ℕ)
    → ends_plain w ≡ true
    → ends_plain u ≡ true
    → AllDigits d
    → AllDigits e
    → w ++ d ≡ u ++ e
    → w ≡ u
plain-injective w u d e hw hu hd he h =
    sym (stem-append w d hw hd) ∙ ap stem h ∙ stem-append u e hu he

append_cancel : (w d e : List ℕ) → w ++ d ≡ w ++ e → d ≡ e
append_cancel [] d e h = h
append_cancel (c ∷ cs) d e h = append_cancel cs d e (ap tail h)

value_from-to_string : (n : ℕ) → value_from 0 (to_string n) ≡ n
unfolding to_string
value_from-to_string n = digits-value (suc n) n (omega arith)

suffix_number : (n m : ℕ) → to_string n ++ 48 ∷ [] ≡ to_string m ++ 48 ∷ [] → n ≡ m
suffix_number n m p = omega (
  arith,
  ap (value_from 0) p,
  value_from-snoc 0 (to_string n) 48,
  value_from-snoc 0 (to_string m) 48,
  value_from-to_string n,
  value_from-to_string m,
)

-- Where two texts end plain, a number and one more digit behind each can be told apart.
pub number_suffix-injective :
    (w u : List ℕ) (n m : ℕ)
    → ends_plain w ≡ true
    → ends_plain u ≡ true
    → w ++ (to_string n ++ 48 ∷ []) ≡ u ++ (to_string m ++ 48 ∷ [])
    → (w ≡ u) × (n ≡ m)
number_suffix-injective w u n m hw hu e =
    let all : (k : ℕ) → AllDigits (to_string k ++ 48 ∷ []) =
      λ k. AllDigits-append (to_string k) (48 ∷ []) (to_string-AllDigits k) (ground arith) in
    let same : w ≡ u =
      sym (stem-append w (to_string n ++ 48 ∷ []) hw (all n))
      ∙ ap stem e
      ∙ stem-append u (to_string m ++ 48 ∷ []) hu (all m) in
    let digits_same : to_string n ++ 48 ∷ [] ≡ to_string m ++ 48 ∷ [] =
      append_cancel u _ _ (rw same at e) in
    (same, suffix_number n m digits_same)

-- The value of the digits that a text starts with, after those that stand for `n`.
unfoldable pub digits_value : ℕ → List ℕ → ℕ
digits_value n [] = n
digits_value n (c ∷ cs) = elim (is_digit c) [
  | true ↦ digits_value (n * 10 + (c - 48)) cs
  | false ↦ n
]

digits_value-AllDigits : (n : ℕ) (cs : List ℕ) → AllDigits cs → digits_value n cs ≡ value_from n cs
unfolding digits_value value_from
digits_value-AllDigits n [] h = refl
digits_value-AllDigits n (c ∷ cs) h =
    rw (h.0, digits_value) (digits_value-AllDigits (n * 10 + (c - 48)) cs h.1)

-- atoi of a text that has no space in it.
unfoldable pub atoi : List ℕ → ℤ
unfolding digits_value
atoi [] = pos 0
atoi (c ∷ cs) =
    if c == b'-'
    then negated (digits_value 0 cs)
    else if c == b'+'
    then pos (digits_value 0 cs)
    else pos (digits_value 0 (c ∷ cs))

atoi-AllDigits : (d : List ℕ) → AllDigits d → atoi d ≡ pos (value_from 0 d)
unfolding atoi value_from
atoi-AllDigits [] h = refl
atoi-AllDigits (c ∷ cs) h =
    let minus : c == b'-' ≡ false = ground (arith, h.0) in
    let plus : c == b'+' ≡ false = ground (arith, h.0) in
    rw (minus, plus) (ap pos (digits_value-AllDigits 0 (c ∷ cs) h))

pub atoi-to_string : (n : ℕ) → atoi (to_string n) ≡ pos n
atoi-to_string n =
    atoi-AllDigits (to_string n) (to_string-AllDigits n) ∙ ap pos (value_from-to_string n)
