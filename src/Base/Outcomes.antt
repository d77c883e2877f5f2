-- ===== src/Base/Outcomes.antt =====
-- What a C++ call can end in: a value, an exception that leaves it, or undefined behaviour.
use mathlib.Core.Path.{◌≡◌, refl}
use mathlib.Core.Bool.{Bool, true, false}

-- The exceptions that the sources raise.
pub data Exception : Type 0 where
  term_count_overflow index_len_overflow doc_len_overflow doc_count_overflow : Exception
  unexpected_end expect_close : Exception
  no_keywords source_not_found lack_of_capacity : Exception
  -- of std::stoi
  invalid_argument out_of_range : Exception
  -- the std::runtime_error of seal_context_metadata
  seal_failed : Exception

-- `fault` is undefined behaviour: an access outside its array, a null dereference. `stuck` is no
-- behaviour of the program: a loop of the model ran out of fuel.
pub data Outcome {ℓ} (A : Type ℓ) : Type ℓ where
  ok : A → Outcome A
  threw : Exception → Outcome A
  fault stuck : Outcome A

abbrev pub bind {ℓ κ} : {A : Type ℓ} {B : Type κ} → Outcome A → (A → Outcome B) → Outcome B
bind (ok a) f = f a
bind (threw e) f = threw e
bind fault f = fault
bind stuck f = stuck

infixl 5 ◌>>=◌ ◌>>◌
abbrev pub ◌>>=◌ {ℓ κ} : {A : Type ℓ} {B : Type κ} → Outcome A → (A → Outcome B) → Outcome B
m >>= f = bind m f

abbrev pub ◌>>◌ {ℓ} : {B : Type ℓ} → Outcome (Unit {0}) → Outcome B → Outcome B
m >> k = m >>= λ _. k

-- `if (!good) throw e;`
abbrev pub require : Bool → Exception → Outcome (Unit {0})
require true e = ok tt
require false e = threw e

-- An access that is defined only if `good` holds.
abbrev pub defined : Bool → Outcome (Unit {0})
defined true = ok tt
defined false = fault

pub bind-eq-ok {ℓ κ} :
    {A : Type ℓ} {B : Type κ} (m : Outcome A) (f : A → Outcome B) {b : B}
    → bind m f ≡ ok b
    → (a : A) × (m ≡ ok a) × (f a ≡ ok b)
bind-eq-ok (ok a) f h = (a, refl, h)
bind-eq-ok (threw e) f h = cc
bind-eq-ok fault f h = cc
bind-eq-ok stuck f h = cc

-- `P` holds of the value, if there is one.
abbrev pub Ensures {ℓ κ} : {A : Type ℓ} → (A → Type κ) → Outcome A → Type κ
Ensures P (ok a) = P a
Ensures P (threw e) = Unit
Ensures P fault = Unit
Ensures P stuck = Unit

module _ {ℓ ℓ' κ κ'} {A : Type ℓ} {B : Type ℓ'} where
  pub Ensures-bind :
      (P : A → Type κ) (Q : B → Type κ') (m : Outcome A) (f : A → Outcome B)
      → Ensures P m
      → ((a : A) → P a → Ensures Q (f a))
      → Ensures Q (bind m f)
  Ensures-bind P Q (ok a) f h k = k a h
  Ensures-bind P Q (threw e) f h k = tt
  Ensures-bind P Q fault f h k = tt
  Ensures-bind P Q stuck f h k = tt

module _ {ℓ κ κ'} {A : Type ℓ} where
  pub Ensures-mono :
      (P : A → Type κ) (Q : A → Type κ') (m : Outcome A)
      → Ensures P m
      → ((a : A) → P a → Ensures Q (ok a))
      → Ensures Q m
  Ensures-mono P Q (ok a) h k = k a h
  Ensures-mono P Q (threw e) h k = tt
  Ensures-mono P Q fault h k = tt
  Ensures-mono P Q stuck h k = tt

-- The call ends, within its bounds: in a value that has `P`, or in an exception.
abbrev pub Safely {ℓ} : {A : Type ℓ} → (A → Type 0) → Outcome A → Type 0
Safely P (ok a) = P a
Safely P (threw e) = Unit
Safely P fault = ⊥
Safely P stuck = ⊥

module _ {ℓ ℓ'} {A : Type ℓ} {B : Type ℓ'} where
  pub Safely-bind :
      (P : A → Type 0) (Q : B → Type 0) (m : Outcome A) (f : A → Outcome B)
      → Safely P m
      → ((a : A) → P a → Safely Q (f a))
      → Safely Q (bind m f)
  Safely-bind P Q (ok a) f h k = k a h
  Safely-bind P Q (threw e) f h k = tt
  Safely-bind P Q fault f h k = elim h [ ]
  Safely-bind P Q stuck f h k = elim h [ ]

module _ {ℓ} {A : Type ℓ} where
  pub Safely-mono :
      (P Q : A → Type 0) (m : Outcome A) → Safely P m → ((a : A) → P a → Q a) → Safely Q m
  Safely-mono P Q (ok a) h k = k a h
  Safely-mono P Q (threw e) h k = tt
  Safely-mono P Q fault h k = elim h [ ]
  Safely-mono P Q stuck h k = elim h [ ]

-- The call ends within its bounds in a value that has `P`; it may throw only if `may_throw`.
abbrev pub Ends {ℓ} : {A : Type ℓ} → Bool → (A → Type 0) → Outcome A → Type 0
Ends may_throw P (ok a) = P a
Ends may_throw P (threw e) = may_throw ≡ true
Ends may_throw P fault = ⊥
Ends may_throw P stuck = ⊥

module _ {ℓ ℓ'} {A : Type ℓ} {B : Type ℓ'} where
  pub Ends-bind :
      (may_throw : Bool) (P : A → Type 0) (Q : B → Type 0) (m : Outcome A) (f : A → Outcome B)
      → Ends may_throw P m
      → ((a : A) → P a → Ends may_throw Q (f a))
      → Ends may_throw Q (bind m f)
  Ends-bind t P Q (ok a) f h k = k a h
  Ends-bind t P Q (threw e) f h k = h
  Ends-bind t P Q fault f h k = elim h [ ]
  Ends-bind t P Q stuck f h k = elim h [ ]

module _ {ℓ} {A : Type ℓ} where
  pub Ends-mono :
      (may_throw : Bool) (P Q : A → Type 0) (m : Outcome A)
      → Ends may_throw P m
      → ((a : A) → P a → Q a)
      → Ends may_throw Q m
  Ends-mono t P Q (ok a) h k = k a h
  Ends-mono t P Q (threw e) h k = h
  Ends-mono t P Q fault h k = elim h [ ]
  Ends-mono t P Q stuck h k = elim h [ ]
