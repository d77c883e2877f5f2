-- ===== src/Wire/Bytes.antt =====
-- The byte-level helpers of RPC.cpp: append_u8, append_u32, append_i32, read_u8, read_u32, read_i32
-- and memcpy out of the payload. A read pointer is the list of the bytes that it has before it.
use veil_db.Base.{
  ℕ, zero, suc, ◌+◌, ◌*◌, ◌/◌, ◌%◌, ◌^◌, ◌≤◌, ◌<◌, ◌≡◌, refl, ap, List, [], ◌∷◌, ◌++◌, length,
  arith, leb, if◌then◌else◌, Outcome, ok, threw, fault, bind, Exception, Bool, le→leb,
}
use veil_db.Base.Int.{ℤ, pos, negsuc, IsInt, to_u32, of_u32, of_u32-to_u32, to_u32-lt}

abbrev pub append_u8 : ℕ → List ℕ
append_u8 v = v % 256 ∷ []

-- A little-endian machine.
unfoldable pub append_u32 : ℕ → List ℕ
append_u32 v = v % 256 ∷ v / 256 % 256 ∷ v / 65536 % 256 ∷ v / 16777216 % 256 ∷ []

unfoldable pub append_i32 : ℤ → List ℕ
append_i32 v = append_u32 (to_u32 v)

-- Reads at the pointer and returns it advanced. To read beyond the payload is undefined.
abbrev pub Reader {ℓ} : Type ℓ → Type ℓ
Reader A = List ℕ → Outcome (A × List ℕ)

infixl 5 ◌>>=◌ ◌>>◌
abbrev pub ◌>>=◌ {ℓ κ} : {A : Type ℓ} {B : Type κ} → Reader A → (A → Reader B) → Reader B
◌>>=◌ m f p = bind (m p) (λ (a, p'). f a p')

abbrev pub ◌>>◌ {ℓ} : {B : Type ℓ} → Reader (Unit {0}) → Reader B → Reader B
m >> k = m >>= λ _. k

abbrev pub pure {ℓ} : {A : Type ℓ} → A → Reader A
pure a p = ok (a, p)

abbrev pub check : Bool → Exception → Reader (Unit {0})
check good e p = if good then ok (tt, p) else threw e

unfoldable pub read_u8 : Reader ℕ
read_u8 [] = fault
read_u8 (b ∷ p) = ok (b, p)

unfoldable pub read_u32 : Reader ℕ
read_u32 (a ∷ b ∷ c ∷ d ∷ p) = ok (a + 256 * b + 65536 * c + 16777216 * d, p)
read_u32 _ = fault

unfoldable pub read_i32 : Reader ℤ
read_i32 = do v ← read_u32; pure (of_u32 v)

unfoldable pub read_bytes : ℕ → Reader (List ℕ)
read_bytes zero p = ok ([], p)
read_bytes (suc n) [] = fault
read_bytes (suc n) (b ∷ p) = bind (read_bytes n p) (λ (bs, rest). ok (b ∷ bs, rest))

-- `memcpy(array, p, n); p += n;` into an array of `capacity` bytes.
unfoldable pub copy_bytes : ℕ → ℕ → Reader (List ℕ)
unfolding read_bytes
copy_bytes capacity n p = if leb n capacity then read_bytes n p else fault

-- The same with a count of type `int`, which is a huge `size_t` where it is negative.
unfoldable pub copy_int : ℕ → ℤ → Reader (List ℕ)
copy_int capacity (pos n) p = copy_bytes capacity n p
copy_int capacity (negsuc n) p = fault

pub read_u8-append_u8 :
    (v : ℕ) (rest : List ℕ) → v < 256 → read_u8 (append_u8 v ++ rest) ≡ ok (v, rest)
unfolding read_u8
read_u8-append_u8 v rest h = ground arith

pub read_u8-cons : (b : ℕ) (p : List ℕ) → read_u8 (b ∷ p) ≡ ok (b, p)
unfolding read_u8
read_u8-cons b p = refl

u32_digits :
    (v : ℕ)
    → v < 2 ^ 32
    → v % 256 + 256 * (v / 256 % 256) + 65536 * (v / 65536 % 256) + 16777216 * (v / 16777216 % 256)
      ≡ v
u32_digits v h = omega arith

pub read_u32-append_u32 :
    (v : ℕ) (rest : List ℕ) → v < 2 ^ 32 → read_u32 (append_u32 v ++ rest) ≡ ok (v, rest)
unfolding read_u32 append_u32
read_u32-append_u32 v rest h = ap (λ (t : ℕ). ok (t, rest)) (u32_digits v h)

pub read_i32-append_i32 :
    (v : ℤ) (rest : List ℕ) → IsInt v → read_i32 (append_i32 v ++ rest) ≡ ok (v, rest)
unfolding read_i32 append_i32
read_i32-append_i32 v rest h =
    rw (read_u32-append_u32 (to_u32 v) rest (to_u32-lt v)) (rw (of_u32-to_u32 v h))

read_bytes-append : (bs rest : List ℕ) → read_bytes (length bs) (bs ++ rest) ≡ ok (bs, rest)
unfolding read_bytes
read_bytes-append [] rest = refl
read_bytes-append (b ∷ bs) rest = rw (read_bytes-append bs rest)

pub copy_bytes-append :
    (capacity : ℕ) (bs rest : List ℕ)
    → length bs ≤ capacity
    → copy_bytes capacity (length bs) (bs ++ rest) ≡ ok (bs, rest)
unfolding copy_bytes
copy_bytes-append capacity bs rest h =
    rw (le→leb _ _ h) (unfold read_bytes in read_bytes-append bs rest)

pub copy_bytes_exact :
    (capacity n : ℕ) (bs rest : List ℕ)
    → length bs ≡ n
    → n ≤ capacity
    → copy_bytes capacity n (bs ++ rest) ≡ ok (bs, rest)
copy_bytes_exact capacity n bs rest e h =
    rw (← e) (copy_bytes-append capacity bs rest (omega arith))

pub length-append_u32 : (v : ℕ) → length (append_u32 v) ≡ 4
unfolding append_u32
length-append_u32 v = refl
