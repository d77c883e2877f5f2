-- ===== src/Enclave/Bundle/Sized.antt =====
-- EnclaveUtils.cpp: texts behind their lengths, written into a bundle and parsed.
use veil_db.Base.{
  ℕ, zero, suc, ◌+◌, ◌%◌, ◌^◌, ◌≤◌, ◌<◌, ◌≡◌, refl, ap, List, [], ◌∷◌, ◌++◌, length, take, true,
  false, ltb, ok, arith, append_assoc, take-append_exact, drop-append_exact, length-append_bytes,
}
use veil_db.Wire.Bytes.{append_u32, read_u32-append_u32, length-append_u32}
use veil_db.Enclave.Bundle.{put_sized, assign_text, parse_body, parse_index}

pub take-all : (xs : List ℕ) → take (length xs) xs ≡ xs
take-all [] = refl
take-all (x ∷ xs) = ap (◌∷◌ x) (take-all xs)

pub length-take_few : (n : ℕ) (xs : List ℕ) → n ≤ length xs → length (take n xs) ≡ n
length-take_few zero xs h = refl
length-take_few (suc n) [] h = absurd (omega (arith, h))
length-take_few (suc n) (x ∷ xs) h = ap suc (length-take_few n xs (omega (arith, h)))

put_sized-small :
    (text : List ℕ) → length text < 2 ^ 32 → put_sized text ≡ append_u32 (length text) ++ text
unfolding put_sized
put_sized-small text h =
    let small : length text % 2 ^ 32 ≡ length text = omega (arith, h) in
    rw (small, take-all text) refl

pub length-put_sized :
    (text : List ℕ) → length text < 2 ^ 32 → length (put_sized text) ≡ 4 + length text
length-put_sized text h =
    rw
      (
        put_sized-small text h,
        length-append_bytes (append_u32 (length text)) text,
        length-append_u32 (length text),
      )
      refl

-- The tests on what is left pass on a length that stands before its text.
pub ltb-sized :
    (n k : ℕ) (text : List ℕ) → k ≤ 4 + length text → ltb (length (append_u32 n ++ text)) k ≡ false
unfolding append_u32
ltb-sized n k text h = ground arith

pub ltb-prefix : (xs ys : List ℕ) → ltb (length (xs ++ ys)) (length xs) ≡ false
ltb-prefix xs ys = ground (arith, length-append_bytes xs ys)

parse_body-put_sized :
    (index body rest : List ℕ) (version : ℕ)
    → length body < 2 ^ 32
    → parse_body index version (put_sized body ++ rest)
      ≡ ok (record { parsed = true; index_csv = index; body = body; slot_version = version })
unfolding parse_body assign_text
parse_body-put_sized index body rest version h = rw (
  put_sized-small body h,
  append_assoc (append_u32 (length body)) body rest,
  ltb-sized (length body) 4 (body ++ rest) (omega arith),
  read_u32-append_u32 (length body) (body ++ rest) h,
  ltb-prefix body rest,
  take-append_exact body rest,
)

pub parse_index-put_sized :
    (index body rest : List ℕ) (version : ℕ)
    → length index < 2 ^ 32
    → length body < 2 ^ 32
    → parse_index version (put_sized index ++ (put_sized body ++ rest))
      ≡ ok (record { parsed = true; index_csv = index; body = body; slot_version = version })
unfolding parse_index assign_text
parse_index-put_sized index body rest version h k =
    let tail = put_sized body ++ rest in
    let long : 8 ≤ 4 + length (index ++ tail) = omega (
      arith,
      length-append_bytes index tail,
      length-append_bytes (put_sized body) rest,
      length-put_sized body k,
    ) in
    rw
      (
        put_sized-small index h,
        append_assoc (append_u32 (length index)) index tail,
        ltb-sized (length index) 8 (index ++ tail) long,
        read_u32-append_u32 (length index) (index ++ tail) h,
        ltb-prefix index tail,
        take-append_exact index tail,
        drop-append_exact index tail,
      )
      (parse_body-put_sized index body rest version k)
