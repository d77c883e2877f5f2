-- ===== src/Enclave/Snapshot/Parts.antt =====
-- The parts of a snapshot: numbers, texts, the entries of KVS and the slot versions.
use veil_db.Base.{
  ℕ, zero, suc, ◌+◌, ◌*◌, ◌/◌, ◌%◌, ◌^◌, ◌≤◌, ◌<◌, ◌≡◌, refl, sym, ap, ◌∙◌, subst, fun_ext, List,
  [], ◌∷◌, ◌++◌, length, get_elem?, All, none, some, true, false, ltb, ◌==◌, if◌then◌else◌, arith,
  append_assoc, append-nil, take-append_exact, drop-append_exact, length-append_bytes, same_text,
  Bool-cases, inl, inr,
}
use veil_db.Base.Assoc.{Assoc, find, keys, NotIn, Distinct, same_text_symm}
use veil_db.Protocol.{max_keyword_len}
use veil_db.Wire.Bytes.{append_u32, length-append_u32}
use veil_db.Enclave.Bitset.{total_file_no}
use veil_db.Enclave.Bundle.Sized.{ltb-sized, ltb-prefix}
use veil_db.Enclave.Snapshot.{
  read_scalar, read_len, read_optional, write_kvs, write_slots, emplace, is_key_len, read_kvs,
  read_slots, slot_at, read_slot_versions,
}

pub read_scalar-append :
    (v : ℕ) (rest : List ℕ) → v < 2 ^ 32 → read_scalar (append_u32 v ++ rest) ≡ some (v, rest)
unfolding read_scalar append_u32
read_scalar-append v rest h =
    let digits : v % 256
          + 256 * (v / 256 % 256)
          + 65536 * (v / 65536 % 256)
          + 16777216 * (v / 16777216 % 256)
        ≡ v =
      omega (arith, h) in
    ap (λ (t : ℕ). some (t, rest)) digits

pub read_len-append :
    (n : ℕ) (xs rest : List ℕ) → length xs ≡ n → read_len n (xs ++ rest) ≡ some (xs, rest)
unfolding read_len
read_len-append n xs rest e = subst (λ k. read_len k (xs ++ rest) ≡ some (xs, rest)) e (exact xs)
  where
    exact : (xs : List ℕ) → read_len (length xs) (xs ++ rest) ≡ some (xs, rest)
    exact xs = rw (ltb-prefix xs rest, take-append_exact xs rest, drop-append_exact xs rest) refl

pub read_optional-append :
    (fresh v : ℕ) (rest : List ℕ)
    → v < 2 ^ 32
    → read_optional fresh (append_u32 v ++ rest) ≡ some (v, rest)
unfolding read_optional
read_optional-append fresh v rest h =
    rw (ltb-sized v 4 rest (omega arith), read_scalar-append v rest h) refl

-- The keys and versions that a snapshot keeps.
abbrev pub IsEntry : List ℕ × ℕ → Type 0
IsEntry (key, version) = (0 < length key) × (length key ≤ max_keyword_len) × (version < 2 ^ 31)

find-absent :
    (w : List ℕ) (v : ℕ) (m es : Assoc ℕ) → Distinct (keys (m ++ (w, v) ∷ es)) → find w m ≡ none
unfolding find keys
find-absent w v [] es h = refl
find-absent w v ((j, u) ∷ m) es h =
    let other : same_text j w ≡ false = among m h.0 in rw (other) (find-absent w v m es h.1)
  where
    among : (m : Assoc ℕ) → NotIn j (keys (m ++ (w, v) ∷ es)) → same_text j w ≡ false
    among [] n = same_text_symm j w ∙ n.0
    among ((k, u) ∷ m) n = among m n.1

emplace-absent :
    (w : List ℕ) (v : ℕ) (m : Assoc ℕ) → find w m ≡ none → emplace w v m ≡ m ++ (w, v) ∷ []
unfolding emplace
emplace-absent w v m e = rw (e, emplace) refl

-- The entries that were written are read, and then `k` more.
pub read_kvs-write_kvs :
    (n k : ℕ) (m es : Assoc ℕ) (rest : List ℕ)
    → n ≡ length es + k
    → Distinct (keys (m ++ es))
    → All IsEntry es
    → read_kvs n m (write_kvs es ++ rest) ≡ read_kvs k (m ++ es) rest
unfolding read_kvs write_kvs
read_kvs-write_kvs n k m [] rest e d h =
    let same : n ≡ k = omega (arith, e) in rw (append-nil, same) refl
read_kvs-write_kvs zero k m ((w, v) ∷ es) rest e d h = absurd (omega (arith, e))
read_kvs-write_kvs (suc n) k m ((w, v) ∷ es) rest e d (h, hs) =
    let filled : length w == 0 ≡ false = ground (arith, h.0) in
    let short : ltb 32 (length w) ≡ false = ground (arith, h.1) in
    let good : is_key_len (length w) ≡ true = ground (arith, h.0, h.1) in
    let regroup : m ++ (w, v) ∷ es ≡ (m ++ (w, v) ∷ []) ++ es =
      sym (append_assoc m ((w, v) ∷ []) es) in
    rw
      (
        filled,
        short,
        append_assoc (append_u32 (length w)) (w ++ (append_u32 v ++ write_kvs es)) rest,
        append_assoc w (append_u32 v ++ write_kvs es) rest,
        append_assoc (append_u32 v) (write_kvs es) rest,
        read_scalar-append (length w) (w ++ (append_u32 v ++ (write_kvs es ++ rest)))
            (omega (arith, h.1)),
        good,
        read_len-append (length w) w (append_u32 v ++ (write_kvs es ++ rest)) refl,
        read_scalar-append v (write_kvs es ++ rest) (omega (arith, h.2)),
        emplace-absent w v m (find-absent w v m es d),
        regroup,
      )
      (read_kvs-write_kvs n k (m ++ (w, v) ∷ []) es rest (omega (arith, e))
        (subst (λ l. Distinct (keys l)) regroup d) hs)

pub read_kvs_whole :
    (es : Assoc ℕ) (rest : List ℕ)
    → Distinct (keys es)
    → All IsEntry es
    → read_kvs (length es) [] (write_kvs es ++ rest) ≡ some (es, rest)
read_kvs_whole es rest d h =
    read_kvs-write_kvs (length es) 0 [] es rest (omega arith) d h ∙ unfold read_kvs in refl

-- The slots from `i` on, as a list.
versions_from : (ℕ → ℕ) → ℕ → ℕ → List ℕ
versions_from versions i zero = []
versions_from versions i (suc n) = versions i ∷ versions_from versions (i + 1) n

read_slots-write_slots :
    (versions : ℕ → ℕ) (i n : ℕ) (rest : List ℕ)
    → ((k : ℕ) → versions k < 2 ^ 32)
    → read_slots n (write_slots versions i n ++ rest) ≡ some (versions_from versions i n, rest)
unfolding read_slots write_slots versions_from
read_slots-write_slots versions i zero rest h = refl
read_slots-write_slots versions i (suc n) rest h =
    rw
      (
        append_assoc (append_u32 (versions i)) (write_slots versions (i + 1) n) rest,
        read_scalar-append (versions i) (write_slots versions (i + 1) n ++ rest) (h i),
        read_slots-write_slots versions (i + 1) n rest h,
      )
      refl

pub length-write_slots : (versions : ℕ → ℕ) (i n : ℕ) → length (write_slots versions i n) ≡ 4 * n
unfolding write_slots
length-write_slots versions i zero = omega arith
length-write_slots versions i (suc n) = omega (
  arith,
  length-append_bytes (append_u32 (versions i)) (write_slots versions (i + 1) n),
  length-append_u32 (versions i),
  length-write_slots versions (i + 1) n,
)

slot_at-versions_from :
    (versions : ℕ → ℕ) (i n k : ℕ)
    → slot_at (get_elem? (versions_from versions i n) k) ≡ (if ltb k n then versions (i + k) else 0)
unfolding versions_from
slot_at-versions_from versions i zero k = ground arith
slot_at-versions_from versions i (suc n) zero =
    let start : i + 0 ≡ i = omega arith in ground (arith, ap versions start)
slot_at-versions_from versions i (suc n) (suc k) =
    let next : (i + 1) + k ≡ i + suc k = omega arith in
    slot_at-versions_from versions (i + 1) n k ∙ ground (arith, ap versions next)

pub read_slot_versions-write_slots :
    (versions : ℕ → ℕ)
    → ((k : ℕ) → versions k < 2 ^ 32)
    → ((k : ℕ) → ltb k total_file_no ≡ false → versions k ≡ 0)
    → read_slot_versions (write_slots versions 0 total_file_no) ≡ some (versions, [])
unfolding read_slot_versions
read_slot_versions-write_slots versions small outside =
    let bytes = write_slots versions 0 total_file_no in
    let enough : ltb (length bytes) (4 * total_file_no) ≡ false =
      ground (arith, length-write_slots versions 0 total_file_no) in
    let read : read_slots total_file_no bytes ≡ some (versions_from versions 0 total_file_no, []) =
      rw append-nil at (read_slots-write_slots versions 0 total_file_no [] small) in
    let same : (λ slot. slot_at (get_elem? (versions_from versions 0 total_file_no) slot))
        ≡ versions =
      fun_ext λ k. slot_at-versions_from versions 0 total_file_no k ∙ outside_zero k in
    rw (enough, read) (ap (λ f. some (f, [])) same)
  where
    outside_zero : (k : ℕ) → (if ltb k total_file_no then versions (0 + k) else 0) ≡ versions k
    outside_zero k = elim (Bool-cases (ltb k total_file_no)) [
      | inl e ↦ let start : 0 + k ≡ k = omega arith in rw (e, start) refl
      | inr e ↦ rw (e, outside k e) refl
    ]
