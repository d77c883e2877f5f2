-- ===== src/Wire/Overruns.antt =====
-- Inputs that the checks of read_request_body do not cover, and the untagged update layout.
use veil_db.Base.{
  ℕ, zero, suc, ◌/◌, ◌%◌, ◌^◌, ◌≤◌, ◌<◌, ◌≡◌, refl, List, [], ◌∷◌, ◌++◌, length, All, arith, ok,
  append-nil, ◌≢◌, fault, threw, doc_len_overflow, le→leb, if◌then◌else◌, ◌==◌, ltb,
}
use veil_db.Base.Int.{ℤ, IsInt, of_u32}
use veil_db.Protocol.{
  update_req, max_doc_size, RequestBody, max_terms, max_keyword_len, max_bool_expr,
}
use veil_db.Wire.Bodies.{of_u32_small, read_terms-write_terms, read_doc-append}
use veil_db.Wire.Bytes.{
  append_u8, append_u32, append_i32, read_u8, read_u32, copy_bytes, copy_int, read_bytes,
  read_u8-append_u8, read_u8-cons, read_u32-append_u32, read_i32-append_i32,
}
use veil_db.Wire.Request.{append_sized, read_update_tail, read_doc, write_terms, read_request_body}

copy_int_overrun :
    (capacity n : ℕ) (p : List ℕ)
    → capacity < n
    → n < 2 ^ 32
    → copy_int capacity (of_u32 n) p ≡ fault
unfolding copy_int copy_bytes of_u32
copy_int_overrun capacity n p over small = ground arith

-- A SELECT body with good terms, an expression length `n`, and any bytes after it.
abbrev pub select_with : List (List ℕ) → ℕ → List ℕ → List ℕ
select_with ts n rest = append_u32 (length ts) ++ (write_terms ts ++ (append_u32 n ++ rest))

-- `bool_len` is not checked. Behind any terms within their bounds (at most 16, each of at most 32
-- bytes), a length above the 128 bytes of `bool_expr`, the lengths that are negative as an int
-- included, makes the server copy more bytes than the array `bool_expr` holds.
pub select_overrun :
    (ts : List (List ℕ)) (n : ℕ) (rest : List ℕ)
    → length ts ≤ max_terms
    → All (λ t. length t ≤ max_keyword_len) ts
    → max_bool_expr < n
    → n < 2 ^ 32
    → read_request_body 1 (length (select_with ts n rest)) (select_with ts n rest) ≡ fault
unfolding read_request_body
select_overrun ts n rest few short over small = rw (
  read_u32-append_u32 (length ts) (write_terms ts ++ (append_u32 n ++ rest)) (omega arith),
  of_u32_small (length ts) (omega arith),
  le→leb (length ts) 16 few,
  read_terms-write_terms ts (append_u32 n ++ rest) short,
  read_u32-append_u32 n rest small,
  copy_int_overrun 128 n rest over small,
)

-- The layout with no tag between the id and the length.
abbrev pub untagged_update : ℕ → ℤ → List ℕ → List ℕ
untagged_update op id content = append_u8 op ++ (append_i32 id ++ append_sized content)

abbrev pub legacy : ℕ → ℤ → List ℕ → RequestBody
legacy op id content =
    update_req
      (record { op = op; flags = 0; doc_id = id; doc_content = content; index_content = [] })

length_byte : (n : ℕ) (p : List ℕ) → (q : List ℕ) × (read_u8 (append_u32 n ++ p) ≡ ok (n % 256, q))
unfolding append_u32 read_u8
length_byte n p = (n / 256 % 256 ∷ n / 65536 % 256 ∷ n / 16777216 % 256 ∷ p, refl)

tail_untagged :
    (op : ℕ) (id : ℤ) (tag : ℕ) (content q : List ℕ)
    → tag ≢ 1
    → tag ≢ 2
    → length content ≤ max_doc_size
    → read_update_tail op id tag (append_sized content) q ≡ ok (legacy op id content, [])
unfolding read_update_tail
tail_untagged op id tag content q n1 n2 fits =
    let read : read_doc (append_sized content) ≡ ok (content, []) =
      rw append-nil at (read_doc-append content [] fits) in
    ground (arith, read)

-- An update without a tag is read as it was meant unless the low byte of its length is 1 or 2.
pub untagged_update_reads :
    (op : ℕ) (id : ℤ) (content : List ℕ)
    → op < 256
    → IsInt id
    → length content ≤ max_doc_size
    → length content % 256 ≢ 1
    → length content % 256 ≢ 2
    → read_request_body 2 (length (untagged_update op id content)) (untagged_update op id content)
      ≡ ok (legacy op id content, [])
unfolding read_request_body
untagged_update_reads op id content hop hid fits n1 n2 =
    let (q, tag) = length_byte (length content) content in
    rw (
      read_u8-append_u8 op (append_i32 id ++ append_sized content) hop,
      read_i32-append_i32 id (append_sized content) hid,
      tag,
      tail_untagged op id (length content % 256) content q n1 n2 fits,
    )

-- What the bytes after the low length byte of a two-byte document read as.
shifted_doc :
    (a b : ℕ)
    → a < 256
    → read_doc (0 ∷ 0 ∷ 0 ∷ a ∷ b ∷ [])
      ≡ (if a == 0 then ok ([], b ∷ []) else if ltb a 128 then threw doc_len_overflow else fault)
unfolding read_doc read_u32 of_u32 copy_int copy_bytes read_bytes
shifted_doc zero b ha = refl
shifted_doc (suc a) b ha = ground arith

-- An untagged update of a document of two bytes `a` and `b` is misread: its length is taken for
-- the tag of the legacy layout. It becomes an update to the empty document where `a` is 0, an
-- exception where `a` is below 128, and an access out of bounds otherwise.
pub untagged_update_misread :
    (op : ℕ) (id : ℤ) (a b : ℕ)
    → op < 256
    → IsInt id
    → a < 256
    → read_request_body 2 7 (untagged_update op id (a ∷ b ∷ [])) ≡ (
        if a == 0
        then ok (legacy op id [], b ∷ [])
        else if ltb a 128
        then threw doc_len_overflow
        else fault)
unfolding read_request_body append_u32
untagged_update_misread op id a b hop hid ha =
    rw
      (
        read_u8-append_u8 op (append_i32 id ++ (2 ∷ 0 ∷ 0 ∷ 0 ∷ a ∷ b ∷ [])) hop,
        read_i32-append_i32 id (2 ∷ 0 ∷ 0 ∷ 0 ∷ a ∷ b ∷ []) hid,
        read_u8-cons 2 (0 ∷ 0 ∷ 0 ∷ a ∷ b ∷ []),
        shifted_doc a b ha,
      )
      (ground arith)
