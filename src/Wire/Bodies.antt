-- ===== src/Wire/Bodies.antt =====
-- RPC.cpp: the bodies of SELECT and UPDATE, written and read.
use veil_db.Base.{
  subst, ℕ, ◌^◌, ◌≤◌, ◌<◌, ◌≡◌, refl, sym, ◌⊎◌, inl, inr, List, [], ◌∷◌, ◌++◌, length, All,
  append_assoc, arith, ok, le→leb,
}
use veil_db.Base.Int.{ℤ, pos, IsInt, of_u32}
use veil_db.Protocol.{
  RequestBody, UpdateRequest, select_req, update_req, FitsRequest, max_keyword_len, max_doc_size,
  max_bool_expr,
}
use veil_db.Wire.Bytes.{
  append_u8, append_u32, append_i32, read_u8-cons, copy_int, read_u8-append_u8, read_u32-append_u32,
  read_i32-append_i32, copy_bytes-append,
}
use veil_db.Wire.Request.{
  append_sized, write_terms, write_request_body, read_terms, read_select, read_doc, read_index,
  read_update,
}

-- An int that counts something small is the count.
pub of_u32_small : (n : ℕ) → n < 2 ^ 31 → of_u32 n ≡ pos n
unfolding of_u32
of_u32_small n h = ground arith

pub read_terms-write_terms :
    (ts : List (List ℕ)) (rest : List ℕ)
    → All (λ t. length t ≤ max_keyword_len) ts
    → read_terms (length ts) (write_terms ts ++ rest) ≡ ok (ts, rest)
unfolding read_terms write_terms
read_terms-write_terms [] rest h = refl
read_terms-write_terms (t ∷ ts) rest h = rw (
  append_assoc (append_u8 (length t)) (t ++ write_terms ts) rest,
  append_assoc t (write_terms ts) rest,
  read_u8-append_u8 (length t) (t ++ (write_terms ts ++ rest)) (omega arith),
  copy_bytes-append max_keyword_len t (write_terms ts ++ rest) h.0,
  read_terms-write_terms ts rest h.1,
)

pub read_select-write :
    (ts : List (List ℕ)) (expr : List ℕ) (t : ℕ) (rest : List ℕ)
    → FitsRequest (select_req (record { terms = ts; bool_expr = expr; select_type = t }))
    → read_select (
        write_request_body (select_req (record { terms = ts; bool_expr = expr; select_type = t }))
        ++ rest)
      ≡ ok (select_req (record { terms = ts; bool_expr = expr; select_type = t }), rest)
unfolding read_select write_request_body copy_int
read_select-write ts expr t rest (few, short, fits, small) = rw (
  append_assoc (append_u32 (length ts)) (write_terms ts ++ (append_sized expr ++ append_u8 t)) rest,
  append_assoc (write_terms ts) (append_sized expr ++ append_u8 t) rest,
  append_assoc (append_sized expr) (append_u8 t) rest,
  append_assoc (append_u32 (length expr)) expr (append_u8 t ++ rest),
  read_u32-append_u32 (length ts)
      (write_terms ts ++ (append_u32 (length expr) ++ (expr ++ (append_u8 t ++ rest))))
      (omega arith),
  of_u32_small (length ts) (omega arith),
  le→leb (length ts) 16 few,
  read_terms-write_terms ts (append_u32 (length expr) ++ (expr ++ (append_u8 t ++ rest))) short,
  read_u32-append_u32 (length expr) (expr ++ (append_u8 t ++ rest)) (omega arith),
  of_u32_small (length expr) (omega arith),
  copy_bytes-append max_bool_expr expr (append_u8 t ++ rest) fits,
  read_u8-append_u8 t rest small,
)

pub read_doc-append :
    (bs rest : List ℕ)
    → length bs ≤ max_doc_size
    → read_doc (append_sized bs ++ rest) ≡ ok (bs, rest)
unfolding read_doc copy_int
read_doc-append bs rest h = rw (
  append_assoc (append_u32 (length bs)) bs rest,
  read_u32-append_u32 (length bs) (bs ++ rest) (omega arith),
  of_u32_small (length bs) (omega arith),
  le→leb (length bs) 4096 h,
  copy_bytes-append max_doc_size bs rest h,
)

pub read_index-append :
    (bs rest : List ℕ)
    → length bs ≤ max_doc_size
    → read_index (append_sized bs ++ rest) ≡ ok (bs, rest)
unfolding read_index copy_int
read_index-append bs rest h = rw (
  append_assoc (append_u32 (length bs)) bs rest,
  read_u32-append_u32 (length bs) (bs ++ rest) (omega arith),
  of_u32_small (length bs) (omega arith),
  le→leb (length bs) 4096 h,
  copy_bytes-append max_doc_size bs rest h,
)

-- What an update keeps on the wire: a split one all of its fields, a legacy one no index.
abbrev IsSplitOrLegacy : UpdateRequest → Type 0
IsSplitOrLegacy r = (r.flags ≡ 1) ⊎ ((r.flags ≡ 0) × (r.index_content ≡ []))

abbrev pub IsSendable : RequestBody → Type 0
IsSendable (update_req r) = IsSplitOrLegacy r
IsSendable _ = Unit

read_update_split :
    (op : ℕ) (id : ℤ) (content index rest : List ℕ)
    → op < 256
    → IsInt id
    → length content ≤ max_doc_size
    → length index ≤ max_doc_size
    → let r : UpdateRequest = record {
      op = op;
      flags = 1;
      doc_id = id;
      doc_content = content;
      index_content = index;
    } in
      read_update (write_request_body (update_req r) ++ rest) ≡ ok (update_req r, rest)
unfolding read_update write_request_body
read_update_split op id content index rest hop hid hc hi = rw (
  append_assoc (append_u8 op)
      (append_i32 id
        ++ (append_u8 1 ++ (append_u8 1 ++ (append_sized index ++ append_sized content))))
      rest,
  append_assoc (append_i32 id)
      (append_u8 1 ++ (append_u8 1 ++ (append_sized index ++ append_sized content))) rest,
  append_assoc (append_sized index) (append_sized content) rest,
  read_u8-append_u8 op _ hop,
  read_i32-append_i32 id (1 ∷ 1 ∷ (append_sized index ++ (append_sized content ++ rest))) hid,
  read_u8-cons 1 (1 ∷ (append_sized index ++ (append_sized content ++ rest))),
  read_u8-cons 1 (append_sized index ++ (append_sized content ++ rest)),
  read_index-append index (append_sized content ++ rest) hi,
  read_doc-append content rest hc,
)

read_update_legacy :
    (op : ℕ) (id : ℤ) (content rest : List ℕ)
    → op < 256
    → IsInt id
    → length content ≤ max_doc_size
    → let r : UpdateRequest = record {
      op = op;
      flags = 0;
      doc_id = id;
      doc_content = content;
      index_content = [];
    } in
      read_update (write_request_body (update_req r) ++ rest) ≡ ok (update_req r, rest)
unfolding read_update write_request_body
read_update_legacy op id content rest hop hid hc = rw (
  append_assoc (append_u8 op) (append_i32 id ++ (append_u8 2 ++ append_sized content)) rest,
  append_assoc (append_i32 id) (append_u8 2 ++ append_sized content) rest,
  read_u8-append_u8 op _ hop,
  read_i32-append_i32 id (2 ∷ append_sized content ++ rest) hid,
  read_u8-cons 2 (append_sized content ++ rest),
  read_doc-append content rest hc,
)

-- A record is rebuilt from the fields that an equation names.
legacy_eta :
    (r : UpdateRequest)
    → r.flags ≡ 0
    → r.index_content ≡ []
    → record {
      op = r.op;
      flags = 0;
      doc_id = r.doc_id;
      doc_content = r.doc_content;
      index_content = [];
    }
      ≡ r
legacy_eta r p q = λ i. record r { flags = sym p i; index_content = sym q i }

split_eta : (r : UpdateRequest) → r.flags ≡ 1 → record r { flags = 1 } ≡ r
split_eta r p = λ i. record r { flags = sym p i }

abbrev ReadsBack : UpdateRequest → List ℕ → Type 0
ReadsBack r rest = read_update (write_request_body (update_req r) ++ rest) ≡ ok (update_req r, rest)

pub read_update-write :
    (r : UpdateRequest) (rest : List ℕ)
    → FitsRequest (update_req r)
    → IsSplitOrLegacy r
    → ReadsBack r rest
read_update-write r rest (hop, hid, hc, hi) (inl split) =
    subst (λ x. ReadsBack x rest) (split_eta r split)
      (read_update_split r.op r.doc_id r.doc_content r.index_content rest hop hid hc hi)
read_update-write r rest (hop, hid, hc, hi) (inr (legacy, none_left)) =
    subst (λ x. ReadsBack x rest) (legacy_eta r legacy none_left)
      (read_update_legacy r.op r.doc_id r.doc_content rest hop hid hc)
