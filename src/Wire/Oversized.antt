-- ===== src/Wire/Oversized.antt =====
-- The lengths that deserialize_encdb_request checks, in the requests that it refuses.
use veil_db.Base.{
  ℕ, ◌^◌, ◌≤◌, ◌<◌, ◌≡◌, refl, List, ◌∷◌, ◌++◌, length, false, arith, threw, Exception,
  term_count_overflow, doc_len_overflow, index_len_overflow,
}
use veil_db.Base.Int.{ℤ, IsInt, leb_ℤ, of_u32}
use veil_db.Protocol.{max_terms, max_doc_size}
use veil_db.Wire.Bytes.{
  append_u8, append_u32, append_i32, read_u8-append_u8, read_u8-cons, read_u32-append_u32,
  read_i32-append_i32,
}
use veil_db.Wire.Request.{
  Request, append_sized, read_doc, read_index, read_select, read_update_tail, read_update,
  read_request_body, deserialize_encdb_request,
}
use veil_db.Wire.Bodies.{of_u32_small, read_index-append}

-- What a client sends: its byte, the tag, the length of the body, and the body.
abbrev pub packet : ℕ → ℕ → ℕ → List ℕ → Request
packet client tag len body = record {
  sender = client;
  wire_type = tag;
  payload = append_u8 client ++ (append_u32 tag ++ (append_u32 len ++ body));
}

-- An update from the tag 1 on, and one from the tag 2 on.
abbrev pub update_v1 : ℕ → ℤ → ℕ → List ℕ → List ℕ
update_v1 op id flags rest = append_u8 op ++ (append_i32 id ++ (1 ∷ (flags ∷ rest)))

abbrev pub update_single : ℕ → ℤ → List ℕ → List ℕ
update_single op id rest = append_u8 op ++ (append_i32 id ++ (2 ∷ rest))

too_long : (capacity n : ℕ) → capacity < n → n < 2 ^ 31 → leb_ℤ (of_u32 n) capacity ≡ false
too_long capacity n over small = rw (of_u32_small n small) (ground (arith, over))

read_doc-oversized :
    (n : ℕ) (rest : List ℕ)
    → max_doc_size < n
    → n < 2 ^ 31
    → read_doc (append_u32 n ++ rest) ≡ threw doc_len_overflow
unfolding read_doc
read_doc-oversized n rest over small =
    rw (read_u32-append_u32 n rest (omega arith), too_long max_doc_size n over small) refl

read_index-oversized :
    (n : ℕ) (rest : List ℕ)
    → max_doc_size < n
    → n < 2 ^ 31
    → read_index (append_u32 n ++ rest) ≡ threw index_len_overflow
unfolding read_index
read_index-oversized n rest over small =
    rw (read_u32-append_u32 n rest (omega arith), too_long max_doc_size n over small) refl

read_select-oversized :
    (n : ℕ) (rest : List ℕ)
    → max_terms < n
    → n < 2 ^ 31
    → read_select (append_u32 n ++ rest) ≡ threw term_count_overflow
unfolding read_select
read_select-oversized n rest over small =
    rw (read_u32-append_u32 n rest (omega arith), too_long max_terms n over small) refl

deserialize-threw :
    (client tag len : ℕ) (body : List ℕ) (e : Exception)
    → client < 256
    → tag < 2 ^ 32
    → len < 2 ^ 32
    → read_request_body tag len body ≡ threw e
    → deserialize_encdb_request (packet client tag len body) ≡ threw e
unfolding deserialize_encdb_request
deserialize-threw client tag len body e hc ht hl h =
    rw
      (
        read_u8-append_u8 client (append_u32 tag ++ (append_u32 len ++ body)) hc,
        read_u32-append_u32 tag (append_u32 len ++ body) ht,
        read_u32-append_u32 len body hl,
        h,
      )
      refl

module _ (op : ℕ) (id : ℤ) (hop : op < 256) (hid : IsInt id) where
  update_index-oversized :
      (flags n : ℕ) (rest : List ℕ)
      → max_doc_size < n
      → n < 2 ^ 31
      → read_update (update_v1 op id flags (append_u32 n ++ rest)) ≡ threw index_len_overflow
  unfolding read_update read_update_tail
  update_index-oversized flags n rest over small =
      rw
        (
          read_u8-append_u8 op (append_i32 id ++ (1 ∷ (flags ∷ (append_u32 n ++ rest)))) hop,
          read_i32-append_i32 id (1 ∷ (flags ∷ (append_u32 n ++ rest))) hid,
          read_u8-cons 1 (flags ∷ (append_u32 n ++ rest)),
          read_u8-cons flags (append_u32 n ++ rest),
          read_index-oversized n rest over small,
        )
        refl

  update_doc-oversized :
      (flags n : ℕ) (index rest : List ℕ)
      → length index ≤ max_doc_size
      → max_doc_size < n
      → n < 2 ^ 31
      → read_update (update_v1 op id flags (append_sized index ++ (append_u32 n ++ rest)))
        ≡ threw doc_len_overflow
  unfolding read_update read_update_tail
  update_doc-oversized flags n index rest fits over small =
      let tail : List ℕ = append_sized index ++ (append_u32 n ++ rest) in
      rw
        (
          read_u8-append_u8 op (append_i32 id ++ (1 ∷ (flags ∷ tail))) hop,
          read_i32-append_i32 id (1 ∷ (flags ∷ tail)) hid,
          read_u8-cons 1 (flags ∷ tail),
          read_u8-cons flags tail,
          read_index-append index (append_u32 n ++ rest) fits,
          read_doc-oversized n rest over small,
        )
        refl

  update_single-oversized :
      (n : ℕ) (rest : List ℕ)
      → max_doc_size < n
      → n < 2 ^ 31
      → read_update (update_single op id (append_u32 n ++ rest)) ≡ threw doc_len_overflow
  unfolding read_update read_update_tail
  update_single-oversized n rest over small =
      rw
        (
          read_u8-append_u8 op (append_i32 id ++ (2 ∷ (append_u32 n ++ rest))) hop,
          read_i32-append_i32 id (2 ∷ (append_u32 n ++ rest)) hid,
          read_u8-cons 2 (append_u32 n ++ rest),
          read_doc-oversized n rest over small,
        )
        refl

-- The counts that are checked, for a byte of a client, a length of the body that is not checked
-- against anything, and any bytes behind the count: a SELECT of 17 to 2^31 - 1 terms ends in the
-- exception on the number of terms. An update with a flags byte and an index of 4097 to 2^31 - 1
-- bytes ends in the exception on the index. One with an index that fits and a document of such a
-- length ends in the exception on the document, and so does one of the layout with the document
-- only.
pub deserialize-oversized :
    (client len op flags terms n : ℕ) (id : ℤ) (index rest : List ℕ)
    → client < 256
    → len < 2 ^ 32
    → op < 256
    → IsInt id
    → length index ≤ max_doc_size
    → max_terms < terms
    → terms < 2 ^ 31
    → max_doc_size < n
    → n < 2 ^ 31
    → let sent : List ℕ = append_u32 n ++ rest in
      (deserialize_encdb_request (packet client 1 len (append_u32 terms ++ rest))
        ≡ threw term_count_overflow)
      × (deserialize_encdb_request (packet client 2 len (update_v1 op id flags sent))
          ≡ threw index_len_overflow)
      × (deserialize_encdb_request
            (packet client 2 len (update_v1 op id flags (append_sized index ++ sent)))
          ≡ threw doc_len_overflow)
      × (deserialize_encdb_request (packet client 2 len (update_single op id sent))
          ≡ threw doc_len_overflow)
unfolding read_request_body
deserialize-oversized client len op flags terms n id index rest hc hl hop hid fits many few over
      small =
    (
      deserialize-threw client 1 len _ term_count_overflow hc (omega arith) hl
          (read_select-oversized terms rest many few),
      deserialize-threw client 2 len _ index_len_overflow hc (omega arith) hl
          (update_index-oversized op id hop hid flags n rest over small),
      deserialize-threw client 2 len _ doc_len_overflow hc (omega arith) hl
          (update_doc-oversized op id hop hid flags n index rest fits over small),
      deserialize-threw client 2 len _ doc_len_overflow hc (omega arith) hl
          (update_single-oversized op id hop hid n rest over small),
    )
