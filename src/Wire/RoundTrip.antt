-- ===== src/Wire/RoundTrip.antt =====
-- RPC.cpp: writing a request, and reading what was written.
use veil_db.Base.{
  ℕ, ◌*◌, ◌^◌, ◌≤◌, ◌<◌, ◌≡◌, List, [], ◌∷◌, ◌++◌, length, All, append_assoc, append-nil, arith, ok,
  length-append_bytes,
}
use veil_db.Base.Int.{to_u32}
use veil_db.Protocol.{
  RequestBody, init_req, select_req, update_req, shutdown_req, other, EncDbRequest, FitsRequest,
  request_type, max_keyword_len, enc_key_size,
}
use veil_db.Wire.Bytes.{
  append_u8, append_u32, append_i32, copy_bytes_exact, read_u8-append_u8, read_u32-append_u32,
  length-append_u32,
}
use veil_db.Wire.Request.{
  append_sized, write_terms, write_update, write_request_body, read_request_body,
  serialize_encdb_request, deserialize_encdb_request,
}
use veil_db.Wire.Bodies.{read_select-write, IsSendable, read_update-write}

read_init-write :
    (key : List ℕ) (mode id : ℕ) (rest : List ℕ)
    → length key ≡ enc_key_size
    → mode < 256
    → id < 2 ^ 32
    → let r = init_req (record { key = key; init_mode = mode; target_edb_id = id }) in
      read_request_body 0 21 (write_request_body r ++ rest) ≡ ok (r, rest)
unfolding read_request_body write_request_body
read_init-write key mode id rest hk hm hi = rw (
  append_assoc key (append_u8 mode ++ append_u32 id) rest,
  copy_bytes_exact 16 16 key (append_u8 mode ++ (append_u32 id ++ rest)) hk (omega arith),
  read_u8-append_u8 mode (append_u32 id ++ rest) hm,
  read_u32-append_u32 id rest hi,
)

length-write_init :
    (key : List ℕ) (mode id : ℕ)
    → length key ≡ enc_key_size
    → length (key ++ (append_u8 mode ++ append_u32 id)) ≡ 21
length-write_init key mode id h = omega (
  arith,
  length-append_bytes key (append_u8 mode ++ append_u32 id),
  length-append_bytes (append_u8 mode) (append_u32 id),
  length-append_u32 id,
)

-- The body length that the header carries is that of the body.
read_request_body-write :
    (b : RequestBody) (rest : List ℕ)
    → FitsRequest b
    → IsSendable b
    → read_request_body
        (request_type b)
        (length (write_request_body b))
        (write_request_body b ++ rest)
      ≡ ok (b, rest)
read_request_body-write (init_req r) rest (hk, hm, hi) s =
    unfold request_type write_request_body in
    rw (length-write_init r.key r.init_mode r.target_edb_id hk)
      (read_init-write r.key r.init_mode r.target_edb_id rest hk hm hi)
read_request_body-write (select_req r) rest h s =
    unfold read_request_body request_type in
    read_select-write r.terms r.bool_expr r.select_type rest h
read_request_body-write (update_req r) rest h s =
    unfold read_request_body request_type in read_update-write r rest h s
read_request_body-write (shutdown_req r) rest h s =
    unfold read_request_body request_type write_request_body in rw (read_u8-append_u8 r rest h)
read_request_body-write (other tag) rest (lo, hi) s =
    unfold read_request_body request_type write_request_body in ground arith

length-write_terms :
    (ts : List (List ℕ))
    → All (λ t. length t ≤ max_keyword_len) ts
    → length (write_terms ts) ≤ 33 * length ts
unfolding write_terms
length-write_terms [] h = omega arith
length-write_terms (t ∷ ts) h =
    omega (arith, length-append_bytes t (write_terms ts), length-write_terms ts h.1)

-- No body reaches the length at which the header's field would wrap.
length-write_request_body :
    (b : RequestBody) → FitsRequest b → length (write_request_body b) < 2 ^ 32
unfolding write_request_body append_i32
length-write_request_body (init_req r) (hk, hm, hi) =
    rw (length-write_init r.key r.init_mode r.target_edb_id hk) (omega arith)
length-write_request_body (select_req r) (few, short, fits, small) =
    omega (arith, length-append_bytes, length-append_u32, length-write_terms r.terms short)
length-write_request_body (update_req r) (hop, hid, hc, hi) = ground (
  arith,
  length-append_bytes (append_u32 (to_u32 r.doc_id)) (write_update r),
  length-append_u32 (to_u32 r.doc_id),
  length-append_bytes (append_sized r.index_content) (append_sized r.doc_content),
  length-append_bytes (append_u32 (length r.index_content)) r.index_content,
  length-append_u32 (length r.index_content),
  length-append_bytes (append_u32 (length r.doc_content)) r.doc_content,
  length-append_u32 (length r.doc_content),
)
length-write_request_body (shutdown_req r) h = omega arith
length-write_request_body (other tag) h = omega arith

request_type-lt : (b : RequestBody) → FitsRequest b → request_type b < 2 ^ 32
unfolding request_type
request_type-lt (other tag) h = h.1
request_type-lt _ h = omega arith

-- A request whose fields are in range, and which is no legacy update with an index beside it, is
-- read back by the server exactly as the client built it.
pub deserialize-serialize :
    (r : EncDbRequest) (client_id : ℕ)
    → r.client_id < 256
    → FitsRequest r.body
    → IsSendable r.body
    → deserialize_encdb_request (serialize_encdb_request r client_id) ≡ ok r
unfolding deserialize_encdb_request serialize_encdb_request
deserialize-serialize r client_id hc fits s =
    let body = write_request_body r.body in
    rw (
      read_u8-append_u8 r.client_id (append_u32 (request_type r.body) ++ append_sized body) hc,
      read_u32-append_u32 (request_type r.body) (append_sized body) (request_type-lt r.body fits),
      read_u32-append_u32 (length body) body (length-write_request_body r.body fits),
      rw append-nil at (read_request_body-write r.body [] fits s),
    )
