-- ===== src/Wire/Request.antt =====
-- RPC.cpp: write_request_body, read_request_body, serialize_encdb_request and
-- deserialize_encdb_request.
use veil_db.Base.{
  ℕ, zero, suc, ◌-◌, List, [], ◌∷◌, ◌++◌, length, leb, ltb, ◌==◌, if◌then◌else◌, Outcome, ok, bind,
  term_count_overflow, index_len_overflow, doc_len_overflow,
}
use veil_db.Base.Int.{ℤ, pos, negsuc, of_u32, leb_ℤ}
use veil_db.Protocol.{
  UpdateRequest, RequestBody, init_req, select_req, update_req, shutdown_req, other, EncDbRequest,
  request_type, max_terms, max_keyword_len, max_doc_size, max_bool_expr, enc_key_size,
  update_legacy, update_split,
}
use veil_db.Wire.Bytes.{
  append_u8, append_u32, append_i32, Reader, ◌>>=◌, ◌>>◌, pure, check, read_u8, read_u32, read_i32,
  copy_bytes, copy_int,
}

-- UPDATE_WIRE_V1 and UPDATE_WIRE_LEGACY_SINGLE
abbrev pub update_wire_v1 : ℕ
update_wire_v1 = 1

abbrev pub update_wire_legacy_single : ℕ
update_wire_legacy_single = 2

-- A length and the bytes that it counts.
abbrev pub append_sized : List ℕ → List ℕ
append_sized bs = append_u32 (length bs) ++ bs

unfoldable pub write_terms : List (List ℕ) → List ℕ
write_terms [] = []
write_terms (t ∷ ts) = append_u8 (length t) ++ (t ++ write_terms ts)

unfoldable pub write_update : UpdateRequest → List ℕ
write_update r =
    if r.flags == update_split
    then append_u8 update_wire_v1
      ++ (append_u8 r.flags ++ (append_sized r.index_content ++ append_sized r.doc_content))
    else append_u8 update_wire_legacy_single ++ append_sized r.doc_content

unfoldable pub write_request_body : RequestBody → List ℕ
unfolding write_terms write_update
write_request_body (init_req r) = r.key ++ (append_u8 r.init_mode ++ append_u32 r.target_edb_id)
write_request_body (select_req r) =
    append_u32 (length r.terms)
    ++ (write_terms r.terms ++ (append_sized r.bool_expr ++ append_u8 r.select_type))
write_request_body (update_req r) = append_u8 r.op ++ (append_i32 r.doc_id ++ write_update r)
write_request_body (shutdown_req r) = append_u8 r
write_request_body (other tag) = []

-- The optional part of INIT, `left` bytes before `body_end`.
unfoldable pub read_init_target : ℕ → Reader ℕ
read_init_target left = if leb 4 left then read_u32 else pure 0

unfoldable pub read_init_tail : List ℕ → ℕ → Reader RequestBody
unfolding read_init_target
read_init_tail key left =
    if ltb 0 left
    then (do
      mode ← read_u8
      target ← read_init_target (left - 1)
      pure (init_req (record { key = key; init_mode = mode; target_edb_id = target })))
    else pure (init_req (record { key = key; init_mode = 0; target_edb_id = 0 }))

unfoldable pub read_shutdown : ℕ → Reader RequestBody
read_shutdown body_len =
    if ltb 0 body_len then (do r ← read_u8; pure (shutdown_req r)) else pure (shutdown_req 0)

unfoldable pub read_terms : ℕ → Reader (List (List ℕ))
read_terms zero = pure []
read_terms (suc n) = do
  len ← read_u8
  t ← copy_bytes max_keyword_len len
  ts ← read_terms n
  pure (t ∷ ts)

-- `term_count` is an int: a negative one passes the check, and its loop makes no round.
unfoldable pub read_term_array : ℤ → Reader (List (List ℕ))
unfolding read_terms
read_term_array (pos n) = read_terms n
read_term_array (negsuc n) = pure []

unfoldable pub read_select : Reader RequestBody
unfolding read_term_array
read_select = do
  count ← read_u32
  let term_count = of_u32 count
  check (leb_ℤ term_count max_terms) term_count_overflow
  ts ← read_term_array term_count
  bool_len ← read_u32
  bytes ← copy_int max_bool_expr (of_u32 bool_len)
  t ← read_u8
  pure (select_req (record { terms = ts; bool_expr = bytes; select_type = t }))

-- `doc_len` and the document.
unfoldable pub read_doc : Reader (List ℕ)
read_doc = do
  len ← read_u32
  check (leb_ℤ (of_u32 len) max_doc_size) doc_len_overflow
  copy_int max_doc_size (of_u32 len)

unfoldable pub read_index : Reader (List ℕ)
read_index = do
  len ← read_u32
  check (leb_ℤ (of_u32 len) max_doc_size) index_len_overflow
  copy_int max_doc_size (of_u32 len)

abbrev legacy_update : ℕ → ℤ → List ℕ → RequestBody
legacy_update op id content = update_req (record {
  op = op;
  flags = update_legacy;
  doc_id = id;
  doc_content = content;
  index_content = [];
})

-- The three layouts that follow the document id; `start` is the pointer before the tag.
unfoldable pub read_update_tail : ℕ → ℤ → ℕ → List ℕ → Reader RequestBody
unfolding read_doc read_index
read_update_tail op id tag start =
    if tag == update_wire_v1
    then (do
      flags ← read_u8
      index ← read_index
      content ← read_doc
      pure (
          update_req (record {
            op = op;
            flags = flags;
            doc_id = id;
            doc_content = content;
            index_content = index;
          })))
    else if tag == update_wire_legacy_single
    then (do content ← read_doc; pure (legacy_update op id content))
    else λ _. (do content ← read_doc; pure (legacy_update op id content)) start

unfoldable pub read_update : Reader RequestBody
unfolding read_update_tail
read_update = do
  op ← read_u8
  id ← read_i32
  λ start. (do tag ← read_u8; read_update_tail op id tag start) start

unfoldable pub read_request_body : ℕ → ℕ → Reader RequestBody
unfolding read_init_tail read_shutdown read_select read_update
read_request_body tag body_len =
    if tag == 0
    then (do
      key ← copy_bytes enc_key_size enc_key_size
      read_init_tail key (body_len - enc_key_size))
    else if tag == 1
    then read_select
    else if tag == 2
    then read_update
    else if tag == 3
    then read_shutdown body_len
    else pure (other tag)

-- Request: what the transport carries is `payload`.
pub record Request : Type 0 where
  pub sender : ℕ
  pub wire_type : ℕ
  pub payload : List ℕ

-- `body_len` is patched in once the body is written.
unfoldable pub serialize_encdb_request : EncDbRequest → ℕ → Request
unfolding write_request_body request_type
serialize_encdb_request r client_id =
    let tag = request_type r.body in
    let body = write_request_body r.body in
    record {
      sender = client_id;
      wire_type = tag;
      payload = append_u8 r.client_id ++ (append_u32 tag ++ append_sized body);
    }

-- The pointer after the body is not looked at again.
unfoldable pub deserialize_encdb_request : Request → Outcome EncDbRequest
unfolding read_request_body
deserialize_encdb_request r =
    bind
      ((do
        id ← read_u8
        tag ← read_u32
        body_len ← read_u32
        body ← read_request_body tag body_len
        pure (record { client_id = id; body = body }))
        r.payload)
      (λ (req, p). ok req)
