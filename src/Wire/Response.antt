-- ===== src/Wire/Response.antt =====
-- RPC.cpp: write_response_body, read_response_body, serialize_encdb_response and
-- deserialize_encdb_response.
use veil_db.Base.{
  ℕ, zero, suc, ◌*◌, ◌^◌, ◌<◌, ◌≡◌, refl, List, [], ◌∷◌, ◌++◌, length, All, arith, ok, bind,
  Outcome, if◌then◌else◌, ◌==◌, append_assoc, append-nil, length-append_bytes, le→leb,
  doc_count_overflow,
}
use veil_db.Base.Int.{ℤ, pos, negsuc, IsInt, of_u32, leb_ℤ, to_u32}
use veil_db.Protocol.{
  ResultDoc, ResponseBody, init_resp, select_resp, update_resp, shutdown_resp, other_resp,
  response_type, EncDbResponse, FitsResponse, max_result_docs, max_doc_size,
}
use veil_db.Wire.Bytes.{
  append_u8, append_u32, append_i32, Reader, ◌>>=◌, ◌>>◌, pure, check, read_u8, read_u32, read_i32,
  copy_bytes, read_u8-append_u8, read_u32-append_u32, read_i32-append_i32, copy_bytes_exact,
  length-append_u32,
}
use veil_db.Wire.Request.{append_sized}
use veil_db.Wire.Bodies.{of_u32_small}

unfoldable pub write_ids : List ResultDoc → List ℕ
write_ids [] = []
write_ids (d ∷ ds) = append_i32 d.id ++ write_ids ds

unfoldable pub write_contents : List ResultDoc → List ℕ
write_contents [] = []
write_contents (d ∷ ds) = d.content ++ write_contents ds

unfoldable pub write_response_body : ResponseBody → List ℕ
unfolding write_ids write_contents
write_response_body (init_resp edb_id) = append_u8 edb_id
write_response_body (select_resp docs) =
    append_u32 (length docs) ++ (write_ids docs ++ write_contents docs)
write_response_body (update_resp r) = append_i32 r.success ++ append_i32 r.updated_id
write_response_body (shutdown_resp success) = append_u8 success
write_response_body (other_resp tag) = []

unfoldable pub read_ids : ℕ → Reader (List ℤ)
read_ids zero = pure []
read_ids (suc n) = do id ← read_i32; ids ← read_ids n; pure (id ∷ ids)

-- The second loop, which fills the contents beside the ids.
unfoldable pub read_contents : List ℤ → Reader (List ResultDoc)
read_contents [] = pure []
read_contents (id ∷ ids) = do
  content ← copy_bytes max_doc_size max_doc_size
  docs ← read_contents ids
  pure (record { id = id; content = content } ∷ docs)

-- Both loops run while `i < doc_count`, so not at all where `doc_count` is negative.
unfoldable pub read_docs : ℤ → Reader (List ResultDoc)
unfolding read_ids read_contents
read_docs (pos n) = do ids ← read_ids n; read_contents ids
read_docs (negsuc n) = pure []

unfoldable pub read_response_body : ℕ → Reader ResponseBody
unfolding read_docs
read_response_body tag =
    if tag == 0
    then (do id ← read_u8; pure (init_resp id))
    else if tag == 1
    then (do
      count ← read_u32
      check (leb_ℤ (of_u32 count) max_result_docs) doc_count_overflow
      docs ← read_docs (of_u32 count)
      pure (select_resp docs))
    else if tag == 2
    then (do
      success ← read_i32
      id ← read_i32
      pure (update_resp (record { success = success; updated_id = id })))
    else if tag == 3
    then (do s ← read_u8; pure (shutdown_resp s))
    else pure (other_resp tag)

-- Response: what the transport carries is the payload.
pub record Response : Type 0 where
  pub receiver : ℕ
  pub reply : List ℕ

unfoldable pub serialize_encdb_response : EncDbResponse → ℕ → Response
unfolding write_response_body response_type
serialize_encdb_response r client_id = record {
  receiver = client_id;
  reply =
      append_u32 r.status
      ++ (append_u32 (response_type r.answer) ++ append_sized (write_response_body r.answer));
}

unfoldable pub deserialize_encdb_response : Response → Outcome EncDbResponse
unfolding read_response_body
deserialize_encdb_response r =
    bind
      ((do
        status ← read_u32
        tag ← read_u32
        body_len ← read_u32
        answer ← read_response_body tag
        pure (record { status = status; answer = answer }))
        r.reply)
      (λ (resp, p). ok resp)

abbrev FitsDocs : List ResultDoc → Type 0
FitsDocs docs = All (λ d. IsInt d.id × (length d.content ≡ max_doc_size)) docs

abbrev ids_of : List ResultDoc → List ℤ
ids_of [] = []
ids_of (d ∷ ds) = d.id ∷ ids_of ds

read_ids-write_ids :
    (docs : List ResultDoc) (rest : List ℕ)
    → FitsDocs docs
    → read_ids (length docs) (write_ids docs ++ rest) ≡ ok (ids_of docs, rest)
unfolding read_ids write_ids
read_ids-write_ids [] rest h = refl
read_ids-write_ids (d ∷ ds) rest h = rw (
  append_assoc (append_i32 d.id) (write_ids ds) rest,
  read_i32-append_i32 d.id (write_ids ds ++ rest) h.0.0,
  read_ids-write_ids ds rest h.1,
)

read_contents-write_contents :
    (docs : List ResultDoc) (rest : List ℕ)
    → FitsDocs docs
    → read_contents (ids_of docs) (write_contents docs ++ rest) ≡ ok (docs, rest)
unfolding read_contents write_contents
read_contents-write_contents [] rest h = refl
read_contents-write_contents (d ∷ ds) rest h = rw (
  append_assoc d.content (write_contents ds) rest,
  copy_bytes_exact 4096 4096 d.content (write_contents ds ++ rest) h.0.1 (omega arith),
  read_contents-write_contents ds rest h.1,
)

read_select_resp-write :
    (docs : List ResultDoc)
    → FitsResponse (select_resp docs)
    → read_response_body 1 (write_response_body (select_resp docs)) ≡ ok (select_resp docs, [])
unfolding read_response_body write_response_body
read_select_resp-write docs (few, fits) = rw (
  read_u32-append_u32 (length docs) (write_ids docs ++ write_contents docs) (omega arith),
  of_u32_small (length docs) (omega arith),
  le→leb (length docs) 100 few,
  read_ids-write_ids docs (write_contents docs) fits,
  rw append-nil at (read_contents-write_contents docs [] fits),
)

read_response_body-write :
    (b : ResponseBody)
    → FitsResponse b
    → read_response_body (response_type b) (write_response_body b) ≡ ok (b, [])
read_response_body-write (init_resp id) h =
    unfold read_response_body response_type write_response_body in rw (read_u8-append_u8 id [] h)
read_response_body-write (select_resp docs) h =
    unfold response_type in read_select_resp-write docs h
read_response_body-write (update_resp r) h =
    unfold read_response_body response_type write_response_body in
    rw (
      read_i32-append_i32 r.success (append_i32 r.updated_id) h.0,
      rw append-nil at (read_i32-append_i32 r.updated_id [] h.1),
    )
read_response_body-write (shutdown_resp s) h =
    unfold read_response_body response_type write_response_body in rw (read_u8-append_u8 s [] h)
read_response_body-write (other_resp tag) h =
    unfold read_response_body response_type write_response_body in ground arith

length-write_ids : (docs : List ResultDoc) → length (write_ids docs) ≡ 4 * length docs
unfolding write_ids append_i32
length-write_ids [] = omega arith
length-write_ids (d ∷ ds) = omega (
  arith,
  length-append_bytes (append_u32 (to_u32 d.id)) (write_ids ds),
  length-append_u32 (to_u32 d.id),
  length-write_ids ds,
)

length-write_contents :
    (docs : List ResultDoc) → FitsDocs docs → length (write_contents docs) ≡ 4096 * length docs
unfolding write_contents
length-write_contents [] h = omega arith
length-write_contents (d ∷ ds) h =
    omega (
      arith,
      h.0.1,
      length-append_bytes d.content (write_contents ds),
      length-write_contents ds h.1,
    )

length-write_response_body :
    (b : ResponseBody) → FitsResponse b → length (write_response_body b) < 2 ^ 32
unfolding write_response_body append_i32
length-write_response_body (init_resp id) h = omega arith
length-write_response_body (select_resp docs) (few, fits) = omega (
  arith,
  length-append_bytes,
  length-append_u32,
  length-write_ids docs,
  length-write_contents docs fits,
)
length-write_response_body (update_resp r) h = omega (arith, length-append_bytes, length-append_u32)
length-write_response_body (shutdown_resp s) h = omega arith
length-write_response_body (other_resp tag) h = omega arith

response_type-lt : (b : ResponseBody) → FitsResponse b → response_type b < 2 ^ 32
unfolding response_type
response_type-lt (other_resp tag) h = h.1
response_type-lt _ h = omega arith

-- A response within its bounds reaches the client as the server built it.
pub deserialize-serialize_response :
    (r : EncDbResponse) (client_id : ℕ)
    → r.status < 2 ^ 32
    → FitsResponse r.answer
    → deserialize_encdb_response (serialize_encdb_response r client_id) ≡ ok r
unfolding deserialize_encdb_response serialize_encdb_response
deserialize-serialize_response r client_id hs fits =
    let body = write_response_body r.answer in
    rw (
      read_u32-append_u32 r.status (append_u32 (response_type r.answer) ++ append_sized body) hs,
      read_u32-append_u32 (response_type r.answer) (append_sized body)
          (response_type-lt r.answer fits),
      read_u32-append_u32 (length body) body (length-write_response_body r.answer fits),
      read_response_body-write r.answer fits,
    )
