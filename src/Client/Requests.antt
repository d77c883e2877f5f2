-- ===== src/Client/Requests.antt =====
-- What the enclave's side reads from the requests of the client.
use veil_db.Base.{
  ℕ, zero, suc, ◌+◌, ◌%◌, ◌≤◌, ◌<◌, ◌≡◌, refl, ap, List, [], ◌∷◌, ◌++◌, length, take, map, All,
  Option, some, Bool, true, false, ltb, leb, if◌then◌else◌, ok, fault, bind, arith, le→leb, inr,
  get_elem?, length-append_bytes,
}
use veil_db.Base.Int.{ℤ, IsInt}
use veil_db.Protocol.{
  select_req, update_req, op_insert, op_delete, max_terms, max_bool_expr, max_doc_size,
  max_keyword_len, RequestBody, FitsRequest,
}
use veil_db.Wire.Request.{deserialize_encdb_request}
use veil_db.Wire.RoundTrip.{deserialize-serialize}
use veil_db.Wire.Bodies.{IsSendable}
use veil_db.Query.Parser.{Ast, Cursor, parse_tokens}
use veil_db.Query.Encode.{make_term, encode_bool_expr, code, encode_bool_expr-code}
use veil_db.Client.{
  Client, stoi, parse_select_type, send, update_with, build_update_request, select_with_expr,
  build_select_request,
}

length-map : (f : List ℕ → List ℕ) (ts : List (List ℕ)) → length (map f ts) ≡ length ts
length-map f [] = refl
length-map f (t ∷ ts) = ap suc (length-map f ts)

length-take_le : (n : ℕ) (xs : List ℕ) → length (take n xs) ≤ n
length-take_le zero xs = omega arith
length-take_le (suc n) [] = omega arith
length-take_le (suc n) (x ∷ xs) = omega (arith, length-take_le n xs)

All-make_term : (ts : List (List ℕ)) → All (λ t. length t ≤ max_keyword_len) (map make_term ts)
unfolding make_term
All-make_term [] = tt
All-make_term (t ∷ ts) = (length-take_le max_keyword_len t, All-make_term ts)

parse_select_type-lt : (tokens : List (List ℕ)) → (parse_select_type tokens).0 < 256
unfolding parse_select_type
parse_select_type-lt [] = omega arith
parse_select_type-lt (c ∷ []) = omega arith
parse_select_type-lt (c ∷ w ∷ rest) = ground arith

-- What is sent is read as it was.
deserialize-send :
    (body : RequestBody) (c : Client)
    → FitsRequest body
    → IsSendable body
    → deserialize_encdb_request (send body c).0
      ≡ ok (record { client_id = c.client_id % 256; body = body })
unfolding send
deserialize-send body c fits s =
    deserialize-serialize (record { client_id = c.client_id % 256; body = body }) c.client_id
      (omega arith) fits s

encode_bool_expr-fits :
    (t : Ast) → length (code t) ≤ max_bool_expr → encode_bool_expr t [] ≡ ok (code t)
encode_bool_expr-fits t h =
    let fits : leb (0 + length (code t)) max_bool_expr ≡ true = ground (arith, h) in
    rw (encode_bool_expr-code t [] (omega arith), fits) refl

select_with_expr-sends :
    (type : ℕ) (tokens : List (List ℕ)) (t : Ast) (p : Cursor) (c : Client)
    → type < 256
    → parse_tokens tokens ≡ ok (t, p)
    → length p.keywords ≤ max_terms
    → length (code t) ≤ max_bool_expr
    → bind (select_with_expr type tokens c) (λ (r, c'). deserialize_encdb_request r)
      ≡ ok (record {
        client_id = c.client_id % 256;
        body =
            select_req
              (record { terms = map make_term p.keywords; bool_expr = code t; select_type = type });
      })
unfolding select_with_expr
select_with_expr-sends type tokens t p c small parsed few short =
    let many : leb (length p.keywords) max_terms ≡ true =
      le→leb (length p.keywords) max_terms few in
    let sent =
      deserialize-send
        (select_req
          (record { terms = map make_term p.keywords; bool_expr = code t; select_type = type }))
        (record c { last_select_type = type })
        (
          omega (arith, length-map make_term p.keywords, few),
          All-make_term p.keywords,
          short,
          small,
        )
        tt in
    rw (parsed, many, encode_bool_expr-fits t short) sent

-- A SELECT line whose expression parses to a tree over at most 16 keywords, with a code of at most
-- 128 bytes, arrives as a SELECT with these keywords, each cut to 32 bytes, and this code.
pub deserialize-build_select_request :
    (tokens : List (List ℕ)) (t : Ast) (p : Cursor) (c : Client)
    → 2 ≤ length tokens
    → parse_tokens (parse_select_type tokens).1 ≡ ok (t, p)
    → length p.keywords ≤ max_terms
    → length (code t) ≤ max_bool_expr
    → bind (build_select_request tokens c) (λ (r, c'). deserialize_encdb_request r)
      ≡ ok (record {
        client_id = c.client_id % 256;
        body = select_req (record {
          terms = map make_term p.keywords;
          bool_expr = code t;
          select_type = (parse_select_type tokens).0;
        });
      })
unfolding build_select_request
deserialize-build_select_request tokens t p c two parsed few short =
    let long : ltb (length tokens) 2 ≡ false = ground (arith, two) in
    rw (long) (
      select_with_expr-sends (parse_select_type tokens).0 (parse_select_type tokens).1 t p c
        (parse_select_type-lt tokens) parsed few short)

-- An INSERT or DELETE line for a document of less than 4096 bytes, whose name starts with a number
-- that fits an int, arrives as an update of that id with the document and a zero behind it.
pub deserialize-build_update_request :
    (load : List ℕ → Option (List ℕ)) (tokens : List (List ℕ)) (is_insert : Bool)
    (name content : List ℕ) (id : ℤ) (c : Client)
    → get_elem? tokens 1 ≡ some name
    → load name ≡ some content
    → stoi name ≡ ok id
    → IsInt id
    → length content < max_doc_size
    → bind (build_update_request load tokens is_insert c) (λ (r, c'). deserialize_encdb_request r)
      ≡ ok (record {
        client_id = c.client_id % 256;
        body = update_req (record {
          op = if is_insert then op_insert else op_delete;
          flags = 0;
          doc_id = id;
          doc_content = content ++ 0 ∷ [];
          index_content = [];
        });
      })
unfolding build_update_request update_with
deserialize-build_update_request load tokens is_insert name content id c named loaded number int
      fits =
    let short : leb (length content + 1) max_doc_size ≡ true = ground (arith, fits) in
    let size : length (content ++ 0 ∷ []) ≤ max_doc_size =
      omega (arith, length-append_bytes content (0 ∷ []), fits) in
    let op_fits : (if is_insert then op_insert else op_delete) < 256 = ground arith in
    rw (named, loaded, number, short, build_update_request)
      (deserialize-send
        (update_req (record {
          op = if is_insert then op_insert else op_delete;
          flags = 0;
          doc_id = id;
          doc_content = content ++ 0 ∷ [];
          index_content = [];
        }))
        c (op_fits, int, size, omega arith) (inr (refl, refl)))

-- An update line with a file name that std::stoi takes for a number: where the file can be opened
-- and has 4096 bytes or more, it is copied beyond the array of the request.
pub build_update_request_overrun :
    (load : List ℕ → Option (List ℕ)) (tokens : List (List ℕ)) (is_insert : Bool)
    (name content : List ℕ) (id : ℤ) (c : Client)
    → get_elem? tokens 1 ≡ some name
    → load name ≡ some content
    → stoi name ≡ ok id
    → max_doc_size ≤ length content
    → build_update_request load tokens is_insert c ≡ fault
unfolding build_update_request update_with
build_update_request_overrun load tokens is_insert name content id c named loaded number long =
    let over : leb (length content + 1) max_doc_size ≡ false = ground (arith, long) in
    rw (named, loaded, number, over, build_update_request) refl
