-- ===== src/Client.antt =====
-- Client.cpp: the requests that a line of input is turned into. The document files are the argument
-- `load`, from the name of a file to its content if it can be opened.
pub mod Requests
use veil_db.Base.{
  ℕ, zero, suc, ◌+◌, ◌-◌, ◌*◌, ◌%◌, ◌^◌, List, [], ◌∷◌, ◌++◌, length, drop, map, Option, none, some,
  Bool, true, false, ltb, leb, ◌==◌, if◌then◌else◌, same_text, Outcome, ok, threw, fault, bind,
  ◌>>=◌, ◌>>◌, require, defined, invalid_argument, out_of_range, get_elem?,
}
use veil_db.Base.Decimal.{is_digit, digits_value}
use veil_db.Base.Int.{ℤ, pos, negsuc, to_u32, negated}
use veil_db.Protocol.{
  EncDbRequest, RequestBody, init_req, select_req, update_req, other, max_terms, max_doc_size,
  update_legacy, op_insert, op_delete,
}
use veil_db.Wire.Request.{Request, serialize_encdb_request}
use veil_db.Query.Tokens.{to_upper, tokenize_query}
use veil_db.Query.Parser.{parse_tokens}
use veil_db.Query.Encode.{make_term, encode_bool_expr}

pub record Client : Type 0 where
  pub client_id : ℕ
  pub kf : List ℕ
  pub last_select_type : ℕ

abbrev word_max : List ℕ
word_max = b'M' ∷ b'A' ∷ b'X' ∷ []

abbrev word_min : List ℕ
word_min = b'M' ∷ b'I' ∷ b'N' ∷ []

abbrev word_sum : List ℕ
word_sum = b'S' ∷ b'U' ∷ b'M' ∷ []

abbrev word_avg : List ℕ
word_avg = b'A' ∷ b'V' ∷ b'G' ∷ []

-- RequestType::INVALID
abbrev pub invalid : RequestBody
invalid = other 4

-- std::stoi on a token, which has no space in it.
abbrev starts_digit : List ℕ → Bool
starts_digit [] = false
starts_digit (c ∷ cs) = is_digit c

unfoldable pub stoi_pos : List ℕ → Outcome ℤ
unfolding digits_value
stoi_pos cs = do
  require (starts_digit cs) invalid_argument
  require (ltb (digits_value 0 cs) (2 ^ 31)) out_of_range
  ok (pos (digits_value 0 cs))

unfoldable pub stoi_neg : List ℕ → Outcome ℤ
unfolding digits_value negated
stoi_neg cs = do
  require (starts_digit cs) invalid_argument
  require (leb (digits_value 0 cs) (2 ^ 31)) out_of_range
  ok (negated (digits_value 0 cs))

unfoldable pub stoi : List ℕ → Outcome ℤ
unfolding stoi_pos stoi_neg
stoi [] = threw invalid_argument
stoi (c ∷ cs) =
    if c == b'-' then stoi_neg cs else if c == b'+' then stoi_pos cs else stoi_pos (c ∷ cs)

-- The type, and the tokens of the expression.
unfoldable pub parse_select_type : List (List ℕ) → ℕ × List (List ℕ)
parse_select_type [] = (0, [])
parse_select_type (command ∷ []) = (0, [])
parse_select_type (command ∷ word ∷ rest) =
    if same_text word word_max
    then (1, rest)
    else if same_text word word_min
    then (2, rest)
    else if same_text word word_sum
    then (3, rest)
    else if same_text word word_avg
    then (4, rest)
    else (0, word ∷ rest)

-- `serialize_encdb_request(req, client_id)` for a `req` that names the client in one byte.
unfoldable pub send : RequestBody → Client → Request × Client
send body c =
    (serialize_encdb_request (record { client_id = c.client_id % 256; body = body }) c.client_id, c)

unfoldable pub build_init_request : List (List ℕ) → Client → Outcome (Request × Client)
unfolding send
build_init_request tokens c = elim (get_elem? tokens 1) [
  | none ↦ ok (send (init_req (record { key = c.kf; init_mode = 0; target_edb_id = 0 })) c)
  | some word ↦ do
    id ← stoi word
    ok (
        send (init_req (record { key = c.kf; init_mode = 0; target_edb_id = 0 }))
          (record c { client_id = to_u32 id }))
]

-- The document, with the zero that ends it, is copied into an array of MAX_DOC_SIZE bytes.
unfoldable pub update_with : ℕ → ℤ → List ℕ → Client → Outcome (Request × Client)
unfolding send
update_with op id content c = do
  defined (leb (length content + 1) max_doc_size)
  ok (
      send
        (update_req (record {
          op = op;
          flags = update_legacy;
          doc_id = id;
          doc_content = content ++ 0 ∷ [];
          index_content = [];
        }))
        c)

unfoldable pub build_update_request :
    (List ℕ → Option (List ℕ)) → List (List ℕ) → Bool → Client → Outcome (Request × Client)
unfolding send update_with
build_update_request load tokens is_insert c = elim (get_elem? tokens 1) [
  | none ↦ ok (send invalid c)
  | some name ↦ elim (load name) [
    | none ↦ ok (send invalid c)
    | some content ↦ do
      id ← stoi name
      update_with (if is_insert then op_insert else op_delete) id content c
  ]
]

-- `terms` has room for 16 keywords.
unfoldable pub select_with_expr : ℕ → List (List ℕ) → Client → Outcome (Request × Client)
unfolding send parse_tokens encode_bool_expr make_term
select_with_expr type expr_tokens c = do
  (root, parser) ← parse_tokens expr_tokens
  defined (leb (length parser.keywords) max_terms)
  code ← encode_bool_expr root []
  ok (
      send
        (select_req
          (record { terms = map make_term parser.keywords; bool_expr = code; select_type = type }))
        (record c { last_select_type = type }))

unfoldable pub build_select_request : List (List ℕ) → Client → Outcome (Request × Client)
unfolding send select_with_expr parse_select_type
build_select_request tokens c =
    let (type, expr_tokens) = parse_select_type tokens in
    if ltb (length tokens) 2 then ok (send invalid c) else select_with_expr type expr_tokens c

abbrev word_init : List ℕ
word_init = b'I' ∷ b'N' ∷ b'I' ∷ b'T' ∷ []

abbrev word_insert : List ℕ
word_insert = b'I' ∷ b'N' ∷ b'S' ∷ b'E' ∷ b'R' ∷ b'T' ∷ []

abbrev word_delete : List ℕ
word_delete = b'D' ∷ b'E' ∷ b'L' ∷ b'E' ∷ b'T' ∷ b'E' ∷ []

abbrev word_select : List ℕ
word_select = b'S' ∷ b'E' ∷ b'L' ∷ b'E' ∷ b'C' ∷ b'T' ∷ []

-- The choice by the first token. Without a token the client is not named in the request.
unfoldable pub build_from :
    (List ℕ → Option (List ℕ)) → List (List ℕ) → Client → Outcome (Request × Client)
unfolding build_init_request build_update_request build_select_request send to_upper
build_from load [] c =
    ok (serialize_encdb_request (record { client_id = 0; body = invalid }) c.client_id, c)
build_from load (first ∷ rest) c =
    let command = to_upper first in
    if same_text command word_init
    then build_init_request (first ∷ rest) c
    else if same_text command word_insert
    then build_update_request load (first ∷ rest) true c
    else if same_text command word_delete
    then build_update_request load (first ∷ rest) false c
    else if same_text command word_select
    then build_select_request (first ∷ rest) c
    else ok (send invalid c)

unfoldable pub build_request :
    (List ℕ → Option (List ℕ)) → List ℕ → Client → Outcome (Request × Client)
unfolding build_from tokenize_query
build_request load sql c = build_from load (tokenize_query sql) c
