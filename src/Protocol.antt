-- ===== src/Protocol.antt =====
-- EncDBRequest.h: the requests and the responses.
-- An array and its length field are one list, the first `len` elements of the array. The structs
-- are zero-initialised, so what lies beyond is zero. The union and its tag are one data type.
use veil_db.Base.{ℕ, List, ◌≤◌, ◌<◌, ◌^◌, All, length, ◌≡◌}
use veil_db.Base.Int.{ℤ, IsInt}

abbrev pub max_terms : ℕ
max_terms = 16

abbrev pub max_keyword_len : ℕ
max_keyword_len = 32

abbrev pub max_doc_size : ℕ
max_doc_size = 4096

abbrev pub max_result_docs : ℕ
max_result_docs = 100

-- `bool_expr[128]`
abbrev pub max_bool_expr : ℕ
max_bool_expr = 128

abbrev pub enc_key_size : ℕ
enc_key_size = 16

abbrev pub update_legacy : ℕ
update_legacy = 0

abbrev pub update_split : ℕ
update_split = 1

abbrev pub op_delete : ℕ
op_delete = 0

abbrev pub op_insert : ℕ
op_insert = 1

abbrev pub op_replace : ℕ
op_replace = 2

-- BoolOp
abbrev pub op_term : ℕ
op_term = 1

abbrev pub op_and : ℕ
op_and = 2

abbrev pub op_or : ℕ
op_or = 3

abbrev pub op_not : ℕ
op_not = 4

pub record InitRequest : Type 0 where
  pub key : List ℕ
  pub init_mode : ℕ
  pub target_edb_id : ℕ

pub record SelectRequest : Type 0 where
  pub terms : List (List ℕ)
  pub bool_expr : List ℕ
  pub select_type : ℕ

pub record UpdateRequest : Type 0 where
  pub op : ℕ
  pub flags : ℕ
  pub doc_id : ℤ
  pub doc_content : List ℕ
  pub index_content : List ℕ

-- `other tag` is a request with a tag that is none of the four, RequestType::INVALID among them.
pub data RequestBody : Type 0 where
  init_req : InitRequest → RequestBody
  select_req : SelectRequest → RequestBody
  update_req : UpdateRequest → RequestBody
  shutdown_req : ℕ → RequestBody
  other : ℕ → RequestBody

pub record EncDbRequest : Type 0 where
  pub client_id : ℕ
  pub body : RequestBody

-- RequestType
unfoldable pub request_type : RequestBody → ℕ
request_type (init_req r) = 0
request_type (select_req r) = 1
request_type (update_req r) = 2
request_type (shutdown_req r) = 3
request_type (other tag) = tag

-- A document of a SELECT answer: its id and its buffer of `max_doc_size` bytes.
pub record ResultDoc : Type 0 where
  pub id : ℤ
  pub content : List ℕ

pub record UpdateResponse : Type 0 where
  pub success : ℤ
  pub updated_id : ℤ

pub data ResponseBody : Type 0 where
  init_resp : ℕ → ResponseBody
  select_resp : List ResultDoc → ResponseBody
  update_resp : UpdateResponse → ResponseBody
  shutdown_resp : ℕ → ResponseBody
  other_resp : ℕ → ResponseBody

-- ResponseType
unfoldable pub response_type : ResponseBody → ℕ
response_type (init_resp r) = 0
response_type (select_resp r) = 1
response_type (update_resp r) = 2
response_type (shutdown_resp r) = 3
response_type (other_resp tag) = tag

-- `status` is 0 for OK and 1 for ERROR.
pub record EncDbResponse : Type 0 where
  pub status : ℕ
  pub answer : ResponseBody

-- The values that the fields of a request can hold.
abbrev pub FitsRequest : RequestBody → Type 0
FitsRequest (init_req r) =
    (length r.key ≡ enc_key_size) × (r.init_mode < 256) × (r.target_edb_id < 2 ^ 32)
FitsRequest (select_req r) =
    (length r.terms ≤ max_terms)
    × All (λ t. length t ≤ max_keyword_len) r.terms
    × (length r.bool_expr ≤ max_bool_expr)
    × (r.select_type < 256)
FitsRequest (update_req r) =
    (r.op < 256)
    × IsInt r.doc_id
    × (length r.doc_content ≤ max_doc_size)
    × (length r.index_content ≤ max_doc_size)
FitsRequest (shutdown_req r) = r < 256
FitsRequest (other tag) = (4 ≤ tag) × (tag < 2 ^ 32)

abbrev pub FitsResponse : ResponseBody → Type 0
FitsResponse (init_resp r) = r < 256
FitsResponse (select_resp docs) =
    (length docs ≤ max_result_docs) × All (λ d. IsInt d.id × (length d.content ≡ max_doc_size)) docs
FitsResponse (update_resp r) = IsInt r.success × IsInt r.updated_id
FitsResponse (shutdown_resp r) = r < 256
FitsResponse (other_resp tag) = (4 ≤ tag) × (tag < 2 ^ 32)
