-- ===== src/Tests/Client.antt =====
-- Requests of the client, and a query from its tokens to its answer.
use veil_db.Base.{
  ℕ, ◌≡◌, refl, List, [], ◌∷◌, length, replicate, length-replicate, map, Option, some, true, ok,
  fault, bind, arith, subst, sym, ◌≤◌, same_text,
}
use veil_db.Base.Int.{pos}
use veil_db.Protocol.{max_bool_expr, select_req, update_req}
use veil_db.Wire.Request.{deserialize_encdb_request}
use veil_db.Query.Parser.{
  Ast, Cursor, term, and, not, parse_tokens, parse_expr, looks_at, find_index,
}
use veil_db.Query.Encode.{make_term, code}
use veil_db.Enclave.Context.{zero_key}
use veil_db.Client.{Client, stoi, parse_select_type, build_update_request, build_select_request}
use veil_db.Client.Requests.{
  deserialize-build_select_request, deserialize-build_update_request, build_update_request_overrun,
}
use veil_db.Tests.Small.{word_ab, word_cd}

abbrev a_client : Client
a_client = record { client_id = 3; kf = zero_key; last_select_type = 0 }

-- ab AND NOT cd
abbrev pub expr_tokens : List (List ℕ)
expr_tokens = word_ab ∷ (b'A' ∷ b'N' ∷ b'D' ∷ []) ∷ (b'N' ∷ b'O' ∷ b'T' ∷ []) ∷ word_cd ∷ []

abbrev line_tokens : List (List ℕ)
line_tokens = (b'S' ∷ b'E' ∷ b'L' ∷ b'E' ∷ b'C' ∷ b'T' ∷ []) ∷ expr_tokens

abbrev pub a_tree : Ast
a_tree = and (term 0) (not (term 1))

abbrev pub at_end : Cursor
at_end = record { rest = []; keywords = word_ab ∷ word_cd ∷ [] }

pub parsed : parse_tokens expr_tokens ≡ ok (a_tree, at_end)
unfolding parse_tokens parse_expr looks_at find_index same_text
parsed = refl

base_select : parse_select_type line_tokens ≡ (0, expr_tokens)
unfolding parse_select_type same_text
base_select = refl

line_parsed : parse_tokens (parse_select_type line_tokens).1 ≡ ok (a_tree, at_end)
line_parsed = subst (λ e. parse_tokens e.1 ≡ ok (a_tree, at_end)) (sym base_select) parsed

short : length (code a_tree) ≤ max_bool_expr
unfolding code
short = omega arith

deserialize-build_select_request_example :
    bind (build_select_request line_tokens a_client) (λ (r, c'). deserialize_encdb_request r)
    ≡ ok (record {
      client_id = 3;
      body = select_req (record {
        terms = map make_term (word_ab ∷ word_cd ∷ []);
        bool_expr = code a_tree;
        select_type = (parse_select_type line_tokens).0;
      });
    })
deserialize-build_select_request_example =
    deserialize-build_select_request line_tokens a_tree at_end a_client (omega arith) line_parsed
      (omega arith) short

abbrev one_file : List ℕ → Option (List ℕ)
one_file name = some (b'h' ∷ b'i' ∷ [])

seven : stoi (b'7' ∷ []) ≡ ok (pos 7)
unfolding stoi
seven = refl

deserialize-build_update_request_example :
    bind
      (build_update_request one_file ((b'I' ∷ []) ∷ (b'7' ∷ []) ∷ []) true a_client)
      (λ (r, c'). deserialize_encdb_request r)
    ≡ ok (record {
      client_id = 3;
      body = update_req (record {
        op = 1;
        flags = 0;
        doc_id = pos 7;
        doc_content = b'h' ∷ b'i' ∷ 0 ∷ [];
        index_content = [];
      });
    })
deserialize-build_update_request_example =
    deserialize-build_update_request one_file ((b'I' ∷ []) ∷ (b'7' ∷ []) ∷ []) true (b'7' ∷ [])
      (b'h' ∷ b'i' ∷ []) (pos 7) a_client refl refl seven (omega arith) (omega arith)

abbrev long_file : List ℕ → Option (List ℕ)
long_file name = some (replicate 4096 65)

long : length {A = ℕ} (replicate 4096 65) ≡ 4096
long = length-replicate {A = ℕ} 4096 65

build_update_request_overrun_example :
    build_update_request long_file ((b'I' ∷ []) ∷ (b'7' ∷ []) ∷ []) true a_client ≡ fault
build_update_request_overrun_example =
    build_update_request_overrun long_file ((b'I' ∷ []) ∷ (b'7' ∷ []) ∷ []) true (b'7' ∷ [])
      (replicate 4096 65) (pos 7) a_client refl refl seven (omega (arith, long))
