-- ===== src/Tests/Wire.antt =====
-- Requests and responses on the wire.
use veil_db.Base.{
  ℕ, ◌≡◌, refl, [], ◌∷◌, length, replicate, arith, ok, threw, fault, inl, length-replicate, ◌++◌,
  term_count_overflow, index_len_overflow, doc_len_overflow,
}
use veil_db.Base.Int.{pos, negsuc}
use veil_db.Protocol.{EncDbRequest, EncDbResponse, update_req, select_resp, max_doc_size}
use veil_db.Wire.Request.{
  append_sized, serialize_encdb_request, deserialize_encdb_request, read_request_body,
}
use veil_db.Wire.Response.{
  serialize_encdb_response, deserialize_encdb_response, deserialize-serialize_response,
}
use veil_db.Wire.RoundTrip.{deserialize-serialize}
use veil_db.Wire.Oversized.{packet, update_v1, update_single, deserialize-oversized}
use veil_db.Wire.Bytes.{append_u32}
use veil_db.Wire.Overruns.{select_with, untagged_update, select_overrun, untagged_update_misread}

-- An update of document 7 with a body and an index.
abbrev an_update : EncDbRequest
an_update = record {
  client_id = 3;
  body = update_req (record {
    op = 1;
    flags = 1;
    doc_id = pos 7;
    doc_content = b'h' ∷ b'i' ∷ [];
    index_content = b'x' ∷ [];
  });
}

deserialize-serialize_example :
    deserialize_encdb_request (serialize_encdb_request an_update 3) ≡ ok an_update
deserialize-serialize_example =
    deserialize-serialize an_update 3 (omega arith)
      (omega arith, omega arith, omega arith, omega arith) (inl refl)

abbrev a_response : EncDbResponse
a_response = record {
  status = 0;
  answer = select_resp (record { id = negsuc 4; content = replicate max_doc_size 65 } ∷ []);
}

deserialize-serialize_response_example :
    deserialize_encdb_response (serialize_encdb_response a_response 3) ≡ ok a_response
deserialize-serialize_response_example =
    deserialize-serialize_response a_response 3 (omega arith)
      (omega arith, ((omega arith, length-replicate {A = ℕ} max_doc_size 65), tt))

deserialize-oversized_example :
    let sent = append_u32 5000 ++ b'h' ∷ [] in
    (deserialize_encdb_request (packet 3 1 9 (append_u32 17 ++ b'h' ∷ []))
      ≡ threw term_count_overflow)
    × (deserialize_encdb_request (packet 3 2 9 (update_v1 1 (pos 7) 1 sent))
        ≡ threw index_len_overflow)
    × (deserialize_encdb_request
          (packet 3 2 9 (update_v1 1 (pos 7) 1 (append_sized (b'x' ∷ []) ++ sent)))
        ≡ threw doc_len_overflow)
    × (deserialize_encdb_request (packet 3 2 9 (update_single 1 (pos 7) sent))
        ≡ threw doc_len_overflow)
deserialize-oversized_example =
    deserialize-oversized 3 9 1 1 17 5000 (pos 7) (b'x' ∷ []) (b'h' ∷ []) (omega arith)
      (omega arith) (omega arith) (omega arith) (omega arith) (omega arith) (omega arith)
      (omega arith) (omega arith)

select_overrun_example :
    let body = select_with ((b'a' ∷ []) ∷ []) 129 (1 ∷ 0 ∷ []) in
    read_request_body 1 (length body) body ≡ fault
select_overrun_example =
    select_overrun ((b'a' ∷ []) ∷ []) 129 (1 ∷ 0 ∷ []) (omega arith) (omega arith, tt) (omega arith)
      (omega arith)

untagged_update_misread_example :
    read_request_body 2 7 (untagged_update 1 (pos 7) (b'h' ∷ b'i' ∷ [])) ≡ threw doc_len_overflow
untagged_update_misread_example =
    untagged_update_misread 1 (pos 7) b'h' b'i' (omega arith) (omega arith) (omega arith)
