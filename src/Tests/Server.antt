-- ===== src/Tests/Server.antt =====
-- The server with two enclaves, of which one is busy, and an enclave that draws no key.
use veil_db.Base.{ℕ, ◌≡◌, refl, List, [], ◌∷◌, ◌++◌, Bool, true, false, ◌==◌}
use veil_db.Protocol.{InitRequest, EncDbRequest, init_req}
use veil_db.Host.Server.{
  EnclavePool, Wait, Server, Ecall, schedule_context, generate_init_key, update_init,
  persist_context, handle_request, handle_with, handle_request_core, find_number,
}
use veil_db.Host.Server.Release.{handle_request_core-released}
use veil_db.Host.Server.Acquired.{Seen}
use veil_db.Host.Server.Retry.{handle_with-again}

no_key : List (ℕ × Ecall) → ℕ → Ecall → Bool
no_key calls i (schedule_context c e b) = true
no_key calls i generate_init_key = false
no_key calls i (update_init e) = true
no_key calls i (persist_context e) = true
no_key calls i (handle_request e r) = true

no_files : List (ℕ × Ecall) → ℕ → Bool
no_files calls id = false

abbrev two_enclaves : EnclavePool
two_enclaves = record {
  client_enclave_map = [];
  enclaves = 10 ∷ 11 ∷ [];
  available_enclaves = 10 ∷ 11 ∷ [];
  busy = λ i. i == 10;
  last_client_id = λ i. 0;
}

abbrev a_server : Server
a_server = record {
  pool = two_enclaves;
  edb_id_map = [];
  is_open = λ id. false;
  next_db_id = 1;
  calls = [];
}

abbrev create : InitRequest
create = record { key = []; init_mode = 0; target_edb_id = 0 }

abbrev a_request : EncDbRequest
a_request = record { client_id = 3; body = init_req create }

-- The enclave of the client does not become free in time.
abbrev a_wait : Wait
a_wait = record { in_time = false; left = two_enclaves }

handle_request_core-released_example :
    (q : EnclavePool) × Seen a_wait two_enclaves q
    × ((j : ℕ)
        → (handle_request_core no_key no_files a_wait a_request a_server).1.pool.busy j ≡ q.busy j)
handle_request_core-released_example =
    handle_request_core-released no_key no_files a_wait a_request a_server

handle_with-again_example :
    let first : Bool × Server = handle_with no_key no_files 11 a_request a_server in
    let second : Bool × Server = handle_with no_key no_files 11 a_request first.1 in
    let asked : Ecall = schedule_context 3 1 false in
    (second.0 ≡ no_key first.1.calls 11 asked)
    × (second.1.calls ≡ first.1.calls ++ (11, asked) ∷ [])
unfolding find_number
handle_with-again_example =
    handle_with-again no_key no_files 3 11 11 create create a_server refl refl refl
