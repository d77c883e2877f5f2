-- ===== src/Host/Server.antt =====
-- Server.cpp: the pool of enclaves, and handle_request_core, which passes a request to one of them.
-- The enclave is known here by the calls it gets and by whether it answers them with success.
pub mod Acquired
pub mod Release
pub mod Retry
use veil_db.Base.{
  ℕ, ◌+◌, ◌%◌, ◌^◌, List, [], ◌∷◌, ◌++◌, Option, none, some, Bool, true, false, not, ◌==◌, ◌&&◌,
  ◌||◌, if◌then◌else◌,
}
use veil_db.Protocol.{
  InitRequest, EncDbRequest, RequestBody, init_req, shutdown_req, select_req, update_req, other,
}

-- An EnclaveInstance is known by its number.
pub record EnclavePool : Type 0 where
  pub client_enclave_map : List (ℕ × ℕ)
  pub enclaves : List ℕ
  pub available_enclaves : List ℕ
  pub busy : ℕ → Bool
  pub last_client_id : ℕ → ℕ

-- The maps of the server by client.
unfoldable pub find_number : ℕ → List (ℕ × ℕ) → Option ℕ
find_number k [] = none
find_number k ((j, v) ∷ m) = if j == k then some v else find_number k m

unfoldable pub assign_number : ℕ → ℕ → List (ℕ × ℕ) → List (ℕ × ℕ)
assign_number k v [] = (k, v) ∷ []
assign_number k v ((j, w) ∷ m) = if j == k then (k, v) ∷ m else (j, w) ∷ assign_number k v m

abbrev pub set_busy : ℕ → Bool → EnclavePool → EnclavePool
set_busy i b p = record p { busy = λ j. if i == j then b else p.busy j }

-- EnclaveInstance::try_acquire; `none` is the result false.
unfoldable pub try_acquire : ℕ → EnclavePool → Option EnclavePool
try_acquire i p = if p.busy i then none else some (set_busy i true p)

unfoldable pub release : ℕ → ℕ → EnclavePool → EnclavePool
release i client p = record (set_busy i false p) {
  last_client_id = λ j. if i == j then client else p.last_client_id j;
}

-- The map of an instance that was acquired for a client that had none.
abbrev pub mapped : ℕ → ℕ → EnclavePool → EnclavePool
mapped client i p = record p { client_enclave_map = assign_number client i p.client_enclave_map }

-- The last loop of acquire. The result is the instance, or `none` for a null pointer.
unfoldable pub acquire_any : ℕ → List ℕ → EnclavePool → Option ℕ × EnclavePool
unfolding try_acquire assign_number
acquire_any client [] p = (none, p)
acquire_any client (i ∷ is) p =
    let rest = acquire_any client is p in
    elim (try_acquire i p) [ some q ↦ (some i, mapped client i q) | none ↦ rest ]

unfoldable pub acquire_free : ℕ → List ℕ → EnclavePool → Option ℕ × EnclavePool
unfolding acquire_any try_acquire assign_number
acquire_free client [] p = acquire_any client p.enclaves p
acquire_free client (i ∷ rest) p =
    let popped : EnclavePool = record p { available_enclaves = rest } in
    elim (try_acquire i popped) [
      | some q ↦ (some i, mapped client i q)
      | none ↦ acquire_any client popped.enclaves popped
    ]

-- The wait of acquire for the instance of a client: the pool that the other threads have left when it
-- ends, and whether the instance was seen free within five seconds.
pub record Wait : Type 0 where
  pub in_time : Bool
  pub left : EnclavePool

unfoldable pub acquire_own : Wait → ℕ → EnclavePool → Option ℕ × EnclavePool
unfolding try_acquire
acquire_own waited i p = elim (try_acquire i p) [
  | some q ↦ (some i, q)
  | none ↦ elim waited.in_time [
    | false ↦ (none, waited.left)
    | true ↦ elim (try_acquire i waited.left) [ some q ↦ (some i, q) | none ↦ (none, waited.left) ]
  ]
]

unfoldable pub acquire : Wait → ℕ → EnclavePool → Option ℕ × EnclavePool
unfolding acquire_own acquire_free find_number
acquire waited client p = elim (find_number client p.client_enclave_map) [
  | some i ↦ acquire_own waited i p
  | none ↦ acquire_free client p.available_enclaves p
]

-- The calls into an enclave.
pub data Ecall : Type 0 where
  schedule_context : ℕ → ℕ → Bool → Ecall
  generate_init_key : Ecall
  update_init persist_context : ℕ → Ecall
  handle_request : ℕ → EncDbRequest → Ecall

-- The server, with the databases of its EncDBManager that are open, and the next number for one.
-- `calls` are the calls so far.
pub record Server : Type 0 where
  pub pool : EnclavePool
  pub edb_id_map : List (ℕ × ℕ)
  pub is_open : ℕ → Bool
  pub next_db_id : ℕ
  pub calls : List (ℕ × Ecall)

abbrev pub resume_mode : ℕ
resume_mode = 1

-- A result, after the release of the enclave.
unfoldable pub finish : ℕ → ℕ → Bool → Server → Bool × Server
unfolding release
finish i client result s = (result, record s { pool = release i client s.pool })

-- EDB_Register, over register_edb
unfoldable pub edb_register : Server → ℕ × Server
edb_register s =
    let id : ℕ = s.next_db_id in
    (
      id,
      record s {
        is_open = λ j. if id == j then true else s.is_open j;
        next_db_id = (id + 1) % 2 ^ 32;
      },
    )

-- Whether a call succeeds, by the calls before it: SGX_SUCCESS, and 0 where it has a result.
-- And whether a database is on the disk (edb_exists_on_disk), which the calls before it have written.
module _ (answer : List (ℕ × Ecall) → ℕ → Ecall → Bool)
    (on_disk : List (ℕ × Ecall) → ℕ → Bool) where
  -- open_edb without create_if_missing; `none` is a null pointer.
  unfoldable pub open_edb : ℕ → Server → Option Server
  open_edb id s =
      if s.is_open id
      then some s
      else if on_disk s.calls id
      then some (record s { is_open = λ j. if id == j then true else s.is_open j })
      else none

  unfoldable pub call : ℕ → Ecall → Server → Bool × Server
  call i c s = (answer s.calls i c, record s { calls = s.calls ++ (i, c) ∷ [] })

  unfoldable pub flush_client_edb : ℕ → ℕ → Server → Bool × Server
  unfolding call find_number
  flush_client_edb i client s = elim (find_number client s.edb_id_map) [
    | none ↦ (false, s)
    | some edb_id ↦
        let (scheduled, s₁) = call i (schedule_context client edb_id false) s in
        if scheduled then call i (persist_context edb_id) s₁ else (false, s₁)
  ]

  -- The end of INIT, once the database is known.
  unfoldable pub init_context : ℕ → ℕ → ℕ → Bool → Server → Bool × Server
  unfolding call finish
  init_context i client edb_id is_new s =
      let (scheduled, s₁) = call i (schedule_context client edb_id is_new) s in
      let (keyed, s₂) = call i generate_init_key s₁ in
      let (provisioned, s₃) = call i (update_init edb_id) s₂ in
      if not scheduled
      then finish i client false s₁
      else if not is_new
      then finish i client true s₁
      else if not keyed
      then finish i client false s₂
      else finish i client provisioned s₃

  unfoldable pub init_resume : ℕ → ℕ → ℕ → Server → Bool × Server
  unfolding open_edb init_context finish assign_number
  init_resume i client target s =
      if target == 0
      then finish i client false s
      else if not (on_disk s.calls target)
      then finish i client false s
      else elim (open_edb target s) [
        | none ↦ finish i client false s
        | some opened ↦
            init_context i client target false
              (record opened { edb_id_map = assign_number client target opened.edb_id_map })
      ]

  unfoldable pub init_client : ℕ → ℕ → Server → Bool × Server
  unfolding edb_register init_context find_number assign_number
  init_client i client s = elim (find_number client s.edb_id_map) [
    | some edb_id ↦ init_context i client edb_id false s
    | none ↦
        let (edb_id, s₁) = edb_register s in
        init_context i client edb_id true
          (record s₁ { edb_id_map = assign_number client edb_id s₁.edb_id_map })
  ]

  -- SELECT, UPDATE, and any other type.
  unfoldable pub pass_request : ℕ → EncDbRequest → Server → Bool × Server
  unfolding call finish find_number
  pass_request i req s = elim (find_number req.client_id s.edb_id_map) [
    | none ↦ finish i req.client_id false s
    | some edb_id ↦
        let (scheduled, s₁) = call i (schedule_context req.client_id edb_id false) s in
        let (handled, s₂) = call i (handle_request edb_id req) s₁ in
        if scheduled then finish i req.client_id handled s₂ else finish i req.client_id false s₁
  ]

  unfoldable pub handle_with : ℕ → EncDbRequest → Server → Bool × Server
  unfolding init_resume init_client flush_client_edb pass_request finish
  handle_with i req s = elim req.body [
    | init_req init ↦
        if init.init_mode == resume_mode
        then init_resume i req.client_id init.target_edb_id s
        else init_client i req.client_id s
    | shutdown_req edb_id ↦
        let (flushed, s₁) = flush_client_edb i req.client_id s in finish i req.client_id flushed s₁
    | _ ↦ pass_request i req s
  ]

  unfoldable pub handle_request_core : Wait → EncDbRequest → Server → Bool × Server
  unfolding acquire handle_with
  handle_request_core waited req s =
      let (acquired, pool) = acquire waited req.client_id s.pool in
      elim acquired [
        | none ↦ (false, record s { pool = pool })
        | some i ↦ handle_with i req (record s { pool = pool })
      ]
