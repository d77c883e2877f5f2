-- ===== src/Host/Server/Release.antt =====
-- Server.cpp: which enclaves are busy before and after handle_request_core.
use veil_db.Base.{
  ℕ, ◌≡◌, refl, ap, ◌∙◌, List, Option, none, some, Bool, true, false, not, arith, ◌==◌,
  if◌then◌else◌,
}
use veil_db.Protocol.{
  EncDbRequest, RequestBody, init_req, shutdown_req, select_req, update_req, other,
}
use veil_db.Host.Server.{
  EnclavePool, Wait, Server, Ecall, schedule_context, generate_init_key, update_init,
  handle_request, persist_context, release, acquire, find_number, assign_number, finish, call,
  flush_client_edb, open_edb, edb_register, init_context, init_resume, init_client, pass_request,
  handle_with, handle_request_core, resume_mode,
}
use veil_db.Host.Server.Acquired.{if_both, option_both, Seen, Acquired, acquire-Acquired}

module _ (answer : List (ℕ × Ecall) → ℕ → Ecall → Bool) (on_disk : List (ℕ × Ecall) → ℕ → Bool)
    (i client : ℕ) (p : EnclavePool) where
  -- The instance is given back, and nothing else has changed in the pool.
  record Back (r : Bool × Server) : Type 0 where
    pub given : r.1.pool ≡ release i client p

  finish-Back : (b : Bool) (s : Server) → s.pool ≡ p → Back (finish i client b s)
  unfolding finish
  finish-Back b s h = record { given = ap (release i client) h }

  init_context-Back :
      (edb_id : ℕ) (is_new : Bool) (s : Server)
      → s.pool ≡ p
      → Back (init_context answer on_disk i client edb_id is_new s)
  unfolding init_context call
  init_context-Back edb_id is_new s h =
      let (scheduled, s₁) = call answer on_disk i (schedule_context client edb_id is_new) s in
      let (drawn, s₂) = call answer on_disk i generate_init_key s₁ in
      let (provisioned, s₃) = call answer on_disk i (update_init edb_id) s₂ in
      if_both Back (not scheduled) (finish i client false s₁) _ (finish-Back false s₁ h) (
        if_both Back (not is_new) (finish i client true s₁) _ (finish-Back true s₁ h) (
          if_both Back (not drawn) (finish i client false s₂) (finish i client provisioned s₃)
            (finish-Back false s₂ h) (finish-Back provisioned s₃ h)))

  open_edb-pool :
      (target : ℕ) (s : Server)
      → s.pool ≡ p
      → Back (elim (open_edb answer on_disk target s) as (λ _. Bool × Server) [
        | none ↦ finish i client false s
        | some opened ↦
            init_context answer on_disk i client target false
              (record opened { edb_id_map = assign_number client target opened.edb_id_map })
      ])
  unfolding open_edb
  open_edb-pool target s h =
      let go : Option Server → Bool × Server = λ o. elim o as (λ _. Bool × Server) [
        | none ↦ finish i client false s
        | some opened ↦
            init_context answer on_disk i client target false
              (record opened { edb_id_map = assign_number client target opened.edb_id_map })
      ] in
      if_both (λ o. Back (go o)) (s.is_open target) (some s) _ (init_context-Back target false _ h)
        (if_both (λ o. Back (go o)) (on_disk s.calls target) _ none
          (init_context-Back target false _ h) (finish-Back _ _ h))

  init_resume-Back :
      (target : ℕ) (s : Server) → s.pool ≡ p → Back (init_resume answer on_disk i client target s)
  unfolding init_resume
  init_resume-Back target s h =
      if_both Back (target == 0) (finish i client false s) _ (finish-Back false s h) (
        if_both Back (not (on_disk s.calls target)) (finish i client false s) _
          (finish-Back false s h) (open_edb-pool target s h))

  init_client-Back : (s : Server) → s.pool ≡ p → Back (init_client answer on_disk i client s)
  unfolding init_client edb_register
  init_client-Back s h =
      option_both Back (find_number client s.edb_id_map) _
        (λ edb_id. init_context answer on_disk i client edb_id false s)
        (init_context-Back s.next_db_id true _ h) (λ edb_id. init_context-Back edb_id false s h)

  flush-Back : (s : Server) → s.pool ≡ p → (flush_client_edb answer on_disk i client s).1.pool ≡ p
  unfolding flush_client_edb call
  flush-Back s h =
      let Kept : Bool × Server → Type 0 = λ (b, s'). s'.pool ≡ p in
      option_both Kept (find_number client s.edb_id_map) (false, s)
        (λ edb_id.
          let (scheduled, s₁) = call answer on_disk i (schedule_context client edb_id false) s in
          if scheduled then call answer on_disk i (persist_context edb_id) s₁ else (false, s₁))
        h
        (λ edb_id.
          let (scheduled, s₁) = call answer on_disk i (schedule_context client edb_id false) s in
          if_both Kept scheduled (call answer on_disk i (persist_context edb_id) s₁) (false, s₁) h
            h)

module _ (answer : List (ℕ × Ecall) → ℕ → Ecall → Bool) (on_disk : List (ℕ × Ecall) → ℕ → Bool)
    (i : ℕ) (p : EnclavePool) where
  pass_request-Back :
      (req : EncDbRequest) (s : Server)
      → s.pool ≡ p
      → Back answer on_disk i req.client_id p (pass_request answer on_disk i req s)
  unfolding pass_request call
  pass_request-Back req s h =
      let client : ℕ = req.client_id in
      let B : Bool × Server → Type 0 = Back answer on_disk i client p in
      let back : (b : Bool) (s' : Server) → s'.pool ≡ p → B (finish i client b s') =
        finish-Back answer on_disk i client p in
      option_both B (find_number client s.edb_id_map) (finish i client false s)
        (λ edb_id.
          let (scheduled, s₁) = call answer on_disk i (schedule_context client edb_id false) s in
          let (handled, s₂) = call answer on_disk i (handle_request edb_id req) s₁ in
          if scheduled then finish i client handled s₂ else finish i client false s₁)
        (back false s h)
        (λ edb_id.
          let (scheduled, s₁) = call answer on_disk i (schedule_context client edb_id false) s in
          let (handled, s₂) = call answer on_disk i (handle_request edb_id req) s₁ in
          if_both B scheduled (finish i client handled s₂) (finish i client false s₁)
            (back handled s₂ h) (back false s₁ h))

  handle_with-Back :
      (client : ℕ) (body : RequestBody) (s : Server)
      → s.pool ≡ p
      → Back answer on_disk i client p
          (handle_with answer on_disk i (record { client_id = client; body = body }) s)
  unfolding handle_with
  handle_with-Back client (init_req init) s h =
      if_both (Back answer on_disk i client p) (init.init_mode == resume_mode) _ _
        (init_resume-Back answer on_disk i client p init.target_edb_id s h)
        (init_client-Back answer on_disk i client p s h)
  handle_with-Back client (shutdown_req e) s h =
      finish-Back answer on_disk i client p _ _ (flush-Back answer on_disk i client p s h)
  handle_with-Back client (select_req r) s h = pass_request-Back _ s h
  handle_with-Back client (update_req r) s h = pass_request-Back _ s h
  handle_with-Back client (other tag) s h = pass_request-Back _ s h

module _ (answer : List (ℕ × Ecall) → ℕ → Ecall → Bool)
    (on_disk : List (ℕ × Ecall) → ℕ → Bool) where
  freed :
      (i j : ℕ) (after : Bool) (busy : ℕ → Bool)
      → busy i ≡ false
      → after ≡ (if i == j then true else busy j)
      → (if i == j then false else after) ≡ busy j
  freed i j after busy e f = ground (arith, e, f)

  given_back :
      (waited : Wait) (p : EnclavePool) (client : ℕ) (body : RequestBody) (s : Server)
      (r : Option ℕ × EnclavePool)
      → Acquired waited p r
      → (q : EnclavePool) × Seen waited p q
        × ((j : ℕ)
            → (elim r.0 as (λ _. Bool × Server) [
              | none ↦ (false, record s { pool = r.1 })
              | some i ↦
                  handle_with answer on_disk i
                    (record { client_id = client; body = body })
                    (record s { pool = r.1 })
            ]).1.pool.busy
                j
              ≡ q.busy j)
  unfolding release
  given_back waited p client body s (none, p') (q, seen, h) = (q, seen, h)
  given_back waited p client body s (some i, p') (q, seen, (free, taken)) = (
    q,
    seen,
    λ j.
        ap (λ (o : EnclavePool). o.busy j)
          (handle_with-Back answer on_disk i p' client body (record s { pool = p' }) refl).given
        ∙ freed i j (p'.busy j) q.busy free (taken j),
  )

  -- However the calls into the enclave end and whatever is on the disk: when handle_request_core
  -- returns, on each of its ways, the same enclaves are busy as before the call, or, where it has
  -- waited for the enclave of the client, as after the wait. So no request keeps an enclave.
  pub handle_request_core-released :
      (waited : Wait) (req : EncDbRequest) (s : Server)
      → (q : EnclavePool) × Seen waited s.pool q
        × ((j : ℕ) → (handle_request_core answer on_disk waited req s).1.pool.busy j ≡ q.busy j)
  unfolding handle_request_core
  handle_request_core-released waited req s =
      given_back waited s.pool req.client_id req.body s (acquire waited req.client_id s.pool)
        (acquire-Acquired waited req.client_id s.pool)
