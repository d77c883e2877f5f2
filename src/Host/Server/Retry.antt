-- ===== src/Host/Server/Retry.antt =====
-- INIT of a new client, and the INIT after it.
use veil_db.Base.{
  ℕ, ◌≡◌, refl, ap, sym, subst, ◌∙◌, List, [], ◌∷◌, ◌++◌, Option, none, some, Bool, true, false,
  not, arith, ◌==◌, if◌then◌else◌,
}
use veil_db.Protocol.{InitRequest, init_req}
use veil_db.Host.Server.{
  Server, Ecall, schedule_context, generate_init_key, update_init, find_number, assign_number, call,
  finish, edb_register, init_context, init_client, handle_with, resume_mode,
}
use veil_db.Host.Server.Acquired.{if_both}

find_number-assign_number :
    (k j v : ℕ) (m : List (ℕ × ℕ))
    → find_number j (assign_number k v m) ≡ (if k == j then some v else find_number j m)
unfolding find_number assign_number
find_number-assign_number k j v [] = refl
find_number-assign_number k j v ((i, w) ∷ m) = ground (arith, find_number-assign_number k j v m)

by_answer :
    (b : Bool) (x y : Server) (calls : List (ℕ × Ecall))
    → x.calls ≡ calls
    → y.calls ≡ calls
    → let r : Bool × Server = if not b then (false, x) else (true, y) in
      (r.0 ≡ b) × (r.1.calls ≡ calls)
by_answer true x y calls h k = (refl, k)
by_answer false x y calls h k = (refl, h)

module _ (answer : List (ℕ × Ecall) → ℕ → Ecall → Bool) (on_disk : List (ℕ × Ecall) → ℕ → Bool)
    (client : ℕ) where
  -- Whatever the enclave answers, the client keeps its database.
  init_context-map :
      (i edb_id : ℕ) (is_new : Bool) (s : Server)
      → (init_context answer on_disk i client edb_id is_new s).1.edb_id_map ≡ s.edb_id_map
  unfolding init_context call finish
  init_context-map i edb_id is_new s =
      let Kept : Bool × Server → Type 0 = λ (b, s'). s'.edb_id_map ≡ s.edb_id_map in
      let (scheduled, s₁) = call answer on_disk i (schedule_context client edb_id is_new) s in
      let (drawn, s₂) = call answer on_disk i generate_init_key s₁ in
      let (provisioned, s₃) = call answer on_disk i (update_init edb_id) s₂ in
      if_both Kept (not scheduled) (finish i client false s₁) _ refl (
        if_both Kept (not is_new) (finish i client true s₁) _ refl (
          if_both Kept (not drawn) (finish i client false s₂) (finish i client provisioned s₃) refl
            refl))

  -- What an INIT of a client that has a database does.
  Scheduled : ℕ → ℕ → Server → Bool × Server → Type 0
  Scheduled i edb_id s (r, s') =
      (r ≡ answer s.calls i (schedule_context client edb_id false))
      × (s'.calls ≡ s.calls ++ (i, schedule_context client edb_id false) ∷ [])

  init_context-Scheduled :
      (i edb_id : ℕ) (s : Server)
      → Scheduled i edb_id s (init_context answer on_disk i client edb_id false s)
  unfolding Scheduled init_context call finish
  init_context-Scheduled i edb_id s =
      let (scheduled, s₁) = call answer on_disk i (schedule_context client edb_id false) s in
      by_answer scheduled (finish i client false s₁).1 (finish i client true s₁).1 s₁.calls refl
        refl

  -- init_client, by the entry of the client in the map.
  abbrev by_entry : ℕ → Server → Option ℕ → Bool × Server
  by_entry i s o = elim o [
    | some edb_id ↦ init_context answer on_disk i client edb_id false s
    | none ↦
        let (edb_id, s₁) = edb_register s in
        init_context answer on_disk i client edb_id true
          (record s₁ { edb_id_map = assign_number client edb_id s₁.edb_id_map })
  ]

  init_client-Scheduled :
      (i edb_id : ℕ) (s : Server)
      → find_number client s.edb_id_map ≡ some edb_id
      → Scheduled i edb_id s (init_client answer on_disk i client s)
  unfolding init_client
  init_client-Scheduled i edb_id s e =
      subst (λ o. Scheduled i edb_id s (by_entry i s o)) (sym e) (init_context-Scheduled i edb_id s)

  registered :
      (i : ℕ) (s : Server)
      → find_number client s.edb_id_map ≡ none
      → find_number client (init_client answer on_disk i client s).1.edb_id_map ≡ some s.next_db_id
  unfolding init_client edb_register
  registered i s e =
      let id : ℕ = s.next_db_id in
      subst (λ o. find_number client (by_entry i s o).1.edb_id_map ≡ some id) (sym e)
        (ap (find_number client) (init_context-map i id true _)
          ∙ ground (arith, find_number-assign_number client client id s.edb_id_map))

  -- An INIT with mode CREATE (or any other than RESUME) of a client that has no database, and
  -- another one of the same client after it, each in some enclave: whatever the first one ended in,
  -- the second one only asks for the context of the database that the first one has registered,
  -- without leave to create it, and its result is the answer to that. It draws no key and
  -- initialises nothing, even if the first one failed before its key was drawn or its dummy
  -- keywords and slots were stored.
  pub handle_with-again :
      (i j : ℕ) (init init' : InitRequest) (s : Server)
      → init.init_mode == resume_mode ≡ false
      → init'.init_mode == resume_mode ≡ false
      → find_number client s.edb_id_map ≡ none
      → let first : Bool × Server =
          handle_with answer on_disk i (record { client_id = client; body = init_req init }) s in
        let second : Bool × Server =
          handle_with answer on_disk j
            (record { client_id = client; body = init_req init' })
            first.1 in
        let asked : Ecall = schedule_context client s.next_db_id false in
        (second.0 ≡ answer first.1.calls j asked)
        × (second.1.calls ≡ first.1.calls ++ (j, asked) ∷ [])
  unfolding handle_with Scheduled
  handle_with-again i j init init' s fresh fresh' e =
      let first : Server = (init_client answer on_disk i client s).1 in
      rw (fresh, fresh') (init_client-Scheduled j s.next_db_id first (registered i s e))
