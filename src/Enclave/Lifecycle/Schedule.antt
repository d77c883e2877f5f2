-- ===== src/Enclave/Lifecycle/Schedule.antt =====
-- ecall_schedule_context, where nothing has to be evicted.
use veil_db.Base.{
  ℕ, suc, ◌≤◌, ◌≡◌, refl, sym, subst, List, [], ◌∷◌, length, Option, none, some, Bool, true, false,
  ap, Outcome, ok, bind, Ends, Ends-bind, arith, le→leb, ◌==◌, ◌&&◌, if◌then◌else◌,
}
use veil_db.Enclave.Sgx.{Sgx}
use veil_db.Enclave.Context.{make_fresh_context}
use veil_db.Enclave.Lifecycle.{
  Sealer, CachedContext, ContextManager, max_inactive, has_active_context, no_context, find_client,
  assign_client, erase_client, cache_active_context, evict_one_inactive_context_if_needed,
  open_context, ecall_schedule_context,
}

length-assign_client :
    (id : ℕ) (c : CachedContext) (m : List (ℕ × CachedContext))
    → length (assign_client id c m) ≤ suc (length m)
unfolding assign_client
length-assign_client id c [] = omega arith
length-assign_client id c ((i, d) ∷ m) = ground (arith, length-assign_client id c m)

find_client-assign_client :
    (id j : ℕ) (c : CachedContext) (m : List (ℕ × CachedContext))
    → find_client j (assign_client id c m) ≡ (if id == j then some c else find_client j m)
unfolding find_client assign_client
find_client-assign_client id j c [] = refl
find_client-assign_client id j c ((i, d) ∷ m) = ground (arith, find_client-assign_client id j c m)

find_client-erase_client :
    (id j : ℕ) (m : List (ℕ × CachedContext))
    → find_client j (erase_client id m) ≡ (if id == j then none else find_client j m)
unfolding find_client erase_client
find_client-erase_client id j [] = ground arith
find_client-erase_client id j ((i, d) ∷ m) = ground (arith, find_client-erase_client id j m)

module _ (sgx : Sgx) (sealer : Sealer) where
  abbrev Result : Type 0
  Result = Option (Unit {0}) × ContextManager

  not_early :
      (m : ContextManager) (id edb_id : ℕ)
      → m.ctx.client_id == id ≡ false
      → has_active_context m && (m.ctx.client_id == id) && (m.current_edb_id == edb_id) ≡ false
  not_early m id edb_id e = ground (arith, e)

  -- A client whose context is in the cache, once the active context has gone there.
  schedule-cached :
      (P : Result → Type 0) (id edb_id : ℕ) (create : Bool) (m s : ContextManager)
      (c : CachedContext)
      → m.ctx.client_id == id ≡ false
      → cache_active_context m ≡ s
      → length s.inactive_cache ≤ max_inactive
      → find_client id s.inactive_cache ≡ some c
      → P (
        some tt,
        record s {
          ctx = c.ctx;
          current_edb_id = c.edb_id;
          inactive_cache = erase_client id s.inactive_cache;
        },
      )
      → Ends false P (ecall_schedule_context sgx sealer id edb_id create m)
  unfolding ecall_schedule_context evict_one_inactive_context_if_needed
  schedule-cached P id edb_id create m s c e same few f h =
      rw (not_early m id edb_id e, same, le→leb (length s.inactive_cache) max_inactive few, f, Ends)
        h

  -- A client without one, which gets a fresh context.
  schedule-created :
      (P : Result → Type 0) (id edb_id : ℕ) (m s : ContextManager)
      → m.ctx.client_id == id ≡ false
      → cache_active_context m ≡ s
      → length s.inactive_cache ≤ max_inactive
      → find_client id s.inactive_cache ≡ none
      → P (some tt, record s { ctx = make_fresh_context id; current_edb_id = edb_id })
      → Ends false P (ecall_schedule_context sgx sealer id edb_id true m)
  unfolding ecall_schedule_context evict_one_inactive_context_if_needed open_context
  schedule-created P id edb_id m s e same few f h =
      rw (not_early m id edb_id e, same, le→leb (length s.inactive_cache) max_inactive few, f, Ends)
        h

  -- What cache_active_context leaves of a client.
  cached_client :
      (m : ContextManager)
      → m.ctx.client_id == 0 ≡ false
      → cache_active_context m ≡ record m {
        ctx = no_context;
        current_edb_id = 0;
        inactive_cache =
            assign_client m.ctx.client_id
              (record { ctx = m.ctx; edb_id = m.current_edb_id })
              m.inactive_cache;
      }
  unfolding cache_active_context has_active_context
  cached_client m e = rw e refl

  -- Another client is scheduled, with a fresh context where it has none, and then again the one
  -- whose context was active, with the results of both calls.
  abbrev pub there_and_back :
      ℕ
      → ℕ
      → ℕ
      → Bool
      → ContextManager
      → Outcome (Option (Unit {0}) × Option (Unit {0}) × ContextManager)
  there_and_back other other_edb edb_id create m =
      bind (ecall_schedule_context sgx sealer other other_edb true m) (λ (r₁, m₁).
        bind (ecall_schedule_context sgx sealer m.ctx.client_id edb_id create m₁)
          (λ (r₂, m₂). ok (r₁, r₂, m₂)))

  -- A client whose context is active (of a number that is not 0, as all of them are) comes back to
  -- it: while at most two contexts are inactive, another client of a number that is not 0 and that
  -- has no inactive context gets a fresh one, and then the first client is scheduled again, with
  -- whatever database and flag. Both calls return 0, the context is active again as it was, under
  -- the database it had and not the one asked for, and that of the other client is the inactive one
  -- under its own number.
  pub ecall_schedule_context-back :
      (m : ContextManager) (other other_edb edb_id : ℕ) (create : Bool)
      → m.ctx.client_id == 0 ≡ false
      → other == 0 ≡ false
      → m.ctx.client_id == other ≡ false
      → find_client other m.inactive_cache ≡ none
      → length m.inactive_cache ≤ 2
      → Ends false
          (λ (r₁, r₂, m').
            (r₁ ≡ some tt)
            × (r₂ ≡ some tt)
            × (m'.ctx ≡ m.ctx)
            × (m'.current_edb_id ≡ m.current_edb_id)
            × (find_client other m'.inactive_cache
                ≡ some (record { ctx = make_fresh_context other; edb_id = other_edb }))
            × (find_client m.ctx.client_id m'.inactive_cache ≡ none))
          (there_and_back other other_edb edb_id create m)
  unfolding make_fresh_context
  ecall_schedule_context-back m other other_edb edb_id create active named apart unknown few =
      let id : ℕ = m.ctx.client_id in
      let own : CachedContext = record { ctx = m.ctx; edb_id = m.current_edb_id } in
      let theirs : CachedContext = record { ctx = make_fresh_context other; edb_id = other_edb } in
      let first : List (ℕ × CachedContext) = assign_client id own m.inactive_cache in
      let second : List (ℕ × CachedContext) = assign_client other theirs first in
      let swapped : ContextManager = record m {
        ctx = make_fresh_context other;
        current_edb_id = other_edb;
        inactive_cache = first;
      } in
      let room : length first ≤ suc (length m.inactive_cache) =
        length-assign_client id own m.inactive_cache in
      let After : Result → Type 0 = λ (r, m').
        (r ≡ some tt)
        × (m'.ctx ≡ m.ctx)
        × (m'.current_edb_id ≡ m.current_edb_id)
        × (find_client other m'.inactive_cache ≡ some theirs)
        × (find_client id m'.inactive_cache ≡ none) in
      let here : find_client id second ≡ some own = ground (
        arith,
        apart,
        find_client-assign_client other id theirs first,
        find_client-assign_client id id own m.inactive_cache,
      ) in
      let Both : Option (Unit {0}) × Option (Unit {0}) × ContextManager → Type 0 = λ (r₁, r₂, m').
        (r₁ ≡ some tt)
        × (r₂ ≡ some tt)
        × (m'.ctx ≡ m.ctx)
        × (m'.current_edb_id ≡ m.current_edb_id)
        × (find_client other m'.inactive_cache ≡ some theirs)
        × (find_client id m'.inactive_cache ≡ none) in
      Ends-bind false (λ r. r ≡ (some tt, swapped)) Both
        (ecall_schedule_context sgx sealer other other_edb true m)
        (λ (r₁, m₁).
          bind (ecall_schedule_context sgx sealer id edb_id create m₁)
            (λ (r₂, m₂). ok (r₁, r₂, m₂)))
        (schedule-created (λ r. r ≡ (some tt, swapped)) other other_edb m
          (record m { ctx = no_context; current_edb_id = 0; inactive_cache = first }) apart
          (cached_client m active) (omega (arith, room, few))
          (ground (arith, apart, unknown, find_client-assign_client id other own m.inactive_cache))
          refl)
        (λ r e.
          Ends-bind false After Both (ecall_schedule_context sgx sealer id edb_id create r.1)
            (λ (r₂, m₂). ok (r.0, r₂, m₂))
            (subst (λ q. Ends false After (ecall_schedule_context sgx sealer id edb_id create q.1))
              (sym e)
              (schedule-cached After id edb_id create swapped
                (record m { ctx = no_context; current_edb_id = 0; inactive_cache = second }) own
                (ground (arith, apart)) (cached_client swapped named)
                (omega (arith, room, few, length-assign_client other theirs first)) here
                (
                  refl,
                  refl,
                  refl,
                  ground (
                    arith,
                    apart,
                    find_client-erase_client id other second,
                    find_client-assign_client other other theirs first,
                  ),
                  ground (arith, find_client-erase_client id id second),
                )))
            (λ (r₂, m₂) k. (ap (λ (q : Result). q.0) e, k.0, k.1, k.2, k.3, k.4)))
