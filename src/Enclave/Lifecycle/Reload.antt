-- ===== src/Enclave/Lifecycle/Reload.antt =====
-- A context that persist_active_context_to_storage has stored, and that
-- load_active_context_from_storage makes the active one again.
use veil_db.Base.{
  ℕ, ◌+◌, ◌≤◌, ◌≡◌, refl, ap, sym, ◌∙◌, List, [], ◌∷◌, length, none, some, Bool, not, true, false,
  Option-cases, Bool-cases, inl, inr, ok, Ends, Ends-bind, Ends-mono, All, arith, ltb, ◌==◌, le→leb,
  same_text_iff, if◌then◌else◌,
}
use veil_db.Base.Assoc.{Assoc, find, assign, keys, find-assign, Distinct, NotIn}
use veil_db.Enclave.Bitset.{Bitset}
use veil_db.Enclave.Sgx.{Sgx}
use veil_db.Enclave.Context.{CachedDocSlot, ClientContext, Enclave}
use veil_db.Enclave.Keywords.{
  bitmap_label, is_some, spill_words, spill_entries, store_bitmap_batch, cache_bitmap,
}
use veil_db.Enclave.Keywords.Draws.{All-keys}
use veil_db.Enclave.Keywords.Index.{Apart, Indexes, store_bitmap_batch-Indexes}
use veil_db.Enclave.Keywords.Search.{Ends-may, Index-cached, load_bitmap_from_storage-Index}
use veil_db.Enclave.Docs.{doc_label}
use veil_db.Enclave.Docs.Slots.{IsSlotId, Holds}
use veil_db.Enclave.Docs.Aside.{Holds-parts, store_bitmap_batch-Keeping}
use veil_db.Enclave.Request.Documents.{Indexes-kept, Stands}
use veil_db.Enclave.Retrieve.{has_id}
use veil_db.Enclave.Snapshot.{serialize_context_metadata}
use veil_db.Enclave.Snapshot.RoundTrip.{FitsSnapshot, deserialize-serialize_context_metadata}
use veil_db.Enclave.Lifecycle.{
  Sealer, seal_context_metadata, unseal_context_metadata, persist_slots, persist_active,
  cache_words, load_snapshot, snapshot_room, load_context,
}
use veil_db.Enclave.Lifecycle.Flush.{find-keys, all_spilled, persist_slots-State}
use veil_db.Host.Storage.{store_bitmap}

-- The context that is sealed, and what comes back of it.
abbrev pub flushed : Sgx → ClientContext → ClientContext
flushed sgx c = spill_words sgx (keys c.ck) c

abbrev pub restored : ClientContext → ClientContext
restored c = record c { ck = []; doc_ck = []; words_kvs = keys c.kvs }

-- Entries of KVS, and nothing in the cache.
abbrev Listed : Assoc ℕ → Enclave → Type 0
Listed m s = All (λ (w, v). (find w s.ctx.kvs ≡ some v) × (find w s.ctx.ck ≡ none)) m

Found : Assoc ℕ → Assoc ℕ → Type 0
Found kvs = All (λ (w, v). find w kvs ≡ some v)

Found-cons :
    (j : List ℕ) (u : ℕ) (kvs m : Assoc ℕ) → NotIn j (keys m) → Found kvs m → Found ((j, u) ∷ kvs) m
unfolding Found find keys
Found-cons j u kvs [] n h = tt
Found-cons j u kvs ((w, v) ∷ m) n h =
    (ground (arith, h.0, same_text_iff j w, same_text_iff w j, n.0), Found-cons j u kvs m n.1 h.1)

Found-self : (m : Assoc ℕ) → Distinct (keys m) → Found m m
unfolding Found find keys
Found-self [] d = tt
Found-self ((j, u) ∷ m) d =
    (ground (arith, same_text_iff j j), Found-cons j u m m d.0 (Found-self m d.1))

Listed-uncached :
    (m kvs : Assoc ℕ) (s : Enclave) → s.ctx.kvs ≡ kvs → s.ctx.ck ≡ [] → Found kvs m → Listed m s
unfolding Found
Listed-uncached [] kvs s e f h = tt
Listed-uncached ((w, v) ∷ m) kvs s e f h =
    ((ap (find w) e ∙ h.0, ap (find w) f ∙ (unfold find in refl)), Listed-uncached m kvs s e f h.1)

none_left :
    {V : Type 0} (m : Assoc V) (id : List ℕ)
    → (if has_id (keys m) id then none else find id m) ≡ none
none_left m id = elim (Bool-cases (has_id (keys m) id)) [
  | inl e ↦ rw e refl
  | inr e ↦ rw e (find-keys m id e)
]

module _ (sgx : Sgx) (key : List ℕ) (IsClear IsBlank : List ℕ → Type 0)
    (apart : Apart sgx key IsClear IsBlank)
    (doc_apart : (a b : List ℕ)
      → IsSlotId a
      → IsSlotId b
      → doc_label sgx key a ≡ doc_label sgx key b
      → a ≡ b)
    (postings : List ℕ → Bitset) (all : Bitset) (docs : List ℕ → CachedDocSlot) where
  abbrev Index : Enclave → Type 0
  Index = Indexes sgx key IsClear IsBlank apart postings all

  abbrev State : Enclave → Type 0
  State = Stands sgx key IsClear IsBlank apart doc_apart postings all docs

  abbrev index_kept :
      (s : Enclave) (doc_ck : Assoc CachedDocSlot) (versions : ℕ → ℕ) (ds : Assoc (List ℕ))
      (random : ℕ → ℕ)
      → Index s
      → Index (record s {
        ctx = record s.ctx { doc_ck = doc_ck; doc_slot_version = versions };
        edb = record s.edb { docs = ds };
        random = random;
      })
  index_kept = Indexes-kept sgx key IsClear IsBlank apart postings all

  -- One word more in the cache.
  cached-State :
      (w : List ℕ) (v : ℕ) (s : Enclave)
      → find w s.ctx.kvs ≡ some v
      → State s
      → State (record s { ctx = record s.ctx { ck = assign w (postings w) s.ctx.ck } })
  cached-State w v s e h =
      Holds-parts sgx key doc_apart Index Index index_kept index_kept docs s _ h refl
        (Index-cached sgx key IsClear IsBlank apart postings all w v s e h.aside)

  Listed-cached :
      (w : List ℕ) (bm : Bitset) (m : Assoc ℕ) (s : Enclave)
      → NotIn w (keys m)
      → Listed m s
      → Listed m (record s { ctx = record s.ctx { ck = assign w bm s.ctx.ck } })
  unfolding keys
  Listed-cached w bm [] s n h = tt
  Listed-cached w bm ((u, v) ∷ m) s n h = (
    (
      h.0.0,
      ground (arith, find-assign w u bm s.ctx.ck, h.0.1, same_text_iff w u, same_text_iff u w, n.0),
    ),
    Listed-cached w bm m s n.1 h.1,
  )

  cache_words-State :
      (m : Assoc ℕ) (s : Enclave)
      → Distinct (keys m)
      → Listed m s
      → State s
      → Ends false (λ (u, s'). State s') (cache_words sgx m s)
  unfolding cache_words cache_bitmap keys
  cache_words-State [] s d l h = h
  cache_words-State ((w, v) ∷ m) s d l h =
      let s' : Enclave = record s { ctx = record s.ctx { ck = assign w (postings w) s.ctx.ck } } in
      let h' : State s' = cached-State w v s l.0.0 h in
      rw
        (
          load_bitmap_from_storage-Index sgx key IsClear IsBlank apart postings all w v s l.0.0
              l.0.1 h.aside,
          Ends,
        )
        (elim (Bool-cases (length s'.ctx.ck == s'.ctx.ck_max)) [
          | inl e ↦ rw (e, Ends) h'
          | inr e ↦
              rw (e, Ends)
                (cache_words-State m s' d.1 (Listed-cached w (postings w) m s d.0 l.1) h')
        ])

  -- What load_active_context_from_storage starts its loop from.
  abbrev Reopened : ClientContext → Enclave → Enclave
  Reopened c s = record s { ctx = restored c }

  -- The index of the flushed state, with an empty cache.
  uncached-Index :
      (c : ClientContext) (s s' : Enclave)
      → s.ctx ≡ c
      → ((w : List ℕ) → find w c.ck ≡ none)
      → s'.edb.bitmaps ≡ s.edb.bitmaps
      → Index s
      → Index (Reopened c s')
  unfolding find keys
  uncached-Index c s s' e gone same h = record {
    occupied = ap (λ (d : ClientContext). d.all_docs) (sym e) ∙ h.occupied;
    keyed = ap (λ (d : ClientContext). d.key) (sym e) ∙ h.keyed;
    cached = λ w bm f. absurd (ground (arith, f));
    versioned = λ w bm f. absurd (ground (arith, f));
    stored = λ w v f g.
        ap (find (bitmap_label sgx key w v)) same
        ∙ h.stored w v (ap (λ (d : ClientContext). find w d.kvs) e ∙ f)
            (ap (λ (d : ClientContext). find w d.ck) e ∙ gone w);
    absent = λ w f. h.absent w (ap (λ (d : ClientContext). find w d.kvs) e ∙ f);
    clear = λ w f. h.clear w (ap (λ (d : ClientContext). is_some (find w d.kvs)) e ∙ f);
    blank = h.blank;
    distinct = tt;
    sized = h.sized;
  }

  uncached-State :
      (Aside : Enclave → Type 0)
      (aside-kept : (s : Enclave) (doc_ck : Assoc CachedDocSlot) (versions : ℕ → ℕ)
          (ds : Assoc (List ℕ)) (random : ℕ → ℕ)
        → Aside s
        → Aside (record s {
          ctx = record s.ctx { doc_ck = doc_ck; doc_slot_version = versions };
          edb = record s.edb { docs = ds };
          random = random;
        }))
      (c : ClientContext) (s' : Enclave)
      → ((id : List ℕ) → find id s'.ctx.doc_ck ≡ none)
      → Holds sgx key doc_apart Aside aside-kept docs s'
      → Index (Reopened c s')
      → State (Reopened c s')
  unfolding find
  uncached-State Aside aside-kept c s' gone h index = record {
    keyed = index.keyed;
    known = λ id slot f. absurd (ground (arith, f));
    cached = λ id slot f. absurd (ground (arith, f));
    stored = λ id is f. h.stored id is (gone id);
    fitting = h.fitting;
    aside = index;
  }

  -- The flushed state has its index on the host, and its slots as they were.
  persist_slots-Reopened :
      (s : Enclave)
      → State s
      → let c : ClientContext = flushed sgx s.ctx in
        Ends false
          (λ (u, s'). State (Reopened c s'))
          (persist_slots sgx (keys c.doc_ck) (record s {
            ctx = c;
            edb = store_bitmap (spill_entries sgx (keys s.ctx.ck) s.ctx) s.edb;
          }))
  unfolding store_bitmap_batch
  persist_slots-Reopened s h =
      let c : ClientContext = flushed sgx s.ctx in
      let f : Enclave = record s {
        ctx = c;
        edb = store_bitmap (spill_entries sgx (keys s.ctx.ck) s.ctx) s.edb;
      } in
      let index : Index f =
        store_bitmap_batch-Indexes sgx key IsClear IsBlank apart postings all (keys s.ctx.ck) s
          h.aside.distinct (All-keys s.ctx.ck) h.aside in
      Ends-mono false _ _ (persist_slots sgx (keys c.doc_ck) f)
        (persist_slots-State sgx key doc_apart (λ s'. s'.edb.bitmaps ≡ f.edb.bitmaps)
          (λ s' doc_ck versions ds random e. e) docs (keys c.doc_ck) f
          (Holds-parts sgx key doc_apart Index (λ s'. s'.edb.bitmaps ≡ f.edb.bitmaps) index_kept
            (λ s' doc_ck versions ds random e. e) docs s f h
            (store_bitmap_batch-Keeping sgx (keys s.ctx.ck) s) refl))
        (λ (u, s') (h', gone).
          uncached-State (λ s''. s''.edb.bitmaps ≡ f.edb.bitmaps)
            (λ s'' doc_ck versions ds random e. e) c s' (λ id. gone id ∙ none_left c.doc_ck id) h'
            (uncached-Index c f s' refl (all_spilled sgx s.ctx) h'.aside index))

  module _ (sealer : Sealer) where
    -- The snapshot is that of the flushed context, which the host's data belong to.
    abbrev Sealed : Enclave → List ℕ × Enclave → Type 0
    Sealed s (sealed, s') =
        (sealer.seal (serialize_context_metadata (flushed sgx s.ctx)) ≡ some sealed)
        × State (Reopened (flushed sgx s.ctx) s')

    pub persist_active-Sealed :
        (s : Enclave)
        → State s
        → Ends
            (not (is_some (sealer.seal (serialize_context_metadata (flushed sgx s.ctx)))))
            (Sealed s)
            (persist_active sgx sealer s)
    unfolding persist_active store_bitmap_batch seal_context_metadata
    persist_active-Sealed s h =
        let c : ClientContext = flushed sgx s.ctx in
        let f : Enclave = record s {
          ctx = c;
          edb = store_bitmap (spill_entries sgx (keys s.ctx.ck) s.ctx) s.edb;
        } in
        let may : Bool = not (is_some (sealer.seal (serialize_context_metadata c))) in
        elim (Option-cases (sealer.seal (serialize_context_metadata c))) [
          | inl e ↦ rw (e, Ends) (ap (λ q. not (is_some q)) e)
          | inr (sealed, e) ↦
              rw (e, Ends)
                (Ends-bind may (λ (u, s'). State (Reopened c s')) (Sealed s)
                  (persist_slots sgx (keys c.doc_ck) f) (λ (u, s'). ok (sealed, s'))
                  (Ends-may may _ (persist_slots sgx (keys c.doc_ck) f)
                    (persist_slots-Reopened s h))
                  (λ (u, s') k. (e, k)))
        ]

    module _ (c : ClientContext) (sealed : List ℕ)
        (e : sealer.seal (serialize_context_metadata c) ≡ some sealed) (fits : FitsSnapshot c)
        (room : sealer.header + length (serialize_context_metadata c) ≤ snapshot_room) where
      load_snapshot-sealed : load_snapshot sealed ≡ sealed
      unfolding load_snapshot
      load_snapshot-sealed =
          rw
            (le→leb (length sealed) snapshot_room
              (omega (arith, sealer.length-seal (serialize_context_metadata c) sealed e, room)))
            refl

      unseal-sealed : unseal_context_metadata sgx sealer sealed ≡ some (restored c)
      unfolding unseal_context_metadata
      unseal-sealed =
          let long : ltb (length sealed) sealer.header ≡ false =
            ground (arith, sealer.length-seal (serialize_context_metadata c) sealed e) in
          rw (long, sealer.unseal-seal (serialize_context_metadata c) sealed e)
            (deserialize-serialize_context_metadata c fits)

      pub load_context-State :
          (s : Enclave) (other : ClientContext)
          → State (Reopened c s)
          → Ends false
              (λ (loaded, s'). (loaded ≡ true) × State s')
              (load_context sgx sealer (load_snapshot sealed) (record s { ctx = other }))
      unfolding load_context
      load_context-State s other h =
          let some_bytes : length sealed == 0 ≡ false = ground (
            arith,
            sealer.length-seal (serialize_context_metadata c) sealed e,
            sealer.header-some,
          ) in
          rw (load_snapshot-sealed, some_bytes, unseal-sealed, Ends)
            (Ends-bind false (λ (u, s'). State s') _ (cache_words sgx c.kvs (Reopened c s))
              (λ (u, s'). ok (true, s'))
              (cache_words-State c.kvs (Reopened c s) fits.distinct
                (Listed-uncached c.kvs c.kvs (Reopened c s) refl refl
                  (Found-self c.kvs fits.distinct))
                h)
              (λ (u, s') k. (refl, k)))
