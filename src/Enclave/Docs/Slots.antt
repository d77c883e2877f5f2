-- ===== src/Enclave/Docs/Slots.antt =====
-- What the document slots stand for: an index and a body for each id, spread over the cache and the
-- host's store.
use veil_db.Base.{
  ℕ, zero, suc, ◌+◌, ◌%◌, ◌≤◌, ◌<◌, ◌≡◌, refl, ap, ◌∙◌, subst, List, [], ◌∷◌, length, get_elem?,
  map, none, some, true, lt→ltb, le→leb, if◌then◌else◌, Bool-cases, inl, inr, ok, arith, same_text,
  same_text_iff, All,
}
use veil_db.Base.Assoc.{Assoc, find, assign, erase, keys, find-assign, find-erase}
use veil_db.Base.Decimal.{to_string, atoi, atoi-to_string}
use veil_db.Enclave.Bitset.{total_file_no}
use veil_db.Enclave.Sgx.{Sgx}
use veil_db.Enclave.Context.{CachedDocSlot, Enclave}
use veil_db.Host.Storage.{load_docs, store_docs}
use veil_db.Enclave.Docs.{slot_place, doc_label, all_fit, ocall_load_docs}
use veil_db.Enclave.Docs.Sealing.{Fits, Opens}

-- The ids of the slots: the texts of the numbers from 1 to total_file_no.
abbrev pub IsSlotId : List ℕ → Type 0
IsSlotId id = (n : ℕ) × (id ≡ to_string n) × (0 < n) × (n ≤ total_file_no)

total_file_no-few : 2 ≤ total_file_no
unfolding total_file_no
total_file_no-few = omega arith

-- What is drawn is the id of a slot, and so are 1 and 2.
pub drawn-IsSlotId : (r : ℕ) → IsSlotId (to_string (r % total_file_no + 1))
drawn-IsSlotId r = (r % total_file_no + 1, refl, omega arith, omega (arith, total_file_no-few))

pub one-IsSlotId : IsSlotId (b'1' ∷ [])
unfolding to_string
one-IsSlotId = (1, refl, omega arith, omega (arith, total_file_no-few))

pub two-IsSlotId : IsSlotId (b'2' ∷ [])
unfolding to_string
two-IsSlotId = (2, refl, omega arith, omega (arith, total_file_no-few))

slot_place-some :
    (n : ℕ) → 0 < n → n ≤ total_file_no → (i : ℕ) × (slot_place (atoi (to_string n)) ≡ some i)
unfolding slot_place
slot_place-some zero h k = absurd (omega (arith, h))
slot_place-some (suc i) h k = (
  i,
  ap slot_place (atoi-to_string (suc i)) ∙ rw (lt→ltb i total_file_no (omega (arith, k))) refl,
)

pub slot_place-IsSlotId : (id : List ℕ) → IsSlotId id → (i : ℕ) × (slot_place (atoi id) ≡ some i)
slot_place-IsSlotId id (n, same, h, k) =
    let (i, e) = slot_place-some n h k in (i, ap (λ t. slot_place (atoi t)) same ∙ e)

pub length-erase :
    (k : List ℕ) (v : CachedDocSlot) (m : Assoc CachedDocSlot)
    → find k m ≡ some v
    → suc (length (erase k m)) ≤ length m
unfolding find erase
length-erase k v [] e = cc
length-erase k v ((j, w) ∷ m) e = elim (Bool-cases (same_text j k)) [
  | inl f ↦ rw f (omega (arith, length-erase_le k m))
  | inr f ↦ rw f (omega (arith, length-erase k v m (rw f at e)))
]
  where
    length-erase_le : (k : List ℕ) (m : Assoc CachedDocSlot) → length (erase k m) ≤ length m
    length-erase_le k [] = omega arith
    length-erase_le k ((j, w) ∷ m) = ground (arith, length-erase_le k m)

pub find-key :
    (i : ℕ) (m : Assoc CachedDocSlot)
    → i < length m
    → (k : List ℕ) × (v : CachedDocSlot) × (get_elem? (keys m) i ≡ some k) × (find k m ≡ some v)
unfolding find keys
find-key i [] h = absurd (omega (arith, h))
find-key zero ((j, w) ∷ m) h = (j, w, refl, rw ((same_text_iff j j).1 refl) refl)
find-key (suc i) ((j, w) ∷ m) h =
    let (k, v, e, f) = find-key i m (omega (arith, h)) in
    elim (Bool-cases (same_text j k)) [ inl g ↦ (k, w, e, rw g refl) | inr g ↦ (k, v, e, rw g f) ]

-- The slot of one id is another.
abbrev pub replaced : List ℕ → CachedDocSlot → (List ℕ → CachedDocSlot) → List ℕ → CachedDocSlot
replaced id slot docs other = if same_text id other then slot else docs other

-- The cipher texts of a row of ids.
abbrev pub OpenAll :
    Sgx → List ℕ → (List ℕ → CachedDocSlot) → List (List ℕ) → List (List ℕ) → Type 0
OpenAll sgx key docs [] [] = Unit
OpenAll sgx key docs [] (c ∷ cs) = ⊥
OpenAll sgx key docs (id ∷ ids) [] = ⊥
OpenAll sgx key docs (id ∷ ids) (c ∷ cs) = Opens sgx key c (docs id) × OpenAll sgx key docs ids cs

module _ (sgx : Sgx) (key : List ℕ)
    -- the labels of two slots never meet
    (apart : (a b : List ℕ)
      → IsSlotId a
      → IsSlotId b
      → doc_label sgx key a ≡ doc_label sgx key b
      → a ≡ b)
    -- anything that the slots have no part in
    (Aside : Enclave → Type 0)
    (aside-kept : (s : Enclave) (doc_ck : Assoc CachedDocSlot) (versions : ℕ → ℕ)
        (docs : Assoc (List ℕ)) (random : ℕ → ℕ)
      → Aside s
      → Aside (record s {
        ctx = record s.ctx { doc_ck = doc_ck; doc_slot_version = versions };
        edb = record s.edb { docs = docs };
        random = random;
      })) where
  -- `docs` is the abstract content of the slots.
  pub record Holds (docs : List ℕ → CachedDocSlot) (s : Enclave) : Type 0 where
    pub keyed : s.ctx.key ≡ key
    pub known :
        (id : List ℕ) (slot : CachedDocSlot) → find id s.ctx.doc_ck ≡ some slot → IsSlotId id
    pub cached :
        (id : List ℕ) (slot : CachedDocSlot) → find id s.ctx.doc_ck ≡ some slot → slot ≡ docs id
    pub stored :
        (id : List ℕ)
        → IsSlotId id
        → find id s.ctx.doc_ck ≡ none
        → (cipher : List ℕ) × (find (doc_label sgx key id) s.edb.docs ≡ some cipher)
          × Opens sgx key cipher (docs id)
    pub fitting : (id : List ℕ) → IsSlotId id → Fits (docs id)
    pub aside : Aside s

  module _ {docs : List ℕ → CachedDocSlot} {s : Enclave} (h : Holds docs s) where
    pub redrawn : (r : ℕ → ℕ) → Holds docs (record s { random = r })
    redrawn r = record {
      keyed = h.keyed;
      known = h.known;
      cached = h.cached;
      stored = h.stored;
      fitting = h.fitting;
      aside = aside-kept s s.ctx.doc_ck s.ctx.doc_slot_version s.edb.docs r h.aside;
    }

    -- One slot of the map and of the cache becomes `slot`.
    pub assign-Holds :
        (id : List ℕ) (slot : CachedDocSlot) (versions : ℕ → ℕ)
        → IsSlotId id
        → Fits slot
        → Holds (replaced id slot docs) (record s {
          ctx = record s.ctx { doc_slot_version = versions; doc_ck = assign id slot s.ctx.doc_ck };
        })
    assign-Holds id slot versions is fit = record {
      keyed = h.keyed;
      known = λ j v f. elim (Bool-cases (same_text id j)) [
        | inl e ↦ subst IsSlotId ((same_text_iff id j).0 e) is
        | inr e ↦ h.known j v (ground (arith, e, f, find-assign id j slot s.ctx.doc_ck))
      ];
      cached = λ j v f. ground (arith, find-assign id j slot s.ctx.doc_ck, h.cached j v);
      stored = λ j js f. elim (Bool-cases (same_text id j)) [
        | inl e ↦ absurd (ground (arith, e, f, find-assign id j slot s.ctx.doc_ck))
        | inr e ↦ rw e (h.stored j js (ground (arith, e, f, find-assign id j slot s.ctx.doc_ck)))
      ];
      fitting = λ j js. elim (Bool-cases (same_text id j)) [
        | inl e ↦ rw e fit
        | inr e ↦ rw e (h.fitting j js)
      ];
      aside = aside-kept s (assign id slot s.ctx.doc_ck) versions s.edb.docs s.random h.aside;
    }

    pub replaced-same : (id other : List ℕ) → replaced id (docs id) docs other ≡ docs other
    replaced-same id other = elim (Bool-cases (same_text id other)) [
      | inl e ↦ rw e (ap docs ((same_text_iff id other).0 e))
      | inr e ↦ rw e
    ]

    stored_erased :
        (id cipher : List ℕ) (slot : CachedDocSlot) (j : List ℕ)
        → find id s.ctx.doc_ck ≡ some slot
        → Opens sgx key cipher slot
        → IsSlotId j
        → find j (erase id s.ctx.doc_ck) ≡ none
        → (c : List ℕ) × (find
              (doc_label sgx key j)
              (assign (doc_label sgx key id) cipher s.edb.docs)
            ≡ some c)
          × Opens sgx key c (docs j)
    stored_erased id cipher slot j e opens js f =
        let here : List ℕ = doc_label sgx key id in
        let there : List ℕ = doc_label sgx key j in
        elim (Bool-cases (same_text id j)) [
          | inl g ↦
              let same : id ≡ j = (same_text_iff id j).0 g in
              (
                cipher,
                find-assign here there cipher s.edb.docs
                    ∙ rw ((same_text_iff here there).1 (ap (doc_label sgx key) same)) refl,
                subst (Opens sgx key cipher) (h.cached id slot e ∙ ap docs same) opens,
              )
          | inr g ↦
              let (c, found, o) =
                h.stored j js (ground (arith, g, f, find-erase id j s.ctx.doc_ck)) in
              (
                c,
                elim (Bool-cases (same_text here there)) [
                  | inl k ↦
                      let same : id ≡ j =
                        apart id j (h.known id slot e) js ((same_text_iff here there).0 k) in
                      absurd (ground (arith, g, (same_text_iff id j).1 same))
                  | inr k ↦ find-assign here there cipher s.edb.docs ∙ rw k found
                ],
                o,
              )
        ]

    -- A slot that is cached is written to the host, and leaves the cache.
    pub erase-Holds :
        (id cipher : List ℕ) (slot : CachedDocSlot) (versions : ℕ → ℕ)
        → find id s.ctx.doc_ck ≡ some slot
        → Opens sgx key cipher slot
        → Holds docs (record s {
          ctx = record s.ctx { doc_slot_version = versions; doc_ck = erase id s.ctx.doc_ck };
          edb = store_docs ((doc_label sgx s.ctx.key id, cipher) ∷ []) s.edb;
        })
    unfolding store_docs
    erase-Holds id cipher slot versions e opens = record {
      keyed = h.keyed;
      known = λ j v f. h.known j v (ground (arith, f, find-erase id j s.ctx.doc_ck));
      cached = λ j v f. h.cached j v (ground (arith, f, find-erase id j s.ctx.doc_ck));
      stored = λ j js f. rw (h.keyed) (stored_erased id cipher slot j e opens js f);
      fitting = h.fitting;
      aside =
          aside-kept s (erase id s.ctx.doc_ck) versions
            (assign (doc_label sgx s.ctx.key id) cipher s.edb.docs) s.random h.aside;
    }

    -- The ids that are on the host are loaded as cipher texts of their slots.
    pub load-OpenAll :
        (ids : List (List ℕ))
        → All (λ id. IsSlotId id × (find id s.ctx.doc_ck ≡ none)) ids
        → let ciphers : List (List ℕ) = load_docs (map (doc_label sgx key) ids) s.edb in
          OpenAll sgx key docs ids ciphers × (all_fit ciphers ≡ true)
    unfolding load_docs all_fit
    load-OpenAll [] a = (tt, refl)
    load-OpenAll (id ∷ ids) a =
        let (c, found, o) = h.stored id a.0.0 a.0.1 in
        let (os, fit) = load-OpenAll ids a.1 in
        rw found ((o, os), rw (le→leb (length c) 4124 o.0) fit)

    pub ocall_load_docs-OpenAll :
        (ids : List (List ℕ))
        → All (λ id. IsSlotId id × (find id s.ctx.doc_ck ≡ none)) ids
        → (ciphers : List (List ℕ)) × (ocall_load_docs sgx ids s ≡ ok (ciphers, s))
          × OpenAll sgx key docs ids ciphers
    unfolding ocall_load_docs
    ocall_load_docs-OpenAll ids a =
        let (os, fit) = load-OpenAll ids a in
        (load_docs (map (doc_label sgx key) ids) s.edb, rw (h.keyed, fit) refl, os)
