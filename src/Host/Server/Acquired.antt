-- ===== src/Host/Server/Acquired.antt =====
-- Server.cpp: which enclaves are busy before and after EnclavePool::acquire.
use veil_db.Base.{
  ℕ, ◌≡◌, refl, ap, sym, subst, List, [], ◌∷◌, Option, none, some, Bool, true, false, Bool-cases,
  inl, inr, ◌⊎◌, ◌==◌, if◌then◌else◌,
}
use veil_db.Host.Server.{
  EnclavePool, Wait, try_acquire, set_busy, mapped, acquire_any, acquire_free, acquire_own, acquire,
  find_number,
}

-- Out of the instances that were busy in `before`, one that was not has become so, if any was
-- acquired.
abbrev Taken : (ℕ → Bool) → Option ℕ × EnclavePool → Type 0
Taken before (none, p) = (j : ℕ) → p.busy j ≡ before j
Taken before (some i, p) =
    (before i ≡ false) × ((j : ℕ) → p.busy j ≡ (if i == j then true else before j))

try_acquire-Taken :
    (p : EnclavePool) (i : ℕ) (f : EnclavePool → EnclavePool) (rest : Option ℕ × EnclavePool)
    → ((q : EnclavePool) → (f q).busy ≡ q.busy)
    → Taken p.busy rest
    → Taken p.busy (elim (try_acquire i p) as (λ _. Option ℕ × EnclavePool) [
      | some q ↦ (some i, f q)
      | none ↦ rest
    ])
unfolding try_acquire
try_acquire-Taken p i f rest same h = elim (Bool-cases (p.busy i)) [
  | inl e ↦ rw (e, Taken) h
  | inr e ↦ rw (e, Taken) (e, λ j. ap (λ (b : ℕ → Bool). b j) (same (set_busy i true p)))
]

acquire_any-Taken :
    (client : ℕ) (is : List ℕ) (p : EnclavePool) → Taken p.busy (acquire_any client is p)
unfolding acquire_any
acquire_any-Taken client [] p = λ j. refl
acquire_any-Taken client (i ∷ is) p =
    try_acquire-Taken p i (mapped client i) (acquire_any client is p) (λ q. refl)
      (acquire_any-Taken client is p)

acquire_free-Taken :
    (client : ℕ) (is : List ℕ) (p : EnclavePool) → Taken p.busy (acquire_free client is p)
unfolding acquire_free
acquire_free-Taken client [] p = acquire_any-Taken client p.enclaves p
acquire_free-Taken client (i ∷ rest) p =
    let popped : EnclavePool = record p { available_enclaves = rest } in
    try_acquire-Taken popped i (mapped client i) (acquire_any client popped.enclaves popped)
      (λ q. refl) (acquire_any-Taken client popped.enclaves popped)

try_acquire-cases :
    (i : ℕ) (p : EnclavePool)
    → (try_acquire i p ≡ none) ⊎ ((try_acquire i p ≡ some (set_busy i true p)) × (p.busy i ≡ false))
unfolding try_acquire
try_acquire-cases i p = elim (Bool-cases (p.busy i)) [
  | inl e ↦ inl (rw e refl)
  | inr e ↦ inr (rw e refl, e)
]

pub if_both :
    {A : Type 0} (P : A → Type 0) (b : Bool) (x y : A) → P x → P y → P (if b then x else y)
if_both P true x y h k = h
if_both P false x y h k = k

pub option_both :
    {A B : Type 0} (P : B → Type 0) (o : Option A) (x : B) (f : A → B)
    → P x
    → ((a : A) → P (f a))
    → P (elim o as (λ _. B) [ none ↦ x | some a ↦ f a ])
option_both P none x f h k = h
option_both P (some a) x f h k = k a

-- The pool that an instance is taken from: the one of the call, or the one after its wait.
abbrev pub Seen : Wait → EnclavePool → EnclavePool → Type 0
Seen waited p q = (q ≡ p) ⊎ (q ≡ waited.left)

abbrev pub Acquired : Wait → EnclavePool → Option ℕ × EnclavePool → Type 0
Acquired waited p r = (q : EnclavePool) × Seen waited p q × Taken q.busy r

after_wait-Taken :
    (in_time : Bool) (i : ℕ) (w : EnclavePool)
    → Taken w.busy (elim in_time as (λ _. Option ℕ × EnclavePool) [
      | false ↦ (none, w)
      | true ↦ elim (try_acquire i w) [ some q ↦ (some i, q) | none ↦ (none, w) ]
    ])
after_wait-Taken false i w = λ j. refl
after_wait-Taken true i w = try_acquire-Taken w i (λ q. q) (none, w) (λ q. refl) (λ j. refl)

acquire_own-Acquired :
    (waited : Wait) (i : ℕ) (p : EnclavePool) → Acquired waited p (acquire_own waited i p)
unfolding acquire_own
acquire_own-Acquired waited i p = elim (try_acquire-cases i p) [
  | inl e ↦
      subst (λ o. Acquired waited p (own o)) (sym e)
        (waited.left, inr refl, after_wait-Taken waited.in_time i waited.left)
  | inr (e, free) ↦ subst (λ o. Acquired waited p (own o)) (sym e) (p, inl refl, (free, λ j. refl))
]
  where
    own : Option EnclavePool → Option ℕ × EnclavePool
    own o = elim o [
      | some q ↦ (some i, q)
      | none ↦ elim waited.in_time [
        | false ↦ (none, waited.left)
        | true ↦ elim (try_acquire i waited.left) [
          | some q ↦ (some i, q)
          | none ↦ (none, waited.left)
        ]
      ]
    ]

pub acquire-Acquired :
    (waited : Wait) (client : ℕ) (p : EnclavePool) → Acquired waited p (acquire waited client p)
unfolding acquire
acquire-Acquired waited client p =
    option_both (Acquired waited p) (find_number client p.client_enclave_map)
      (acquire_free client p.available_enclaves p) (λ i. acquire_own waited i p)
      (p, inl refl, acquire_free-Taken client p.available_enclaves p)
      (λ i. acquire_own-Acquired waited i p)
