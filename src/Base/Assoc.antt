-- ===== src/Base/Assoc.antt =====
-- std::unordered_map with byte strings for keys. The order of the list stands for the order of an
-- iteration, which the standard leaves open.
use mathlib.Core.Path.{◌≡◌, refl, subst, ◌∙◌}
use mathlib.Core.Logic.{inl, inr}
use mathlib.Core.Bool.{false}
use mathlib.Core.Option.{Option, none, some}
use mathlib.Core.List.{List, [], ◌∷◌}
use Prim.Native.Nat.{ℕ}
use native.Mathlib.Omega.{arith}
use veil_db.Base.Tests.{same_text, same_text_iff, if◌then◌else◌, Bool-cases}
use veil_db.Base.Lists.{All}

abbrev pub Assoc {ℓ} : Type ℓ → Type ℓ
Assoc V = List (List ℕ × V)

module _ {ℓ} {V : Type ℓ} where
  -- `m.find(k)`
  unfoldable pub find : List ℕ → Assoc V → Option V
  find k [] = none
  find k ((j, v) ∷ m) = if same_text j k then some v else find k m

  -- `m[k] = v`
  unfoldable pub assign : List ℕ → V → Assoc V → Assoc V
  assign k v [] = (k, v) ∷ []
  assign k v ((j, w) ∷ m) = if same_text j k then (k, v) ∷ m else (j, w) ∷ assign k v m

  -- `m.erase(k)`
  unfoldable pub erase : List ℕ → Assoc V → Assoc V
  erase k [] = []
  erase k ((j, w) ∷ m) = let rest = erase k m in if same_text j k then rest else (j, w) ∷ rest

  -- the keys, in the order of an iteration
  unfoldable pub keys : Assoc V → List (List ℕ)
  keys [] = []
  keys ((j, w) ∷ m) = j ∷ keys m

  pub find-assign :
      (k j : List ℕ) (v : V) (m : Assoc V)
      → find j (assign k v m) ≡ (if same_text k j then some v else find j m)
  unfolding find assign
  find-assign k j v [] = refl
  find-assign k j v ((i, w) ∷ m) =
      ground (arith, same_text_iff k j, same_text_iff i k, same_text_iff i j, find-assign k j v m)

  pub find-erase :
      (k j : List ℕ) (m : Assoc V) → find j (erase k m) ≡ (if same_text k j then none else find j m)
  unfolding find erase
  find-erase k j [] = ground arith
  find-erase k j ((i, w) ∷ m) =
      ground (arith, same_text_iff k j, same_text_iff i k, same_text_iff i j, find-erase k j m)

pub ruleset assoc_laws = (find-assign, find-erase)

-- Keys in a list: none stands twice, and one is not among them.
abbrev pub NotIn : List ℕ → List (List ℕ) → Type 0
NotIn w = All (λ x. same_text x w ≡ false)

abbrev pub Distinct : List (List ℕ) → Type 0
Distinct [] = Unit
Distinct (w ∷ ws) = NotIn w ws × Distinct ws

pub same_text_symm : (s t : List ℕ) → same_text s t ≡ same_text t s
same_text_symm s t = ground (arith, same_text_iff s t, same_text_iff t s)

module _ {ℓ} {V : Type ℓ} where
  NotIn-keys-assign :
      (w k : List ℕ) (v : V) (m : Assoc V)
      → same_text k w ≡ false
      → NotIn w (keys m)
      → NotIn w (keys (assign k v m))
  unfolding keys assign
  NotIn-keys-assign w k v [] e h = (e, tt)
  NotIn-keys-assign w k v ((j, u) ∷ m) e h = elim (Bool-cases (same_text j k)) [
    | inl same ↦ rw (same, All) (e, h.1)
    | inr other ↦ rw (other, All) (h.0, NotIn-keys-assign w k v m e h.1)
  ]

  pub Distinct-keys-assign :
      (k : List ℕ) (v : V) (m : Assoc V) → Distinct (keys m) → Distinct (keys (assign k v m))
  unfolding keys assign
  Distinct-keys-assign k v [] h = (tt, tt)
  Distinct-keys-assign k v ((j, u) ∷ m) h = elim (Bool-cases (same_text j k)) [
    | inl same ↦
        rw (same, Distinct) (subst (λ x. NotIn x (keys m)) ((same_text_iff j k).0 same) h.0, h.1)
    | inr other ↦
        rw (other, Distinct)
          (
            NotIn-keys-assign j k v m (same_text_symm k j ∙ other) h.0,
            Distinct-keys-assign k v m h.1,
          )
  ]

  NotIn-keys-erase : (w k : List ℕ) (m : Assoc V) → NotIn w (keys m) → NotIn w (keys (erase k m))
  unfolding keys erase
  NotIn-keys-erase w k [] h = tt
  NotIn-keys-erase w k ((j, u) ∷ m) h = elim (Bool-cases (same_text j k)) [
    | inl same ↦ rw (same, All) (NotIn-keys-erase w k m h.1)
    | inr other ↦ rw (other, All) (h.0, NotIn-keys-erase w k m h.1)
  ]

  pub Distinct-keys-erase :
      (k : List ℕ) (m : Assoc V) → Distinct (keys m) → Distinct (keys (erase k m))
  unfolding keys erase
  Distinct-keys-erase k [] h = tt
  Distinct-keys-erase k ((j, u) ∷ m) h = elim (Bool-cases (same_text j k)) [
    | inl same ↦ rw (same, Distinct) (Distinct-keys-erase k m h.1)
    | inr other ↦ rw (other, Distinct) (NotIn-keys-erase j k m h.0, Distinct-keys-erase k m h.1)
  ]
