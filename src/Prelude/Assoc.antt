-- ===== src/Prelude/Assoc.antt =====
-- Go's maps, as association lists with one entry for each key that was written.
use sf_processor.Prelude.Tests.{if◌then◌else◌, Eq, ◌==◌, Bool-cases}
use mathlib.Core.Logic.{inl, inr}
use mathlib.Core.Path.{◌≡◌, refl, sym, ap, ap₂}
use mathlib.Core.Option.{Option, none, some, some-injective}
use mathlib.Core.List.{List, [], ◌∷◌}
use native.Mathlib.Omega.{arith}

module _ {ℓ} {K : Type 0} {V : Type ℓ} ⦃e : Eq K⦄ where
  -- v, ok := m[k]
  unfoldable pub lookup : K → List (K × V) → Option V
  lookup _ [] = none
  lookup k (entry ∷ m) = if entry.0 == k then some entry.1 else lookup k m

  -- m[k] = v
  unfoldable pub insert : K → V → List (K × V) → List (K × V)
  insert k v [] = (k, v) ∷ []
  insert k v (entry ∷ m) = if entry.0 == k then (k, v) ∷ m else entry ∷ insert k v m

  -- delete(m, k)
  unfoldable pub delete : K → List (K × V) → List (K × V)
  delete k [] = []
  delete k ((j, w) ∷ m) = let rest = delete k m in if j == k then rest else (j, w) ∷ rest

  pub lookup-insert :
      (written read : K) (new : V) (m : List (K × V))
      → lookup read (insert written new m) ≡ (if written == read then some new else lookup read m)
  unfolding lookup insert
  lookup-insert written read new [] = refl
  lookup-insert written read new ((i, w) ∷ m) = ground (
    arith,
    lookup-insert written read new m,
    e.beq_iff i read,
    e.beq_iff i written,
    e.beq_iff written read,
  )

  pub lookup-delete :
      (k j : K) (m : List (K × V)) → lookup j (delete k m) ≡ (if k == j then none else lookup j m)
  unfolding lookup delete
  lookup-delete k j [] = ground arith
  lookup-delete k j ((i, w) ∷ m) =
      ground (arith, e.beq_iff k j, e.beq_iff i k, e.beq_iff i j, lookup-delete k j m)

  pub lookup-insert_self : (k : K) (v : V) (m : List (K × V)) → lookup k (insert k v m) ≡ some v
  lookup-insert_self k v m = ground (arith, lookup-insert k k v m, e.beq_iff k k)

module _ {ℓ} {K : Type 0} {V : Type ℓ} ⦃e : Eq K⦄ where
  -- Writing what a key already holds changes nothing.
  pub insert_same : (k : K) (v : V) (m : List (K × V)) → lookup k m ≡ some v → insert k v m ≡ m
  unfolding lookup insert
  insert_same k v [] h = absurd (cc)
  insert_same k v ((j, w) ∷ m) h = elim (Bool-cases (j == k)) [
    | inl same ↦ rw same (
        ap₂ (λ a b. (a, b) ∷ m) (sym ((e.beq_iff j k).0 same))
          (sym (some-injective _ _ (rw same at h))))
    | inr other ↦ rw other (ap (λ n. (j, w) ∷ n) (insert_same k v m (rw other at h)))
  ]

pub lookup-empty {ℓ} : {K : Type 0} {V : Type ℓ} ⦃e : Eq K⦄ (k : K) → lookup {V = V} k [] ≡ none
unfolding lookup
lookup-empty k = refl

pub ruleset map_laws = (lookup-empty, lookup-insert, lookup-delete)
