-- ===== src/Prelude/Keys.antt =====
-- Association lists in which every key stands once: their sizes and what they hold.
use sf_processor.Prelude.Tests.{Eq, ◌==◌, Bool-cases, Option-cases, beq_refl}
use sf_processor.Prelude.Lists.{length, In}
use sf_processor.Prelude.Assoc.{lookup, insert, delete, lookup-insert, lookup-delete}
use Prim.Native.Nat.{◌+◌, ◌≤◌}
use mathlib.Core.Logic.{inl, inr}
use mathlib.Core.Path.{◌≡◌, refl, sym, ap₂, subst, ◌∙◌}
use mathlib.Core.Option.{none, some, some-injective}
use mathlib.Core.List.{List, [], ◌∷◌}
use native.Mathlib.Omega.{arith}

module _ {K : Type 0} {V : Type 0} ⦃e : Eq K⦄ where
  abbrev pub IsUnique : List (K × V) → Type 0
  IsUnique [] = Unit
  IsUnique ((k, v) ∷ m) = (lookup k m ≡ none) × IsUnique m

  pub insert-IsUnique : (k : K) (v : V) (m : List (K × V)) → IsUnique m → IsUnique (insert k v m)
  unfolding insert lookup
  insert-IsUnique k v [] u = (refl, tt)
  insert-IsUnique k v ((j, w) ∷ m) (n, u) = elim (Bool-cases (j == k)) [
    | inl same ↦ rw same (subst (λ z. lookup z m ≡ none) ((e.beq_iff j k).0 same) n, u)
    | inr other ↦ rw other (
      lookup-insert k j v m ∙ ground (arith, e.beq_iff k j, e.beq_iff j k, n),
      insert-IsUnique k v m u,
    )
  ]

  pub lookup-In : (k : K) (v : V) (m : List (K × V)) → lookup k m ≡ some v → In (k, v) m
  unfolding lookup
  lookup-In k v [] h = absurd (cc)
  lookup-In k v ((j, w) ∷ m) h = elim (Bool-cases (j == k)) [
    | inl same ↦ inl (
        ap₂ (λ a b. (a, b)) (sym ((e.beq_iff j k).0 same))
          (sym (some-injective _ _ (rw same at h))))
    | inr other ↦ inr (lookup-In k v m (rw other at h))
  ]

  length-delete_le : (k : K) (m : List (K × V)) → length (delete k m) ≤ length m
  unfolding delete
  length-delete_le k [] = omega arith
  length-delete_le k ((j, w) ∷ m) = elim (Bool-cases (j == k)) [
    | inl same ↦ rw same (omega (arith, length-delete_le k m))
    | inr other ↦ rw other (omega (arith, length-delete_le k m))
  ]

  pub length-delete :
      (k : K) (v : V) (m : List (K × V)) → lookup k m ≡ some v → length (delete k m) + 1 ≤ length m
  unfolding delete lookup
  length-delete k v [] h = absurd (cc)
  length-delete k v ((j, w) ∷ m) h = elim (Bool-cases (j == k)) [
    | inl same ↦ rw same (omega (arith, length-delete_le k m))
    | inr other ↦ rw other (omega (arith, length-delete k v m (rw other at h)))
  ]

  -- Every key of `m` is a key of `n`.
  abbrev pub KeysIn : List (K × V) → List (K × V) → Type 0
  KeysIn m n = (k : K) (v : V) → lookup k m ≡ some v → (w : V) × (lookup k n ≡ some w)

  -- A key that `m` lacks can be taken from `n`.
  pub KeysIn-delete :
      (k : K) (m n : List (K × V)) → lookup k m ≡ none → KeysIn m n → KeysIn m (delete k n)
  KeysIn-delete k m n free h x v found =
      let (w, there) = h x v found in
      (
        w,
        lookup-delete k x n ∙ elim (Bool-cases (k == x)) [
          | inl same ↦
              absurd (
                ground (arith, found, subst (λ z. lookup z m ≡ none) ((e.beq_iff k x).0 same) free))
          | inr other ↦ rw other there
        ],
      )

  KeysIn-tail :
      (k : K) (v : V) (m n : List (K × V)) → lookup k m ≡ none → KeysIn ((k, v) ∷ m) n → KeysIn m n
  unfolding lookup
  KeysIn-tail k v m n free h x w found = elim (Bool-cases (k == x)) [
    | inl same ↦
        absurd (ground (arith, found, subst (λ z. lookup z m ≡ none) ((e.beq_iff k x).0 same) free))
    | inr other ↦ h x w (rw other found)
  ]

  lookup-front : (k : K) (v : V) (m : List (K × V)) → lookup k ((k, v) ∷ m) ≡ some v
  unfolding lookup
  lookup-front k v m = rw (beq_refl k)

  -- With the keys of another list, and each once, a list is not longer.
  pub KeysIn-length : (m n : List (K × V)) → IsUnique m → KeysIn m n → length m ≤ length n
  KeysIn-length [] n u h = omega arith
  KeysIn-length ((k, v) ∷ m) n (free, u) h =
      let (w, there) = h k v (lookup-front k v m) in
      let shorter = length-delete k w n there in
      let rest =
        KeysIn-length m (delete k n) u (KeysIn-delete k m n free (KeysIn-tail k v m n free h)) in
      omega (arith, shorter, rest)

  -- Of two lists of one length and with single keys, the one has all keys that the other has if
  -- the other has all of its keys.
  pub KeysIn-back :
      (m n : List (K × V))
      → IsUnique m
      → length m ≡ length n
      → KeysIn m n
      → (k : K) → lookup k m ≡ none
      → lookup k n ≡ none
  KeysIn-back m n u same h k free = elim (Option-cases (lookup k n)) [
    | inl none_there ↦ none_there
    | inr (w, there) ↦ absurd (
        omega (
          arith,
          length-delete k w n there,
          KeysIn-length m (delete k n) u (KeysIn-delete k m n free h),
        ))
  ]
