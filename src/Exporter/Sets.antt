-- ===== src/Exporter/Sets.antt =====
-- core/exporter/utils/set.go: a set of texts, as a map into the empty struct.
use sf_processor.Prelude.{
  ℕ, ◌≡◌, ap, ◌∙◌, ◌↔◌, Bool, true, false, none, some, List, [], ◌∷◌, every, every_intro,
  every_elim, In, length, list_eq, nat_eq, ◌==◌, Option-cases, Bool-cases, inl, inr, arith,
  beq_refl,
}
use sf_processor.Prelude.Assoc.{lookup, insert, delete}
use sf_processor.Prelude.Keys.{lookup-In}
use sf_processor.Prelude.Text.{Str}

abbrev pub Set : Type 0
Set = List (Str × Unit {0})

unfoldable pub new_set : Set
new_set = []

-- Add, Remove, Contains and Len
unfoldable pub set_add : Str → Set → Set
set_add value s = insert value tt s

unfoldable pub set_remove : Str → Set → Set
set_remove value s = delete value s

unfoldable pub set_contains : Str → Set → Bool
set_contains value s = elim (lookup value s) [ none ↦ false | some _ ↦ true ]

unfoldable pub set_len : Set → ℕ
set_len s = length s

-- IsSubset: every key of `s` is in `l`.
unfoldable pub is_subset : Set → Set → Bool
unfolding set_contains
is_subset s l = every (λ entry. set_contains entry.0 l) s

contains_lookup :
    (x : Str) (s t : Set) → lookup x s ≡ lookup x t → set_contains x s ≡ set_contains x t
unfolding set_contains
contains_lookup x s t e = ap (λ o. elim o [ none ↦ false | some _ ↦ true ]) e

contains_found : (x : Str) (s : Set) (u : Unit {0}) → lookup x s ≡ some u → set_contains x s ≡ true
unfolding set_contains
contains_found x s u e = rw (e, set_contains)

contains_free : (x : Str) (s : Set) → lookup x s ≡ none → set_contains x s ≡ false
unfolding set_contains
contains_free x s e = rw (e, set_contains)

contains-In : (x : Str) (s : Set) → set_contains x s ≡ true → In (x, tt) s
contains-In x s h = elim (Option-cases (lookup x s)) [
  | inl free ↦ absurd (ground (arith, contains_free x s free))
  | inr (u, found) ↦ lookup-In x tt s found
]

In-contains : (entry : Str × Unit {0}) (s : Set) → In entry s → set_contains entry.0 s ≡ true
unfolding lookup
In-contains entry [] n = elim n [ ]
In-contains entry (other ∷ s) (inl same) =
    ap (λ z. set_contains z.0 (other ∷ s)) same
    ∙ contains_found other.0 (other ∷ s) other.1 (rw (beq_refl other.0))
In-contains entry (other ∷ s) (inr rest) = elim (Bool-cases (other.0 == entry.0)) [
  | inl same ↦ contains_found entry.0 (other ∷ s) other.1 (rw same)
  | inr apart ↦ contains_lookup entry.0 (other ∷ s) s (rw apart) ∙ In-contains entry s rest
]

-- IsSubset holds exactly if the second set contains every value that the first one contains.
pub is_subset-set_contains :
    (s l : Set)
    → (is_subset s l ≡ true) ↔ ((x : Str) → set_contains x s ≡ true → set_contains x l ≡ true)
unfolding is_subset
is_subset-set_contains s l = (
  λ h x c. every_elim (λ entry. set_contains entry.0 l) (x, tt) s h (contains-In x s c),
  λ h.
      every_intro (λ entry. set_contains entry.0 l) s
        (λ entry n. h entry.0 (In-contains entry s n)),
)
