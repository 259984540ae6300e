-- ===== src/Policy/Lists/Expand.antt =====
-- Which atoms a named list stands for, as a relation, and that the recursion finds exactly those.
use sf_processor.Prelude.{
  ◌>>=◌, ℕ, zero, suc, ◌<◌, ◌≡◌, refl, subst, ◌∙◌, sym, inl, inr, ◌↔◌, Option, none, some,
  some-injective, All-map, List, [], ◌∷◌, ◌++◌, In, In-append_left, In-append_right,
  In-append_cases, All, arith, Option-cases, nat_eq, list_eq,
}
use sf_processor.Prelude.Assoc.{lookup}
use sf_processor.Prelude.Text.{Str}
use sf_processor.Engine.Quotes.{trim_bounding_quotes}
use sf_processor.Policy.Syntax.{Element}
use sf_processor.Policy.Lists.{ListTable, append_all, reduce_list, atoms, extract_list_from_atoms}

-- `Expands lists x a`: following the named lists from `x` leads to the atom `a`.
pub data Expands (lists : ListTable) : Str → Str → Type 0 where
  leaf : {x a : Str} → lookup x lists ≡ none → a ≡ trim_bounding_quotes x → Expands lists x a
  member :
      {x y a : Str} {l : List Str}
      → lookup x lists ≡ some l
      → In y l
      → Expands lists y a
      → Expands lists x a

-- No list leads back to itself: every element of a list has a lower rank than the list.
pub record IsRanked (lists : ListTable) (rank : Str → ℕ) : Type 0 where
  pub falls : (x : Str) (l : List Str) → lookup x lists ≡ some l → All (λ y. rank y < rank x) l

module _ (lists : ListTable) where
  abbrev Sound : (Str → Option (List Str)) → Type 0
  Sound f = (x a : Str) (s : List Str) → f x ≡ some s → In a s → Expands lists x a

  abbrev Complete : (Str → Option (List Str)) → Type 0
  Complete f = (x a : Str) (s : List Str) → f x ≡ some s → Expands lists x a → In a s

  -- The parts that a successful loop appends.
  append_all-cons :
      (f : Str → Option (List Str)) (v : Str) (vs s : List Str)
      → append_all f (v ∷ vs) ≡ some s
      → (h : List Str) × (t : List Str) × (f v ≡ some h) × (append_all f vs ≡ some t) × (s ≡ h ++ t)
  unfolding append_all
  append_all-cons f v vs s e = go (f v) (append_all f vs) refl refl e
    where
      go :
          (o p : Option (List Str))
          → f v ≡ o
          → append_all f vs ≡ p
          → (o >>= λ here. p >>= λ rest. some (here ++ rest)) ≡ some s
          → (h : List Str) × (t : List Str) × (f v ≡ some h)
            × (append_all f vs ≡ some t)
            × (s ≡ h ++ t)
      go none p eo ep e = absurd (cc)
      go (some h) none eo ep e = absurd (cc)
      go (some h) (some t) eo ep e = (h, t, eo, ep, ground arith)

  append_all-Sound :
      (f : Str → Option (List Str))
      → Sound f
      → (vs : List Str) (a : Str) (s : List Str) → append_all f vs ≡ some s
      → In a s
      → (y : Str) × In y vs × Expands lists y a
  unfolding append_all
  append_all-Sound f sound [] a s e m = absurd (subst_in e m)
    where
      subst_in : some [] ≡ some s → In a s → ⊥
      subst_in e m = ground arith
  append_all-Sound f sound (v ∷ vs) a s e m =
      let (h, t, eh, et, es) = append_all-cons f v vs s e in
      elim (In-append_cases a h t (subst (In a) es m)) [
        | inl here ↦ (v, inl refl, sound v a h eh here)
        | inr there ↦ let (y, n, x) = append_all-Sound f sound vs a t et there in (y, inr n, x)
      ]

  append_all-Complete :
      (f : Str → Option (List Str))
      → Complete f
      → (vs : List Str) (a y : Str) (s : List Str) → append_all f vs ≡ some s
      → In y vs
      → Expands lists y a
      → In a s
  append_all-Complete f complete [] a y s e n x = elim n [ ]
  append_all-Complete f complete (v ∷ vs) a y s e (inl p) x =
      let (h, t, eh, et, es) = append_all-cons f v vs s e in
      subst (In a) (sym es)
        (In-append_left a h t (complete v a h eh (subst (λ z. Expands lists z a) p x)))
  append_all-Complete f complete (v ∷ vs) a y s e (inr n) x =
      let (h, t, eh, et, es) = append_all-cons f v vs s e in
      subst (In a) (sym es) (In-append_right a h t (append_all-Complete f complete vs a y t et n x))

  append_all-total :
      (f : Str → Option (List Str)) (vs : List Str)
      → All (λ v. (s : List Str) × (f v ≡ some s)) vs
      → (s : List Str) × (append_all f vs ≡ some s)
  unfolding append_all
  append_all-total f [] h = ([], refl)
  append_all-total f (v ∷ vs) ((s, e), h) =
      let (t, k) = append_all-total f vs h in (s ++ t, rw (e, k))

  -- One round of the recursion on each side of the lookup.
  reduce_list-none :
      (f : ℕ) (x : Str)
      → lookup x lists ≡ none
      → reduce_list lists (suc f) x ≡ some (trim_bounding_quotes x ∷ [])
  unfolding reduce_list
  reduce_list-none f x e = rw (e, reduce_list)

  reduce_list-some :
      (f : ℕ) (x : Str) (l : List Str)
      → lookup x lists ≡ some l
      → reduce_list lists (suc f) x ≡ append_all (reduce_list lists f) l
  unfolding reduce_list
  reduce_list-some f x l e = rw (e, reduce_list)

  In-single : {x a : Str} {s : List Str} → x ∷ [] ≡ s → In a s → a ≡ x
  In-single {x} {a} {s} e m = elim (subst (In a) (sym e) m) [ inl h ↦ h | inr h ↦ absurd h ]

  reduce_list-Sound : (f : ℕ) → Sound (reduce_list lists f)
  reduce_list-Sound zero x a s e m = absurd (unfold reduce_list in cc)
  reduce_list-Sound (suc f) x a s e m = elim (Option-cases (lookup x lists)) [
    | inl free ↦ leaf free (In-single (some-injective _ _ (sym (reduce_list-none f x free) ∙ e)) m)
    | inr (l, found) ↦
        let (y, n, d) =
          append_all-Sound (reduce_list lists f) (reduce_list-Sound f) l a s
            (sym (reduce_list-some f x l found) ∙ e) m in
        member found n d
  ]

  reduce_list-Complete : (f : ℕ) → Complete (reduce_list lists f)
  reduce_list-Complete zero x a s e d = absurd (unfold reduce_list in cc)
  reduce_list-Complete (suc f) x a s e (leaf free h) =
      subst (In a) (some-injective _ _ (sym (reduce_list-none f x free) ∙ e)) (inl h)
  reduce_list-Complete (suc f) x a s e (member {y = y} {l = l} found n d) =
      append_all-Complete (reduce_list lists f) (reduce_list-Complete f) l a y s
        (sym (reduce_list-some f x l found) ∙ e) n d

  module _ (rank : Str → ℕ) (ranked : IsRanked lists rank) where
    reduce_list-total :
        (f : ℕ) (x : Str) → rank x < f → (s : List Str) × (reduce_list lists f x ≡ some s)
    reduce_list-total zero x h = absurd (omega arith)
    reduce_list-total (suc f) x h = elim (Option-cases (lookup x lists)) [
      | inl free ↦ (trim_bounding_quotes x ∷ [], reduce_list-none f x free)
      | inr (l, found) ↦
          let (s, e) =
            append_all-total (reduce_list lists f) l
              (All-map (λ y low. reduce_list-total f y (omega arith)) l (ranked.falls x l found)) in
          (s, reduce_list-some f x l found ∙ e)
    ]

    -- If no named list leads back to itself, the atoms of an `in` or a `pmatch` are resolved within
    -- a fuel above their ranks, and the result has exactly the atoms to which they expand.
    pub extract_list_from_atoms-exact :
        (f : ℕ) (es : List Element)
        → All (λ x. rank x < f) (atoms es)
        → (s : List Str) × (extract_list_from_atoms lists f es ≡ some s)
          × ((a : Str) → In a s ↔ ((x : Str) × In x (atoms es) × Expands lists x a))
    unfolding extract_list_from_atoms
    extract_list_from_atoms-exact f es h =
        let (s, e) =
          append_all-total (reduce_list lists f) (atoms es)
            (All-map (λ y low. reduce_list-total f y low) (atoms es) h) in
        (
          s,
          e,
          λ a. (
            λ m. append_all-Sound (reduce_list lists f) (reduce_list-Sound f) (atoms es) a s e m,
            λ (x, n, d).
                append_all-Complete (reduce_list lists f) (reduce_list-Complete f) (atoms es) a x s
                  e n d,
          ),
        )
