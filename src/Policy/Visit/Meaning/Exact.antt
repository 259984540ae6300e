-- ===== src/Policy/Visit/Meaning/Exact.antt =====
-- The criterion that an expression is compiled to decides what the expression says.
use sf_processor.Prelude.{
  ℕ, ◌<◌, ◌≡◌, refl, sym, ◌∙◌, ◌⊎◌, inl, inr, ◌↔◌, Bool, true, false, not as bool_not, ◌||◌, ◌&&◌,
  Option, some, List, [], ◌∷◌, In, All, any, any_intro, any_elim, every, nat_eq, list_eq, arith,
}
use sf_processor.Prelude.Int.{ℤ, ◌≤ℤ◌, leb_ℤ, ltb_ℤ}
use sf_processor.Prelude.Text.{Str, split}
use sf_processor.Engine.Record.{Record}
use sf_processor.Engine.Mapper.{FieldMapper, JsonGet, map_value, map_int, map_str}
use sf_processor.Engine.Criterion
use sf_processor.Engine.Criterion.{
  Criterion, eval, false_criterion, Operator, eq_op, contains_op, icontains_op, startswith_op,
  endswith_op, eval_lists, compare_texts, is_zero, exists, in_list, pmatch, starts_with, ends_with,
}
use sf_processor.Engine.Criterion.Laws.{all-any-eval, comparisons-eval}
use sf_processor.Policy.Syntax.{
  BinaryOperator, lt, le, gt, ge, eq, neq, contains, icontains, startswith, endswith, Element,
  Expression, last_or, or_more, Conjunction, last_and, and_more, Term, variable, not_term,
  exists_term, binary, in_term, pmatch_term, paren,
}
use sf_processor.Policy.Lists.{ListTable, atoms}
use sf_processor.Policy.Lists.Expand.{Expands}
use sf_processor.Policy.Visit.{
  Tables, visit_binary, visit_variable, visit_or, visit_and, visit_term,
}
use sf_processor.Policy.Visit.Meaning.{
  SomeParts, SomeAtom, HoldsBinary, Holds, HoldsAnd, HoldsTerm, Scoped, ScopedAnd, ScopedTerm,
}

eval_lists_iff : (l r : Str) (op : Operator) → (eval_lists l r op ≡ true) ↔ SomeParts op l r
unfolding eval_lists
eval_lists_iff l r op = (
  λ h.
      let (p, m, k) = any_elim (λ p. any (λ q. op p q) (split b',' r)) (split b',' l) h in
      let (q, n, t) = any_elim (λ q. op p q) (split b',' r) k in (p, q, m, n, t),
  λ (p, q, m, n, t).
      any_intro (λ p. any (λ q. op p q) (split b',' r)) p (split b',' l) m
        (any_intro (λ q. op p q) q (split b',' r) n t),
)

not_iff : {P : Type 0} (b : Bool) → (b ≡ true) ↔ P → (bool_not b ≡ true) ↔ (¬ P)
not_iff true e = (λ h. absurd (cc), λ n. absurd (n (e.0 refl)))
not_iff false e = (λ h p. absurd (ground (arith, e.1 p)), λ n. refl)

leb_ℤ_iff : (x y : ℤ) → (leb_ℤ x y ≡ true) ↔ x ≤ℤ y
leb_ℤ_iff x y = (λ h. ground arith, λ h. ground arith)

ltb_ℤ_iff : (x y : ℤ) → (ltb_ℤ y x ≡ true) ↔ (¬ (x ≤ℤ y))
ltb_ℤ_iff x y = (λ h k. ground arith, λ h. ground arith)

pub iff_of_eq : {P : Type 0} {x y : Bool} → x ≡ y → (y ≡ true) ↔ P → (x ≡ true) ↔ P
iff_of_eq e h = (λ p. h.0 (sym e ∙ p), λ q. e ∙ h.1 q)

or_one : {P : Type 0} {x y : Bool} → x ≡ y → (y ≡ true) ↔ P → ((x || false) ≡ true) ↔ P
or_one {x = true} e h = (λ p. h.0 (sym e), λ q. refl)
or_one {x = false} e h = (λ p. h.0 (sym e ∙ p), λ q. e ∙ h.1 q)

or_cons :
    {P Q : Type 0} {x y z : Bool}
    → x ≡ y
    → (y ≡ true) ↔ P
    → (z ≡ true) ↔ Q
    → ((x || z) ≡ true) ↔ (P ⊎ Q)
or_cons {x = true} e h g = (λ p. inl (h.0 (sym e)), λ q. refl)
or_cons {x = false} e h g =
    (λ p. inr (g.0 p), elim [ inl p ↦ absurd (ground (arith, h.1 p)) | inr q ↦ g.1 q ])

and_one : {P : Type 0} {x : Bool} → (x ≡ true) ↔ P → ((x && true) ≡ true) ↔ P
and_one {x = true} h = h
and_one {x = false} h = h

and_cons :
    {P Q : Type 0} {x z : Bool} → (x ≡ true) ↔ P → (z ≡ true) ↔ Q → ((x && z) ≡ true) ↔ (P × Q)
and_cons {x = true} h g = (λ p. (h.0 refl, g.0 p), λ (p, q). g.1 q)
and_cons {x = false} h g = (λ p. absurd (cc), λ (p, q). h.1 p)

-- A criterion that comes out of a visit, and what it decides.
abbrev pub Means : Option Criterion → (Record → Type 0) → Type 0
Means o P = (c : Criterion) × (o ≡ some c) × ((r : Record) → (eval c r ≡ true) ↔ P r)

module _ (gjson : JsonGet) (m : FieldMapper) where
  compare_texts_iff :
      (op : Operator) (a b : Str) (r : Record)
      → (eval (compare_texts gjson m op a b) r ≡ true)
        ↔ SomeParts op (map_str gjson m a r) (map_str gjson m b r)
  unfolding eval compare_texts
  compare_texts_iff op a b r = eval_lists_iff (map_str gjson m a r) (map_str gjson m b r) op

  visit_binary-exact :
      (a : Str) (op : BinaryOperator) (b : Str) (r : Record)
      → (eval (visit_binary gjson m a op b) r ≡ true) ↔ HoldsBinary gjson m r a op b
  unfolding visit_binary Criterion.contains Criterion.icontains starts_with ends_with Criterion.eq
      Criterion.neq Criterion.not eval
  visit_binary-exact a contains b r = compare_texts_iff contains_op a b r
  visit_binary-exact a icontains b r = compare_texts_iff icontains_op a b r
  visit_binary-exact a startswith b r = compare_texts_iff startswith_op a b r
  visit_binary-exact a endswith b r = compare_texts_iff endswith_op a b r
  visit_binary-exact a eq b r = compare_texts_iff eq_op a b r
  visit_binary-exact a neq b r =
      not_iff (eval (compare_texts gjson m eq_op a b) r) (compare_texts_iff eq_op a b r)
  visit_binary-exact a gt b r =
      iff_of_eq (comparisons-eval gjson m a b r).3 (ltb_ℤ_iff (map_int m a r) (map_int m b r))
  visit_binary-exact a ge b r =
      iff_of_eq (comparisons-eval gjson m a b r).2 (leb_ℤ_iff (map_int m b r) (map_int m a r))
  visit_binary-exact a lt b r =
      iff_of_eq (comparisons-eval gjson m a b r).1 (ltb_ℤ_iff (map_int m b r) (map_int m a r))
  visit_binary-exact a le b r =
      iff_of_eq (comparisons-eval gjson m a b r).0 (leb_ℤ_iff (map_int m a r) (map_int m b r))

  -- A list term, once its atoms are resolved.
  list_term_iff :
      (lists : ListTable) (op : Operator) (l : Str) (es : List Element) (s : List Str)
      → ((a : Str) → In a s ↔ ((x : Str) × In x (atoms es) × Expands lists x a))
      → (any (λ v. eval_lists l v op) s ≡ true) ↔ SomeAtom lists op l es
  list_term_iff lists op l es s exact = (
    λ h.
        let (a, n, k) = any_elim (λ v. eval_lists l v op) s h in
        let (x, mem, d) = (exact a).0 n in (x, a, mem, d, (eval_lists_iff l a op).0 k),
    λ (x, a, mem, d, k).
        any_intro (λ v. eval_lists l v op) a s ((exact a).1 (x, mem, d))
          ((eval_lists_iff l a op).1 k),
  )

  module _ (t : Tables) (macro_rank list_rank : Str → ℕ) (depth f : ℕ)
      (vm : Expression → Option Criterion) (resolve : List Element → Option (List Str))
      (ρ : Record → Str → Type 0)
      (var : (x : Str)
        → macro_rank x < f
        → Means (visit_variable gjson m t vm resolve x) (λ r. ρ r x))
      (res : (es : List Element)
        → All (λ x. list_rank x < depth) (atoms es)
        → (s : List Str) × (resolve es ≡ some s)
          × ((a : Str) → In a s ↔ ((x : Str) × In x (atoms es) × Expands t.lists x a))) where
    mutual
      unfolding visit_or visit_and visit_term eval Criterion.not exists in_list pmatch

      pub or_exact :
          (e : Expression)
          → Scoped macro_rank list_rank depth f e
          → (cs : List Criterion) × (visit_or gjson m t vm resolve e ≡ some cs)
            × ((r : Record) → (any (λ c. eval c r) cs ≡ true) ↔ Holds gjson m t.lists (ρ r) r e)
      or_exact (last_or k) h =
          let (ands, e, exact) = and_exact k h in
          (Criterion.all ands ∷ [], rw e, λ r. or_one (all-any-eval ands r).0 (exact r))
      or_exact (or_more k e) (h, g) =
          let (ands, q, exact) = and_exact k h in
          let (ors, p, rest) = or_exact e g in
          (
            Criterion.all ands ∷ ors,
            rw (q, p),
            λ r. or_cons (all-any-eval ands r).0 (exact r) (rest r),
          )

      and_exact :
          (k : Conjunction)
          → ScopedAnd macro_rank list_rank depth f k
          → (cs : List Criterion) × (visit_and gjson m t vm resolve k ≡ some cs)
            × ((r : Record)
                → (every (λ c. eval c r) cs ≡ true) ↔ HoldsAnd gjson m t.lists (ρ r) r k)
      and_exact (last_and x) h =
          let (c, e, exact) = term_exact x h in (c ∷ [], rw e, λ r. and_one (exact r))
      and_exact (and_more x k) (h, g) =
          let (c, e, exact) = term_exact x h in
          let (cs, q, rest) = and_exact k g in (c ∷ cs, rw (e, q), λ r. and_cons (exact r) (rest r))

      term_exact :
          (x : Term)
          → ScopedTerm macro_rank list_rank depth f x
          → Means (visit_term gjson m t vm resolve x) (λ r. HoldsTerm gjson m t.lists (ρ r) r x)
      term_exact (variable name) h = var name h
      term_exact (not_term x) h =
          let (c, e, exact) = term_exact x h in
          (Criterion.not c, rw e, λ r. not_iff (eval c r) (exact r))
      term_exact (exists_term attr) h =
          (exists gjson m attr, refl, λ r. not_iff (is_zero (map_value m attr r)) (λ p. p, λ p. p))
      term_exact (binary a op b) h = (visit_binary gjson m a op b, refl, visit_binary-exact a op b)
      term_exact (in_term attr es) h =
          let (s, e, exact) = res es h in
          (
            in_list gjson m attr s,
            rw e,
            λ r. list_term_iff t.lists eq_op (map_str gjson m attr r) es s exact,
          )
      term_exact (pmatch_term attr es) h =
          let (s, e, exact) = res es h in
          (
            pmatch gjson m attr s,
            rw e,
            λ r. list_term_iff t.lists contains_op (map_str gjson m attr r) es s exact,
          )
      term_exact (paren e) h =
          let (cs, q, exact) = or_exact e h in
          (Criterion.any cs, rw q, λ r. iff_of_eq (all-any-eval cs r).1 (exact r))
