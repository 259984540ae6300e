-- ===== src/Policy/Visit/Telemetry.antt =====
-- core/policyengine/engine/interpreter.go: compiled criteria see only the telemetry of a record.
use sf_processor.Prelude.{
  ◌>>=◌, >>=-eq-some, ℕ, zero, suc, ◌≡◌, refl, subst, inl, inr, Option, some, some-injective, List,
  [], ◌∷◌, All, Option-cases, nat_eq, list_eq,
}
use sf_processor.Prelude.Assoc.{lookup}
use sf_processor.Prelude.Text.{Str}
use sf_processor.Engine.Record.{ReadsFlat}
use sf_processor.Engine.Mapper.{FieldMapper, JsonGet}
use sf_processor.Engine.Criterion
use sf_processor.Engine.Criterion.{
  Criterion, eval, false_criterion, eq_op, contains_op, icontains_op, startswith_op, endswith_op,
  starts_with, ends_with,
}
use sf_processor.Engine.Criterion.Telemetry.{
  MapsFlat, compare_texts-ReadsFlat, compare_ints-ReadsFlat, exists-ReadsFlat, lists-ReadsFlat,
  not-ReadsFlat, all-any-ReadsFlat,
}
use sf_processor.Policy.Syntax.{
  BinaryOperator, lt, le, gt, ge, eq, neq, contains, icontains, startswith, endswith, Element,
  Expression, last_or, or_more, Conjunction, last_and, and_more, Term, variable, not_term,
  exists_term, binary, in_term, pmatch_term, paren,
}
use sf_processor.Policy.Lists.{extract_list_from_atoms}
use sf_processor.Policy.Visit.{
  Tables, visit_binary, visit_variable, visit_or, visit_and, visit_term, visit_expression,
}

abbrev pub Flat : Criterion → Type 0
Flat c = ReadsFlat (eval c)

false-Flat : Flat false_criterion
unfolding eval false_criterion
false-Flat r s e = refl

-- Whatever comes out of the option satisfies the predicate.
abbrev Yields : {A : Type 0} → Option A → (A → Type 0) → Type 0
Yields {A} o P = (a : A) → o ≡ some a → P a

Yields-some : {A : Type 0} (P : A → Type 0) (a : A) → P a → Yields (some a) P
Yields-some P a h b e = subst P (some-injective _ _ e) h

Yields-bind :
    {A B : Type 0} (P : A → Type 0) (Q : B → Type 0) (o : Option A) (f : A → Option B)
    → Yields o P
    → ((a : A) → P a → Yields (f a) Q)
    → Yields (o >>= f) Q
Yields-bind P Q o f h k b e = let (a, p, q) = >>=-eq-some o f e in k a (h a p) b q

module _ (gjson : JsonGet) (m : FieldMapper) (flat : MapsFlat m) where
  visit_binary-Flat : (a : Str) (op : BinaryOperator) (b : Str) → Flat (visit_binary gjson m a op b)
  unfolding visit_binary Criterion.contains Criterion.icontains starts_with ends_with Criterion.eq
      Criterion.neq Criterion.le Criterion.lt
  visit_binary-Flat a contains b = compare_texts-ReadsFlat gjson m flat contains_op a b
  visit_binary-Flat a icontains b = compare_texts-ReadsFlat gjson m flat icontains_op a b
  visit_binary-Flat a startswith b = compare_texts-ReadsFlat gjson m flat startswith_op a b
  visit_binary-Flat a endswith b = compare_texts-ReadsFlat gjson m flat endswith_op a b
  visit_binary-Flat a eq b = compare_texts-ReadsFlat gjson m flat eq_op a b
  visit_binary-Flat a neq b =
      not-ReadsFlat (Criterion.eq gjson m a b) (compare_texts-ReadsFlat gjson m flat eq_op a b)
  visit_binary-Flat a gt b = (compare_ints-ReadsFlat gjson m flat a b).1
  visit_binary-Flat a ge b = (compare_ints-ReadsFlat gjson m flat a b).0
  visit_binary-Flat a lt b =
      not-ReadsFlat (Criterion.ge gjson m a b) (compare_ints-ReadsFlat gjson m flat a b).0
  visit_binary-Flat a le b =
      not-ReadsFlat (Criterion.gt gjson m a b) (compare_ints-ReadsFlat gjson m flat a b).1

  module _ (t : Tables) (vm : Expression → Option Criterion)
      (resolve : List Element → Option (List Str))
      (macros : (e : Expression) → Yields (vm e) Flat) where
    visit_variable-Flat : (x : Str) → Yields (visit_variable gjson m t vm resolve x) Flat
    unfolding visit_variable
    visit_variable-Flat x c = elim (Option-cases (lookup x t.macro_ctxs)) [
      | inl free ↦ rw (free, visit_variable) (Yields-some Flat false_criterion false-Flat c)
      | inr (body, found) ↦ rw (found, visit_variable) (macros body c)
    ]

    mutual
      unfolding visit_or visit_and visit_term

      visit_or-Flat : (e : Expression) → Yields (visit_or gjson m t vm resolve e) (All Flat)
      visit_or-Flat (last_or k) =
          Yields-bind (All Flat) (All Flat) _ _ (visit_and-Flat k)
            λ cs h. Yields-some (All Flat) (Criterion.all cs ∷ []) ((all-any-ReadsFlat cs h).0, tt)
      visit_or-Flat (or_more k e) = Yields-bind (All Flat) (All Flat) _ _ (visit_and-Flat k) λ cs h.
          Yields-bind (All Flat) (All Flat) _ _ (visit_or-Flat e)
            λ ds g. Yields-some (All Flat) (Criterion.all cs ∷ ds) ((all-any-ReadsFlat cs h).0, g)

      visit_and-Flat : (k : Conjunction) → Yields (visit_and gjson m t vm resolve k) (All Flat)
      visit_and-Flat (last_and x) =
          Yields-bind Flat (All Flat) _ _ (visit_term-Flat x)
            λ c h. Yields-some (All Flat) (c ∷ []) (h, tt)
      visit_and-Flat (and_more x k) = Yields-bind Flat (All Flat) _ _ (visit_term-Flat x) λ c h.
          Yields-bind (All Flat) (All Flat) _ _ (visit_and-Flat k)
            λ cs g. Yields-some (All Flat) (c ∷ cs) (h, g)

      visit_term-Flat : (x : Term) → Yields (visit_term gjson m t vm resolve x) Flat
      visit_term-Flat (variable name) = visit_variable-Flat name
      visit_term-Flat (not_term x) =
          Yields-bind Flat Flat _ _ (visit_term-Flat x)
            λ c h. Yields-some Flat (Criterion.not c) (not-ReadsFlat c h)
      visit_term-Flat (exists_term attr) =
          Yields-some Flat (Criterion.exists gjson m attr) (exists-ReadsFlat gjson m flat attr)
      visit_term-Flat (binary a op b) =
          Yields-some Flat (visit_binary gjson m a op b) (visit_binary-Flat a op b)
      visit_term-Flat (in_term attr es) =
          Yields-bind (λ _. Unit) Flat _ _ (λ a e. tt)
            λ list _.
              Yields-some Flat (Criterion.in_list gjson m attr list)
                (lists-ReadsFlat gjson m flat attr list).0
      visit_term-Flat (pmatch_term attr es) =
          Yields-bind (λ _. Unit) Flat _ _ (λ a e. tt)
            λ list _.
              Yields-some Flat (Criterion.pmatch gjson m attr list)
                (lists-ReadsFlat gjson m flat attr list).1
      visit_term-Flat (paren e) =
          Yields-bind (All Flat) Flat _ _ (visit_or-Flat e)
            λ cs h. Yields-some Flat (Criterion.any cs) (all-any-ReadsFlat cs h).1

  -- If the mappers see only the telemetry of a record, so does every criterion that an expression
  -- is compiled to, with any tables and any fuel.
  pub visit_expression-Flat :
      (t : Tables) (depth fuel : ℕ) (e : Expression) (c : Criterion)
      → visit_expression gjson m t depth fuel e ≡ some c
      → ReadsFlat (eval c)
  visit_expression-Flat t depth zero e c h = absurd (unfold visit_expression in cc)
  visit_expression-Flat t depth (suc f) e c h =
      Yields-bind (All Flat) Flat
        (visit_or gjson m t (visit_expression gjson m t depth f)
          (extract_list_from_atoms t.lists depth) e)
        (λ ors. some (Criterion.any ors))
        (visit_or-Flat t (visit_expression gjson m t depth f)
          (extract_list_from_atoms t.lists depth) (visit_expression-Flat t depth f) e)
        (λ cs g. Yields-some Flat (Criterion.any cs) (all-any-ReadsFlat cs g).1) c
        (unfold visit_expression in h)
