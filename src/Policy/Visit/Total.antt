-- ===== src/Policy/Visit/Total.antt =====
-- Compilation of an expression ends when macros and lists do not lead back to themselves, and the
-- criterion decides what the expression says.
use sf_processor.Prelude.{
  ℕ, zero, suc, ◌<◌, ◌≤◌, ◌≡◌, ◌↔◌, true, Option, none, some, List, Option-cases, inl, inr, nat_eq,
  list_eq, arith,
}
use sf_processor.Prelude.Assoc.{lookup}
use sf_processor.Prelude.Text.{Str}
use sf_processor.Engine.Record.{Record}
use sf_processor.Engine.Mapper.{FieldMapper, JsonGet}
use sf_processor.Engine.Criterion
use sf_processor.Engine.Criterion.{Criterion, eval, false_criterion}
use sf_processor.Engine.Criterion.Laws.{all-any-eval}
use sf_processor.Policy.Syntax.{
  Element, Expression, last_or, or_more, Conjunction, last_and, and_more, Term, variable, not_term,
  exists_term, binary, in_term, pmatch_term, paren,
}
use sf_processor.Policy.Lists.{extract_list_from_atoms}
use sf_processor.Policy.Lists.Expand.{IsRanked, extract_list_from_atoms-exact}
use sf_processor.Policy.Visit.{Tables, visit_variable, visit_expression}
use sf_processor.Policy.Visit.Meaning.{Holds, Solves, Scoped, ScopedAnd, ScopedTerm}
use sf_processor.Policy.Visit.Meaning.Exact.{Means, iff_of_eq, or_exact}

module _ (mr lr : Str → ℕ) (depth a b : ℕ) (a_le_b : a ≤ b) where
  mutual
    Scoped-mono : (e : Expression) → Scoped mr lr depth a e → Scoped mr lr depth b e
    Scoped-mono (last_or k) h = ScopedAnd-mono k h
    Scoped-mono (or_more k e) (h, g) = (ScopedAnd-mono k h, Scoped-mono e g)

    ScopedAnd-mono : (k : Conjunction) → ScopedAnd mr lr depth a k → ScopedAnd mr lr depth b k
    ScopedAnd-mono (last_and t) h = ScopedTerm-mono t h
    ScopedAnd-mono (and_more t k) (h, g) = (ScopedTerm-mono t h, ScopedAnd-mono k g)

    ScopedTerm-mono : (t : Term) → ScopedTerm mr lr depth a t → ScopedTerm mr lr depth b t
    ScopedTerm-mono (variable name) h = omega arith
    ScopedTerm-mono (not_term t) h = ScopedTerm-mono t h
    ScopedTerm-mono (exists_term attr) h = tt
    ScopedTerm-mono (binary l op r) h = tt
    ScopedTerm-mono (in_term attr es) h = h
    ScopedTerm-mono (pmatch_term attr es) h = h
    ScopedTerm-mono (paren e) h = Scoped-mono e h

-- No list and no macro leads back to itself, by ranks that fall; lists nest less than `depth` deep.
pub record IsLayered (t : Tables) (macro_rank list_rank : Str → ℕ) (depth : ℕ) : Type 0 where
  pub lists : IsRanked t.lists list_rank
  pub macros :
      (x : Str) (body : Expression)
      → lookup x t.macro_ctxs ≡ some body
      → Scoped macro_rank list_rank depth (macro_rank x) body

module _ (gjson : JsonGet) (m : FieldMapper) (t : Tables) (macro_rank list_rank : Str → ℕ)
    (depth : ℕ) (layered : IsLayered t macro_rank list_rank depth) (ρ : Record → Str → Type 0)
    (solves : (r : Record) → Solves gjson m t (ρ r) r) where
  variable_none :
      (vm : Expression → Option Criterion) (resolve : List Element → Option (List Str)) (x : Str)
      → lookup x t.macro_ctxs ≡ none
      → Means (visit_variable gjson m t vm resolve x) (λ r. ρ r x)
  unfolding visit_variable eval false_criterion
  variable_none vm resolve x free = (
    false_criterion,
    rw (free, visit_variable),
    λ r. (λ h. absurd (cc), λ p. absurd ((solves r).unknown x free p)),
  )

  variable_some :
      (vm : Expression → Option Criterion) (resolve : List Element → Option (List Str)) (x : Str)
      (body : Expression)
      → lookup x t.macro_ctxs ≡ some body
      → Means (vm body) (λ r. Holds gjson m t.lists (ρ r) r body)
      → Means (visit_variable gjson m t vm resolve x) (λ r. ρ r x)
  unfolding visit_variable
  variable_some vm resolve x body found (c, e, exact) = (
    c,
    rw (found, visit_variable) e,
    λ r.
        let known = (solves r).known x body found in
        (λ h. known.1 ((exact r).0 h), λ p. (exact r).1 (known.0 p)),
  )

  -- The step of the induction on the fuel.
  from_variables :
      (f : ℕ)
      → ((x : Str)
          → macro_rank x < f
          → Means
              (visit_variable gjson m t
                (visit_expression gjson m t depth f)
                (extract_list_from_atoms t.lists depth)
                x)
              (λ r. ρ r x))
      → (e : Expression) → Scoped macro_rank list_rank depth f e
      → Means (visit_expression gjson m t depth (suc f) e) (λ r. Holds gjson m t.lists (ρ r) r e)
  from_variables f var e h =
      let (cs, q, exact) =
        or_exact gjson m t macro_rank list_rank depth f (visit_expression gjson m t depth f)
          (extract_list_from_atoms t.lists depth) ρ var
          (extract_list_from_atoms-exact t.lists list_rank layered.lists depth) e h in
      (
        Criterion.any cs,
        unfold visit_expression in rw q,
        λ r. iff_of_eq (all-any-eval cs r).1 (exact r),
      )

  -- If no list and no macro leads back to itself, an expression with macros of ranks below f and
  -- lists of ranks below the depth is compiled with f + 1 rounds of fuel, and its criterion is true
  -- of a record exactly when the expression holds of it.
  pub visit_expression-exact :
      (f : ℕ) (e : Expression)
      → Scoped macro_rank list_rank depth f e
      → (c : Criterion) × (visit_expression gjson m t depth (suc f) e ≡ some c)
        × ((r : Record) → (eval c r ≡ true) ↔ Holds gjson m t.lists (ρ r) r e)
  visit_expression-exact zero e h = from_variables zero (λ x low. absurd (omega arith)) e h
  visit_expression-exact (suc f) e h =
      from_variables (suc f)
        (λ x low. elim (Option-cases (lookup x t.macro_ctxs)) [
          | inl free ↦
              variable_none (visit_expression gjson m t depth (suc f))
                (extract_list_from_atoms t.lists depth) x free
          | inr (body, found) ↦
              variable_some (visit_expression gjson m t depth (suc f))
                (extract_list_from_atoms t.lists depth) x body found
                (visit_expression-exact f body (
                  Scoped-mono macro_rank list_rank depth (macro_rank x) f (omega arith) body
                    (layered.macros x body found)))
        ])
        e h
