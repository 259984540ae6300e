-- ===== src/Policy/Visit.antt =====
-- core/policyengine/engine/interpreter.go: from parse trees to criteria (visitExpression, visitTerm).
pub mod Meaning
pub mod Total
pub mod Telemetry
use sf_processor.Prelude.{◌>>=◌, ℕ, zero, suc, Option, none, some, List, [], ◌∷◌, nat_eq, list_eq}
use sf_processor.Prelude.Assoc.{lookup}
use sf_processor.Prelude.Text.{Str}
use sf_processor.Engine.Mapper.{FieldMapper, JsonGet}
use sf_processor.Engine.Criterion
use sf_processor.Engine.Criterion.{
  Criterion, false_criterion, all, any, not, exists, eq, neq, in_list, pmatch, starts_with,
  ends_with,
}
use sf_processor.Policy.Syntax.{
  BinaryOperator, lt, le, gt, ge, startswith, endswith, Element, Expression, last_or, or_more,
  Conjunction, last_and, and_more, Term, variable, not_term, exists_term, binary, in_term,
  pmatch_term, paren,
}
use sf_processor.Policy.Lists.{ListTable, extract_list_from_atoms}

-- The accessory maps of the interpreter: named lists, and macros by their expressions.
pub record Tables : Type 0 where
  pub lists : ListTable
  pub macro_ctxs : List (Str × Expression)

module _ (gjson : JsonGet) (m : FieldMapper) where
  unfoldable pub visit_binary : Str → BinaryOperator → Str → Criterion
  visit_binary l BinaryOperator.contains r = Criterion.contains gjson m l r
  visit_binary l BinaryOperator.icontains r = Criterion.icontains gjson m l r
  visit_binary l startswith r = starts_with gjson m l r
  visit_binary l endswith r = ends_with gjson m l r
  visit_binary l BinaryOperator.eq r = eq gjson m l r
  visit_binary l BinaryOperator.neq r = neq gjson m l r
  visit_binary l gt r = Criterion.gt gjson m l r
  visit_binary l ge r = Criterion.ge gjson m l r
  visit_binary l lt r = Criterion.lt gjson m l r
  visit_binary l le r = Criterion.le gjson m l r

  -- `visit_macro` visits the expression of a macro, and `resolve` the atoms of a list.
  module _ (t : Tables) (visit_macro : Expression → Option Criterion)
      (resolve : List Element → Option (List Str)) where
    -- An unknown variable is logged, and stands for the false criterion.
    unfoldable pub visit_variable : Str → Option Criterion
    visit_variable name = elim (lookup name t.macro_ctxs) [
      | some body ↦ visit_macro body
      | none ↦ some false_criterion
    ]

    unfoldable mutual
      unfolding visit_variable visit_binary

      -- orPreds
      pub visit_or : Expression → Option (List Criterion)
      visit_or (last_or c) = do ands ← visit_and c; some (all ands ∷ [])
      visit_or (or_more c e) = do ands ← visit_and c; ors ← visit_or e; some (all ands ∷ ors)

      -- andPreds
      pub visit_and : Conjunction → Option (List Criterion)
      visit_and (last_and t) = do c ← visit_term t; some (c ∷ [])
      visit_and (and_more t k) = do c ← visit_term t; cs ← visit_and k; some (c ∷ cs)

      pub visit_term : Term → Option Criterion
      visit_term (variable name) = visit_variable name
      visit_term (not_term t) = do c ← visit_term t; some (not c)
      visit_term (exists_term attr) = some (exists gjson m attr)
      visit_term (binary l op r) = some (visit_binary l op r)
      visit_term (in_term attr es) = do list ← resolve es; some (in_list gjson m attr list)
      visit_term (pmatch_term attr es) = do list ← resolve es; some (pmatch gjson m attr list)
      visit_term (paren e) = do ors ← visit_or e; some (any ors)

  -- The two fuels are the depth of nested lists and of nested macros; Go recurs without a bound.
  unfoldable pub visit_expression : Tables → ℕ → ℕ → Expression → Option Criterion
  visit_expression t depth zero e = none
  visit_expression t depth (suc f) e = do
    ors ← visit_or t (visit_expression t depth f) (extract_list_from_atoms t.lists depth) e
    some (any ors)
