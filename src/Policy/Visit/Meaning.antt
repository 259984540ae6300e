-- ===== src/Policy/Visit/Meaning.antt =====
-- What an expression of the policy language says of a record, with no criteria in it.
pub mod Exact
use sf_processor.Prelude.{
  ℕ, ◌<◌, ◌≡◌, ◌⊎◌, ◌↔◌, Bool, true, false, Option, none, some, List, In, All, nat_eq, list_eq,
}
use sf_processor.Prelude.Assoc.{lookup}
use sf_processor.Prelude.Int.{ℤ, ◌≤ℤ◌}
use sf_processor.Prelude.Text.{Str, split}
use sf_processor.Prelude.Text
use sf_processor.Engine.Record.{Record}
use sf_processor.Engine.Mapper.{FieldMapper, JsonGet, map_value, map_int, map_str}
use sf_processor.Engine.Criterion.{
  Operator, eq_op, contains_op, icontains_op, startswith_op, endswith_op, is_zero,
}
use sf_processor.Policy.Syntax.{
  BinaryOperator, lt, le, gt, ge, eq, neq, contains, icontains, startswith, endswith, Element,
  Expression, last_or, or_more, Conjunction, last_and, and_more, Term, variable, not_term,
  exists_term, binary, in_term, pmatch_term, paren,
}
use sf_processor.Policy.Lists.{ListTable, atoms}
use sf_processor.Policy.Lists.Expand.{Expands}
use sf_processor.Policy.Visit.{Tables}

-- Some comma-separated part of one text is related to some part of the other.
abbrev pub SomeParts : Operator → Str → Str → Type 0
SomeParts op l r =
    (p : Str) × (q : Str) × In p (split b',' l) × In q (split b',' r) × (op p q ≡ true)

-- Some atom to which an element expands is related to the text.
abbrev pub SomeAtom : ListTable → Operator → Str → List Element → Type 0
SomeAtom lists op l es =
    (x : Str) × (a : Str) × In x (atoms es) × Expands lists x a × SomeParts op l a

module _ (gjson : JsonGet) (m : FieldMapper) where
  abbrev pub HoldsBinary : Record → Str → BinaryOperator → Str → Type 0
  HoldsBinary r a contains b = SomeParts contains_op (map_str gjson m a r) (map_str gjson m b r)
  HoldsBinary r a icontains b = SomeParts icontains_op (map_str gjson m a r) (map_str gjson m b r)
  HoldsBinary r a startswith b = SomeParts startswith_op (map_str gjson m a r) (map_str gjson m b r)
  HoldsBinary r a endswith b = SomeParts endswith_op (map_str gjson m a r) (map_str gjson m b r)
  HoldsBinary r a eq b = SomeParts eq_op (map_str gjson m a r) (map_str gjson m b r)
  HoldsBinary r a neq b = ¬ SomeParts eq_op (map_str gjson m a r) (map_str gjson m b r)
  HoldsBinary r a gt b = ¬ (map_int m a r ≤ℤ map_int m b r)
  HoldsBinary r a ge b = map_int m b r ≤ℤ map_int m a r
  HoldsBinary r a lt b = ¬ (map_int m b r ≤ℤ map_int m a r)
  HoldsBinary r a le b = map_int m a r ≤ℤ map_int m b r

  -- `ρ` says which variables hold.
  module _ (lists : ListTable) (ρ : Str → Type 0) (r : Record) where
    abbrev mutual
      pub Holds : Expression → Type 0
      Holds (last_or c) = HoldsAnd c
      Holds (or_more c e) = HoldsAnd c ⊎ Holds e

      pub HoldsAnd : Conjunction → Type 0
      HoldsAnd (last_and t) = HoldsTerm t
      HoldsAnd (and_more t k) = HoldsTerm t × HoldsAnd k

      pub HoldsTerm : Term → Type 0
      HoldsTerm (variable name) = ρ name
      HoldsTerm (not_term t) = ¬ HoldsTerm t
      HoldsTerm (exists_term attr) = ¬ (is_zero (map_value m attr r) ≡ true)
      HoldsTerm (binary a op b) = HoldsBinary r a op b
      HoldsTerm (in_term attr es) = SomeAtom lists eq_op (map_str gjson m attr r) es
      HoldsTerm (pmatch_term attr es) = SomeAtom lists contains_op (map_str gjson m attr r) es
      HoldsTerm (paren e) = Holds e

  -- The variables hold when their macros do, and a variable with no macro does not.
  pub record Solves (t : Tables) (ρ : Str → Type 0) (r : Record) : Type 0 where
    pub unknown : (x : Str) → lookup x t.macro_ctxs ≡ none → ¬ ρ x
    pub known :
        (x : Str) (body : Expression)
        → lookup x t.macro_ctxs ≡ some body
        → ρ x ↔ Holds t.lists ρ r body

-- Every variable has a rank below `f`, and every atom of a list one below `depth`.
module _ (macro_rank list_rank : Str → ℕ) (depth f : ℕ) where
  abbrev mutual
    pub Scoped : Expression → Type 0
    Scoped (last_or c) = ScopedAnd c
    Scoped (or_more c e) = ScopedAnd c × Scoped e

    pub ScopedAnd : Conjunction → Type 0
    ScopedAnd (last_and t) = ScopedTerm t
    ScopedAnd (and_more t k) = ScopedTerm t × ScopedAnd k

    pub ScopedTerm : Term → Type 0
    ScopedTerm (variable name) = macro_rank name < f
    ScopedTerm (not_term t) = ScopedTerm t
    ScopedTerm (exists_term attr) = Unit
    ScopedTerm (binary a op b) = Unit
    ScopedTerm (in_term attr es) = All (λ x. list_rank x < depth) (atoms es)
    ScopedTerm (pmatch_term attr es) = All (λ x. list_rank x < depth) (atoms es)
    ScopedTerm (paren e) = Scoped e
