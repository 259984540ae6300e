-- ===== src/Policy/Syntax.antt =====
-- core/policyengine/lang/Sfpl.g4: the parse trees that the interpreter walks. A text is that of the
-- context's GetText, with quotes.
use sf_processor.Prelude.{List}
use sf_processor.Prelude.Text.{Str}

pub data BinaryOperator : Type 0 where
  lt le gt ge eq neq contains icontains startswith endswith : BinaryOperator

-- What stands between the parentheses of `in` and `pmatch`: an atom, or a bracketed list of atoms.
pub data Element : Type 0 where
  atom : Str → Element
  items : List Str → Element

mutual
  -- or_expression, which is all that an expression holds: one conjunction or more
  pub data Expression : Type 0 where
    last_or : Conjunction → Expression
    or_more : Conjunction → Expression → Expression

  -- and_expression: one term or more
  pub data Conjunction : Type 0 where
    last_and : Term → Conjunction
    and_more : Term → Conjunction → Conjunction

  pub data Term : Type 0 where
    variable : Str → Term
    not_term : Term → Term
    exists_term : Str → Term
    binary : Str → BinaryOperator → Str → Term
    in_term : Str → List Element → Term
    pmatch_term : Str → List Element → Term
    paren : Expression → Term
