-- ===== src/Engine/Criterion/Laws.antt =====
-- core/policyengine/engine/predicates.go: what the combinators and the comparisons decide.
use sf_processor.Prelude.{
  ◌≡◌, refl, ◌&&◌, ◌||◌, List, [], ◌∷◌, map, any as exists_in, every, All, arith, nat_eq, list_eq,
}
use mathlib.Core.List.{foldl}
use sf_processor.Prelude.Int.{leb_ℤ, ltb_ℤ, leb_ℤ-eq-not-ltb_ℤ}
use sf_processor.Prelude.Text.{Str}
use sf_processor.Engine.Record.{Record}
use sf_processor.Engine.Mapper.{FieldMapper, JsonGet, map_int, map_str}
use sf_processor.Engine.Criterion.{
  Criterion, eval, true_criterion, false_criterion, and, or, all, any, compare_texts, eq, ge, gt,
  le, lt, in_list, pmatch, contains,
}

foldl-and :
    (cs : List Criterion) (acc : Criterion) (r : Record)
    → eval (foldl and acc cs) r ≡ (eval acc r && every (λ c. eval c r) cs)
unfolding eval and
foldl-and [] acc r = ground arith
foldl-and (c ∷ cs) acc r = ground (arith, foldl-and cs (and acc c) r)

foldl-or :
    (cs : List Criterion) (acc : Criterion) (r : Record)
    → eval (foldl or acc cs) r ≡ (eval acc r || exists_in (λ c. eval c r) cs)
unfolding eval or
foldl-or [] acc r = ground arith
foldl-or (c ∷ cs) acc r = ground (arith, foldl-or cs (or acc c) r)

-- `all` holds of a record exactly when every criterion of the list does (also the empty list), and
-- `any` exactly when some criterion does.
pub all-any-eval :
    (cs : List Criterion) (r : Record)
    → (eval (all cs) r ≡ every (λ c. eval c r) cs)
      × (eval (any cs) r ≡ exists_in (λ c. eval c r) cs)
unfolding all any eval true_criterion false_criterion
all-any-eval cs r = (foldl-and cs true_criterion r, foldl-or cs false_criterion r)

module _ (gjson : JsonGet) (m : FieldMapper) where
  -- The four comparisons read the two attributes as integers and decide `≤`, `<`, `≥` and `>`.
  pub comparisons-eval :
      (a b : Str) (r : Record)
      → (eval (le gjson m a b) r ≡ leb_ℤ (map_int m a r) (map_int m b r))
        × (eval (lt gjson m a b) r ≡ ltb_ℤ (map_int m a r) (map_int m b r))
        × (eval (ge gjson m a b) r ≡ leb_ℤ (map_int m b r) (map_int m a r))
        × (eval (gt gjson m a b) r ≡ ltb_ℤ (map_int m b r) (map_int m a r))
  unfolding le lt ge gt eval
  comparisons-eval a b r =
      let x = map_int m a r in
      let y = map_int m b r in
      (ground (arith, leb_ℤ-eq-not-ltb_ℤ x y), ground (arith, leb_ℤ-eq-not-ltb_ℤ y x), refl, refl)

  -- The text that an attribute of a list stands for: a literal is its own text.
  abbrev pub IsLiteral : Record → Str → Type 0
  IsLiteral r v = map_str gjson m v r ≡ v

  any_eq :
      (attr : Str) (list : List Str) (r : Record)
      → All (IsLiteral r) list
      → exists_in (λ c. eval c r) (map (eq gjson m attr) list) ≡ eval (in_list gjson m attr list) r
  unfolding eval in_list eq compare_texts
  any_eq attr [] r h = refl
  any_eq attr (v ∷ list) r (e, h) = ground (arith, e, any_eq attr list r h)

  any_contains :
      (attr : Str) (list : List Str) (r : Record)
      → All (IsLiteral r) list
      → exists_in (λ c. eval c r) (map (contains gjson m attr) list)
        ≡ eval (pmatch gjson m attr list) r
  unfolding eval pmatch contains compare_texts
  any_contains attr [] r h = refl
  any_contains attr (v ∷ list) r (e, h) = ground (arith, e, any_contains attr list r h)

  -- Over a list of literals `in` is the disjunction of the equalities with its elements, and
  -- `pmatch` the disjunction of the `contains` tests.
  pub in_pmatch-any :
      (attr : Str) (list : List Str) (r : Record)
      → All (IsLiteral r) list
      → (eval (in_list gjson m attr list) r ≡ eval (any (map (eq gjson m attr) list)) r)
        × (eval (pmatch gjson m attr list) r ≡ eval (any (map (contains gjson m attr) list)) r)
  in_pmatch-any attr list r h = (
    ground (arith, any_eq attr list r h, (all-any-eval (map (eq gjson m attr) list) r).1),
    ground
        (arith, any_contains attr list r h, (all-any-eval (map (contains gjson m attr) list) r).1),
  )
