-- ===== src/Engine/Criterion/Telemetry.antt =====
-- core/policyengine/engine/predicates.go: criteria see only the telemetry of a record, if the
-- mappers do.
use sf_processor.Prelude.{
  ◌≡◌, refl, sym, ap, ◌∙◌, inl, inr, ◌&&◌, ◌||◌, every, All, not as bool_not, some, List, [], ◌∷◌,
  Option-cases, any as exists_in, nat_eq, list_eq,
}
use mathlib.Core.Path.{ap₂}
use sf_processor.Prelude.Assoc.{lookup}
use sf_processor.Prelude.Int.{leb_ℤ, ltb_ℤ}
use sf_processor.Prelude.Text.{Str}
use sf_processor.Engine.Record.{ReadsFlat}
use sf_processor.Engine.Mapper.{
  FieldMapper, FieldMap, JsonGet, map_value, map_int, map_str, split_path, cut, value_text,
}
use sf_processor.Engine.Criterion
use sf_processor.Engine.Criterion.{
  Criterion, eval, all, any, not, true_criterion, false_criterion, Operator, eq_op, compare_texts,
  eval_lists, exists, in_list, pmatch, ge, gt, is_zero,
}
use sf_processor.Engine.Criterion.Laws.{all-any-eval}

-- Every mapper of the table sees only the telemetry.
pub record MapsFlat (m : FieldMapper) : Type 0 where
  pub at : (a : Str) (f : FieldMap) → lookup a m ≡ some f → ReadsFlat f

module _ (gjson : JsonGet) (m : FieldMapper) (flat : MapsFlat m) where
  pub map_value-ReadsFlat : (attr : Str) → ReadsFlat (map_value m attr)
  unfolding map_value
  map_value-ReadsFlat attr r s e = elim (Option-cases (lookup attr m)) [
    | inl n ↦ rw n
    | inr (f, found) ↦ rw found (flat.at attr f found r s e)
  ]

  map_int-ReadsFlat : (attr : Str) → ReadsFlat (map_int m attr)
  unfolding map_int
  map_int-ReadsFlat attr r s e = rw (map_value-ReadsFlat attr r s e)

  pub map_str-ReadsFlat : (attr : Str) → ReadsFlat (map_str gjson m attr)
  unfolding map_str
  map_str-ReadsFlat attr r s e =
      let p = split_path m attr (cut b'[' attr) in
      ap (λ v. value_text gjson p.0 p.1 v) (map_value-ReadsFlat p.0 r s e)

  pub compare_texts-ReadsFlat :
      (op : Operator) (a b : Str) → ReadsFlat (eval (compare_texts gjson m op a b))
  unfolding eval compare_texts
  compare_texts-ReadsFlat op a b r s e =
      ap₂ (λ x y. eval_lists x y op) (map_str-ReadsFlat a r s e) (map_str-ReadsFlat b r s e)

  pub compare_ints-ReadsFlat :
      (a b : Str) → ReadsFlat (eval (ge gjson m a b)) × ReadsFlat (eval (gt gjson m a b))
  unfolding eval ge gt
  compare_ints-ReadsFlat a b = (
    λ r s e. ap₂ (λ x y. leb_ℤ y x) (map_int-ReadsFlat a r s e) (map_int-ReadsFlat b r s e),
    λ r s e. ap₂ (λ x y. ltb_ℤ y x) (map_int-ReadsFlat a r s e) (map_int-ReadsFlat b r s e),
  )

  pub exists-ReadsFlat : (attr : Str) → ReadsFlat (eval (exists gjson m attr))
  unfolding eval exists
  exists-ReadsFlat attr r s e = ap (λ v. bool_not (is_zero v)) (map_value-ReadsFlat attr r s e)

  pub lists-ReadsFlat :
      (attr : Str) (list : List Str)
      → ReadsFlat (eval (in_list gjson m attr list)) × ReadsFlat (eval (pmatch gjson m attr list))
  unfolding eval in_list pmatch
  lists-ReadsFlat attr list = (
    λ r s e. ap (λ x. exists_in (λ v. eval_lists x v eq_op) list) (map_str-ReadsFlat attr r s e),
    λ r s e.
        ap (λ x. exists_in (λ v. eval_lists x v Criterion.contains_op) list)
          (map_str-ReadsFlat attr r s e),
  )

pub not-ReadsFlat : (c : Criterion) → ReadsFlat (eval c) → ReadsFlat (eval (not c))
unfolding eval not
not-ReadsFlat c h r s e = ap bool_not (h r s e)

every_same :
    (cs : List Criterion)
    → All (λ c. ReadsFlat (eval c)) cs
    → ReadsFlat (λ r. every (λ c. eval c r) cs)
every_same [] h r s e = refl
every_same (c ∷ cs) (k, h) r s e = ap₂ (λ x y. x && y) (k r s e) (every_same cs h r s e)

some_same :
    (cs : List Criterion)
    → All (λ c. ReadsFlat (eval c)) cs
    → ReadsFlat (λ r. exists_in (λ c. eval c r) cs)
some_same [] h r s e = refl
some_same (c ∷ cs) (k, h) r s e = ap₂ (λ x y. x || y) (k r s e) (some_same cs h r s e)

module _ (cs : List Criterion) (h : All (λ c. ReadsFlat (eval c)) cs) where
  pub all-any-ReadsFlat : ReadsFlat (eval (all cs)) × ReadsFlat (eval (any cs))
  all-any-ReadsFlat = (
    λ r s e. (all-any-eval cs r).0 ∙ every_same cs h r s e ∙ sym (all-any-eval cs s).0,
    λ r s e. (all-any-eval cs r).1 ∙ some_same cs h r s e ∙ sym (all-any-eval cs s).1,
  )
