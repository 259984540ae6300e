-- ===== src/Policy/Interpreter/OnePass.antt =====
-- core/policyengine/engine/interpreter.go: the two walks over a file compile its rules and filters as
-- one pass with the final tables does.
use sf_processor.Prelude.{
  ◌>>=◌, ℕ, ltb, ◌||◌, ◌≡◌, refl, sym, ap, ◌∙◌, inl, inr, Option, none, some, List, [], ◌∷◌, ◌++◌,
  map, All, Option-cases, nat_eq, list_eq,
}
use mathlib.Core.Path.{ap₂}
use mathlib.Core.List.{append-nil, append_assoc}
use sf_processor.Engine.Mapper.{FieldMapper, JsonGet}
use sf_processor.Policy.Visit.{Tables, visit_expression}
use sf_processor.Policy.Interpreter.{
  PolicyInterpreter, Rule, Filter, Declaration, prule, pfilter, pmacro, plist, skipped, rule_head,
  get_enabled_flag, exit, walk, parsed, compile_file,
}
use sf_processor.Policy.Interpreter.TwoPass.{
  first_pass, Defined, AreApart, define, define_all, define_all-Defined, define_same, first_walk,
}

-- The interpreter with the rules and the filters appended, if all of them compiled.
abbrev pub finish :
    PolicyInterpreter → Option (List Rule) → Option (List Filter) → Option PolicyInterpreter
finish pi none fs = none
finish pi (some rs) none = none
finish pi (some rs) (some fs) = some (record pi {
  rules = PolicyInterpreter.rules pi ++ rs;
  filters = PolicyInterpreter.filters pi ++ fs;
})

finish-rule :
    (pi : PolicyInterpreter) (r : Rule) (rs : Option (List Rule)) (fs : Option (List Filter))
    → finish (record pi { rules = pi.rules ++ r ∷ [] }) rs fs
      ≡ finish pi (rs >>= λ qs. some (r ∷ qs)) fs
finish-rule pi r none fs = refl
finish-rule pi r (some rs) none = refl
finish-rule pi r (some rs) (some fs) =
    ap (λ z. some (record pi { rules = z; filters = pi.filters ++ fs }))
      (append_assoc pi.rules (r ∷ []) rs)

finish-filter :
    (pi : PolicyInterpreter) (f : Filter) (rs : Option (List Rule)) (fs : Option (List Filter))
    → finish (record pi { filters = pi.filters ++ f ∷ [] }) rs fs
      ≡ finish pi rs (fs >>= λ gs. some (f ∷ gs))
finish-filter pi f none fs = refl
finish-filter pi f (some rs) none = refl
finish-filter pi f (some rs) (some fs) =
    ap (λ z. some (record pi { rules = pi.rules ++ rs; filters = z }))
      (append_assoc pi.filters (f ∷ []) fs)

finish-none : (pi : PolicyInterpreter) (rs : Option (List Rule)) → finish pi rs none ≡ none
finish-none pi none = refl
finish-none pi (some rs) = refl

module _ (gjson : JsonGet) (m : FieldMapper) (depth fuel : ℕ) where
  -- The rules of a file, all compiled with the same tables.
  pub compile_rules : Tables → List Declaration → Option (List Rule)
  compile_rules t [] = some []
  compile_rules t (prule ctx ∷ ds) = do
    c ← visit_expression gjson m t depth fuel ctx.expression
    rs ← compile_rules t ds
    some (record { head = rule_head ctx; condition = c } ∷ rs)
  compile_rules t (_ ∷ ds) = compile_rules t ds

  -- The filters of a file, likewise.
  pub compile_filters : Tables → List Declaration → Option (List Filter)
  compile_filters t [] = some []
  compile_filters t (pfilter name e enabled ∷ ds) = do
    c ← visit_expression gjson m t depth fuel e
    fs ← compile_filters t ds
    some (record { name = name; condition = c; enabled = get_enabled_flag enabled } ∷ fs)
  compile_filters t (_ ∷ ds) = compile_filters t ds

  second_walk :
      (ds : List Declaration) (pi : PolicyInterpreter)
      → All (Defined pi.tables) ds
      → walk gjson m depth fuel pi ds
        ≡ finish pi (compile_rules pi.tables ds) (compile_filters pi.tables ds)
  unfolding walk compile_rules compile_filters exit define
  second_walk [] pi h =
      ap₂ (λ a b. some (record pi { rules = a; filters = b })) (sym (append-nil pi.rules))
        (sym (append-nil pi.filters))
  second_walk (prule ctx ∷ ds) pi (d, h) =
      elim (Option-cases (visit_expression gjson m pi.tables depth fuel ctx.expression)) [
        | inl n ↦ rw n
        | inr (c, s) ↦
            let r : Rule = record { head = rule_head ctx; condition = c } in
            rw s (
              second_walk ds (record pi { rules = pi.rules ++ r ∷ [] }) h
              ∙ finish-rule pi r (compile_rules pi.tables ds) (compile_filters pi.tables ds))
      ]
  second_walk (pfilter name x enabled ∷ ds) pi (d, h) =
      elim (Option-cases (visit_expression gjson m pi.tables depth fuel x)) [
        | inl n ↦ rw n (sym (finish-none pi (compile_rules pi.tables ds)))
        | inr (c, s) ↦
            let f : Filter = record {
              name = name;
              condition = c;
              enabled = get_enabled_flag enabled;
            } in
            rw s (
              second_walk ds (record pi { filters = pi.filters ++ f ∷ [] }) h
              ∙ finish-filter pi f (compile_rules pi.tables ds) (compile_filters pi.tables ds))
      ]
  second_walk (pmacro name x ∷ ds) pi (d, h) =
      ap (λ t. walk gjson m depth fuel (record pi { tables = t }) ds)
        (define_same pi.tables (pmacro name x) d)
      ∙ second_walk ds pi h
  second_walk (plist name s ∷ ds) pi (d, h) =
      ap (λ t. walk gjson m depth fuel (record pi { tables = t }) ds)
        (define_same pi.tables (plist name s) d)
      ∙ second_walk ds pi h
  second_walk (skipped ∷ ds) pi (d, h) = second_walk ds pi h

  -- If no two macros and no two lists of a file share a name, compiling the file gives the rules
  -- and the filters of a single pass over it with all of its lists and macros already defined, those
  -- too that are defined behind their use; it is an error exactly when the parser counted one.
  pub compile_file-one_pass :
      (pi : PolicyInterpreter) (ds : List Declaration) (lexer_errors parser_errors : ℕ)
      → AreApart ds
      → compile_file gjson m depth fuel pi
          (parsed (map first_pass ds) ds lexer_errors parser_errors)
        ≡ (finish
              (record pi { tables = define_all pi.tables ds })
              (compile_rules (define_all pi.tables ds) ds)
              (compile_filters (define_all pi.tables ds) ds)
            >>= λ done. some (done, ltb 0 lexer_errors || ltb 0 parser_errors))
  unfolding compile_file
  compile_file-one_pass pi ds lexer_errors parser_errors h =
      rw (first_walk gjson m depth fuel ds pi) (
        ap (λ o. o >>= λ done. some (done, ltb 0 lexer_errors || ltb 0 parser_errors))
          (second_walk ds (record pi { tables = define_all pi.tables ds })
            (define_all-Defined pi.tables ds h)))
