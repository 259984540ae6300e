-- ===== src/Policy/Process/Verdict.antt =====
-- Which records `Process` and the workers pass on, and what they add to them.
use sf_processor.Prelude.{
  ◌≡◌, refl, sym, ap, ◌∙◌, ◌⊎◌, inl, inr, ◌↔◌, Bool, true, false, ◌||◌, Option, none, some,
  some-injective, List, [], ◌∷◌, ◌++◌, map, All, All-map, Bool-cases, select, any as exists_in,
  if◌then◌else◌, nat_eq, list_eq, ◌==◌, arith, subst,
}
use sf_processor.Prelude.Text.{Str, str}
use sf_processor.Engine.Record.{ReadsFlat, Record}
use sf_processor.Engine.Context.{get_rules, is_alert}
use sf_processor.Engine.Mapper.{FieldMapper, JsonGet, map_str}
use sf_processor.Engine.Criterion.{eval}
use sf_processor.Policy.Interpreter.{Mode, enrich_mode, alert_mode, Rule, PolicyInterpreter}
use sf_processor.Policy.Process.{
  is_enrich, is_alert_mode, eval_filters, is_applicable, matches, apply_rule, apply_rules,
  worker_rules, process, worker_round,
}
use sf_processor.Policy.Actions.{ActionHandler}
use sf_processor.Policy.Process.Keeps.{HasTameActions, Applied, apply_rules-Applied}

-- The loop of the workers and the one of `Process` make the same of a record.
worker_rules-eq :
    (gjson : JsonGet) (m : FieldMapper) (mode : Mode) (ah : ActionHandler) (rules : List Rule)
    (r : Record) (match : Bool)
    → worker_rules gjson m mode ah rules r match ≡ apply_rules gjson m mode ah rules r match
unfolding worker_rules apply_rules
worker_rules-eq gjson m mode ah [] r match = refl
worker_rules-eq gjson m mode ah (rule ∷ rules) r match =
    elim (Bool-cases (matches gjson m rule r)) [
      | inl y ↦
          rw (y, worker_rules, apply_rules)
            (worker_rules-eq gjson m mode ah rules (apply_rule gjson m mode ah rule r) true)
      | inr n ↦ rw (n, worker_rules, apply_rules) (worker_rules-eq gjson m mode ah rules r match)
    ]

-- A worker sends downstream what `Process` returns, if the interpreter has an output.
pub worker_round-eq-process :
    (gjson : JsonGet) (m : FieldMapper) (pi : PolicyInterpreter) (wired : Bool) (r : Record)
    → worker_round gjson m pi wired r ≡ (if wired then process gjson m pi r else none)
unfolding worker_round process
worker_round-eq-process gjson m pi wired r =
    rw (worker_rules-eq gjson m pi.mode pi.ah pi.rules r (is_enrich pi.mode)) (ground arith)

-- The shape of `Process`: two tests in front of a result.
abbrev gate {ℓ} : {A : Type ℓ} → Bool → Bool → A → Option A
gate drop match x = if drop then none else if match then some x else none

gate-none {ℓ} :
    {A : Type ℓ} (drop match : Bool) (x : A)
    → (gate drop match x ≡ none) ↔ ((drop ≡ true) ⊎ (match ≡ false))
gate-none true match x = (λ h. inl refl, λ h. refl)
gate-none false true x = (λ h. absurd (cc), elim [ inl h ↦ absurd (cc) | inr h ↦ absurd (cc) ])
gate-none false false x = (λ h. inr refl, λ h. refl)

gate-some {ℓ} : {A : Type ℓ} (drop match : Bool) (x y : A) → gate drop match x ≡ some y → x ≡ y
gate-some true match x y h = absurd (cc)
gate-some false true x y h = some-injective _ _ h
gate-some false false x y h = absurd (cc)

no_match_iff :
    (mode : Mode) (hit : Bool)
    → ((is_enrich mode || hit) ≡ false) ↔ ((mode ≡ alert_mode) × (hit ≡ false))
no_match_iff enrich_mode hit = ground arith
no_match_iff alert_mode hit = ground arith

module _ (gjson : JsonGet) (m : FieldMapper) where
  exists_same :
      (pfs : List Str) (a b : Str)
      → a ≡ b
      → exists_in (λ pf. a == pf) pfs ≡ exists_in (λ pf. b == pf) pfs
  exists_same pfs a b e = ap (λ t. exists_in (λ pf. t == pf) pfs) e

  -- Whether a rule matches is seen from the telemetry, if its condition is.
  pub matches-ReadsFlat :
      ReadsFlat (map_str gjson m (str "sf.type"))
      → (q : Rule) → ReadsFlat (eval q.condition)
      → ReadsFlat (matches gjson m q)
  unfolding matches is_applicable
  matches-ReadsFlat type q cond r s e = ground (arith, cond r s e, type r s e)

  module _ (pi : PolicyInterpreter) (tame : HasTameActions pi.ah)
      (type : ReadsFlat (map_str gjson m (str "sf.type")))
      (conditions : All (λ q. ReadsFlat (eval (Rule.condition q))) pi.rules) (r : Record) where
    abbrev hit : Bool
    hit = exists_in (λ q. matches gjson m q r) pi.rules

    applied :
        Applied gjson m pi.mode pi.ah tame r pi.rules r
          (is_enrich pi.mode)
          (apply_rules gjson m pi.mode pi.ah pi.rules r (is_enrich pi.mode))
    applied =
        apply_rules-Applied gjson m pi.mode pi.ah tame r pi.rules r (is_enrich pi.mode) refl
          (All-map (λ q cond. matches-ReadsFlat type q cond) pi.rules conditions)

    -- With actions that only add tags and hashes, and conditions that see only the telemetry: a
    -- record is dropped exactly when a filter drops it, or in alert mode no rule matches it. One
    -- that is passed on has its telemetry unchanged, has the matching rules appended to the rules of
    -- its context in the order of the policy, and is marked as an alert according to the mode if a
    -- rule matched, and as before otherwise.
    pub process_verdict :
        ((process gjson m pi r ≡ none)
          ↔ ((eval_filters pi.filters r ≡ true) ⊎ ((pi.mode ≡ alert_mode) × (hit ≡ false))))
        × ((out : Record)
            → process gjson m pi r ≡ some out
            → (out.fr ≡ r.fr)
              × (get_rules out.ctx
                  ≡ get_rules r.ctx
                    ++ map (λ q. Rule.head q) (select (λ q. matches gjson m q r) pi.rules))
              × (is_alert out.ctx ≡ (if hit then is_alert_mode pi.mode else is_alert r.ctx)))
    unfolding process
    process_verdict =
        let (r', match) = apply_rules gjson m pi.mode pi.ah pi.rules r (is_enrich pi.mode) in
        let a = applied in
        let g = gate-none (eval_filters pi.filters r) match r' in
        let n = no_match_iff pi.mode hit in
        (
          (
            λ h. elim (g.0 h) [ inl d ↦ inl d | inr q ↦ inr (n.0 (sym a.match ∙ q)) ],
            elim [ inl d ↦ g.1 (inl d) | inr q ↦ g.1 (inr (a.match ∙ n.1 q)) ],
          ),
          λ out h.
              subst
                (λ o.
                  (o.fr ≡ r.fr)
                  × (get_rules o.ctx
                      ≡ get_rules r.ctx
                        ++ map (λ q. Rule.head q) (select (λ q. matches gjson m q r) pi.rules))
                  × (is_alert o.ctx ≡ (if hit then is_alert_mode pi.mode else is_alert r.ctx)))
                (gate-some (eval_filters pi.filters r) match r' out h) (a.flat, a.rules, a.alert),
        )
