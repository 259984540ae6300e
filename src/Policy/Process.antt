-- ===== src/Policy/Process.antt =====
-- core/policyengine/engine/interpreter.go: applying the compiled policies to a record.
pub mod Verdict
pub mod Keeps
use sf_processor.Prelude.{
  Bool, true, false, ◌&&◌, ◌||◌, Option, none, some, List, [], ◌∷◌, nat_eq, list_eq, ◌==◌, ltb,
  length, if◌then◌else◌, any as exists_in,
}
use sf_processor.Prelude.Text.{Str, str}
use sf_processor.Engine.Record.{Record, Context, RuleHead}
use sf_processor.Engine.Context.{set_alert, add_rule}
use sf_processor.Engine.Mapper.{FieldMapper, JsonGet, map_str}
use sf_processor.Engine.Criterion.{eval}
use sf_processor.Policy.Actions.{ActionHandler, handle_actions}
use sf_processor.Policy.Interpreter.{Mode, enrich_mode, alert_mode, Rule, Filter, PolicyInterpreter}

abbrev pub is_enrich : Mode → Bool
is_enrich enrich_mode = true
is_enrich alert_mode = false

abbrev pub is_alert_mode : Mode → Bool
is_alert_mode enrich_mode = false
is_alert_mode alert_mode = true

-- EvalFilters
unfoldable pub eval_filters : List Filter → Record → Bool
unfolding eval
eval_filters fs r = exists_in (λ f. Filter.enabled f && eval (Filter.condition f) r) fs

module _ (gjson : JsonGet) (m : FieldMapper) where
  -- Rule.isApplicable
  unfoldable pub is_applicable : RuleHead → Record → Bool
  is_applicable rule r = elim rule.prefilter [
    | [] ↦ true
    | p ∷ ps ↦ exists_in (λ pf. map_str gjson m (str "sf.type") r == pf) (p ∷ ps)
  ]

  unfoldable pub matches : Rule → Record → Bool
  unfolding is_applicable eval
  matches rule r = rule.head.enabled && is_applicable rule.head r && eval rule.condition r

  -- The body of the loop for a rule that matches.
  unfoldable pub apply_rule : Mode → ActionHandler → Rule → Record → Record
  unfolding set_alert add_rule
  apply_rule mode ah rule r =
      handle_actions ah rule.head.actions
        (record r { ctx = add_rule rule.head (set_alert (is_alert_mode mode) r.ctx) })

  -- The loop of Process over the rules. Rules see what the actions of earlier rules made of the record.
  unfoldable pub apply_rules : Mode → ActionHandler → List Rule → Record → Bool → Record × Bool
  apply_rules mode ah [] r match = (r, match)
  apply_rules mode ah (rule ∷ rules) r match = elim (matches rule r) [
    | true ↦ apply_rules mode ah rules (apply_rule mode ah rule r) true
    | false ↦ apply_rules mode ah rules r match
  ]

  -- The loop of a worker over the rules.
  unfoldable pub worker_rules : Mode → ActionHandler → List Rule → Record → Bool → Record × Bool
  worker_rules mode ah [] r match = (r, match)
  worker_rules mode ah (rule ∷ rules) r match = elim (matches rule r) [
    | true ↦ worker_rules mode ah rules (apply_rule mode ah rule r) true
    | false ↦ worker_rules mode ah rules r match
  ]

  -- Process; `none` is the nil record.
  unfoldable pub process : PolicyInterpreter → Record → Option Record
  process pi r =
      if eval_filters pi.filters r
      then none
      else let (r', match) = apply_rules pi.mode pi.ah pi.rules r (is_enrich pi.mode) in
        if match then some r' else none

  -- One round of a worker, for a record that it fetched: what is sent downstream. `wired` says
  -- that the interpreter has an output.
  unfoldable pub worker_round : PolicyInterpreter → Bool → Record → Option Record
  worker_round pi wired r =
      if eval_filters pi.filters r
      then none
      else let (r', match) = worker_rules pi.mode pi.ah pi.rules r (is_enrich pi.mode) in
        if match && wired then some r' else none
