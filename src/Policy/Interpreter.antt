-- ===== src/Policy/Interpreter.antt =====
-- core/policyengine/engine/interpreter.go: the interpreter's state, and the compilation of policies.
pub mod TwoPass
pub mod OnePass
use sf_processor.Prelude.{
  ◌>>=◌, ℕ, ltb, Bool, true, false, ◌||◌, Option, none, some, List, [], ◌∷◌, ◌++◌, nat_eq, list_eq,
  ◌==◌, if◌then◌else◌,
}
use mathlib.Core.Option.{get_or}
use sf_processor.Prelude.Assoc.{insert}
use sf_processor.Prelude.Text.{Str, str, to_lower}
use sf_processor.Engine.Quotes.{trim_bounding_quotes}
use sf_processor.Engine.Record.{Priority, low, medium, high, EnrichmentTag, tag_list, RuleHead}
use sf_processor.Engine.Mapper.{FieldMapper, JsonGet}
use sf_processor.Engine.Criterion.{Criterion}
use sf_processor.Policy.Syntax.{Expression}
use sf_processor.Policy.Lists.{extract_list, extract_list_from_items}
use sf_processor.Policy.Visit.{Tables, visit_expression}
use sf_processor.Policy.Actions.{ActionHandler, Plugin, new_action_handler, check_actions}

pub data Mode : Type 0 where
  enrich_mode alert_mode : Mode

pub record Rule : Type 0 where
  pub head : RuleHead
  pub condition : Criterion

pub record Filter : Type 0 where
  pub name : Str
  pub condition : Criterion
  pub enabled : Bool

-- The worker channel and its wait group are in the model of the engine.
pub record PolicyInterpreter : Type 0 where
  pub mode : Mode
  pub rules : List Rule
  pub filters : List Filter
  pub tables : Tables
  pub concurrency : ℕ
  pub ah : ActionHandler

unfoldable pub new_policy_interpreter : Mode → ℕ → Option (List Plugin) → PolicyInterpreter
unfolding new_action_handler
new_policy_interpreter mode concurrency plugins = record {
  mode = mode;
  rules = [];
  filters = [];
  tables = record { lists = []; macro_ctxs = [] };
  concurrency = concurrency;
  ah = new_action_handler plugins;
}

-- The parts of a rule's parse tree, an optional part by its first occurrence.
pub record PruleContext : Type 0 where
  pub name : Str
  pub desc : Str
  pub expression : Expression
  pub actions : Option Str
  pub tags : Option Str
  pub severity : Option Str
  pub prefilter : Option Str
  pub enabled : Option Str

-- Declarations, as the walk exits them; `skipped` is a required version, or in the first pass a
-- rule or a filter.
pub data Declaration : Type 0 where
  prule : PruleContext → Declaration
  pfilter : Str → Expression → Option Str → Declaration
  pmacro : Str → Expression → Declaration
  plist : Str → Option Str → Declaration
  skipped : Declaration

-- strconv.ParseBool
unfoldable pub parse_bool : Str → Option Bool
parse_bool s =
    if s == str "1"
      || s == str "t"
      || s == str "T"
      || s == str "TRUE"
      || s == str "true"
      || s == str "True"
    then some true
    else if s == str "0"
        || s == str "f"
        || s == str "F"
        || s == str "FALSE"
        || s == str "false"
        || s == str "False"
    then some false
    else none

-- An absent flag and an unreadable one both enable.
unfoldable pub get_enabled_flag : Option Str → Bool
unfolding parse_bool trim_bounding_quotes
get_enabled_flag none = true
get_enabled_flag (some s) = get_or (parse_bool (trim_bounding_quotes s)) true

unfoldable pub priority_of : Str → Priority
priority_of p =
    if p == str "low"
    then low
    else if p == str "medium"
    then medium
    else if p == str "high"
    then high
    else if p == str "debug" || p == str "info" || p == str "informational" || p == str "notice"
    then low
    else if p == str "warning"
    then medium
    else if p == str "error" || p == str "critical" || p == str "emergency"
    then high
    else low

unfoldable pub get_priority : Option Str → Priority
unfolding priority_of to_lower
get_priority none = low
get_priority (some p) = priority_of (to_lower p)

-- The whole tag list is one enrichment tag.
unfoldable pub get_tags : Option Str → List EnrichmentTag
unfolding extract_list
get_tags none = []
get_tags (some s) = tag_list (extract_list s) ∷ []

abbrev optional_list : Option Str → List Str
optional_list none = []
optional_list (some s) = extract_list s

unfoldable pub rule_head : PruleContext → RuleHead
unfolding get_tags get_priority get_enabled_flag
rule_head c = record {
  name = c.name;
  desc = c.desc;
  actions = optional_list c.actions;
  tags = get_tags c.tags;
  priority = get_priority c.severity;
  prefilter = optional_list c.prefilter;
  enabled = get_enabled_flag c.enabled;
}

-- What the generated parser gives for a file: the trees of the two passes, and its error counts.
-- `unreadable` is a file that cannot be opened.
pub data PolicyFile : Type 0 where
  unreadable : PolicyFile
  parsed : List Declaration → List Declaration → ℕ → ℕ → PolicyFile

module _ (gjson : JsonGet) (m : FieldMapper) (depth fuel : ℕ) where
  -- ExitPlist, ExitPmacro, ExitPfilter and ExitPrule
  unfoldable pub exit : PolicyInterpreter → Declaration → Option PolicyInterpreter
  exit pi (plist name s) =
      let t = PolicyInterpreter.tables pi in
      some (record pi {
        tables = record t { lists = insert name (extract_list_from_items s) (Tables.lists t) };
      })
  exit pi (pmacro name e) =
      let t = PolicyInterpreter.tables pi in
      some (record pi { tables = record t { macro_ctxs = insert name e (Tables.macro_ctxs t) } })
  exit pi (pfilter name e enabled) = do
    c ← visit_expression gjson m pi.tables depth fuel e
    some (record pi {
      filters =
          pi.filters
          ++ record { name = name; condition = c; enabled = get_enabled_flag enabled } ∷ [];
    })
  exit pi (prule ctx) = do
    c ← visit_expression gjson m pi.tables depth fuel ctx.expression
    some (record pi { rules = pi.rules ++ record { head = rule_head ctx; condition = c } ∷ [] })
  exit pi skipped = some pi

  unfoldable pub walk : PolicyInterpreter → List Declaration → Option PolicyInterpreter
  walk pi [] = some pi
  walk pi (d ∷ ds) = do pi' ← exit pi d; walk pi' ds

  -- compile: the interpreter after both walks, and whether there was an error. The walks are made
  -- also where the parser found errors.
  unfoldable pub compile_file : PolicyInterpreter → PolicyFile → Option (PolicyInterpreter × Bool)
  compile_file pi unreadable = some (pi, true)
  compile_file pi (parsed defs policy lexer_errors parser_errors) = do
    pi' ← walk pi defs
    pi'' ← walk pi' policy
    some (pi'', ltb 0 lexer_errors || ltb 0 parser_errors)

  -- Compile: stops at the first file with an error.
  unfoldable pub compile : PolicyInterpreter → List PolicyFile → Option (PolicyInterpreter × Bool)
  compile pi [] = some (pi, false)
  compile pi (file ∷ files) = do
    (pi', failed) ← compile_file pi file
    elim failed [ true ↦ some (pi', true) | false ↦ compile pi' files ]
