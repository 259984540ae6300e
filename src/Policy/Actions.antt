-- ===== src/Policy/Actions.antt =====
-- core/policyengine/engine/actionhandler.go: registered actions and their use by a rule.
use sf_processor.Prelude.{Bool, Option, none, some, List, [], ◌∷◌, nat_eq, list_eq}
use sf_processor.Prelude.Assoc.{lookup, insert}
use sf_processor.Prelude.Text.{Str}
use sf_processor.Engine.Record.{Record, RuleHead}

-- An action changes the record that it is given, and may return an error.
abbrev pub ActionFunc : Type 0
ActionFunc = Record → Record × Bool

abbrev pub ActionMap : Type 0
ActionMap = List (Str × ActionFunc)

pub record ActionHandler : Type 0 where
  pub built_in_actions : ActionMap
  pub user_defined_actions : ActionMap

-- A re-declaration is logged and replaces the function.
unfoldable pub register_action : ActionMap → Str → ActionFunc → ActionMap
register_action reg name f = insert name f reg

-- What opening a shared object gives: a failure of any kind, which is logged, or an action.
pub data Plugin : Type 0 where
  unusable : Plugin
  action : Str → ActionFunc → Plugin

unfoldable pub load_from : ActionMap → List Plugin → ActionMap
unfolding register_action
load_from reg [] = reg
load_from reg (unusable ∷ ps) = load_from reg ps
load_from reg (action name f ∷ ps) = load_from (register_action reg name f) ps

-- `none` is a directory that cannot be listed.
unfoldable pub load_user_actions : Option (List Plugin) → ActionMap
unfolding load_from
load_user_actions none = []
load_user_actions (some ps) = load_from [] ps

unfoldable pub register_builtins : ActionMap
register_builtins = []

unfoldable pub new_action_handler : Option (List Plugin) → ActionHandler
unfolding load_user_actions register_builtins
new_action_handler dir = record {
  built_in_actions = register_builtins;
  user_defined_actions = load_user_actions dir;
}

-- A built-in action comes first.
unfoldable pub find_action : ActionHandler → Str → Option ActionFunc
find_action ah a = elim (lookup a ah.built_in_actions) [
  | some f ↦ some f
  | none ↦ lookup a ah.user_defined_actions
]

-- The warnings of CheckActions for one rule: its unknown actions.
unfoldable pub unknown_actions : ActionHandler → List Str → List Str
unfolding find_action
unknown_actions ah [] = []
unknown_actions ah (a ∷ as') = elim (find_action ah a) [
  | some _ ↦ unknown_actions ah as'
  | none ↦ a ∷ unknown_actions ah as'
]

-- Each with the name of its rule.
unfoldable pub check_actions : ActionHandler → List RuleHead → List (Str × List Str)
unfolding unknown_actions
check_actions ah [] = []
check_actions ah (r ∷ rs) = (r.name, unknown_actions ah r.actions) ∷ check_actions ah rs

-- An unknown action is passed over, and an error is logged only.
abbrev run_action : Option ActionFunc → Record → Record
run_action none r = r
run_action (some f) r = (f r).0

unfoldable pub handle_actions : ActionHandler → List Str → Record → Record
unfolding find_action
handle_actions ah [] r = r
handle_actions ah (a ∷ as') r = handle_actions ah as' (run_action (find_action ah a) r)
