-- ===== src/Tests/Policy.antt =====
-- A policy with a list and a macro: its compilation, and its use on a record.
use sf_processor.Prelude.{
  ◌>>=◌, some-injective, subst, ℕ, ◌<◌, ◌≡◌, ◌↔◌, ◌⊎◌, refl, sym, ◌∙◌, true, false, some, none,
  List, [], ◌∷◌, ◌++◌, map, select, any as exists_in, In, All, nat_eq, ◌==◌, ◌||◌, ap, list_eq,
  list_beq_iff, arith, if◌then◌else◌, Bool-cases, inl, inr, ltb,
}
use sf_processor.Prelude.Assoc.{lookup}
use sf_processor.Prelude.Text.{Str, str, join, Lacks}
use sf_processor.Engine.Record.{Record, ReadsFlat, get_str, text}
use sf_processor.Engine.Context.{get_rules, is_alert}
use sf_processor.Engine.Quotes.{trim_bounding_quotes, trim_front, ends_in_quote, is_quote}
use sf_processor.Engine.Mapper.{map_str}
use sf_processor.Engine.Criterion.{Criterion, eval, eq_op, true_criterion, any, all, in_list}
use sf_processor.Engine.Criterion.Telemetry.{MapsFlat, map_str-ReadsFlat}
use sf_processor.Policy.Syntax.{atom}
use sf_processor.Policy.Lists.{
  extract_list, append_all, reduce_list, extract_list_from_atoms, atoms,
}
use sf_processor.Policy.Lists.Expand.{IsRanked, Expands, extract_list_from_atoms-exact}
use sf_processor.Policy.Lists.RoundTrip.{extract_list-bracketed}
use sf_processor.Policy.Visit.{visit_or, visit_expression}
use sf_processor.Policy.Visit.Meaning.{SomeAtom, Holds, Solves, Scoped}
use sf_processor.Policy.Visit.Total.{IsLayered, visit_expression-exact}
use sf_processor.Policy.Visit.Telemetry.{visit_expression-Flat}
use sf_processor.Policy.Actions.{find_action}
use sf_processor.Policy.Interpreter.{
  PolicyInterpreter, Rule, Mode, enrich_mode, alert_mode, Declaration, prule, pmacro, plist, parsed,
  compile_file,
}
use sf_processor.Policy.Interpreter.TwoPass.{first_pass, AreApart, define_all}
use sf_processor.Policy.Interpreter.OnePass.{
  finish, compile_rules, compile_filters, compile_file-one_pass,
}
use sf_processor.Policy.Process.{eval_filters, matches, process, worker_round}
use sf_processor.Policy.Process.Keeps.{HasTameActions}
use sf_processor.Policy.Process.Verdict.{worker_round-eq-process, process_verdict}
use sf_processor.Tests.Samples.{
  gjson, mapper, proc_exe, sample, shells, shell, lists, shell_body, tables, no_shell, head,
}

-- The list has rank 1, and its items rank 0.
abbrev list_rank : Str → ℕ
list_rank x = if x == shells then 1 else 0

abbrev macro_rank : Str → ℕ
macro_rank x = 0

-- The variable `shell` holds of what the list names.
abbrev ρ : Record → Str → Type 0
ρ r x = (x ≡ shell) × SomeAtom lists eq_op (map_str gjson mapper proc_exe r) (atom shells ∷ [])

one_entry {ℓ} :
    {V : Type ℓ} (k x : Str) (v w : V) → lookup x ((k, v) ∷ []) ≡ some w → (k ≡ x) × (v ≡ w)
unfolding lookup
one_entry k x v w found = elim (Bool-cases (k == x)) [
  | inl same ↦ ((list_beq_iff k x).0 same, some-injective _ _ (rw same at found))
  | inr other ↦ absurd (ground (arith, rw other at found))
]

ranked : IsRanked lists list_rank
ranked = record {
  falls = λ x l found.
      let (x_is, l_is) = one_entry shells x (str "bash" ∷ str "zsh" ∷ []) l found in
      subst (λ z. All (λ y. list_rank y < list_rank z) l) x_is
        (subst (All (λ y. list_rank y < 1)) l_is (omega arith, (omega arith, tt)));
}

layered : IsLayered tables macro_rank list_rank 2
unfolding atoms
layered = record {
  lists = ranked;
  macros = λ x body found.
      let (x_is, body_is) = one_entry shell x shell_body body found in
      subst (λ e. Scoped macro_rank list_rank 2 (macro_rank x) e) body_is (omega arith, tt);
}

found_shell : lookup shell tables.macro_ctxs ≡ some shell_body
unfolding lookup
found_shell = refl

solves : (r : Record) → Solves gjson mapper tables (ρ r) r
solves r = record {
  unknown = λ x free (same, holds).
      absurd (
        ground (arith, sym found_shell ∙ subst (λ z. lookup z tables.macro_ctxs ≡ none) same free));
  known = λ x body found.
      let (x_is, body_is) = one_entry shell x shell_body body found in
      subst (λ e. ρ r x ↔ Holds gjson mapper lists (ρ r) r e) body_is
        (λ (same, holds). holds, λ holds. (sym x_is, holds));
}

visit_expression-exact_example :
    (c : Criterion) × (visit_expression gjson mapper tables 2 2 no_shell ≡ some c)
    × ((r : Record) → (eval c r ≡ true) ↔ Holds gjson mapper lists (ρ r) r no_shell)
visit_expression-exact_example =
    visit_expression-exact gjson mapper tables macro_rank list_rank 2 layered ρ solves 1 no_shell
      (omega arith)

extract_list_from_atoms-exact_example :
    (s : List Str) × (extract_list_from_atoms lists 2 (atom shells ∷ []) ≡ some s)
    × ((a : Str) → In a s ↔ ((x : Str) × In x (atoms (atom shells ∷ [])) × Expands lists x a))
extract_list_from_atoms-exact_example =
    extract_list_from_atoms-exact lists list_rank ranked 2 (atom shells ∷ [])
      (unfold atoms in (omega arith, tt))

no_comma : All (Lacks b',') (str "a" ∷ str "b" ∷ [])
no_comma = ((refl, tt), ((refl, tt), tt))

extract_list-bracketed_example :
    extract_list (str "[a,b]") ≡ map trim_bounding_quotes (str "a" ∷ str "b" ∷ [])
unfolding join
extract_list-bracketed_example = extract_list-bracketed (str "a") (str "b" ∷ []) no_comma

mapper_flat : MapsFlat mapper
unfolding get_str
mapper_flat = record {
  at = λ a f found.
      subst ReadsFlat (one_entry proc_exe a (λ r. text (get_str r 0 0)) f found).1
        (λ r s e. ap (λ q. text (get_str (record r { fr = q }) 0 0)) e);
}

-- What the macro is compiled to.
compiled :
    visit_expression gjson mapper tables 2 1 shell_body
    ≡ some (any (all (in_list gjson mapper proc_exe (str "bash" ∷ str "zsh" ∷ []) ∷ []) ∷ []))
unfolding visit_expression visit_or extract_list_from_atoms append_all atoms reduce_list lookup
    trim_bounding_quotes trim_front ends_in_quote is_quote
compiled = refl

visit_expression-Flat_example :
    ReadsFlat
      (eval (any (all (in_list gjson mapper proc_exe (str "bash" ∷ str "zsh" ∷ []) ∷ []) ∷ [])))
visit_expression-Flat_example =
    visit_expression-Flat gjson mapper mapper_flat tables 2 1 shell_body
      (any (all (in_list gjson mapper proc_exe (str "bash" ∷ str "zsh" ∷ []) ∷ []) ∷ [])) compiled

abbrev pub interpreter : Mode → PolicyInterpreter
interpreter mode = record {
  mode = mode;
  rules = record { head = head; condition = true_criterion } ∷ [];
  filters = [];
  tables = tables;
  concurrency = 1;
  ah = record { built_in_actions = []; user_defined_actions = [] };
}

tame : HasTameActions (interpreter alert_mode).ah
unfolding find_action lookup
tame = record { tame = λ a f found. absurd (cc) }

type_flat : ReadsFlat (map_str gjson mapper (str "sf.type"))
type_flat = map_str-ReadsFlat gjson mapper mapper_flat (str "sf.type")

condition_flat : ReadsFlat (eval true_criterion)
unfolding eval true_criterion
condition_flat = λ r s e. refl

process_verdict_example :
    ((process gjson mapper (interpreter alert_mode) sample ≡ none) ↔ (
      (eval_filters (interpreter alert_mode).filters sample ≡ true)
      ⊎ ((alert_mode ≡ alert_mode)
          × (exists_in (λ q. matches gjson mapper q sample) (interpreter alert_mode).rules
              ≡ false))))
    × ((out : Record)
        → process gjson mapper (interpreter alert_mode) sample ≡ some out
        → (out.fr ≡ sample.fr)
          × (get_rules out.ctx
              ≡ get_rules sample.ctx
                ++ map
                    (λ q. Rule.head q)
                    (select (λ q. matches gjson mapper q sample) (interpreter alert_mode).rules))
          × (is_alert out.ctx ≡ (
              if exists_in (λ q. matches gjson mapper q sample) (interpreter alert_mode).rules
              then true
              else is_alert sample.ctx)))
process_verdict_example =
    process_verdict gjson mapper (interpreter alert_mode) tame type_flat (condition_flat, tt) sample

worker_round-eq-process_example :
    worker_round gjson mapper (interpreter enrich_mode) true sample
    ≡ (if true then process gjson mapper (interpreter enrich_mode) sample else none)
worker_round-eq-process_example =
    worker_round-eq-process gjson mapper (interpreter enrich_mode) true sample

-- A rule that uses a macro defined behind it.
abbrev policy : List Declaration
policy =
    prule (record {
      name = str "r";
      desc = [];
      expression = no_shell;
      actions = none;
      tags = none;
      severity = some (str "High");
      prefilter = none;
      enabled = none;
    })
    ∷ pmacro shell shell_body
    ∷ plist shells (some (str "[bash,zsh]"))
    ∷ []

apart : AreApart policy
apart = ((tt, (tt, tt)), ((tt, tt), (tt, tt)))

abbrev empty_interpreter : PolicyInterpreter
empty_interpreter = record (interpreter enrich_mode) {
  rules = [];
  tables = record { lists = []; macro_ctxs = [] };
}

compile_file-one_pass_example :
    compile_file gjson mapper 2 2 empty_interpreter (parsed (map first_pass policy) policy 0 0) ≡ (
      finish
        (record empty_interpreter { tables = define_all empty_interpreter.tables policy })
        (compile_rules gjson mapper 2 2 (define_all empty_interpreter.tables policy) policy)
        (compile_filters gjson mapper 2 2 (define_all empty_interpreter.tables policy) policy)
      >>= λ done. some (done, ltb 0 0 || ltb 0 0))
compile_file-one_pass_example =
    compile_file-one_pass gjson mapper 2 2 empty_interpreter policy 0 0 apart
