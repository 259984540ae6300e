-- ===== src/Policy/Process/Keeps.antt =====
-- What the actions of a policy leave alone, and so the loop over the rules.
use sf_processor.Prelude.{
  ◌≡◌, refl, ◌∙◌, Bool, true, false, ◌||◌, some, List, [], ◌∷◌, ◌++◌, map, All, select, select-true,
  select-false, nat_eq, list_eq, Option-cases, Bool-cases, inl, inr, if◌then◌else◌, sym, arith,
  any as exists_in,
}
use mathlib.Core.List.{append-nil, append_assoc}
use sf_processor.Prelude.Text.{Str}
use sf_processor.Engine.Record.{ReadsFlat, Record}
use sf_processor.Engine.Context.{set_alert, add_rule, get_rules, is_alert}
use sf_processor.Engine.Mapper.{FieldMapper, JsonGet}
use sf_processor.Policy.Actions.{ActionHandler, ActionFunc, find_action, handle_actions}
use sf_processor.Policy.Interpreter.{Mode, Rule}
use sf_processor.Policy.Process.{is_alert_mode, matches, apply_rule, apply_rules}

-- An action as it is documented: it reads the record and may store tags and hashes in its context.
pub record IsTame (f : ActionFunc) : Type 0 where
  pub flat : (r : Record) → (f r).0.fr ≡ r.fr
  pub rules : (r : Record) → get_rules (f r).0.ctx ≡ get_rules r.ctx
  pub alert : (r : Record) → is_alert (f r).0.ctx ≡ is_alert r.ctx

pub record HasTameActions (ah : ActionHandler) : Type 0 where
  pub tame : (a : Str) (f : ActionFunc) → find_action ah a ≡ some f → IsTame f

pub record Kept (r s : Record) : Type 0 where
  pub flat : s.fr ≡ r.fr
  pub rules : get_rules s.ctx ≡ get_rules r.ctx
  pub alert : is_alert s.ctx ≡ is_alert r.ctx

handle_actions-Kept :
    (ah : ActionHandler) (as' : List Str) (r : Record)
    → HasTameActions ah
    → Kept r (handle_actions ah as' r)
unfolding handle_actions
handle_actions-Kept ah [] r h = record { flat = refl; rules = refl; alert = refl }
handle_actions-Kept ah (a ∷ as') r h = elim (Option-cases (find_action ah a)) [
  | inl unknown ↦ rw unknown (handle_actions-Kept ah as' r h)
  | inr (f, found) ↦ rw found (
      let t = h.tame a f found in
      let k = handle_actions-Kept ah as' (f r).0 h in
      record { flat = k.flat ∙ t.flat r; rules = k.rules ∙ t.rules r; alert = k.alert ∙ t.alert r })
]

if_same {ℓ} : {A : Type ℓ} (b : Bool) (x : A) → (if b then x else x) ≡ x
if_same true x = refl
if_same false x = refl

module _ (gjson : JsonGet) (m : FieldMapper) (mode : Mode) (ah : ActionHandler)
    (tame : HasTameActions ah) where
  apply_rule-flat : (rule : Rule) (r : Record) → (apply_rule gjson m mode ah rule r).fr ≡ r.fr
  unfolding apply_rule
  apply_rule-flat rule r =
      (handle_actions-Kept ah rule.head.actions
        (record r { ctx = add_rule rule.head (set_alert (is_alert_mode mode) r.ctx) }) tame).flat

  apply_rule-rules :
      (rule : Rule) (r : Record)
      → get_rules (apply_rule gjson m mode ah rule r).ctx ≡ get_rules r.ctx ++ rule.head ∷ []
  unfolding apply_rule
  apply_rule-rules rule r =
      (handle_actions-Kept ah rule.head.actions
        (record r { ctx = add_rule rule.head (set_alert (is_alert_mode mode) r.ctx) }) tame).rules
      ∙ unfold get_rules add_rule set_alert in refl

  apply_rule-alert :
      (rule : Rule) (r : Record)
      → is_alert (apply_rule gjson m mode ah rule r).ctx ≡ is_alert_mode mode
  unfolding apply_rule
  apply_rule-alert rule r =
      (handle_actions-Kept ah rule.head.actions
        (record r { ctx = add_rule rule.head (set_alert (is_alert_mode mode) r.ctx) }) tame).alert
      ∙ unfold is_alert add_rule set_alert in refl

  -- What the loop makes of `r`, in terms of the record `r₀` that it began with.
  pub record Applied (r₀ : Record) (qs : List Rule) (r : Record) (before : Bool)
      (out : Record × Bool) : Type 0 where
    pub flat : out.0.fr ≡ r.fr
    pub rules :
        get_rules out.0.ctx
        ≡ get_rules r.ctx ++ map (λ q. Rule.head q) (select (λ q. matches gjson m q r₀) qs)
    pub match : out.1 ≡ (before || exists_in (λ q. matches gjson m q r₀) qs)
    pub alert :
        is_alert out.0.ctx
        ≡ (if exists_in (λ q. matches gjson m q r₀) qs then is_alert_mode mode else is_alert r.ctx)

  Applied-hit :
      (r₀ : Record) (q : Rule) (qs : List Rule) (r : Record) (before : Bool) (out : Record × Bool)
      → matches gjson m q r₀ ≡ true
      → Applied r₀ qs (apply_rule gjson m mode ah q r) true out
      → Applied r₀ (q ∷ qs) r before out
  Applied-hit r₀ q qs r before out here a = record {
    flat = a.flat ∙ apply_rule-flat q r;
    rules = rw (select-true (λ p. matches gjson m p r₀) q qs here) (
        a.rules
        ∙ rw (apply_rule-rules q r) (
            append_assoc (get_rules r.ctx) (q.head ∷ [])
              (map (λ p. Rule.head p) (select (λ p. matches gjson m p r₀) qs))));
    match = rw here (ground (arith, a.match));
    alert = rw here (a.alert ∙ rw (apply_rule-alert q r) (if_same _ _));
  }

  Applied-miss :
      (r₀ : Record) (q : Rule) (qs : List Rule) (r : Record) (before : Bool) (out : Record × Bool)
      → matches gjson m q r₀ ≡ false
      → Applied r₀ qs r before out
      → Applied r₀ (q ∷ qs) r before out
  Applied-miss r₀ q qs r before out here a = record {
    flat = a.flat;
    rules = rw (select-false (λ p. matches gjson m p r₀) q qs here) a.rules;
    match = rw here a.match;
    alert = rw here a.alert;
  }

  apply_rules-hit :
      (q : Rule) (qs : List Rule) (r : Record) (before : Bool)
      → matches gjson m q r ≡ true
      → apply_rules gjson m mode ah (q ∷ qs) r before
        ≡ apply_rules gjson m mode ah qs (apply_rule gjson m mode ah q r) true
  unfolding apply_rules
  apply_rules-hit q qs r before h = rw (h, apply_rules)

  apply_rules-miss :
      (q : Rule) (qs : List Rule) (r : Record) (before : Bool)
      → matches gjson m q r ≡ false
      → apply_rules gjson m mode ah (q ∷ qs) r before ≡ apply_rules gjson m mode ah qs r before
  unfolding apply_rules
  apply_rules-miss q qs r before h = rw (h, apply_rules)

  pub apply_rules-Applied :
      (r₀ : Record) (qs : List Rule) (r : Record) (before : Bool)
      → r.fr ≡ r₀.fr
      → All (λ q. ReadsFlat (matches gjson m q)) qs
      → Applied r₀ qs r before (apply_rules gjson m mode ah qs r before)
  apply_rules-Applied r₀ [] r before e h = record {
    flat = unfold apply_rules in refl;
    rules = unfold apply_rules in sym (append-nil (get_rules r.ctx));
    match = unfold apply_rules in ground arith;
    alert = unfold apply_rules in refl;
  }
  apply_rules-Applied r₀ (q ∷ qs) r before e (reads, h) = elim (Bool-cases (matches gjson m q r)) [
    | inl hit ↦ rw (apply_rules-hit q qs r before hit) (
        Applied-hit r₀ q qs r before _ (sym (reads r r₀ e) ∙ hit) (
          apply_rules-Applied r₀ qs (apply_rule gjson m mode ah q r) true (apply_rule-flat q r ∙ e)
            h))
    | inr miss ↦ rw (apply_rules-miss q qs r before miss) (
        Applied-miss r₀ q qs r before _ (sym (reads r r₀ e) ∙ miss)
          (apply_rules-Applied r₀ qs r before e h))
  ]
