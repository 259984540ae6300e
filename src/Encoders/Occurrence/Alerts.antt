-- ===== src/Encoders/Occurrence/Alerts.antt =====
-- core/exporter/encoders/occurrence.go: which records raise an alert.
use sf_processor.Prelude.{
  ℕ, suc, ◌≤◌, ◌≡◌, ◌↔◌, refl, sym, ap, ◌∙◌, Bool, true, false, not, ◌||◌, List, [], ◌∷◌, ◌++◌,
  length, nat_beq, if◌then◌else◌, list_eq, nat_eq, All, Bool-cases, Option-cases, inl, inr, arith,
}
use mathlib.Core.Path.{subst₂}
use sf_processor.Prelude.Assoc.{lookup, insert, insert_same}
use sf_processor.Prelude.Text.{Str}
use sf_processor.Engine.Record.{Record, RuleHead}
use sf_processor.Engine.Context.{get_rules}
use sf_processor.Engine.Mapper.{JsonGet}
use sf_processor.Engine.Fields.{Sfgo}
use sf_processor.Exporter.Sets.{Set, set_add, set_len, set_contains}
use sf_processor.Encoders.Occurrence.Event.{Calendar, Severity, encode_event, of_priority, max}
use sf_processor.Encoders.Occurrence.Pool.{
  EventPool, OccurrenceConfig, add_rules, with_event, raises, seen, semantic_hash,
}

length-insert :
    (v : Str) (s : Set)
    → length (insert v tt s) ≡ (if set_contains v s then length s else suc (length s))
unfolding insert set_contains lookup
length-insert v [] = refl
length-insert v ((k, u) ∷ s) = ground (arith, length-insert v s)

set_add_present : (v : Str) (s : Set) → set_contains v s ≡ true → set_add v s ≡ s
unfolding set_contains set_add
set_add_present v s h = elim (Option-cases (lookup v s)) [
  | inl n ↦ absurd (cc)
  | inr (u, e) ↦ insert_same v tt s e
]

set_len-set_add :
    (v : Str) (s : Set)
    → set_len (set_add v s) ≡ (if set_contains v s then set_len s else suc (set_len s))
unfolding set_len set_add
set_len-set_add v s = length-insert v s

-- A set does not shrink, and a set that does not grow had the value.
set_add_grows :
    (v : Str) (s : Set)
    → (set_len s ≤ set_len (set_add v s))
      × (set_len (set_add v s) ≤ set_len s → set_contains v s ≡ true)
set_add_grows v s = elim (Bool-cases (set_contains v s)) [
  | inl e ↦ (let n = set_len-set_add v s in ground (arith, e), λ h. e)
  | inr e ↦ (
    let n = set_len-set_add v s in ground (arith, e),
    λ h. let n = set_len-set_add v s in absurd (ground (arith, e)),
  )
]

pub max_bounds : (x y : ℕ) → (x ≤ max x y) × (y ≤ max x y) × (y ≤ x → max x y ≡ x)
unfolding max
max_bounds x y = (ground arith, ground arith, λ h. ground arith)

same_state :
    (b : Bool) (x y u v : ℕ)
    → ((not b || (not (nat_beq x y) || not (nat_beq u v))) ≡ false)
      ↔ ((b ≡ true) × (x ≡ y) × (u ≡ v))
same_state b x y u v = (λ h. ground (arith, h), λ h. ground (arith, h))

-- The rule is known to a pool with these rules and this severity, and so is its own severity.
abbrev pub IsKnown : Set → Severity → RuleHead → Type 0
IsKnown s top r = (set_contains r.name s ≡ true) × (of_priority r.priority ≤ top)

module _ {F : Type 0} where
  abbrev with_rule : RuleHead → EventPool F → EventPool F
  with_rule r ep = record ep {
    rule_types = set_add r.name ep.rule_types;
    top_severity = max ep.top_severity (of_priority r.priority);
  }

  grows :
      (rules : List RuleHead) (ep : EventPool F)
      → (set_len ep.rule_types ≤ set_len (add_rules rules ep).rule_types)
        × (ep.top_severity ≤ (add_rules rules ep).top_severity)
  unfolding add_rules
  grows [] ep = (omega arith, omega arith)
  grows (r ∷ rules) ep =
      let ih = grows rules (with_rule r ep) in
      let m = max_bounds ep.top_severity (of_priority r.priority) in
      let one = set_add_grows r.name ep.rule_types in
      (omega (arith, ih.0, one.0), omega (arith, ih.1, m.0))

  pub add_rules_keeps :
      (rules : List RuleHead) (ep : EventPool F)
      → ((add_rules rules ep).filter ≡ ep.filter)
        × ((add_rules rules ep).events ≡ ep.events)
        × ((add_rules rules ep).last_flush_time ≡ ep.last_flush_time)
        × ((add_rules rules ep).epw ≡ ep.epw)
        × ((add_rules rules ep).enc_ts ≡ ep.enc_ts)
        × ((add_rules rules ep).written ≡ ep.written)
  unfolding add_rules
  add_rules_keeps [] ep = (refl, refl, refl, refl, refl, refl)
  add_rules_keeps (r ∷ rules) ep = add_rules_keeps rules (with_rule r ep)

  unchanged :
      (rules : List RuleHead) (ep : EventPool F)
      → ((set_len ep.rule_types ≡ set_len (add_rules rules ep).rule_types)
          × (ep.top_severity ≡ (add_rules rules ep).top_severity))
        ↔ All (IsKnown ep.rule_types ep.top_severity) rules
  unfolding add_rules
  unchanged [] ep = (λ h. tt, λ h. (refl, refl))
  unchanged (r ∷ rules) ep =
      let (there, back) = unchanged rules (with_rule r ep) in
      let known = λ (s : Set). λ (top : Severity). All (IsKnown s top) rules in
      let m = max_bounds ep.top_severity (of_priority r.priority) in
      (
        λ (len, top).
            let (more, up) = grows rules (with_rule r ep) in
            let old : set_contains r.name ep.rule_types ≡ true =
              (set_add_grows r.name ep.rule_types).1 (omega (arith, more, len)) in
            let same_set = set_add_present r.name ep.rule_types old in
            let below : of_priority r.priority ≤ ep.top_severity = omega (arith, up, top, m.1) in
            let same_top = m.2 below in
            (
              (old, below),
              subst₂ known same_set same_top (there (ap set_len same_set ∙ len, same_top ∙ top)),
            ),
        λ ((old, below), h).
            let same_set = set_add_present r.name ep.rule_types old in
            let same_top = m.2 below in
            let (len, top) = back (subst₂ known (sym same_set) (sym same_top) h) in
            (ap set_len (sym same_set) ∙ len, sym same_top ∙ top),
      )

module _ {F : Type 0} (empty : F) (add : ℕ → F → F) (contains : ℕ → F → Bool) (sum64 : Str → ℕ)
    (date : Calendar) (sfgo : Sfgo) (gjson : JsonGet) (c : OccurrenceConfig) where
  abbrev grown : Record → EventPool F → EventPool F
  grown r ep = with_event empty add contains sum64 date sfgo gjson c r ep

  seen_before :
      (r : Record) (ep : EventPool F)
      → seen empty add contains sum64 date sfgo gjson c r (grown r ep)
        ≡ seen empty add contains sum64 date sfgo gjson c r ep
  unfolding with_event
  seen_before r ep =
      ap (contains (semantic_hash empty add contains sum64 date sfgo gjson c r))
        (add_rules_keeps (get_rules r.ctx) _).0

  raises-changes :
      (r : Record) (ep : EventPool F)
      → raises empty add contains sum64 date sfgo gjson c r ep
        ≡ not (seen empty add contains sum64 date sfgo gjson c r ep)
          || (not (nat_beq (set_len ep.rule_types) (set_len (grown r ep).rule_types))
              || not (nat_beq ep.top_severity (grown r ep).top_severity))
  unfolding raises
  raises-changes r ep =
      ap
        (λ b.
          not b
          || (not (nat_beq (set_len ep.rule_types) (set_len (grown r ep).rule_types))
              || not (nat_beq ep.top_severity (grown r ep).top_severity)))
        (seen_before r ep)

  -- A record raises no alert exactly if its semantic hash is in the filter of the pool and each rule
  -- that it matched is known to the pool, with a severity that the pool has reached.
  pub raises-IsKnown :
      (r : Record) (ep : EventPool F)
      → (raises empty add contains sum64 date sfgo gjson c r ep ≡ false) ↔ (
          (seen empty add contains sum64 date sfgo gjson c r ep ≡ true)
          × All (IsKnown ep.rule_types ep.top_severity) (get_rules r.ctx))
  unfolding with_event
  raises-IsKnown r ep =
      let (there, back) =
        unchanged (get_rules r.ctx)
          (record ep { events = ep.events ++ encode_event sfgo gjson c.cluster_id r ∷ [] }) in
      (
        λ h.
            let (s, len, top) = (same_state _ _ _ _ _).0 (sym (raises-changes r ep) ∙ h) in
            (s, there (len, top)),
        λ (s, k).
            let (len, top) = back k in raises-changes r ep ∙ (same_state _ _ _ _ _).1 (s, len, top),
      )
