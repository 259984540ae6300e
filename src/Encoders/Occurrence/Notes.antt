-- ===== src/Encoders/Occurrence/Notes.antt =====
-- core/exporter/encoders/occurrence.go: what an occurrence says of the rules that its event matched.
use sf_processor.Prelude.{
  ℕ, ◌<◌, ◌≡◌, ◌↔◌, sym, ◌∙◌, List, [], ◌∷◌, ◌++◌, if◌then◌else◌, list_eq, nat_eq, list_beq_iff,
  All, Bool-cases, inl, inr, arith, ltb,
}
use sf_processor.Prelude.Int.{ℤ}
use sf_processor.Prelude.Text.{Str}
use sf_processor.Engine.Record.{RuleHead}
use sf_processor.Engine.Context.{get_tags, get_rules}
use sf_processor.Engine.Mapper.{JsonGet}
use sf_processor.Engine.Fields.{Sfgo}
use sf_processor.Encoders.Occurrence.Event.{
  Event, Severity, Calendar, summarize_rules, summarize_policy, of_priority, max,
}
use sf_processor.Encoders.Occurrence.Pool.{OccurrenceConfig}
use sf_processor.Encoders.Occurrence.Conserve.{apart}
use sf_processor.Encoders.Occurrence.Alerts.{max_bounds}
use sf_processor.Encoders.Occurrence.Encoder.{create_occurrence, note_id, notification, offense}

max_below : (x y : ℕ) → x < 2 → y < 2 → max x y < 2
unfolding max
max_below x y h k = ground arith

notification_below :
    (s : Severity) → ((if ltb s 2 then notification else offense) ≡ notification) ↔ (s < 2)
notification_below s = elim (Bool-cases (ltb s 2)) [
  | inl y ↦ (λ h. ground (arith, y), λ h. simp y)
  | inr n ↦ (
    λ h.
        let same : offense ≡ notification = sym (simp n) ∙ h in
        absurd (apart (sym ((list_beq_iff offense notification).1 same))),
    λ h. absurd (ground (arith, n)),
  )
]

-- The severity of the loop, past a severity.
severity_below :
    (rules : List RuleHead) (names tags : List Str) (top : Severity)
    → ((summarize_rules rules (names, tags, top)).2 < 2)
      ↔ ((top < 2) × All (λ (r : RuleHead). of_priority r.priority < 2) rules)
unfolding summarize_rules
severity_below [] names tags top = (λ h. (h, tt), λ (h, _). h)
severity_below (r ∷ rules) names tags top =
    let m = max_bounds top (of_priority r.priority) in
    let ih = severity_below rules (names ++ r.name ∷ []) _ (max top (of_priority r.priority)) in
    (
      λ h.
          let (below, all) = ih.0 h in
          (omega (arith, below, m.0), (omega (arith, below, m.1), all)),
      λ (below, (one, all)). ih.1 (max_below top (of_priority r.priority) below one, all),
    )

module _ (date : Calendar) (sfgo : Sfgo) (gjson : JsonGet) (c : OccurrenceConfig) where
  -- The occurrence of an event is a notification exactly if no rule that the event's record matched
  -- has the priority high.
  pub note_id-notification :
      (now : ℕ) (e : Event) (cid : Str) (enc_ts : ℤ)
      → (note_id (create_occurrence date sfgo gjson c now e cid enc_ts) ≡ notification)
        ↔ All (λ (r : RuleHead). of_priority r.priority < 2) (get_rules e.rec.ctx)
  unfolding note_id create_occurrence summarize_policy
  note_id-notification now e cid enc_ts =
      let iff = severity_below (get_rules e.rec.ctx) [] (get_tags e.rec.ctx) 0 in
      let s = summarize_rules (get_rules e.rec.ctx) ([], get_tags e.rec.ctx, 0) in
      (
        λ h. (iff.0 ((notification_below s.2).0 h)).1,
        λ all. (notification_below s.2).1 (iff.1 (omega arith, all)),
      )
