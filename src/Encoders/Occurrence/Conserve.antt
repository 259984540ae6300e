-- ===== src/Encoders/Occurrence/Conserve.antt =====
-- core/exporter/encoders/occurrence.go: no event is lost while files can be written.
use sf_processor.Prelude.{
  ℕ, ◌≡◌, refl, sym, ap, ◌∙◌, ◌⊎◌, Bool, true, false, ◌&&◌, ◌||◌, Option, List, [], ◌∷◌, ◌++◌, map,
  flatten, flatten-append, length, ltb, if◌then◌else◌, list_eq, nat_eq, Bool-cases, inl, inr, arith,
}
use mathlib.Core.Path.{ap₂}
use mathlib.Core.List.{append-nil, append_assoc, map-append}
use sf_processor.Prelude.Text.{Str}
use sf_processor.Engine.Record.{Record}
use sf_processor.Engine.Context.{get_rules}
use sf_processor.Engine.Mapper.{JsonGet}
use sf_processor.Engine.Fields.{Sfgo}
use sf_processor.Encoders.Occurrence.Event.{Event, Calendar, encode_event}
use sf_processor.Encoders.Occurrence.Pool.{
  Moment, EventPool, OccurrenceConfig, flush, export_path, aged, reached_capacity, reset,
  with_event, marked, write_out, add_event,
}
use sf_processor.Encoders.Occurrence.Writer.{
  Io, EventPoolWriter, update_writers, file_of, has_writer,
}
use sf_processor.Encoders.Occurrence.Alerts.{add_rules_keeps}

-- The events that were written and then those that wait, in their order.
abbrev pub written_events : List (Str × List Event) → List Event
written_events files = flatten (map (λ (f : Str × List Event). f.1) files)

abbrev pub history : {F : Type 0} → EventPool F → List Event
history ep = written_events ep.written ++ ep.events

written_more :
    (files : List (Str × List Event)) (path : Str) (es : List Event)
    → written_events (files ++ (path, es) ∷ []) ++ [] ≡ written_events files ++ es
written_more files path es =
    append-nil _
    ∙ ap flatten (map-append (λ (f : Str × List Event). f.1) files ((path, es) ∷ []))
    ∙ flatten-append (map (λ (f : Str × List Event). f.1) files) (es ∷ [])
    ∙ ap (λ t. written_events files ++ t) (append-nil es)

pub apart : true ≡ false → ⊥
apart h = absurd (cc)

pub if_elim :
    {A : Type 0}
    → (P : A → Type 0) (b : Bool) (x y : A) → (b ≡ true → P x)
    → (b ≡ false → P y)
    → P (if b then x else y)
if_elim P true x y f g = f refl
if_elim P false x y f g = g refl

none_waiting : (es : List Event) → ltb 0 (length es) ≡ false → es ≡ []
none_waiting [] h = refl
none_waiting (e ∷ es) h = absurd (ground (arith, h))

module _ {F : Type 0} (date : Calendar) (c : OccurrenceConfig) (now : ℕ) (io : Io) where
  abbrev flushed : EventPool F → Bool × EventPool F
  flushed ep = flush date c now io ep

  abbrev updated : EventPool F → Bool × Option EventPoolWriter
  updated ep = update_writers io (export_path date c ep.enc_ts) ep.events ep.epw

  -- A flush keeps every event, and if it succeeds none waits any more.
  pub flush_keeps :
      (ep : EventPool F)
      → (history (flushed ep).1 ≡ history ep) × ((flushed ep).0 ≡ true → (flushed ep).1.events ≡ [])
  unfolding flush update_writers
  flush_keeps ep = elim (Bool-cases (updated ep).0) [
    | inr bad ↦ (simp bad, λ h. absurd (apart (sym h ∙ simp bad)))
    | inl ok ↦ elim (Bool-cases (ltb 0 (length ep.events))) [
      | inr none_left ↦
          (simp (ok, none_left, none_waiting ep.events none_left), λ h. simp (ok, none_left))
      | inl some_left ↦ elim (Bool-cases (has_writer (updated ep).1 && io.append_events)) [
        | inl y ↦ (
          simp (ok, some_left, y) (written_more ep.written (file_of (updated ep).1) ep.events),
          λ h. simp (ok, some_left, y),
        )
        | inr n ↦ (simp (ok, some_left, n), λ h. absurd (apart (sym h ∙ simp (ok, some_left, n))))
      ]
    ]
  ]

module _ {F : Type 0} (empty : F) (add : ℕ → F → F) (contains : ℕ → F → Bool) (sum64 : Str → ℕ)
    (date : Calendar) (sfgo : Sfgo) (gjson : JsonGet) (c : OccurrenceConfig) where
  abbrev pub event_of : Record → Event
  event_of r = encode_event sfgo gjson c.cluster_id r

  abbrev pub mark : Record → EventPool F → EventPool F
  mark r ep = marked empty add contains sum64 date sfgo gjson c r ep

  abbrev pub is_old : Moment → EventPool F → Bool
  is_old m ep = aged m.checked c.findings_pool_max_age ep.last_flush_time

  pub mark_keeps :
      (r : Record) (ep : EventPool F)
      → ((mark r ep).written ≡ ep.written)
        × ((mark r ep).events ≡ ep.events ++ event_of r ∷ [])
        × ((mark r ep).last_flush_time ≡ ep.last_flush_time)
        × ((mark r ep).epw ≡ ep.epw)
  unfolding with_event
  mark_keeps r ep =
      let k =
        add_rules_keeps (get_rules r.ctx) (record ep { events = ep.events ++ event_of r ∷ [] }) in
      (k.5, k.1, k.2, k.3)

  history-mark :
      (r : Record) (ep : EventPool F) → history (mark r ep) ≡ history ep ++ event_of r ∷ []
  history-mark r ep =
      let k = mark_keeps r ep in
      ap₂ (λ files. λ es. written_events files ++ es) k.0 k.1
      ∙ sym (append_assoc (written_events ep.written) ep.events (event_of r ∷ []))

  abbrev pub emptied : ℕ → EventPool F → EventPool F
  emptied now ep = reset empty add contains sum64 date sfgo gjson c now ep

  abbrev pub flushed_at : Moment → EventPool F → Bool × EventPool F
  flushed_at m ep = flush date c m.flushed m.io ep

  -- Whether the flush that ends the step of this record succeeds.
  abbrev pub flushes : Moment → Record → EventPool F → Bool
  flushes m r ep = (flushed_at m (mark r ep)).0

  abbrev pub is_full : EventPool F → Bool
  is_full ep = reached_capacity c.findings_pool_capacity ep

  -- What holds of the pool in each way that the step can end holds at its end.
  pub write_out-cases :
      (P : EventPool F → Type 0) (m : Moment) (alert : Bool) (ep : EventPool F)
      → (is_old m ep ≡ true → P (emptied m.reset_at (flushed_at m ep).1))
      → (is_old m ep ≡ false → P (flushed_at m ep).1)
      → (alert || (is_full ep || is_old m ep) ≡ false → P ep)
      → P (write_out empty add contains sum64 date sfgo gjson c m alert ep)
  unfolding write_out
  write_out-cases P m alert ep old young idle =
      let emptied_pool = emptied m.reset_at (flushed_at m ep).1 in
      if_elim P (alert || (is_full ep || is_old m ep))
        (if is_old m ep then emptied_pool else (flushed_at m ep).1) ep
        (λ e. if_elim P (is_old m ep) emptied_pool (flushed_at m ep).1 old young) idle

  history-write_out :
      (m : Moment) (alert : Bool) (ep : EventPool F)
      → (is_old m ep ≡ false) ⊎ ((flushed_at m ep).0 ≡ true)
      → history (write_out empty add contains sum64 date sfgo gjson c m alert ep) ≡ history ep
  unfolding reset
  history-write_out m alert ep safe =
      let f = flush_keeps date c m.flushed m.io ep in
      write_out-cases (λ p. history p ≡ history ep) m alert ep
        (λ old. elim safe [
          | inl young ↦ absurd (apart (sym old ∙ young))
          | inr ok ↦
              ap (λ es. written_events (flushed_at m ep).1.written ++ es) (sym (f.1 ok)) ∙ f.0
        ])
        (λ young. f.0) (λ e. refl)

  -- A record adds its event to the history of the pool, and takes none away, if the pool has not
  -- aged or can be flushed.
  pub add_event-history :
      (m : Moment) (r : Record) (ep : EventPool F)
      → (is_old m ep ≡ false) ⊎ (flushes m r ep ≡ true)
      → history (add_event empty add contains sum64 date sfgo gjson c m r ep).1
        ≡ history ep ++ event_of r ∷ []
  unfolding add_event write_out reset
  add_event-history m r ep safe =
      let k = (mark_keeps r ep).2 in
      history-write_out m _ (mark r ep) (elim safe [
        | inl young ↦ inl (ap (aged m.checked c.findings_pool_max_age) k ∙ young)
        | inr ok ↦ inr ok
      ])
      ∙ history-mark r ep
