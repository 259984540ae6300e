-- ===== src/Encoders/Occurrence/Bounded.antt =====
-- core/exporter/encoders/occurrence.go: the pool of a container over a sequence of records.
use sf_processor.Prelude.{
  ℕ, ◌<◌, ◌≡◌, refl, sym, ap, subst, ◌∙◌, Bool, true, false, List, [], ◌∷◌, ◌++◌, map, length,
  list_eq, nat_eq, All, inl, inr, arith,
}
use mathlib.Core.List.{append-nil, append_assoc}
use sf_processor.Prelude.Int.{ℤ, pos, leb_ℤ}
use sf_processor.Prelude.Text.{Str}
use sf_processor.Engine.Record.{Record}
use sf_processor.Engine.Mapper.{JsonGet}
use sf_processor.Engine.Fields.{Sfgo}
use sf_processor.Encoders.Occurrence.Event.{Event, Calendar}
use sf_processor.Encoders.Occurrence.Pool.{
  Moment, EventPool, OccurrenceConfig, reached_capacity, reset, write_out, add_event,
  new_event_pool,
}
use sf_processor.Encoders.Occurrence.Conserve.{
  history, flush_keeps, flushed_at, write_out-cases, mark, mark_keeps, event_of, add_event-history,
}
use sf_processor.Encoders.Occurrence.Works.{Works, IsReady, flush_works}

module _ {F : Type 0} (empty : F) (add : ℕ → F → F) (contains : ℕ → F → Bool) (sum64 : Str → ℕ)
    (date : Calendar) (sfgo : Sfgo) (gjson : JsonGet) (c : OccurrenceConfig) where
  -- Short names for a flush and for the step of a record.
  abbrev flushed : Moment → EventPool F → Bool × EventPool F
  flushed m ep = flushed_at empty add contains sum64 date sfgo gjson c m ep

  abbrev step : Moment → Record → EventPool F → EventPool F
  step m r ep = (add_event empty add contains sum64 date sfgo gjson c m r ep).1

  length-write_out :
      (most : ℕ) (m : Moment) (alert : Bool) (ep : EventPool F)
      → c.findings_pool_capacity ≡ pos most
      → 0 < most
      → (flushed m ep).0 ≡ true
      → length (write_out empty add contains sum64 date sfgo gjson c m alert ep).events < most
  unfolding reset reached_capacity
  length-write_out most m alert ep is_most positive ok =
      let none_left = (flush_keeps date c m.flushed m.io ep).1 ok in
      write_out-cases empty add contains sum64 date sfgo gjson c (λ p. length p.events < most) m
        alert ep (λ old. positive)
        (λ young. subst (λ (es : List Event). length es < most) (sym none_left) positive)
        (λ idle.
          let below = λ (limit : ℤ). leb_ℤ limit (pos (length ep.events)) ≡ false in
          let few : below (pos most) = subst below is_most (ground (arith, idle)) in
          ground (arith, few))

  IsReady-write_out :
      (m : Moment) (alert : Bool) (ep : EventPool F)
      → Works m.io
      → IsReady ep.epw
      → IsReady (write_out empty add contains sum64 date sfgo gjson c m alert ep).epw
  unfolding reset
  IsReady-write_out m alert ep works ready =
      let (ok, after) = flush_works m.io works date c m.flushed ep ready in
      write_out-cases empty add contains sum64 date sfgo gjson c (λ p. IsReady p.epw) m alert ep
        (λ old. after) (λ young. after) (λ idle. ready)

  -- The pool after a sequence of records, each with what its step sees.
  abbrev pub run : List (Moment × Record) → EventPool F → EventPool F
  run [] ep = ep
  run ((m, r) ∷ steps) ep = run steps (step m r ep)

  abbrev new_pool : Str → ℤ → EventPool F
  new_pool cid ts = new_event_pool empty add contains sum64 date sfgo gjson c cid ts

  abbrev pub event_at : Moment × Record → Event
  event_at (m, r) = event_of empty add contains sum64 date sfgo gjson c r

  -- A step, with every call succeeding.
  one_step :
      (most : ℕ) (m : Moment) (r : Record) (ep : EventPool F)
      → c.findings_pool_capacity ≡ pos most
      → 0 < most
      → Works m.io
      → IsReady ep.epw
      → IsReady (step m r ep).epw
        × (length (step m r ep).events < most)
        × (history (step m r ep)
            ≡ history ep ++ event_of empty add contains sum64 date sfgo gjson c r ∷ [])
  unfolding add_event
  one_step most m r ep is_most positive works ready =
      let marked_pool = mark empty add contains sum64 date sfgo gjson c r ep in
      let kept = mark_keeps empty add contains sum64 date sfgo gjson c r ep in
      let ready' = subst IsReady (sym kept.3) ready in
      let ok = (flush_works m.io works date c m.flushed marked_pool ready').0 in
      (
        IsReady-write_out m _ marked_pool works ready',
        length-write_out most m _ marked_pool is_most positive ok,
        add_event-history empty add contains sum64 date sfgo gjson c m r ep (inr ok),
      )

  run_from :
      (most : ℕ) (steps : List (Moment × Record)) (ep : EventPool F)
      → c.findings_pool_capacity ≡ pos most
      → 0 < most
      → All (λ (s : Moment × Record). Works s.0.io) steps
      → IsReady ep.epw
      → length ep.events < most
      → (length (run steps ep).events < most)
        × (history (run steps ep) ≡ history ep ++ map event_at steps)
  run_from most [] ep is_most positive works ready few = (few, sym (append-nil (history ep)))
  run_from most ((m, r) ∷ steps) ep is_most positive (here, works) ready few =
      let (ready', few', more) = one_step most m r ep is_most positive here ready in
      let (few'', all) = run_from most steps (step m r ep) is_most positive works ready' few' in
      (few'', all ∙ ap (λ h. h ++ map event_at steps) more ∙ append_assoc (history ep) _ _)

  -- A new pool that takes in a sequence of records, with a positive capacity and every call of the
  -- file system and of goavro succeeding, has after it fewer events than its capacity, and what was
  -- written to files and then what waits are the events of all the records, in their order.
  pub run-keeps :
      (most : ℕ) (cid : Str) (ts : ℤ) (steps : List (Moment × Record))
      → c.findings_pool_capacity ≡ pos most
      → 0 < most
      → All (λ (s : Moment × Record). Works s.0.io) steps
      → (length (run steps (new_pool cid ts)).events < most)
        × (history (run steps (new_pool cid ts)) ≡ map event_at steps)
  unfolding new_event_pool
  run-keeps most cid ts steps is_most positive works =
      run_from most steps (new_pool cid ts) is_most positive works (inl refl) positive
