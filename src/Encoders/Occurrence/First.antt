-- ===== src/Encoders/Occurrence/First.antt =====
-- core/exporter/encoders/occurrence.go: the first record of a container, and a file that cannot be opened.
use sf_processor.Prelude.{
  ℕ, ◌≡◌, refl, sym, ap, subst, ◌∙◌, Bool, true, false, not, ◌&&◌, Option, none, some, [], list_eq,
  nat_eq, ◌==◌, list_beq_iff, Bool-cases, inl, inr, arith,
}
use sf_processor.Prelude.Int.{ℤ, pos, leb_ℤ}
use sf_processor.Prelude.Text.{Str}
use sf_processor.Prelude.Paths.{dir}
use sf_processor.Engine.Record.{Record}
use sf_processor.Engine.Mapper.{JsonGet}
use sf_processor.Engine.Fields.{Sfgo}
use sf_processor.Exporter.Sets.{new_set, set_len}
use sf_processor.Encoders.Occurrence.Event.{Calendar}
use sf_processor.Encoders.Occurrence.Pool.{
  Moment, EventPool, OccurrenceConfig, reset, pool_state, add_event, new_event_pool, aged, raises,
}
use sf_processor.Encoders.Occurrence.Writer.{
  Io, EventPoolWriter, update_ocf_writer, or_new, has_ocfw, update_event_pool_writer, has_writer,
}
use sf_processor.Encoders.Occurrence.Conserve.{mark, mark_keeps, apart, is_old, write_out-cases}
use sf_processor.Encoders.Occurrence.Alerts.{raises-IsKnown}

-- A failure of UpdateOCFWriter leaves the path of the file that was asked for, and no file that was
-- not there.
ocf_fails :
    (io : Io) (path : Str) (w : EventPoolWriter)
    → has_ocfw w ≡ false
    → ((update_ocf_writer io path w).1.current_export_path ≡ path)
      × ((update_ocf_writer io path w).0 && has_ocfw (update_ocf_writer io path w).1 ≡ false
          → has_ocfw (update_ocf_writer io path w).1 ≡ false)
unfolding update_ocf_writer
ocf_fails io path w bare = elim (Bool-cases (io.open_file path)) [
  | inr n ↦ (simp n, λ h. simp n bare)
  | inl y ↦ elim (Bool-cases (not w.codec && not io.new_codec)) [
    | inl y' ↦ (simp (y, y'), λ h. simp (y, y') bare)
    | inr n' ↦ elim (Bool-cases (io.new_writer path)) [
      | inr n'' ↦ (simp (y, n', n''), λ h. simp (y, n', n''))
      | inl y'' ↦ (simp (y, n', y''), λ h. absurd (apart (simp (y, n', y'') at h)))
    ]
  ]
]

-- A writer without a file stays so for the path that it has.
stays :
    (io : Io) (path : Str) (w : EventPoolWriter)
    → w.current_export_path ≡ path
    → has_ocfw w ≡ false
    → update_event_pool_writer io path (some w) ≡ (false, w)
unfolding update_event_pool_writer
stays io path w at bare =
    let same = (list_beq_iff path w.current_export_path).1 (sym at) in simp (same, bare)

bare_new : (epw : Option EventPoolWriter) → has_writer epw ≡ false → has_ocfw (or_new epw) ≡ false
bare_new none h = refl
bare_new (some w) h = h

-- Once an update of a writer without a file fails for a path whose directory is there or was made,
-- each further update for that path fails, whatever the calls answer then, and changes nothing.
pub update_event_pool_writer-stuck :
    (io later : Io) (path : Str) (epw : Option EventPoolWriter)
    → has_writer epw ≡ false
    → io.make_dir (dir path) ≡ true
    → (update_event_pool_writer io path epw).0 ≡ false
    → update_event_pool_writer later path (some (update_event_pool_writer io path epw).1)
      ≡ (false, (update_event_pool_writer io path epw).1)
unfolding update_event_pool_writer
update_event_pool_writer-stuck io later path epw bare made failed =
    let w = or_new epw in
    let stuck =
      λ (v : EventPoolWriter). update_event_pool_writer later path (some v) ≡ (false, v) in
    let none_yet = bare_new epw bare in
    elim (Bool-cases (path == w.current_export_path)) [
      | inl same ↦
          let at = (list_beq_iff path w.current_export_path).0 same in
          let kept : (update_event_pool_writer io path epw).1 ≡ w = simp same in
          subst stuck (sym kept) (stays later path w (sym at) none_yet)
      | inr other ↦
          let (at, fails) = ocf_fails io path w none_yet in
          let made_now : (update_event_pool_writer io path epw).1
              ≡ (update_ocf_writer io path w).1 =
            simp (other, made) in
          subst stuck (sym made_now) (
            stays later path (update_ocf_writer io path w).1 at
              (fails (simp (other, made) at failed)))
    ]

module _ {F : Type 0} (empty : F) (add : ℕ → F → F) (contains : ℕ → F → Bool) (sum64 : Str → ℕ)
    (date : Calendar) (sfgo : Sfgo) (gjson : JsonGet) (c : OccurrenceConfig) where
  abbrev fresh : Str → ℤ → EventPool F
  fresh cid ts = new_event_pool empty add contains sum64 date sfgo gjson c cid ts

  raises_empty :
      (r : Record) (ep : EventPool F)
      → ((h : ℕ) → contains h empty ≡ false)
      → ep.filter ≡ empty
      → raises empty add contains sum64 date sfgo gjson c r ep ≡ true
  raises_empty r ep nothing forgot =
      elim (Bool-cases (raises empty add contains sum64 date sfgo gjson c r ep)) [
        | inl y ↦ y
        | inr n ↦
            let was_seen =
              ((raises-IsKnown empty add contains sum64 date sfgo gjson c r ep).0 n).0 in
            let unseen = ap (contains _) forgot ∙ nothing _ in
            absurd (apart (sym was_seen ∙ unseen))
      ]

  -- With a filter that has nothing while it is empty, and a maximal age of at most 153722867 minutes,
  -- the first record of a container raises an alert, and its pool has then no event, an empty filter,
  -- no rule and the lowest severity: whether or not the event could be written, the next record raises
  -- an alert too.
  pub add_event-first :
      (m later : Moment) (r next : Record) (cid : Str) (ts : ℤ)
      → ((h : ℕ) → contains h empty ≡ false)
      → leb_ℤ c.findings_pool_max_age (pos 153722867) ≡ true
      → ((add_event empty add contains sum64 date sfgo gjson c m r (fresh cid ts)).0 ≡ true)
        × ((add_event empty add contains sum64 date sfgo gjson c m r (fresh cid ts)).1.events ≡ [])
        × ((add_event empty add contains sum64 date sfgo gjson c m r (fresh cid ts)).1.filter
            ≡ empty)
        × (pool_state (add_event empty add contains sum64 date sfgo gjson c m r (fresh cid ts)).1
            ≡ (0, 0))
        × ((add_event empty add contains sum64 date sfgo gjson c later next
              (add_event empty add contains sum64 date sfgo gjson c m r (fresh cid ts)).1).0
            ≡ true)
  unfolding add_event new_event_pool reset aged new_set set_len
  add_event-first m later r next cid ts nothing young =
      let ep = fresh cid ts in
      let ep' = mark empty add contains sum64 date sfgo gjson c r ep in
      let old : is_old empty add contains sum64 date sfgo gjson c m ep' ≡ true =
        ap (aged m.checked c.findings_pool_max_age)
          (mark_keeps empty add contains sum64 date sfgo gjson c r ep).2
        ∙ young in
      let (none_left, forgot, state) =
        write_out-cases empty add contains sum64 date sfgo gjson c
          (λ p. (p.events ≡ []) × (p.filter ≡ empty) × (pool_state p ≡ (0, 0))) m _ ep'
          (λ _. (refl, refl, refl)) (λ not_old. absurd (apart (sym old ∙ not_old)))
          (λ idle. absurd (ground (arith, idle, old))) in
      (raises_empty r ep nothing refl, none_left, forgot, state, raises_empty next _ nothing forgot)
