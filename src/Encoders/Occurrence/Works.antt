-- ===== src/Encoders/Occurrence/Works.antt =====
-- core/exporter/encoders/occurrence.go: the writer of a pool while every call succeeds.
use sf_processor.Prelude.{
  ℕ, ◌<◌, ◌≡◌, refl, sym, subst, ◌∙◌, ◌⊎◌, Bool, true, false, Option, List, [], ◌∷◌, ◌++◌, length,
  ltb, list_eq, list_beq_iff, nat_eq, ◌==◌, Bool-cases, inl, inr, some, none, arith,
}
use sf_processor.Prelude.Text.{Str}
use sf_processor.Prelude.Paths.{dir}
use sf_processor.Encoders.Occurrence.Event.{Event, Calendar}
use sf_processor.Encoders.Occurrence.Pool.{EventPool, OccurrenceConfig, flush, export_path}
use sf_processor.Encoders.Occurrence.Writer.{
  Io, EventPoolWriter, update_ocf_writer, or_new, has_ocfw, update_event_pool_writer,
  update_writers, has_writer,
}
use sf_processor.Encoders.Occurrence.Conserve.{if_elim, apart}

-- Every call succeeds.
abbrev pub Works : Io → Type 0
Works io =
    ((d : Str) → io.make_dir d ≡ true)
    × ((p : Str) → io.open_file p ≡ true)
    × (io.new_codec ≡ true)
    × ((p : Str) → io.new_writer p ≡ true)
    × (io.append_events ≡ true)

-- The writer has a file, if there is one.
abbrev pub IsReady : Option EventPoolWriter → Type 0
IsReady epw = (epw ≡ none) ⊎ (has_writer epw ≡ true)

not_empty : (a b : Str) (x : ℕ) → a ++ x ∷ b ≡ [] → ⊥
not_empty [] b x h = absurd (cc)
not_empty (y ∷ a) b x h = absurd (cc)

-- A writer that is kept has a file.
reused :
    (path : Str) (epw : Option EventPoolWriter)
    → (path ≡ [] → ⊥)
    → IsReady epw
    → path == (or_new epw).current_export_path ≡ true
    → has_ocfw (or_new epw) ≡ true
reused path none named ready same = absurd (named ((list_beq_iff path []).0 same))
reused path (some e) named (inl fresh) same = absurd (cc)
reused path (some e) named (inr h) same = h

module _ (io : Io) (w : Works io) where
  ocf_works :
      (path : Str) (e : EventPoolWriter)
      → ((update_ocf_writer io path e).0 ≡ true) × (has_ocfw (update_ocf_writer io path e).1 ≡ true)
  unfolding update_ocf_writer
  ocf_works path e = elim (Bool-cases e.codec) [
    | inl y ↦ (simp (w.1 path, y, w.3 path), simp (w.1 path, y, w.3 path))
    | inr n ↦ (simp (w.1 path, n, w.2, w.3 path), simp (w.1 path, n, w.2, w.3 path))
  ]

  writer_works :
      (path : Str) (epw : Option EventPoolWriter)
      → (path ≡ [] → ⊥)
      → IsReady epw
      → ((update_event_pool_writer io path epw).0 ≡ true)
        × (has_ocfw (update_event_pool_writer io path epw).1 ≡ true)
  unfolding update_event_pool_writer
  writer_works path epw named ready = elim (Bool-cases (path == (or_new epw).current_export_path)) [
    | inl same ↦ (
      simp (same, reused path epw named ready same),
      simp (same, reused path epw named ready same),
    )
    | inr other ↦ (
      (let (ok, has) = ocf_works path (or_new epw) in simp (other, w.0 (dir path), ok, has)),
      (let (ok, has) = ocf_works path (or_new epw) in simp (other, w.0 (dir path), ok, has)),
    )
  ]

  writers_work :
      (path : Event → Str) (es : List Event) (epw : Option EventPoolWriter)
      → ((e : Event) → path e ≡ [] → ⊥)
      → IsReady epw
      → ((update_writers io path es epw).0 ≡ true)
        × IsReady (update_writers io path es epw).1
        × ((has_writer epw ≡ true) ⊎ (0 < length es)
            → has_writer (update_writers io path es epw).1 ≡ true)
  unfolding update_writers
  writers_work path [] epw named ready = (
    refl,
    ready,
    λ h. elim h [ inl has ↦ has | inr none_left ↦ absurd (omega (arith, none_left)) ],
  )
  writers_work path (e ∷ es) epw named ready =
      let (ok, has) = writer_works (path e) epw (named e) ready in
      let w' = some (update_event_pool_writer io (path e) epw).1 in
      let rest = update_writers io path es w' in
      let (ok', ready', has') = writers_work path es w' named (inr has) in
      if_elim
        (λ (u : Bool × Option EventPoolWriter).
          (u.0 ≡ true)
          × IsReady u.1
          × ((has_writer epw ≡ true) ⊎ (0 < length (e ∷ es)) → has_writer u.1 ≡ true))
        (update_event_pool_writer io (path e) epw).0 rest (false, w')
        (λ y. (ok', ready', λ h. has' (inl has))) (λ n. absurd (apart (sym ok ∙ n)))

  pub flush_works :
      {F : Type 0} (date : Calendar) (c : OccurrenceConfig) (now : ℕ) (ep : EventPool F)
      → IsReady ep.epw
      → ((flush date c now io ep).0 ≡ true) × IsReady (flush date c now io ep).1.epw
  unfolding flush
  flush_works date c now ep ready =
      let path = export_path date c ep.enc_ts in
      let (ok, ready', has) =
        writers_work path ep.events ep.epw (λ e. not_empty c.findings_path _ b'/') ready in
      elim (Bool-cases (ltb 0 (length ep.events))) [
        | inr n ↦ (
          simp (ok, n),
          let kept : (flush date c now io ep).1.epw ≡ (update_writers io path ep.events ep.epw).1 =
                simp (ok, n) in
              subst IsReady (sym kept) ready',
        )
        | inl y ↦ (
          let h = has (inr (ground (arith, y))) in simp (ok, y, h, w.4),
          let h = has (inr (ground (arith, y))) in inr (simp (ok, y, h, w.4)),
        )
      ]
