-- ===== src/Flattener/Filter/Repeat.antt =====
-- core/flattener/filter.go: when a hash that was new is seen again.
use sf_processor.Prelude.{
  ℕ, ◌-◌, ◌≡◌, refl, sym, ap, subst, ◌∙◌, inl, inr, true, false, Bool_ext, none, List, [], ◌∷◌,
  ◌++◌, In, In-append_right, In-append_cases, any_intro, Option-cases, nat_beq, nat_beq_iff, nat_eq,
  arith,
}
use sf_processor.Prelude.Assoc.{lookup}
use sf_processor.Prelude.Int.{ℤ}
use sf_processor.Flattener.Filter.{
  Entry, Filter, Clock, has, is_young, evict_aged_entries, test_and_add, queued,
}
use sf_processor.Flattener.Filter.Evict.{IsMonotone}
use sf_processor.Flattener.Filter.Window.{IsValid, evict-IsValid, test-HasWindow}
use sf_processor.Flattener.Filter.Add.{add_new, test_and_add-IsValid}

lookup-none : (h : ℕ) (m : List (ℕ × ℤ)) → has h m ≡ false → lookup h m ≡ none
lookup-none h m e = elim (Option-cases (lookup h m)) [
  | inl free ↦ free
  | inr (c, found) ↦ absurd (ground (arith, found))
]

only : {e d : Entry} → In e (d ∷ []) → e ≡ d
only (inl same) = same
only (inr h) = elim h [ ]

evicted_ttl : (clock : Clock) (i : ℕ) (f : Filter) → (evict_aged_entries clock i f).0.ttl ≡ f.ttl
unfolding evict_aged_entries
evicted_ttl clock i f = refl

module _ (clock : Clock) (mono : IsMonotone clock) (i : ℕ) (h : ℕ) (f : Filter)
    (v : IsValid clock i f) (unseen : (test_and_add clock i h f).0 ≡ false) where
  -- The filter and the number of readings after the first call.
  abbrev after : Filter
  after = (test_and_add clock i h f).1

  abbrev readings : ℕ
  readings = (test_and_add clock i h f).2

  abbrev new_entry : Entry
  new_entry = record { h = h; first_seen = clock (readings - 1) }

  -- The first call puts the hash at the back of the queue.
  after_queue :
      (after.q ≡ (evict_aged_entries clock i f).0.q ++ new_entry ∷ [])
      × (after.ttl ≡ f.ttl)
      × (queued h (evict_aged_entries clock i f).0.q ≡ false)
  unfolding test_and_add
  after_queue =
      let f' = (evict_aged_entries clock i f).0 in
      let j = (evict_aged_entries clock i f).1 in
      let valid = evict-IsValid clock mono i f v in
      let added = add_new clock mono j h f' valid (lookup-none h f'.m unseen) in
      (
        subst
            (λ (p : Filter × ℕ).
              p.0.q ≡ f'.q ++ record { h = h; first_seen = clock (p.1 - 1) } ∷ [])
            (sym added)
            (ap (λ k. f'.q ++ record { h = h; first_seen = clock k } ∷ []) (omega arith)),
        subst (λ (p : Filter × ℕ). p.0.ttl ≡ f.ttl) (sym added) (evicted_ttl clock i f),
        sym (valid.agree h) ∙ unseen,
      )

  -- Under a clock that does not go back: if `TestAndAdd` on a valid filter has not seen a hash,
  -- then on a second call for it the hash counts as seen exactly while the time from the reading of
  -- the clock at which it was added to the last one of the second eviction is below the time to
  -- live.
  pub second-test_and_add :
      (test_and_add clock readings h after).0
      ≡ is_young clock ((evict_aged_entries clock readings after).1 - 1) f.ttl new_entry
  second-test_and_add =
      let valid = test_and_add-IsValid clock mono i h f v in
      let w = (test-HasWindow clock mono readings after valid h).1 in
      let (parts, ttl, free) = after_queue in
      let q' = (evict_aged_entries clock i f).0.q in
      let last = (evict_aged_entries clock readings after).1 - 1 in
      Bool_ext (test_and_add clock readings h after).0 (is_young clock last f.ttl new_entry)
        (λ t.
          let (e, n, same, y) = w.0 t in
          elim (In-append_cases e q' (new_entry ∷ []) (subst (In e) parts n)) [
            | inl old ↦ absurd (
                ground (
                  arith,
                  any_intro (λ d. nat_beq (Entry.h d) h) e q' old ((nat_beq_iff e.h h).1 same),
                ))
            | inr here ↦
                subst (λ k. is_young clock last k new_entry ≡ true) ttl
                  (subst (λ d. is_young clock last after.ttl d ≡ true) (only here) y)
          ])
        (λ y. w.1 (
          new_entry,
          subst (In new_entry) (sym parts)
              (In-append_right new_entry q' (new_entry ∷ []) (inl refl)),
          refl,
          subst (λ k. is_young clock last k new_entry ≡ true) (sym ttl) y,
        ))
