-- ===== src/Flattener/Output/Duplicate.antt =====
-- core/flattener/flattener.go: a record behind one of the same meaning.
use sf_processor.Prelude.{
  ℕ, ◌-◌, ◌≡◌, refl, ap, ◌∙◌, Bool, true, false, some, [], ◌∷◌, ◌++◌, if◌then◌else◌,
}
use mathlib.Core.List.{append_assoc}
use sf_processor.Prelude.Text.{Str}
use sf_processor.Engine.Record.{Columns}
use sf_processor.Config.FlattenerConfig.{is_enabled}
use sf_processor.Flattener.Filter.{Filter, Clock, test_and_add, is_young, evict_aged_entries}
use sf_processor.Flattener.Filter.Evict.{IsMonotone}
use sf_processor.Flattener.Filter.Window.{IsValid}
use sf_processor.Flattener.Filter.Repeat.{second-test_and_add}
use sf_processor.Flattener.Output.{HashAttributes, Output, semantic_bytes, semantic_hash, out}
use sf_processor.Flattener.Output.Window.{out-unseen, delivered}

module _ (a : HashAttributes) (sum64 : Str → ℕ) (clock : Clock) (mono : IsMonotone clock) (i : ℕ)
    (c : Columns) (s : Output) (f : Filter) (on : is_enabled s.config.filter_on_off ≡ true)
    (here : s.filter ≡ some f) (v : IsValid clock i f)
    (unseen : (test_and_add clock i (semantic_hash a sum64 clock c) f).0 ≡ false) where
  abbrev hash : ℕ
  hash = semantic_hash a sum64 clock c

  abbrev left : Output × ℕ
  left = out a sum64 clock i c s

  abbrev asked : Bool × Filter × ℕ
  asked = test_and_add clock i hash f

  abbrev last : ℕ
  last = (evict_aged_entries clock asked.2 asked.1).1 - 1

  same_hash :
      (c' : Columns)
      → semantic_bytes a c' ≡ semantic_bytes a c
      → semantic_hash a sum64 clock c' ≡ hash
  unfolding semantic_hash
  same_hash c' same = ap sum64 same

  -- Under a clock that does not go back: if the filter is on and valid and has not seen a record,
  -- the record is sent, and a next one with the same semantic bytes is held back exactly while the
  -- time since the reading at which the first was added, up to the last reading of the second
  -- eviction, is below the time to live.
  pub out-duplicate :
      (c' : Columns)
      → semantic_bytes a c' ≡ semantic_bytes a c
      → (left.0.sent ≡ s.sent ++ c ∷ [])
        × ((out a sum64 clock left.1 c' left.0).0.sent ≡ (
            if is_young clock last f.ttl (record { h = hash; first_seen = clock (asked.2 - 1) })
            then s.sent ++ c ∷ []
            else s.sent ++ c ∷ c' ∷ []))
  out-duplicate c' same =
      let s' : Output = record s { filter = some asked.1; sent = s.sent ++ c ∷ [] } in
      let first = out-unseen a sum64 clock i c s f on here unseen in
      let pick = λ (b : Bool). if b then s.sent ++ c ∷ [] else (s.sent ++ c ∷ []) ++ c' ∷ [] in
      (
        ap (λ (r : Output × ℕ). r.0.sent) first,
        ap (λ (r : Output × ℕ). (out a sum64 clock r.1 c' r.0).0.sent) first
            ∙ (delivered a sum64 clock asked.2 c' s' asked.1 on refl).2
            ∙ ap (λ h. pick (test_and_add clock asked.2 h asked.1).0) (same_hash c' same)
            ∙ ap pick (second-test_and_add clock mono i hash f v unseen)
            ∙ ap
                (λ l.
                  if is_young clock last f.ttl
                    (record { h = hash; first_seen = clock (asked.2 - 1) })
                  then s.sent ++ c ∷ []
                  else l)
                (append_assoc s.sent (c ∷ []) (c' ∷ [])),
      )
