-- ===== src/Flattener/Output/Window.antt =====
-- core/flattener/flattener.go: what a stream of records looks like behind the filter.
use sf_processor.Prelude.{
  ℕ, ◌≡◌, refl, sym, ap, subst, ◌∙◌, Bool, true, false, Option, some, List, [], ◌∷◌, ◌++◌,
  Bool-cases, inl, inr, if◌then◌else◌,
}
use mathlib.Core.List.{append-nil, append_assoc}
use sf_processor.Prelude.Text.{Str}
use sf_processor.Engine.Record.{Columns}
use sf_processor.Config.FlattenerConfig.{is_enabled}
use sf_processor.Flattener.Filter.{Filter, Clock, test_and_add}
use sf_processor.Flattener.Filter.Evict.{IsMonotone}
use sf_processor.Flattener.Filter.Window.{IsValid, HasWindow, test-HasWindow}
use sf_processor.Flattener.Filter.Add.{test_and_add-IsValid}
use sf_processor.Flattener.Output.{
  HashAttributes, Output, semantic_hash, out, out_all, deliver, is_held_back,
}

out-disabled :
    (a : HashAttributes) (sum64 : Str → ℕ) (clock : Clock) (i : ℕ) (c : Columns) (s : Output)
    → is_enabled s.config.filter_on_off ≡ false
    → out a sum64 clock i c s ≡ (record s { sent = s.sent ++ c ∷ [] }, i)
unfolding out is_held_back
out-disabled a sum64 clock i c s off =
    ap
      (λ b.
        deliver a sum64 clock c s
          (is_held_back a sum64 clock i (semantic_hash a sum64 clock c) b s.filter))
      off
    ∙ refl

-- With the filter off, every record is sent, in order, and the filter and the clock are left alone.
pub out_all-disabled :
    (a : HashAttributes) (sum64 : Str → ℕ) (clock : Clock) (i : ℕ) (cs : List Columns) (s : Output)
    → is_enabled s.config.filter_on_off ≡ false
    → out_all a sum64 clock i cs s ≡ (record s { sent = s.sent ++ cs }, i)
unfolding out_all
out_all-disabled a sum64 clock i [] s off =
    ap (λ l. (record s { sent = l }, i)) (sym (append-nil s.sent))
out_all-disabled a sum64 clock i (c ∷ cs) s off =
    let s' : Output = record s { sent = s.sent ++ c ∷ [] } in
    ap (λ (r : Output × ℕ). out_all a sum64 clock r.1 cs r.0) (out-disabled a sum64 clock i c s off)
    ∙ out_all-disabled a sum64 clock i cs s' off
    ∙ ap (λ l. (record s { sent = l }, i)) (append_assoc s.sent (c ∷ []) cs)

module _ (a : HashAttributes) (sum64 : Str → ℕ) (clock : Clock) (i : ℕ) (c : Columns) (s : Output)
    (f : Filter) (on : is_enabled s.config.filter_on_off ≡ true) (here : s.filter ≡ some f) where
  abbrev asked : Bool × Filter × ℕ
  asked = test_and_add clock i (semantic_hash a sum64 clock c) f

  abbrev left : Output × ℕ
  left = out a sum64 clock i c s

  answer-eq :
      is_held_back a sum64 clock i
        (semantic_hash a sum64 clock c)
        (is_enabled s.config.filter_on_off)
        s.filter
      ≡ (asked.0, some asked.1, asked.2)
  unfolding is_held_back
  answer-eq = rw (on, here)

  left-eq : left ≡ deliver a sum64 clock c s (asked.0, some asked.1, asked.2)
  unfolding out
  left-eq = ap (deliver a sum64 clock c s) answer-eq

  filter-deliver :
      (held : Bool) (o : Option Filter) (j : ℕ)
      → ((deliver a sum64 clock c s (held, o, j)).0.filter ≡ o)
        × ((deliver a sum64 clock c s (held, o, j)).1 ≡ j)
        × ((deliver a sum64 clock c s (held, o, j)).0.sent
            ≡ (if held then s.sent else s.sent ++ c ∷ []))
  unfolding deliver
  filter-deliver true o j = (refl, refl, refl)
  filter-deliver false o j = (refl, refl, refl)

  pub delivered :
      (left.0.filter ≡ some asked.1)
      × (left.1 ≡ asked.2)
      × (left.0.sent ≡ (if asked.0 then s.sent else s.sent ++ c ∷ []))
  delivered =
      subst
        (λ (r : Output × ℕ).
          (r.0.filter ≡ some asked.1)
          × (r.1 ≡ asked.2)
          × (r.0.sent ≡ (if asked.0 then s.sent else s.sent ++ c ∷ [])))
        (sym left-eq) (filter-deliver asked.0 (some asked.1) asked.2)

  pub out-unseen :
      asked.0 ≡ false
      → left ≡ (record s { filter = some asked.1; sent = s.sent ++ c ∷ [] }, asked.2)
  unfolding deliver
  out-unseen n = left-eq ∙ ap (λ b. deliver a sum64 clock c s (b, some asked.1, asked.2)) n ∙ refl

  -- With the filter on and valid, a record is held back if its semantic hash has an open window, and
  -- sent if it has none. The filter that is left is valid at the reading that is left.
  pub out-HasWindow :
      (mono : IsMonotone clock) (v : IsValid clock i f)
      → (HasWindow clock mono i f v (semantic_hash a sum64 clock c) → left.0.sent ≡ s.sent)
        × (¬ HasWindow clock mono i f v (semantic_hash a sum64 clock c)
            → left.0.sent ≡ s.sent ++ c ∷ [])
        × ((f' : Filter) × (left.0.filter ≡ some f') × IsValid clock left.1 f')
  out-HasWindow mono v =
      let h = semantic_hash a sum64 clock c in
      let pick = λ (b : Bool). if b then s.sent else s.sent ++ c ∷ [] in
      let open_iff = (test-HasWindow clock mono i f v h).1 in
      (
        λ w. delivered.2 ∙ ap pick (open_iff.1 w),
        λ n. elim (Bool-cases asked.0) [
          | inl t ↦ absurd (n (open_iff.0 t))
          | inr e ↦ delivered.2 ∙ ap pick e
        ],
        (
          asked.1,
          delivered.0,
          subst (λ j. IsValid clock j asked.1) (sym delivered.1)
              (test_and_add-IsValid clock mono i h f v),
        ),
      )
