-- ===== src/Encoders/Occurrence/Independent.antt =====
-- core/exporter/encoders/occurrence.go: the pools of the containers do not meet, and what an occurrence
-- says of the rules.
use sf_processor.Prelude.{
  ℕ, ◌≡◌, refl, sym, ap, ◌∙◌, Bool, Option, none, some, List, [], ◌∷◌, if◌then◌else◌, list_eq,
  nat_eq, ◌==◌, list_beq_iff, Bool-cases, inl, inr, select, select-true, select-false,
}
use sf_processor.Prelude.Assoc.{lookup, insert, lookup-insert}
use sf_processor.Prelude.Int.{ℤ}
use sf_processor.Prelude.Text.{Str}
use sf_processor.Engine.Record.{Record}
use sf_processor.Engine.Mapper.{JsonGet}
use sf_processor.Engine.Fields.{Sfgo}
use sf_processor.Encoders.Occurrence.Event.{Calendar}
use sf_processor.Encoders.Occurrence.Pool.{
  Moment, EventPool, OccurrenceConfig, new_event_pool, add_event,
}
use sf_processor.Encoders.Occurrence.Bounded.{run}
use sf_processor.Encoders.Occurrence.Encoder.{
  Cache, get_event_pool, container_of, encode, encode_all,
}

module _ {F : Type 0} (empty : F) (add : ℕ → F → F) (contains : ℕ → F → Bool) (sum64 : Str → ℕ)
    (date : Calendar) (sfgo : Sfgo) (gjson : JsonGet) (c : OccurrenceConfig) (ts : ℤ) where
  abbrev pool : Str → Cache F → EventPool F
  pool cid cache = get_event_pool empty add contains sum64 date sfgo gjson c ts cid cache

  -- Whether the record of a step is the container's.
  abbrev pub is_of : Str → Moment × Record → Bool
  is_of cid (m, r) = container_of empty add contains sum64 date sfgo gjson c ts r == cid

  abbrev after : Moment → Record → Cache F → Cache F
  after m r cache = (encode empty add contains sum64 date sfgo gjson c ts m r cache).1

  abbrev step : Moment → Record → EventPool F → EventPool F
  step m r ep = (add_event empty add contains sum64 date sfgo gjson c m r ep).1

  abbrev known_pool : Str → Option (EventPool F) → EventPool F
  known_pool cid none = new_event_pool empty add contains sum64 date sfgo gjson c cid ts
  known_pool cid (some ep) = ep

  pool-insert :
      (at cid : Str) (ep : EventPool F) (cache : Cache F)
      → pool cid (insert at ep cache) ≡ (if at == cid then ep else pool cid cache)
  unfolding get_event_pool
  pool-insert at cid ep cache =
      let found = lookup-insert at cid ep cache in
      elim (Bool-cases (at == cid)) [
        | inl y ↦
            let now : lookup cid (insert at ep cache) ≡ some ep = found ∙ simp y in
            ap (known_pool cid) now ∙ sym (simp y)
        | inr n ↦
            let now : lookup cid (insert at ep cache) ≡ lookup cid cache = found ∙ simp n in
            ap (known_pool cid) now ∙ sym (simp n)
      ]

  -- Another container's record leaves the pool alone.
  pool-encode :
      (cid : Str) (m : Moment) (r : Record) (cache : Cache F)
      → pool cid (after m r cache)
        ≡ (if is_of cid (m, r) then step m r (pool cid cache) else pool cid cache)
  unfolding encode
  pool-encode cid m r cache =
      let at = container_of empty add contains sum64 date sfgo gjson c ts r in
      pool-insert at cid (step m r (pool at cache)) cache ∙ (elim (Bool-cases (at == cid)) [
        | inl y ↦ simp y (ap (λ k. step m r (pool k cache)) ((list_beq_iff at cid).0 y))
        | inr n ↦ simp n
      ])

  pools-independent_from :
      (cid : Str) (steps : List (Moment × Record)) (cache : Cache F)
      → pool cid (encode_all empty add contains sum64 date sfgo gjson c ts steps cache).1
        ≡ run empty add contains sum64 date sfgo gjson c (select (is_of cid) steps) (pool cid cache)
  unfolding encode_all
  pools-independent_from cid [] cache = refl
  pools-independent_from cid ((m, r) ∷ steps) cache =
      let one = pool-encode cid m r cache in
      let all = pools-independent_from cid steps (after m r cache) in
      let continued = λ (ep : EventPool F).
        run empty add contains sum64 date sfgo gjson c (select (is_of cid) steps) ep in
      let taken = λ (own : List (Moment × Record)).
        run empty add contains sum64 date sfgo gjson c own (pool cid cache) in
      elim (Bool-cases (is_of cid (m, r))) [
        | inl y ↦
            let one' : pool cid (after m r cache) ≡ step m r (pool cid cache) = one ∙ simp y in
            all ∙ ap continued one' ∙ sym (ap taken (select-true (is_of cid) (m, r) steps y))
        | inr n ↦
            let one' : pool cid (after m r cache) ≡ pool cid cache = one ∙ simp n in
            all ∙ ap continued one' ∙ sym (ap taken (select-false (is_of cid) (m, r) steps n))
      ]

  -- After any sequence of records, whatever the containers that they come from and in whatever order,
  -- the pool of a container is what its own records alone make of a new pool.
  pub encode_all-run :
      (cid : Str) (steps : List (Moment × Record))
      → pool cid (encode_all empty add contains sum64 date sfgo gjson c ts steps []).1
        ≡ run empty add contains sum64 date sfgo gjson c
            (select (is_of cid) steps)
            (new_event_pool empty add contains sum64 date sfgo gjson c cid ts)
  unfolding get_event_pool lookup
  encode_all-run cid steps = pools-independent_from cid steps []
