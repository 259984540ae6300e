-- ===== src/Policy/Pool/Progress.antt =====
-- core/policyengine/policyengine.go: the pool does not stop, if it has a worker and its output channels
-- are read.
use sf_processor.Prelude.{
  ℕ, suc, ◌+◌, ◌*◌, ◌<◌, ◌≤◌, ◌≡◌, refl, sym, ap, subst, ◌∙◌, ◌⊎◌, inl, inr, none, some, List, [],
  ◌∷◌, ◌++◌, length, length-append, Option-cases, arith,
}
use native.Mathlib.Decide.{dec_lt}
use sf_processor.Engine.Record.{FlatRecord, Record, new_record}
use sf_processor.Engine.Mapper.{FieldMapper, JsonGet}
use sf_processor.Policy.Interpreter.{PolicyInterpreter}
use sf_processor.Policy.Pool.{
  OutChannel, Sending, call_out, PolicyEngine, verdict, Step, pass, feed, fetch, finish, send, sent,
  receive,
}

-- How much is to be done: to feed, fetch and finish each record.
unfoldable pub work : PolicyEngine → ℕ
work s = 3 * length s.input + 2 * length s.queue + length s.busy

-- How much is to be done in the calls of `out`: each send, and the return.
unfoldable pub to_send : List Sending → ℕ
to_send [] = 0
to_send (c ∷ cs) = suc c.left + to_send cs

-- How many records in the output channels are not yet received.
unfoldable pub unread : List OutChannel → ℕ
unread [] = 0
unread (c ∷ cs) = length c.held + unread cs

-- The first of two states is nearer to the end: less is to be done for the records, or as much and
-- less in the calls of `out`, or as much in these too and less is unread.
abbrev pub IsNearer : PolicyEngine → PolicyEngine → Type 0
IsNearer t s =
    (work t < work s)
    ⊎ ((work t ≡ work s)
        × ((to_send t.sending < to_send s.sending)
            ⊎ ((to_send t.sending ≡ to_send s.sending) × (unread t.outs < unread s.outs))))

-- Every output channel is buffered.
abbrev pub HasPlaces : List OutChannel → Type 0
HasPlaces [] = Unit
HasPlaces (c ∷ cs) = (0 < c.places) × HasPlaces cs

-- A call of `out` has no more channels left than there are.
abbrev pub IsWithin : ℕ → List Sending → Type 0
IsWithin n [] = Unit
IsWithin n (c ∷ cs) = (c.left ≤ n) × IsWithin n cs

-- An interpreter has a worker, the channel of the workers is empty where there is no interpreter,
-- every output channel has a place, and no call of `out` has more channels left than there are.
pub record IsLive (s : PolicyEngine) : Type 0 where
  pub workers : (p : PolicyInterpreter) → s.pi ≡ some p → 0 < p.concurrency
  pub idle : s.pi ≡ none → s.queue ≡ []
  pub places : HasPlaces s.outs
  pub within : IsWithin (length s.outs) s.sending

List-cases {ℓ} :
    {A : Type ℓ} (xs : List A) → (xs ≡ []) ⊎ ((x : A) × (rest : List A) × (xs ≡ x ∷ rest))
List-cases [] = inl refl
List-cases (x ∷ rest) = inr (x, rest, refl)

-- The channel with `k` channels behind it.
split_at :
    (k : ℕ) (outs : List OutChannel)
    → k < length outs
    → (pre : List OutChannel) × (c : OutChannel) × (post : List OutChannel) × (outs
        ≡ pre ++ c ∷ post)
      × (length post ≡ k)
split_at k [] h = absurd (omega (arith, h))
split_at k (c ∷ cs) h = elim (dec_lt k (length cs)) [
  | yes more ↦
      let (pre, d, post, e, same) = split_at k cs more in
      (c ∷ pre, d, post, ap (λ z. c ∷ z) e, same)
  | no last ↦ ([], c, cs, refl, omega (arith, h, last))
]

HasPlaces-here :
    (pre post : List OutChannel) (c : OutChannel) → HasPlaces (pre ++ c ∷ post) → 0 < c.places
HasPlaces-here [] post c (h, hs) = h
HasPlaces-here (b ∷ pre) post c (h, hs) = HasPlaces-here pre post c hs

same_length :
    (pre post : List OutChannel) (c d : OutChannel)
    → length (pre ++ d ∷ post) ≡ length (pre ++ c ∷ post)
same_length pre post c d = omega (arith, length-append pre (d ∷ post), length-append pre (c ∷ post))

HasPlaces-swap :
    (pre post : List OutChannel) (c d : OutChannel)
    → d.places ≡ c.places
    → HasPlaces (pre ++ c ∷ post)
    → HasPlaces (pre ++ d ∷ post)
HasPlaces-swap [] post c d e (h, hs) = (omega (arith, h, e), hs)
HasPlaces-swap (b ∷ pre) post c d e (h, hs) = (h, HasPlaces-swap pre post c d e hs)

IsWithin-call :
    (n : ℕ) (cs : List Sending) (rs : List Record)
    → IsWithin n cs
    → IsWithin n (cs ++ call_out n rs)
unfolding call_out
IsWithin-call n [] [] h = tt
IsWithin-call n [] (r ∷ rs) h = (omega arith, IsWithin-call n [] rs tt)
IsWithin-call n (c ∷ cs) rs (h, hs) = (h, IsWithin-call n cs rs hs)

pub unread-receive :
    (before after : List OutChannel) (c : OutChannel) (r : Record) (rest : List Record)
    → c.held ≡ r ∷ rest
    → unread (before ++ record c { held = rest } ∷ after) < unread (before ++ c ∷ after)
unfolding unread
unread-receive [] after c r rest e = omega (arith, ap (λ z. length z) e)
unread-receive (b ∷ before) after c r rest e = omega (arith, unread-receive before after c r rest e)

module _ (gjson : JsonGet) (m : FieldMapper) where
  abbrev Goes : PolicyEngine → Type 0
  Goes s = (t : PolicyEngine) × Step gjson m s t × IsNearer t s × IsLive t

  finishes :
      (s : PolicyEngine) (r : Record) (rest : List Record) → IsLive s → s.busy ≡ r ∷ rest → Goes s
  unfolding work
  finishes s r rest live e = (
    _,
    finish [] rest r e,
    inl (omega (arith, ap (λ b. length b) e)),
    record {
      workers = live.workers;
      idle = live.idle;
      places = live.places;
      within = IsWithin-call (length s.outs) s.sending (verdict gjson m s.pi r) live.within;
    },
  )

  fetches :
      (s : PolicyEngine) (p : PolicyInterpreter) (r : Record) (rest : List Record)
      → IsLive s
      → s.pi ≡ some p
      → s.busy ≡ []
      → s.sending ≡ []
      → s.queue ≡ r ∷ rest
      → Goes s
  unfolding work
  fetches s p r rest live here idle quiet e =
      let none_busy : length s.busy ≡ 0 = ap (λ b. length b) idle in
      let none_sent : length s.sending ≡ 0 = ap (λ b. length b) quiet in
      (
        _,
        fetch e here (omega (arith, live.workers p here)),
        inl (omega (arith, ap (λ b. length b) e, length-append s.busy (r ∷ []))),
        record {
          workers = live.workers;
          idle = λ nil. absurd (cc);
          places = live.places;
          within = live.within;
        },
      )

  feeds :
      (s : PolicyEngine) (p : PolicyInterpreter) (fc : FlatRecord) (rest : List FlatRecord)
      → IsLive s
      → s.pi ≡ some p
      → s.queue ≡ []
      → s.input ≡ fc ∷ rest
      → Goes s
  unfolding work
  feeds s p fc rest live here idle e =
      let none_queued : length s.queue ≡ 0 = ap (λ b. length b) idle in
      (
        _,
        feed e here (omega (arith, live.workers p here)),
        inl (omega (arith, ap (λ b. length b) e, length-append s.queue (new_record fc ∷ []))),
        record {
          workers = live.workers;
          idle = λ nil. absurd (cc);
          places = live.places;
          within = live.within;
        },
      )

  passes :
      (s : PolicyEngine) (fc : FlatRecord) (rest : List FlatRecord)
      → IsLive s
      → s.pi ≡ none
      → s.sending ≡ []
      → s.input ≡ fc ∷ rest
      → Goes s
  unfolding work
  passes s fc rest live nil quiet e = (
    _,
    pass e nil quiet,
    inl (omega (arith, ap (λ b. length b) e)),
    record {
      workers = live.workers;
      idle = live.idle;
      places = live.places;
      within = IsWithin-call (length s.outs) [] (new_record fc ∷ []) tt;
    },
  )

  -- A call of `out` returns.
  returns :
      (s : PolicyEngine) (item : Record) (rest : List Sending)
      → IsLive s
      → s.sending ≡ record { item = item; left = 0 } ∷ rest
      → Goes s
  unfolding to_send work
  returns s item rest live e = (
    _,
    sent [] rest item e,
    inr (refl, inl (omega (arith, ap to_send e))),
    record {
      workers = live.workers;
      idle = live.idle;
      places = live.places;
      within = (subst (λ cs. IsWithin (length s.outs) cs) e live.within).1;
    },
  )

  -- The channel that is next in a call of `out` takes the record, or its reader receives one.
  sends :
      (s : PolicyEngine) (item : Record) (rest : List Sending) (pre post : List OutChannel)
      (c : OutChannel)
      → IsLive s
      → s.sending ≡ record { item = item; left = suc (length post) } ∷ rest
      → s.outs ≡ pre ++ c ∷ post
      → Goes s
  unfolding to_send work
  sends s item rest pre post c live e at =
      let places = subst HasPlaces at live.places in
      let within = subst (λ cs. IsWithin (length s.outs) cs) e live.within in
      let with_held = λ (held : List Record). record c { held = held } in
      let as_long = λ (held : List Record).
        same_length pre post c (with_held held) ∙ sym (ap (λ z. length z) at) in
      elim (dec_lt (length c.held) c.places) [
        | yes room ↦ (
          _,
          send [] rest item pre post c e at room,
          inr (refl, inl (omega (arith, ap to_send e))),
          record {
            workers = live.workers;
            idle = live.idle;
            places = HasPlaces-swap pre post c (with_held (c.held ++ item ∷ [])) refl places;
            within =
                subst (λ n. IsWithin n (record { item = item; left = length post } ∷ rest))
                  (sym (as_long (c.held ++ item ∷ []))) (omega (arith, within.0), within.1);
          },
        )
        | no full ↦ elim (List-cases c.held) [
          | inl empty ↦
              absurd
                (omega (arith, ap (λ z. length z) empty, full, HasPlaces-here pre post c places))
          | inr (r, held, some_held) ↦ (
            _,
            receive pre post c r held at some_held,
            inr (
              refl,
              inr (
                refl,
                subst (λ outs. unread (pre ++ with_held held ∷ post) < unread outs) (sym at)
                    (unread-receive pre post c r held some_held),
              ),
            ),
            record {
              workers = live.workers;
              idle = live.idle;
              places = HasPlaces-swap pre post c (with_held held) refl places;
              within = subst (λ n. IsWithin n s.sending) (sym (as_long held)) live.within;
            },
          )
        ]
      ]

  -- With a call of `out` in progress, it goes on, or a reader receives what it waits for.
  calls :
      (s : PolicyEngine) (item : Record) (left : ℕ) (rest : List Sending)
      → IsLive s
      → s.sending ≡ record { item = item; left = left } ∷ rest
      → Goes s
  calls s item ℕ.zero rest live e = returns s item rest live e
  calls s item (suc k) rest live e =
      let within = subst (λ cs. IsWithin (length s.outs) cs) e live.within in
      let (pre, c, post, at, behind) = split_at k s.outs (omega (arith, within.0)) in
      sends s item rest pre post c live
        (e ∙ ap (λ n. record { item = item; left = suc n } ∷ rest) (sym behind)) at

  -- While a record is in the input, in the channel of the workers, with a worker or in a call of
  -- `out`: if an interpreter has a worker, the channel of the workers is empty where there is no
  -- interpreter, every output channel has a place, and no call of `out` has more channels left than
  -- there are, then some step is possible after which this still holds, and less is to be done for the
  -- records, or as much and less in the calls of `out`, or as much in these too and the readers of the
  -- output channels have less to receive. A full output channel holds up a call of `out` until its
  -- reader receives, which is one of the steps.
  pub pool-progress :
      (s : PolicyEngine)
      → IsLive s
      → 0 < work s + to_send s.sending
      → (t : PolicyEngine) × Step gjson m s t × IsNearer t s × IsLive t
  unfolding work to_send
  pool-progress s live left = elim (List-cases s.sending) [
    | inr (c, rest, e) ↦ calls s c.item c.left rest live e
    | inl quiet ↦ elim (List-cases s.busy) [
      | inr (r, rest, e) ↦ finishes s r rest live e
      | inl no_busy ↦ elim (List-cases s.queue) [
        | inr (r, rest, e) ↦ elim (Option-cases s.pi) [
          | inl nil ↦ absurd (omega (arith, ap (λ q. length q) (sym e ∙ live.idle nil)))
          | inr (p, here) ↦ fetches s p r rest live here no_busy quiet e
        ]
        | inl no_queue ↦ elim (List-cases s.input) [
          | inl no_input ↦ absurd (
              omega (
                arith,
                ap (λ b. length b) no_busy,
                ap (λ b. length b) no_queue,
                ap (λ b. length b) no_input,
                ap to_send quiet,
                left,
              ))
          | inr (fc, rest, e) ↦ elim (Option-cases s.pi) [
            | inl nil ↦ passes s fc rest live nil quiet e
            | inr (p, here) ↦ feeds s p fc rest live here no_queue e
          ]
        ]
      ]
    ]
  ]
