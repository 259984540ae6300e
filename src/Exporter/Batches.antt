-- ===== src/Exporter/Batches.antt =====
-- core/exporter/exporter.go: every record is encoded once, in the order of the channel, and in
-- batches of the configured size.
use sf_processor.Prelude.{
  ℕ, suc, ◌≤◌, ◌+◌, ◌≡◌, refl, sym, ap, ◌∙◌, true, false, ◌&&◌, Option, List, [], ◌∷◌, ◌++◌, map,
  All, length, length-append, ltb, flatten, flatten-append, All-append, subst, if◌then◌else◌, arith,
  and_iff, Bool-cases, inl, inr,
}
use mathlib.Core.List.{append-nil, append_assoc}
use sf_processor.Prelude.Int.{ℤ, pos, negsuc, leb_ℤ, ltb_ℤ, sub_ℕ, pos_part}
use sf_processor.Engine.Record.{Record}
use sf_processor.Exporter.{
  Event, received, ticked, Exporter, payload, process, flush, step, close, run, new_exporter,
  max_idle,
}

-- The records that the loop receives, in order.
abbrev pub records_of : List Event → List Record
records_of [] = []
records_of (received r now ∷ es) = r ∷ records_of es
records_of (ticked checked now ∷ es) = records_of es

-- The size of a batch is at least one, and at most the configured buffer or one.
abbrev pub limit : ℤ → ℕ
limit buffer = if ltb 1 (pos_part buffer) then pos_part buffer else 1

abbrev pub IsSized : ℤ → List Record → Type 0
IsSized buffer batch = (1 ≤ length batch) × (length batch ≤ limit buffer)

leb_ℤ-limit : (b : ℤ) (n : ℕ) → leb_ℤ b (pos n) ≡ false → n + 1 ≤ limit b
leb_ℤ-limit (pos b) n h = ground arith
leb_ℤ-limit (negsuc b) n h = ground arith

counted_limit : (b c : ℤ) (n m : ℕ) → b ≡ c → leb_ℤ b (pos n) ≡ false → n ≡ m → m + 1 ≤ limit c
counted_limit b c n m same h e =
    subst (λ k. k + 1 ≤ limit c) e (subst (λ z. n + 1 ≤ limit z) same (leb_ℤ-limit b n h))

counted_some : (n m : ℕ) → ltb 0 n ≡ true → n ≡ m → 1 ≤ m
counted_some n m h e = ground arith

counted_none : {A : Type 0} (n : ℕ) (xs : List A) → ltb 0 n ≡ false → n ≡ length xs → xs ≡ []
counted_none n [] h e = refl
counted_none n (x ∷ xs) h e = absurd (ground arith)

module _ {Data : Type 0} (encode : List Record → Option (List Data)) (buffer : ℤ) where
  -- The state of the loop, where the records `rs` have been received.
  record IsSound (rs : List Record) (s : Exporter Data) : Type 0 where
    conserved : flatten s.encoded ++ s.recs ≡ rs
    counted : s.counter ≡ length s.recs
    paid : s.exported ≡ flatten (map (λ b. payload encode (encode b)) s.encoded)
    sized : All (IsSized buffer) s.encoded
    below : length s.recs + 1 ≤ limit buffer
    kept : s.event_buffer ≡ buffer

  -- What `process` makes of a state with one record or more.
  paid-append :
      (bs : List (List Record)) (b : List Record)
      → flatten (map (λ c. payload encode (encode c)) (bs ++ b ∷ []))
        ≡ flatten (map (λ c. payload encode (encode c)) bs) ++ payload encode (encode b)
  paid-append [] b = append-nil (payload encode (encode b))
  paid-append (c ∷ bs) b =
      ap (λ t. payload encode (encode c) ++ t) (paid-append bs b)
      ∙ sym (append_assoc (payload encode (encode c)) _ _)

  encoded-append :
      (bs : List (List Record)) (b : List Record) → flatten (bs ++ b ∷ []) ≡ flatten bs ++ b
  encoded-append bs b = flatten-append bs (b ∷ []) ∙ ap (λ t. flatten bs ++ t) (append-nil b)

  -- What the encoder and the transport got, where the records `rs` have all been encoded.
  record IsDone (rs : List Record) (s : Exporter Data) : Type 0 where
    conserved : flatten s.encoded ≡ rs
    paid : s.exported ≡ flatten (map (λ b. payload encode (encode b)) s.encoded)
    sized : All (IsSized buffer) s.encoded

  process-IsDone :
      (rs : List Record) (s : Exporter Data)
      → flatten s.encoded ++ s.recs ≡ rs
      → s.exported ≡ flatten (map (λ b. payload encode (encode b)) s.encoded)
      → All (IsSized buffer) s.encoded
      → IsSized buffer s.recs
      → IsDone rs (process encode s)
  unfolding process
  process-IsDone rs s conserved paid sized size = record {
    conserved = encoded-append s.encoded s.recs ∙ conserved;
    paid = ap (λ t. t ++ payload encode (encode s.recs)) paid ∙ sym (paid-append s.encoded s.recs);
    sized = All-append (IsSized buffer) s.encoded (s.recs ∷ []) sized (size, tt);
  }

  flush-IsSound :
      (rs : List Record) (s : Exporter Data) (now : ℕ)
      → s.event_buffer ≡ buffer
      → IsDone rs (process encode s)
      → IsSound rs (flush encode now s)
  unfolding flush process
  flush-IsSound rs s now kept done = record {
    conserved = append-nil _ ∙ done.conserved;
    counted = refl;
    paid = done.paid;
    sized = done.sized;
    below = ground arith;
    kept = kept;
  }

  step_received-IsSound :
      (rs : List Record) (s : Exporter Data) (r : Record) (now : ℕ)
      → IsSound rs s
      → IsSound (rs ++ r ∷ []) (step encode (received r now) s)
  unfolding step
  step_received-IsSound rs s r now h =
      let s' : Exporter Data = record s { counter = suc s.counter; recs = s.recs ++ r ∷ [] } in
      let conserved =
        sym (append_assoc (flatten s.encoded) s.recs (r ∷ []))
        ∙ ap (λ t. t ++ r ∷ []) h.conserved in
      let size : length (s.recs ++ r ∷ []) ≡ length s.recs + 1 = length-append s.recs (r ∷ []) in
      elim (Bool-cases (leb_ℤ s.event_buffer (pos (suc s.counter)))) [
        | inl full ↦ rw full (
            flush-IsSound (rs ++ r ∷ []) s' now h.kept (
              process-IsDone (rs ++ r ∷ []) s' conserved h.paid h.sized (omega arith, omega arith)))
        | inr room ↦ rw room (record {
          conserved = conserved;
          counted = omega arith;
          paid = h.paid;
          sized = h.sized;
          below =
              counted_limit s.event_buffer buffer (suc s.counter) (length (s.recs ++ r ∷ [])) h.kept
                room (omega arith);
          kept = h.kept;
        })
      ]

  step_ticked-IsSound :
      (rs : List Record) (s : Exporter Data) (checked now : ℕ)
      → IsSound rs s
      → IsSound rs (step encode (ticked checked now) s)
  unfolding step
  step_ticked-IsSound rs s checked now h =
      elim (Bool-cases (ltb_ℤ max_idle (sub_ℕ checked s.last_flush) && ltb 0 s.counter)) [
        | inl idle ↦ rw idle (
            flush-IsSound rs s now h.kept (
              process-IsDone rs s h.conserved h.paid h.sized (
                counted_some s.counter (length s.recs)
                    ((and_iff (ltb_ℤ max_idle (sub_ℕ checked s.last_flush)) (ltb 0 s.counter)).0
                      idle).1
                    h.counted,
                omega (arith, h.below),
              )))
        | inr other ↦ rw other h
      ]

  close-IsDone : (rs : List Record) (s : Exporter Data) → IsSound rs s → IsDone rs (close encode s)
  unfolding close
  close-IsDone rs s h = elim (Bool-cases (ltb 0 s.counter)) [
    | inl some_left ↦ rw some_left (
        process-IsDone rs s h.conserved h.paid h.sized
          (counted_some s.counter (length s.recs) some_left h.counted, omega (arith, h.below)))
    | inr none_left ↦ rw none_left (record {
      conserved =
          sym (append-nil _)
          ∙ ap (λ t. flatten s.encoded ++ t)
              (sym (counted_none s.counter s.recs none_left h.counted))
          ∙ h.conserved;
      paid = h.paid;
      sized = h.sized;
    })
  ]

  run-IsDone :
      (es : List Event) (rs : List Record) (s : Exporter Data)
      → IsSound rs s
      → IsDone (rs ++ records_of es) (run encode es s)
  unfolding run
  run-IsDone [] rs s h =
      subst (λ t. IsDone t (close encode s)) (sym (append-nil rs)) (close-IsDone rs s h)
  run-IsDone (received r now ∷ es) rs s h =
      subst (λ t. IsDone t (run encode es (step encode (received r now) s)))
        (append_assoc rs (r ∷ []) (records_of es))
        (run-IsDone es (rs ++ r ∷ []) (step encode (received r now) s)
          (step_received-IsSound rs s r now h))
  run-IsDone (ticked checked now ∷ es) rs s h =
      run-IsDone es rs (step encode (ticked checked now) s) (step_ticked-IsSound rs s checked now h)

  -- Whatever the loop receives before the channel is closed, and at whatever times: the batches that
  -- are encoded hold every received record once and in the order of the channel; each has one record
  -- at least, and at most as many as the buffer is to hold, or one if that is none; and the transport
  -- gets the data of the batches in their order, but for those that fail to encode or have no data.
  pub run-batches :
      (es : List Event) (now : ℕ)
      → (flatten (run encode es (new_exporter buffer now)).encoded ≡ records_of es)
        × All (IsSized buffer) (run encode es (new_exporter buffer now)).encoded
        × ((run encode es (new_exporter buffer now)).exported
            ≡ flatten (
                map
                  (λ b. payload encode (encode b))
                  (run encode es (new_exporter buffer now)).encoded))
  unfolding new_exporter
  run-batches es now =
      let done = run-IsDone es [] (new_exporter buffer now) (record {
        conserved = refl;
        counted = refl;
        paid = refl;
        sized = tt;
        below = ground arith;
        kept = refl;
      }) in
      (done.conserved, done.sized, done.paid)
