-- ===== src/Policy/Pool/Ends.antt =====
-- core/policyengine/policyengine.go: the pool does not run for ever on the records that it has.
use sf_processor.Prelude.{
  ℕ, suc, ◌+◌, ◌<◌, ◌≡◌, refl, sym, ap, subst, ◌⊎◌, inl, inr, some, List, [], ◌∷◌, ◌++◌, length,
  length-append, arith,
}
use sf_processor.Engine.Record.{Record, new_record}
use sf_processor.Engine.Mapper.{FieldMapper, JsonGet}
use sf_processor.Policy.Interpreter.{PolicyInterpreter}
use sf_processor.Policy.Pool.{
  Sending, PolicyEngine, Step, pass, feed, fetch, finish, send, sent, receive, swap,
}
use sf_processor.Policy.Pool.Progress.{work, to_send, unread, IsNearer, unread-receive}

to_send-append : (xs ys : List Sending) → to_send (xs ++ ys) ≡ to_send xs + to_send ys
unfolding to_send
to_send-append [] ys = omega arith
to_send-append (x ∷ xs) ys = omega (arith, to_send-append xs ys)

-- A call of `out` that has one channel less to send to, or has returned.
to_send-send :
    (before after : List Sending) (item : Record) (k : ℕ)
    → to_send (before ++ record { item = item; left = k } ∷ after)
      < to_send (before ++ record { item = item; left = suc k } ∷ after)
unfolding to_send
to_send-send before after item k = omega (
  arith,
  to_send-append before (record { item = item; left = k } ∷ after),
  to_send-append before (record { item = item; left = suc k } ∷ after),
)

to_send-sent :
    (before after : List Sending) (item : Record)
    → to_send (before ++ after) < to_send (before ++ record { item = item; left = 0 } ∷ after)
unfolding to_send
to_send-sent before after item = omega (
  arith,
  to_send-append before after,
  to_send-append before (record { item = item; left = 0 } ∷ after),
)

module _ (gjson : JsonGet) (m : FieldMapper) where
  -- Whatever the pool does, each step but the replacement of an interpreter leaves less to be done for
  -- the records, or as much and less in the calls of `out`, or as much in these too and less for the
  -- readers of the output channels; a replacement changes nothing but the interpreter.
  pub Step-IsNearer :
      (s t : PolicyEngine)
      → Step gjson m s t
      → IsNearer t s ⊎ ((new : PolicyInterpreter) × (t ≡ record s { pi = some new }))
  unfolding work
  Step-IsNearer s t (pass e nil quiet) = inl (inl (omega (arith, ap (λ b. length b) e)))
  Step-IsNearer s t (feed {fc = fc} e here room) =
      inl (inl (omega (arith, ap (λ b. length b) e, length-append s.queue (new_record fc ∷ []))))
  Step-IsNearer s t (fetch {r = r} e here room) =
      inl (inl (omega (arith, ap (λ b. length b) e, length-append s.busy (r ∷ []))))
  Step-IsNearer s t (finish before after r e) = inl (
      inl (
        omega (
          arith,
          ap (λ b. length b) e,
          length-append before after,
          length-append before (r ∷ after),
        )))
  Step-IsNearer s t (send before after item pre post c e at room) = inl (
      inr (
        refl,
        inl (
            subst
              (λ cs.
                to_send (before ++ record { item = item; left = length post } ∷ after) < to_send cs)
              (sym e) (to_send-send before after item (length post))),
      ))
  Step-IsNearer s t (sent before after item e) = inl (
      inr (
        refl,
        inl (
            subst (λ cs. to_send (before ++ after) < to_send cs) (sym e)
              (to_send-sent before after item)),
      ))
  Step-IsNearer s t (receive before after c r rest e held) = inl (
      inr (
        refl,
        inr (
          refl,
          subst (λ outs. unread (before ++ record c { held = rest } ∷ after) < unread outs) (sym e)
              (unread-receive before after c r rest held),
        ),
      ))
  Step-IsNearer s t (swap q k quiet here new) = inr (new, refl)
