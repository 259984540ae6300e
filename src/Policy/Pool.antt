-- ===== src/Policy/Pool.antt =====
-- core/policyengine/policyengine.go and the worker pool of core/policyengine/engine/interpreter.go:
-- the main loop feeds the workers of an interpreter, and may replace the interpreter.
pub mod Conserve
pub mod Progress
pub mod Ends
use sf_processor.Prelude.{
  ℕ, suc, ◌+◌, ◌<◌, ◌≡◌, Bool, true, Option, none, some, List, [], ◌∷◌, ◌++◌, map, length,
}
use sf_processor.Engine.Record.{FlatRecord, Record, new_record}
use sf_processor.Engine.Mapper.{FieldMapper, JsonGet}
use sf_processor.Policy.Interpreter.{PolicyInterpreter}
use sf_processor.Policy.Process.{worker_round}

abbrev pub to_list {ℓ} : {A : Type ℓ} → Option A → List A
to_list none = []
to_list (some a) = a ∷ []

-- An output channel: its places, and the records that were sent to it and are not yet received.
pub record OutChannel : Type 0 where
  pub places : ℕ
  pub held : List Record

-- A call of `out` in progress: the record, and to how many of the channels it is still to be sent.
pub record Sending : Type 0 where
  pub item : Record
  pub left : ℕ

-- out, called with each of the records.
unfoldable pub call_out : ℕ → List Record → List Sending
call_out channels rs = map (λ r. record { item = r; left = channels }) rs

-- The engine's input, interpreter and output channels, with the channel of the workers, the records
-- that workers hold, and the calls of `out` in progress. `out` and `fed` are records of the past: what
-- was sent to every channel, and what was taken from the input under which interpreter.
pub record PolicyEngine : Type 0 where
  pub input : List FlatRecord
  pub pi : Option PolicyInterpreter
  pub queue : List Record
  pub busy : List Record
  pub sending : List Sending
  pub outs : List OutChannel
  pub out : List Record
  pub fed : List (Option PolicyInterpreter × Record)

-- The output channels are empty, and have the given numbers of places.
unfoldable pub start : List ℕ → List FlatRecord → Option PolicyInterpreter → PolicyEngine
start places input pi = record {
  input = input;
  pi = pi;
  queue = [];
  busy = [];
  sending = [];
  outs = map (λ n. record { places = n; held = [] }) places;
  out = [];
  fed = [];
}

module _ (gjson : JsonGet) (m : FieldMapper) where
  -- What is sent to an output channel for a record: itself, where there is no interpreter.
  unfoldable pub verdict : Option PolicyInterpreter → Record → List Record
  unfolding worker_round
  verdict none r = r ∷ []
  verdict (some p) r = to_list (worker_round gjson m p true r)

  pub data Step : PolicyEngine → PolicyEngine → Type 0 where
    -- Process without an interpreter: s.out(engine.NewRecord(*fc)), once the call for the record before
    -- has returned.
    pass :
        {s : PolicyEngine} {fc : FlatRecord} {rest : List FlatRecord}
        → s.input ≡ fc ∷ rest
        → s.pi ≡ none
        → s.sending ≡ []
        → Step s (record s {
          input = rest;
          sending = call_out (length s.outs) (new_record fc ∷ []);
          fed = s.fed ++ (none, new_record fc) ∷ [];
        })
    -- ProcessAsync: the channel of the workers has as many places as there are workers.
    feed :
        {s : PolicyEngine} {fc : FlatRecord} {rest : List FlatRecord} {p : PolicyInterpreter}
        → s.input ≡ fc ∷ rest
        → s.pi ≡ some p
        → length s.queue < p.concurrency
        → Step s (record s {
          input = rest;
          queue = s.queue ++ new_record fc ∷ [];
          fed = s.fed ++ (some p, new_record fc) ∷ [];
        })
    -- An idle worker receives a record; one that sends is not idle.
    fetch :
        {s : PolicyEngine} {r : Record} {rest : List Record} {p : PolicyInterpreter}
        → s.queue ≡ r ∷ rest
        → s.pi ≡ some p
        → length s.busy + length s.sending < p.concurrency
        → Step s (record s { queue = rest; busy = s.busy ++ r ∷ [] })
    -- Any worker comes to the end of its round, where it calls `out` if it passes the record on.
    finish :
        {s : PolicyEngine} (before after : List Record) (r : Record)
        → s.busy ≡ before ++ r ∷ after
        → Step s (record s {
          busy = before ++ after;
          sending = s.sending ++ call_out (length s.outs) (verdict s.pi r);
        })
    -- `c <- r` in any of the calls of `out`, for the first channel that is left: it must have a place.
    send :
        {s : PolicyEngine} (before after : List Sending) (item : Record)
        (pre post : List OutChannel) (c : OutChannel)
        → s.sending ≡ before ++ record { item = item; left = suc (length post) } ∷ after
        → s.outs ≡ pre ++ c ∷ post
        → length c.held < c.places
        → Step s (record s {
          sending = before ++ record { item = item; left = length post } ∷ after;
          outs = pre ++ record c { held = c.held ++ item ∷ [] } ∷ post;
        })
    -- A call of `out` returns, when no channel is left.
    sent :
        {s : PolicyEngine} (before after : List Sending) (item : Record)
        → s.sending ≡ before ++ record { item = item; left = 0 } ∷ after
        → Step s (record s { sending = before ++ after; out = s.out ++ item ∷ [] })
    -- The next plugin receives a record from its channel.
    receive :
        {s : PolicyEngine} (before after : List OutChannel) (c : OutChannel) (r : Record)
        (rest : List Record)
        → s.outs ≡ before ++ c ∷ after
        → c.held ≡ r ∷ rest
        → Step s (record s { outs = before ++ record c { held = rest } ∷ after })
    -- StopWorkers of the old interpreter waits until its workers are done.
    swap :
        {s : PolicyEngine} {p : PolicyInterpreter}
        → s.queue ≡ []
        → s.busy ≡ []
        → s.sending ≡ []
        → s.pi ≡ some p
        → (new : PolicyInterpreter) → Step s (record s { pi = some new })

  pub data Steps : PolicyEngine → PolicyEngine → Type 0 where
    done : {s : PolicyEngine} → Steps s s
    then_step : {s t u : PolicyEngine} → Steps s t → Step t u → Steps s u
