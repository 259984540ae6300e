-- ===== src/Tests/Pool.antt =====
-- A pool with one worker, one record and one output channel of one place.
use sf_processor.Prelude.{
  ◌<◌, ◌+◌, ◌≡◌, ◌⊎◌, refl, some, List, [], ◌∷◌, some-injective, subst, arith,
}
use sf_processor.Engine.Record.{FlatRecord, Record, new_record}
use sf_processor.Policy.Interpreter.{PolicyInterpreter, enrich_mode}
use sf_processor.Policy.Pool.{OutChannel, PolicyEngine, verdict, Step, sent}
use sf_processor.Policy.Pool.Progress.{IsLive, IsNearer, work, to_send, pool-progress}
use sf_processor.Policy.Pool.Ends.{Step-IsNearer}
use sf_processor.Tests.Samples.{gjson, mapper, flat}
use sf_processor.Tests.Policy.{interpreter}

abbrev input : List FlatRecord
input = flat ∷ []

abbrev empty_channel : OutChannel
empty_channel = record { places = 1; held = [] }

abbrev first_of : Record → List Record → Record
first_of r [] = r
first_of r (v ∷ _) = v

-- What the worker makes of the record.
abbrev judged : Record
judged =
    first_of (new_record flat)
      (verdict gjson mapper (some (interpreter enrich_mode)) (new_record flat))

-- The record is sent, and nobody has received it.
abbrev finished : PolicyEngine
finished = record {
  input = [];
  pi = some (interpreter enrich_mode);
  queue = [];
  busy = [];
  sending = [];
  outs = record empty_channel { held = judged ∷ [] } ∷ [];
  out = judged ∷ [];
  fed = (some (interpreter enrich_mode), new_record flat) ∷ [];
}

-- The only place is taken, and the worker is to send the record again.
abbrev blocked : PolicyEngine
blocked = record finished { sending = record { item = judged; left = 1 } ∷ [] }

live : IsLive blocked
live = record {
  workers = λ p here.
      subst (λ (q : PolicyInterpreter). 0 < q.concurrency) (some-injective _ _ here) (omega arith);
  idle = λ nil. absurd (cc);
  places = (omega arith, tt);
  within = (omega arith, tt);
}

some_work : 0 < work blocked + to_send blocked.sending
unfolding work to_send
some_work = omega arith

pool-progress_example :
    (t : PolicyEngine) × Step gjson mapper blocked t × IsNearer t blocked × IsLive t
pool-progress_example = pool-progress gjson mapper blocked live some_work

-- The worker's call of `out` returns.
abbrev returning : PolicyEngine
returning = record finished { sending = record { item = judged; left = 0 } ∷ []; out = [] }

Step-IsNearer_example :
    IsNearer finished returning
    ⊎ ((new : PolicyInterpreter) × (finished ≡ record returning { pi = some new }))
Step-IsNearer_example = Step-IsNearer gjson mapper returning finished (sent [] [] judged refl)
