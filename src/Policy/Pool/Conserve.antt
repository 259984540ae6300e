-- ===== src/Policy/Pool/Conserve.antt =====
-- core/policyengine/policyengine.go: no record is lost or doubled, whatever the workers do in which
-- order, and whenever the interpreter is replaced.
use sf_processor.Prelude.{◌≡◌, Option, List, ◌++◌, map, flatten}
use mathlib.Core.List.{Perm}
use mathlib.Core.List.Perm
use sf_processor.Engine.Record.{FlatRecord, Record, new_record}
use sf_processor.Engine.Mapper.{FieldMapper, JsonGet}
use sf_processor.Policy.Interpreter.{PolicyInterpreter}
use sf_processor.Policy.Pool.{PolicyEngine, verdict, Sending}

module _ (gjson : JsonGet) (m : FieldMapper) where
  -- What is due for records under an interpreter, and for the records of the past.
  abbrev due : Option PolicyInterpreter → List Record → List Record
  due pi rs = flatten (map (verdict gjson m pi) rs)

  abbrev pub due_of : List (Option PolicyInterpreter × Record) → List Record
  due_of fed = flatten (map (λ e. verdict gjson m e.0 e.1) fed)

  -- The records in the calls of `out`.
  abbrev items : List Sending → List Record
  items cs = map (λ c. Sending.item c) cs

  -- What was sent, and what is being sent.
  abbrev passed_on : PolicyEngine → List Record
  passed_on s = s.out ++ items s.sending

  -- Nothing is lost: what was sent or is being sent and what the pool still owes is what is due for
  -- the past.
  record Balanced (input : List FlatRecord) (s : PolicyEngine) : Type 0 where
    owed : Perm (passed_on s ++ (due s.pi s.busy ++ due s.pi s.queue)) (due_of s.fed)
    taken : map (λ e. e.1) s.fed ++ map new_record s.input ≡ map new_record input
