-- ===== src/Tests/Reader.antt =====
-- A trace of a header, a shell and its child.
use sf_processor.Prelude.{
  ℕ, ◌<◌, ◌≡◌, some, none, List, [], ◌∷◌, All, true, some-injective, subst, arith,
}
use sf_processor.Sfgo.{Oid}
use sf_processor.Cache.Tables.{new_sf_tables}
use sf_processor.Reader.{
  Rec, sf_header, sf_process, sf_net_evt, sf_proc_evt, Reader, Ctx, Call, handle_proc_evt, step,
  run,
}
use sf_processor.Reader.Stored.{current, Falls}
use sf_processor.Reader.Events.{processes, IsEntry}
use sf_processor.Reader.Runs.{run-current}
use sf_processor.Tests.Samples.{child_oid, shell_process, child_process, process_rank}

abbrev trace : List (Rec ℕ ℕ)
trace = sf_process shell_process ∷ sf_net_evt ∷ sf_process child_process ∷ []

abbrev reader : Reader ℕ ℕ
reader = record { hdr = none; tables = new_sf_tables }

deep : (x : Oid) → process_rank x < 3
deep x = omega arith

entries : All IsEntry trace
entries = (tt, (tt, (tt, tt)))

falls : All (Falls process_rank) (processes trace)
falls = (
  λ y up. absurd (cc),
  (λ y up. subst (λ z. process_rank z < 2) (some-injective _ _ up) (omega arith), tt),
)

run-current_example :
    (s' : Reader ℕ ℕ) × (calls : List (Call ℕ ℕ)) × (run 3 true reader (sf_header 7 ∷ trace)
      ≡ some (s', calls))
    × ((s'' : Reader ℕ ℕ) × (ctx : Ctx ℕ ℕ) × (step 3 true s' (sf_proc_evt child_oid 5)
          ≡ some (s'', handle_proc_evt ctx 5 ∷ []))
        × (ctx.process ≡ current child_oid (processes trace))
        × (ctx.header ≡ some 7))
run-current_example = run-current process_rank 3 deep 7 true reader trace entries falls child_oid 5
