-- ===== src/Tests/Exporter.antt =====
-- An exporter that encodes the number of records of a batch, and two sets.
use sf_processor.Prelude.{
  ℕ, ◌≡◌, ◌↔◌, refl, Option, some, true, List, [], ◌∷◌, flatten, map, All, length, list_eq, nat_eq,
}
use sf_processor.Prelude.Int.{pos}
use sf_processor.Prelude.Text.{Str, str}
use sf_processor.Engine.Record.{Record}
use sf_processor.Exporter.{Event, received, ticked, run, new_exporter, payload}
use sf_processor.Exporter.Batches.{records_of, IsSized, run-batches}
use sf_processor.Exporter.Sets.{Set, is_subset, set_contains, is_subset-set_contains}
use sf_processor.Tests.Samples.{sample}

abbrev encode : List Record → Option (List ℕ)
encode rs = some (length rs ∷ [])

abbrev events : List Event
events =
    received sample 1
    ∷ received sample 2
    ∷ received sample 3
    ∷ ticked 2000000009 2000000010
    ∷ received sample 2000000011
    ∷ []

run-batches_example :
    (flatten (run encode events (new_exporter (pos 2) 0)).encoded ≡ records_of events)
    × All (IsSized (pos 2)) (run encode events (new_exporter (pos 2) 0)).encoded
    × ((run encode events (new_exporter (pos 2) 0)).exported
        ≡ flatten (
            map
              (λ b. payload encode (encode b))
              (run encode events (new_exporter (pos 2) 0)).encoded))
run-batches_example = run-batches encode (pos 2) events 0

batch_sizes :
    (run encode events (new_exporter (pos 2) 0)).exported ≡ (2 ∷ []) ∷ (1 ∷ []) ∷ (1 ∷ []) ∷ []
unfolding run new_exporter
batch_sizes = refl

abbrev small : Set
small = (str "a", tt) ∷ []

abbrev large : Set
large = (str "b", tt) ∷ (str "a", tt) ∷ []

is_subset-set_contains_example :
    (is_subset small large ≡ true)
    ↔ ((x : Str) → set_contains x small ≡ true → set_contains x large ≡ true)
is_subset-set_contains_example = is_subset-set_contains small large
