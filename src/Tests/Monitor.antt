-- ===== src/Tests/Monitor.antt =====
-- A policy directory with two files, of which one has changed.
use sf_processor.Prelude.{
  ◌≡◌, ◌↔◌, ◌⊎◌, refl, true, false, Option, none, some, [], ◌∷◌, if◌then◌else◌, list_eq, nat_eq,
}
use sf_processor.Prelude.Assoc.{lookup}
use sf_processor.Prelude.Keys.{IsUnique}
use sf_processor.Prelude.Text.{Str, str, has_suffix}
use sf_processor.Monitor.{
  Checksums, Outcome, checks_update, calculate_checksum, has_modified_yaml, write,
}
use sf_processor.Monitor.Changes.{is_listed, calculate_checksum-changes}

-- A file's sum is its name.
abbrev checksum : Str → Option Str
checksum path = some path

abbrev old : Checksums
old = (str "a.yaml", str "a.yaml") ∷ (str "b.yaml", str "x") ∷ []

unique : IsUnique old
unfolding lookup
unique = (refl, (refl, tt))

calculate_checksum-changes_example :
    (outcome : Outcome) × (new : Checksums) × (calculate_checksum checksum old
        (some (str "a.yaml" ∷ str "b.yaml" ∷ []))
      ≡ (outcome, new))
    × IsUnique new
    × ((x : Str)
        → lookup x new ≡ (if is_listed (str "a.yaml" ∷ str "b.yaml" ∷ []) x then some x else none))
    × ((checks_update outcome ≡ false)
        ↔ ((str "a.yaml" ∷ str "b.yaml" ∷ [] ≡ []) ⊎ ((x : Str) → lookup x old ≡ lookup x new)))
calculate_checksum-changes_example =
    calculate_checksum-changes checksum (λ path. path) old (str "a.yaml" ∷ str "b.yaml" ∷ []) unique
      (refl, (refl, tt))

watched : has_modified_yaml (record { name = str "p/ttp.yml"; op = write }) ≡ true
unfolding has_modified_yaml has_suffix
watched = refl
