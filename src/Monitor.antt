-- ===== src/Monitor.antt =====
-- core/policyengine/monitor/localpolicymonitor.go: changes of the policy directory are found by
-- checksums.
pub mod Changes
use sf_processor.Prelude.{
  ℕ, Bool, true, false, not, ◌&&◌, ◌||◌, Option, none, some, List, [], ◌∷◌, length, nat_beq,
  if◌then◌else◌, list_eq, nat_eq, ◌==◌,
}
use sf_processor.Prelude.Assoc.{lookup, insert}
use sf_processor.Prelude.Text.{Str, str, has_suffix}

-- The operations of package fsnotify. An event may have several, and then is none of these.
pub data Op : Type 0 where
  create remove write rename other_op : Op

pub record FileEvent : Type 0 where
  pub name : Str
  pub op : Op

abbrev is_change : Op → Bool
is_change other_op = false
is_change _ = true

unfoldable pub has_modified_yaml : FileEvent → Bool
unfolding has_suffix
has_modified_yaml event =
    is_change event.op
    && (has_suffix event.name (str ".yaml") || has_suffix event.name (str ".yml"))

-- The checksums of the policies, by path.
abbrev pub Checksums : Type 0
Checksums = List (Str × Str)

-- What calculateChecksum returns: whether there are changes, the paths, or the kind of its error.
pub data Outcome : Type 0 where
  unlisted no_policies unreadable : Outcome
  checked : Bool → List Str → Outcome

abbrev differs : Option Str → Str → Bool
differs none cs = true
differs (some val) cs = not (val == cs)

-- `checksum` is the sum of a file, or `none` if it cannot be read.
module _ (checksum : Str → Option Str) where
  -- The loop over the paths: the new checksums and whether there are changes.
  unfoldable pub sum_all : Checksums → List Str → Checksums → Bool → Option (Checksums × Bool)
  sum_all old [] new changes = some (new, changes)
  sum_all old (policy ∷ paths) new changes = elim (checksum policy) [
    | none ↦ none
    | some cs ↦ sum_all old paths (insert policy cs new) (changes || differs (lookup policy old) cs)
  ]

  -- calculateChecksum on the listed paths, `none` if the directory cannot be listed; the result has
  -- the monitor's new `policies`.
  unfoldable pub calculate_checksum : Checksums → Option (List Str) → Outcome × Checksums
  unfolding sum_all
  calculate_checksum old none = (unlisted, old)
  calculate_checksum old (some []) = (no_policies, [])
  calculate_checksum old (some (p ∷ ps)) = elim (sum_all old (p ∷ ps) [] false) [
    | none ↦ (unreadable, [])
    | some (new, changes) ↦
        (checked (changes || not (nat_beq (length old) (length new))) (p ∷ ps), new)
  ]

-- The reaction of StartMonitor's loop: whether CheckForPolicyUpdate is called.
unfoldable pub checks_update : Outcome → Bool
checks_update unlisted = true
checks_update no_policies = false
checks_update unreadable = true
checks_update (checked changes paths) = changes
