-- ===== src/Engine/Record.antt =====
-- core/policyengine/engine/types.go: rules, records and the accessors of a record. The flat record
-- and the process come from sf-apis; a record here has the fields that the code reads.
use sf_processor.Prelude.{
  ◌≡◌, ℕ, Bool, Option, none, some, List, [], ◌∷◌, ◌++◌, map, if◌then◌else◌, ◌==◌, nat_eq, length,
  ltb,
}
use sf_processor.Prelude.Int.{ℤ, pos}
use sf_processor.Prelude.Text.{Str, join}
use sf_processor.Prelude.Decimal.{format_int}
use sf_processor.Prelude.Paths.{base}
use sf_processor.Sfgo.{Oid, Process, Service}

-- What an attribute maps to, the `interface{}` of a field map.
pub data Value : Type 0 where
  text : Str → Value
  int64 : ℤ → Value
  int32 : ℤ → Value
  bool : Bool → Value
  ints : Option (List ℤ) → Value
  services : Option (List Service) → Value

-- The three arrays of one source. Attributes index arrays that are as long as there are attributes.
pub record Columns : Type 0 where
  pub ints : ℕ → ℤ
  pub strs : ℕ → Str
  pub anys : ℕ → Option Value

-- sfgo.FlatRecord: `Sources`, `Ints`, `Strs` and `Anys` run in parallel, and are one list here.
pub record FlatRecord : Type 0 where
  pub sources : List (ℕ × Columns)
  pub ptree : Option (List Process)

pub data Priority : Type 0 where
  low medium high : Priority

pub data EnrichmentTag : Type 0 where
  tag_list : List Str → EnrichmentTag
  tag_text : Str → EnrichmentTag

-- `Rule` without its private condition, as a context keeps it.
pub record RuleHead : Type 0 where
  pub name : Str
  pub desc : Str
  pub actions : List Str
  pub tags : List EnrichmentTag
  pub priority : Priority
  pub prefilter : List Str
  pub enabled : Bool

pub record HashSet : Type 0 where
  pub md5 : Str
  pub sha1 : Str
  pub sha256 : Str

-- The four slots of a context; `none` is a nil slot.
pub record Context : Type 0 where
  pub alert : Option Bool
  pub rules : Option (List RuleHead)
  pub tags : Option (List Str)
  pub hashes : Option (Option HashSet × Option HashSet)

pub record Record : Type 0 where
  pub fr : FlatRecord
  pub ctx : Context

unfoldable pub new_record : FlatRecord → Record
new_record fr = record {
  fr = fr;
  ctx = record { alert = none; rules = none; tags = none; hashes = none };
}

-- The loop over the sources: the columns of the first one that is `src`.
unfoldable pub find_source : ℕ → List (ℕ × Columns) → Option Columns
find_source src [] = none
find_source src ((s, c) ∷ rest) = if s == src then some c else find_source src rest

unfoldable pub get_int : Record → ℕ → ℕ → ℤ
unfolding find_source
get_int r attr src = elim (find_source src r.fr.sources) [ none ↦ pos 0 | some c ↦ c.ints attr ]

unfoldable pub get_str : Record → ℕ → ℕ → Str
unfolding find_source
get_str r attr src = elim (find_source src r.fr.sources) [ none ↦ [] | some c ↦ c.strs attr ]

-- The type assertion on `interface{}`; anything else gives the nil pointer.
abbrev pub as_ints : Option Value → Option (List ℤ)
as_ints (some (ints v)) = v
as_ints _ = none

abbrev pub as_services : Option Value → Option (List Service)
as_services (some (services v)) = v
as_services _ = none

unfoldable pub get_int_array : Record → ℕ → ℕ → Option (List ℤ)
unfolding find_source
get_int_array r attr src = elim (find_source src r.fr.sources) [
  | none ↦ none
  | some c ↦ as_ints (c.anys attr)
]

unfoldable pub get_svc_array : Record → ℕ → ℕ → Option (List Service)
unfolding find_source
get_svc_array r attr src = elim (find_source src r.fr.sources) [
  | none ↦ none
  | some c ↦ as_services (c.anys attr)
]

pub data RecAttribute : Type 0 where
  pproc_name pproc_exe pproc_args pproc_uid pproc_user pproc_gid pproc_group pproc_tty :
      RecAttribute
  pproc_entry pproc_cmd_line proc_aexe proc_aname proc_acmd_line proc_apid : RecAttribute

-- exe and arguments, joined by a space when there are arguments
unfoldable pub cmd_line : Process → Str
cmd_line p = if ltb 0 (length p.exe_args) then p.exe ++ (b' ' ∷ p.exe_args) else p.exe

-- The branches that read the parent, `ptree[1]`.
unfoldable pub parent_value : RecAttribute → Process → Option Value
unfolding cmd_line base
parent_value pproc_name p = some (text (base p.exe))
parent_value pproc_exe p = some (text p.exe)
parent_value pproc_args p = some (text p.exe_args)
parent_value pproc_uid p = some (int32 p.uid)
parent_value pproc_user p = some (text p.user_name)
parent_value pproc_gid p = some (int32 p.gid)
parent_value pproc_group p = some (text p.group_name)
parent_value pproc_tty p = some (bool p.tty)
parent_value pproc_entry p = some (bool p.entry)
parent_value pproc_cmd_line p = some (text (cmd_line p))
parent_value _ p = none

abbrev pub parent : List Process → Option Process
parent (_ ∷ p ∷ _) = some p
parent _ = none

-- The first switch: `none` where it falls through to the zero values.
unfoldable pub tree_value : RecAttribute → List Process → Option Value
unfolding parent_value cmd_line base join format_int
tree_value proc_aname ptree = some (text (join b',' (map (λ p. base (Process.exe p)) ptree)))
tree_value proc_aexe ptree = some (text (join b',' (map (λ p. Process.exe p) ptree)))
tree_value proc_acmd_line ptree = some (text (join b',' (map cmd_line ptree)))
tree_value proc_apid ptree =
    some (text (join b',' (map (λ p. format_int (Oid.hpid (Process.oid p))) ptree)))
tree_value attr ptree = elim (parent ptree) [ none ↦ none | some p ↦ parent_value attr p ]

-- The second switch.
unfoldable pub zero_value : RecAttribute → Value
zero_value pproc_uid = int64 (pos 0)
zero_value pproc_gid = int64 (pos 0)
zero_value pproc_tty = int64 (pos 0)
zero_value pproc_entry = int64 (pos 0)
zero_value _ = text []

abbrev or_zero : RecAttribute → Option Value → Value
or_zero attr none = zero_value attr
or_zero attr (some v) = v

unfoldable pub get_cached_value : Record → RecAttribute → Value
unfolding tree_value zero_value
get_cached_value r attr = elim r.fr.ptree [
  | none ↦ zero_value attr
  | some ptree ↦ or_zero attr (tree_value attr ptree)
]

-- A function of records that sees only their telemetry, and not their context.
abbrev pub ReadsFlat {ℓ} : {A : Type ℓ} → (Record → A) → Type ℓ
ReadsFlat f = (r s : Record) → r.fr ≡ s.fr → f r ≡ f s
