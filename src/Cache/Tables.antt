-- ===== src/Cache/Tables.antt =====
-- core/cache/tables.go: the entities of a trace by their ids.
pub mod Latest
pub mod Ancestry
use sf_processor.Prelude.{◌>>=◌, ℕ, zero, suc, Option, none, some, List, [], ◌∷◌, list_eq, nat_eq}
use sf_processor.Prelude.Assoc.{lookup, insert}
use sf_processor.Prelude.Text.{Str}
use sf_processor.Sfgo.{
  Oid, oid_eq, SfObjectState, created_state, modified_state, reup_state, Process, Container, Pod,
  File,
}

-- The slice of a process: one slot for each state.
pub record States : Type 0 where
  pub created : Option Process
  pub modified : Option Process
  pub reup : Option Process

abbrev pub empty_states : States
empty_states = record { created = none; modified = none; reup = none }

-- p[o.State] = o
abbrev pub set_state : Process → SfObjectState → States → States
set_state o created_state p = record p { created = some o }
set_state o modified_state p = record p { modified = some o }
set_state o reup_state p = record p { reup = some o }

pub record SfTables : Type 0 where
  pub cont_table : List (Str × Container)
  pub pod_table : List (Str × Pod)
  pub proc_table : List (Oid × States)
  pub file_table : List (Str × File)
  pub ptree_table : List (Oid × List Process)

unfoldable pub new_sf_tables : SfTables
new_sf_tables = record {
  cont_table = [];
  pod_table = [];
  proc_table = [];
  file_table = [];
  ptree_table = [];
}

unfoldable pub reset : SfTables → SfTables
unfolding new_sf_tables
reset t = new_sf_tables

unfoldable pub get_cont : Str → SfTables → Option Container
get_cont id t = lookup id t.cont_table

unfoldable pub set_cont : Str → Container → SfTables → SfTables
set_cont id o t = record t { cont_table = insert id o t.cont_table }

unfoldable pub get_pod : Str → SfTables → Option Pod
get_pod id t = lookup id t.pod_table

unfoldable pub set_pod : Str → Pod → SfTables → SfTables
set_pod id o t = record t { pod_table = insert id o t.pod_table }

abbrev pub or_else {ℓ} : {A : Type ℓ} → Option A → Option A → Option A
or_else none b = b
or_else (some a) b = some a

unfoldable pub get_proc : Oid → SfTables → Option Process
get_proc id t = elim (lookup id t.proc_table) [
  | none ↦ none
  | some p ↦ or_else p.modified (or_else p.created p.reup)
]

unfoldable pub set_proc : Oid → Process → SfTables → SfTables
set_proc id o t = elim (lookup id t.proc_table) [
  | some p ↦ record t { proc_table = insert id (set_state o o.state p) t.proc_table }
  | none ↦ record t { proc_table = insert id (set_state o o.state empty_states) t.proc_table }
]

unfoldable pub get_file : Str → SfTables → Option File
get_file id t = lookup id t.file_table

unfoldable pub set_file : Str → File → SfTables → SfTables
set_file id o t = record t { file_table = insert id o t.file_table }

-- A process in front of the tree of its parent, if it has one.
abbrev pub with_parents :
    Process → Option Oid → (Oid → Option (List Process)) → Option (List Process)
with_parents p none prov = some (p ∷ [])
with_parents p (some parent) prov = do rest ← prov parent; some (p ∷ rest)

-- The fuel is the length of the chain of parents; Go recurs without a bound.
unfoldable pub get_proc_prov : ℕ → Oid → SfTables → Option (List Process)
unfolding get_proc
get_proc_prov zero id t = none
get_proc_prov (suc f) id t = elim (get_proc id t) [
  | none ↦ some []
  | some p ↦ with_parents p p.poid (λ parent. get_proc_prov f parent t)
]

unfoldable pub get_ptree : ℕ → Oid → SfTables → Option (List Process × SfTables)
unfolding get_proc_prov
get_ptree fuel id t = elim (lookup id t.ptree_table) [
  | some ptree ↦ some (ptree, t)
  | none ↦ do
    ptree ← get_proc_prov fuel id t
    some (ptree, record t { ptree_table = insert id ptree t.ptree_table })
]
