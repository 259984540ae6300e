-- ===== src/Cache/Tables/Latest.antt =====
-- core/cache/tables.go: which of the processes stored for an id is the one that is found.
use sf_processor.Prelude.{
  ◌≡◌, refl, ap, ◌∙◌, Bool, true, false, ◌&&◌, Option, none, some, List, [], ◌∷◌, ◌==◌,
  Option-cases, inl, inr, if◌then◌else◌, Bool-cases,
}
use mathlib.Core.Path.{ap₂}
use sf_processor.Prelude.Assoc.{lookup, insert, lookup-insert}
use sf_processor.Sfgo.{
  Oid, oid_eq, oid_beq_iff, SfObjectState, created_state, modified_state, reup_state, Process,
}
use sf_processor.Cache.Tables.{
  States, empty_states, set_state, SfTables, new_sf_tables, or_else, get_proc, set_proc,
}

abbrev pub is_state : SfObjectState → SfObjectState → Bool
is_state created_state created_state = true
is_state modified_state modified_state = true
is_state reup_state reup_state = true
is_state _ _ = false

abbrev pub slot : SfObjectState → States → Option Process
slot created_state p = p.created
slot modified_state p = p.modified
slot reup_state p = p.reup

abbrev pub slot_of : SfObjectState → Option States → Option Process
slot_of s none = none
slot_of s (some p) = slot s p

-- What the tables hold for an id in a state.
abbrev pub stored : SfObjectState → Oid → SfTables → Option Process
stored s x t = slot_of s (lookup x t.proc_table)

-- A history of calls of SetProc, the first one in front.
abbrev pub set_all : List (Oid × Process) → SfTables → SfTables
set_all [] t = t
set_all ((k, o) ∷ ws) t = set_all ws (set_proc k o t)

-- The last process of a state that the history stores for an id.
abbrev pub latest : SfObjectState → Oid → List (Oid × Process) → Option Process
latest s x [] = none
latest s x ((k, o) ∷ ws) =
    or_else (latest s x ws) (if k == x && is_state s (Process.state o) then some o else none)

slot-set_state :
    (s : SfObjectState) (o : Process) (p : States)
    → slot s (set_state o o.state p) ≡ (if is_state s o.state then some o else slot s p)
slot-set_state s o p = go s o.state
  where
    go :
        (s q : SfObjectState)
        → slot s (set_state o q p) ≡ (if is_state s q then some o else slot s p)
    go created_state created_state = refl
    go created_state modified_state = refl
    go created_state reup_state = refl
    go modified_state created_state = refl
    go modified_state modified_state = refl
    go modified_state reup_state = refl
    go reup_state created_state = refl
    go reup_state modified_state = refl
    go reup_state reup_state = refl

slot-empty_states : (s : SfObjectState) → slot s empty_states ≡ none
slot-empty_states created_state = refl
slot-empty_states modified_state = refl
slot-empty_states reup_state = refl

-- What the slot holds after states are written for `k`, where they held `old` in the slot.
stored-insert :
    (s : SfObjectState) (x k : Oid) (o : Process) (p : States) (t : SfTables)
    → slot s p ≡ stored s k t
    → slot_of s (lookup x (insert k (set_state o o.state p) t.proc_table))
      ≡ (if k == x && is_state s o.state then some o else stored s x t)
stored-insert s x k o p t old = elim (Bool-cases (k == x)) [
  | inl same ↦
      ap (slot_of s) (lookup-insert k x (set_state o o.state p) t.proc_table)
      ∙ rw same (
          slot-set_state s o p
          ∙ ap (λ e. if is_state s o.state then some o else e)
              (old ∙ ap (λ z. stored s z t) ((oid_beq_iff k x).0 same)))
  | inr other ↦ ap (slot_of s) (lookup-insert k x (set_state o o.state p) t.proc_table) ∙ rw other
]

pub stored-set_proc :
    (s : SfObjectState) (x k : Oid) (o : Process) (t : SfTables)
    → stored s x (set_proc k o t) ≡ (if k == x && is_state s o.state then some o else stored s x t)
unfolding set_proc
stored-set_proc s x k o t = elim (Option-cases (lookup k t.proc_table)) [
  | inl free ↦
      rw (free, set_proc) (stored-insert s x k o empty_states t (slot-empty_states s ∙ rw free))
  | inr (p, found) ↦ rw (found, set_proc) (stored-insert s x k o p t (rw found))
]

or_else-step :
    (b : Bool) (o : Process) (late old : Option Process)
    → or_else late (if b then some o else old)
      ≡ or_else (or_else late (if b then some o else none)) old
or_else-step true o none old = refl
or_else-step true o (some p) old = refl
or_else-step false o none old = refl
or_else-step false o (some p) old = refl

stored-set_all :
    (s : SfObjectState) (x : Oid) (ws : List (Oid × Process)) (t : SfTables)
    → stored s x (set_all ws t) ≡ or_else (latest s x ws) (stored s x t)
stored-set_all s x [] t = refl
stored-set_all s x ((k, o) ∷ ws) t =
    stored-set_all s x ws (set_proc k o t)
    ∙ ap (or_else (latest s x ws)) (stored-set_proc s x k o t)
    ∙ or_else-step (k == x && is_state s o.state) o (latest s x ws) (stored s x t)

pub get_proc-stored :
    (x : Oid) (t : SfTables)
    → get_proc x t
      ≡ or_else
          (stored modified_state x t)
          (or_else (stored created_state x t) (stored reup_state x t))
unfolding get_proc
get_proc-stored x t = elim (Option-cases (lookup x t.proc_table)) [
  | inl free ↦ rw (free, get_proc)
  | inr (p, found) ↦ rw (found, get_proc)
]

or_else-none : (a : Option Process) → or_else a none ≡ a
or_else-none none = refl
or_else-none (some a) = refl

stored-new :
    (s : SfObjectState) (x : Oid) (ws : List (Oid × Process))
    → stored s x (set_all ws new_sf_tables) ≡ latest s x ws
unfolding new_sf_tables lookup
stored-new s x ws = stored-set_all s x ws new_sf_tables ∙ or_else-none (latest s x ws)

-- After any history of calls of SetProc on new tables, GetProc finds for an id the last process
-- stored for it as modified; if there is none, the last one stored as created; and if there is
-- none either, the last one stored as re-announced.
pub get_proc-set_all :
    (ws : List (Oid × Process)) (x : Oid)
    → get_proc x (set_all ws new_sf_tables)
      ≡ or_else
          (latest modified_state x ws)
          (or_else (latest created_state x ws) (latest reup_state x ws))
get_proc-set_all ws x =
    get_proc-stored x (set_all ws new_sf_tables)
    ∙ ap₂ or_else (stored-new modified_state x ws)
        (ap₂ or_else (stored-new created_state x ws) (stored-new reup_state x ws))
