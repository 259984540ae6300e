-- ===== src/Tests/Cache.antt =====
-- The entity tables, with a shell and its child.
use sf_processor.Prelude.{◌<◌, ◌≡◌, refl, subst, some, List, [], ◌∷◌, some-injective, arith}
use sf_processor.Prelude.Assoc.{lookup, insert}
use sf_processor.Sfgo.{Oid, oid_eq, Process, created_state, modified_state, reup_state}
use sf_processor.Cache.Tables.{
  SfTables, new_sf_tables, get_proc, set_proc, get_proc_prov, get_ptree, or_else,
}
use sf_processor.Cache.Tables.Latest.{set_all, latest, get_proc-set_all}
use sf_processor.Cache.Tables.Ancestry.{
  IsAncestry, IsAcyclic, get_proc_prov-IsAncestry, get_ptree-set_all,
}
use sf_processor.Tests.Samples.{shell_oid, child_oid, shell_process, child_process, process_rank}
use sf_processor.Reader.Stored.{Tells-IsAcyclic, stored-empty, Tells-set_proc}

abbrev history : List (Oid × Process)
history = (shell_oid, shell_process) ∷ (child_oid, child_process) ∷ []

get_proc-set_all_example :
    get_proc child_oid (set_all history new_sf_tables)
    ≡ or_else
        (latest modified_state child_oid history)
        (or_else (latest created_state child_oid history) (latest reup_state child_oid history))
get_proc-set_all_example = get_proc-set_all history child_oid

abbrev tables : SfTables
tables = set_all history new_sf_tables

acyclic : IsAcyclic tables process_rank
acyclic =
    Tells-IsAcyclic process_rank history tables
      (Tells-set_proc ((shell_oid, shell_process) ∷ [])
        (set_proc shell_oid shell_process new_sf_tables) child_oid child_process
        (Tells-set_proc [] new_sf_tables shell_oid shell_process stored-empty))
      (
        (λ y up. absurd (cc)),
        ((λ y up. subst (λ z. process_rank z < 2) (some-injective _ _ up) (omega arith)), tt),
      )

get_proc_prov-IsAncestry_example :
    (ps : List Process) × (get_proc_prov 3 child_oid tables ≡ some ps)
    × IsAncestry tables child_oid ps
get_proc_prov-IsAncestry_example =
    get_proc_prov-IsAncestry tables process_rank acyclic 3 child_oid (omega arith)

abbrev cached : SfTables
cached = record new_sf_tables { ptree_table = insert child_oid [] [] }

unknown_tree : get_ptree 1 child_oid new_sf_tables ≡ some ([], cached)
unfolding get_ptree get_proc_prov get_proc new_sf_tables lookup insert
unknown_tree = refl

-- The tree of a process that was asked for too early stays empty.
get_ptree-set_all_example :
    get_ptree 5 child_oid (set_all history cached) ≡ some ([], set_all history cached)
get_ptree-set_all_example =
    get_ptree-set_all 1 5 child_oid new_sf_tables cached [] history unknown_tree
