-- ===== src/Flattener/Texts.antt =====
-- core/flattener/flattener.go with core/policyengine/engine/fieldmapper.go: what the policy engine reads
-- of the process and the container of an event.
use sf_processor.Prelude.{
  ◌≡◌, refl, sym, ap, ◌∙◌, true, Option, none, List, [], ◌∷◌, ◌++◌, map, All, and_iff,
}
use mathlib.Core.Path.{ap₂}
use mathlib.Core.List.{map-append}
use sf_processor.Prelude.Int.{ℤ}
use sf_processor.Prelude.Text.{Str, str}
use sf_processor.Engine.Quotes.{trim_bounding_quotes}
use sf_processor.Engine.Record.{new_record, FlatRecord}
use sf_processor.Engine.Mapper.{JsonGet, map_str}
use sf_processor.Engine.Fields.{Sfgo}
use sf_processor.Engine.Fields.Mappers.{global_mapper}
use sf_processor.Sfgo.{
  SfHeader, Process, File, Service, ProcessEvent, NetworkFlow, FileFlow, FileEvent,
}
use sf_processor.Reader.{Ctx}
use sf_processor.Flattener.Writes.{Write, set_int, filled}
use sf_processor.Flattener.Handlers.{
  fill_new_file, proc_evt_writes, net_flow_writes, file_flow_writes, file_evt_writes,
  handle_proc_evt, handle_net_flow, handle_file_flow, handle_file_evt,
}
use sf_processor.Flattener.Last.{text_names, is_in, all_in, all_in-append, all_distinct}
use sf_processor.Flattener.Reads.{
  text_constants, map_str-filled, process_columns, container_columns, process_columns-IsColumn,
  container_columns-IsColumn, IsColumn, Column,
}
use sf_processor.Flattener.Ends.{
  process_texts, container_texts, process_names, container_names, Ends, Spares, Ends-before,
  Ends-behind, Ends-fill_entities, entities_in, new_file_in, filled_entities,
}

abbrev name_of : Column → Str
name_of col = col.1

-- The attributes, by the names under which the policy engine knows them.
abbrev pub attributes : List Str
attributes =
    str "sf.proc.exe"
    ∷ str "sf.proc.args"
    ∷ str "sf.proc.user"
    ∷ str "sf.proc.group"
    ∷ str "sf.container.id"
    ∷ str "sf.container.name"
    ∷ str "sf.container.imageid"
    ∷ str "sf.container.image"
    ∷ []

module _ (sfgo : Sfgo) (gjson : JsonGet) where
  -- MapStr of the attributes of a record.
  abbrev pub values_of : FlatRecord → List Str → List Str
  values_of fr attrs = map (λ a. map_str gjson (global_mapper sfgo) a (new_record fr)) attrs

  columns_read :
      (ws : List Write) (ptree : List Process) (cols : List Column) (vs : List Str)
      → all_distinct (map sfgo.attribute text_constants) ≡ true
      → all_in text_constants (map name_of cols) ≡ true
      → all_in text_constants (text_names ws) ≡ true
      → All (λ col. IsColumn sfgo gjson col) cols
      → Ends ws (map name_of cols) vs
      → values_of
          (filled sfgo.sysflow_src sfgo.attribute ws ptree)
          (map (λ (col : Column). col.0) cols)
        ≡ map trim_bounding_quotes vs
  columns_read ws ptree [] [] distinct inside covered are ends = refl
  columns_read ws ptree [] (v ∷ vs) distinct inside covered are ends = absurd ends
  columns_read ws ptree (col ∷ cols) [] distinct inside covered are ends = absurd ends
  columns_read ws ptree (col ∷ cols) (v ∷ vs) distinct inside covered (is, are) (end, ends) =
      let (here, there) = (and_iff (is_in col.1 text_constants) _).0 inside in
      ap₂ (λ x xs. x ∷ xs)
        (map_str-filled sfgo gjson ws ptree col distinct here covered is
          ∙ ap trim_bounding_quotes (end []))
        (columns_read ws ptree cols vs distinct there covered are ends)

text_names-Spares : (ws : List Write) (ns : List Str) → text_names ws ≡ [] → Spares ws ns
text_names-Spares ws [] quiet = tt
text_names-Spares ws (n ∷ ns) quiet = (ap (is_in n) quiet, text_names-Spares ws ns quiet)

module _ {E : Type 0} (sfgo : Sfgo) (gjson : JsonGet) (get_json_str : List Service → Str) where
  abbrev Shows : FlatRecord → Ctx SfHeader E → Type 0
  Shows fr sf =
      values_of sfgo gjson fr attributes
      ≡ map trim_bounding_quotes (process_texts sf.process ++ container_texts sf.container)

  shows :
      (ws : List Write) (sf : Ctx SfHeader E) (ptree : List Process)
      → all_distinct (map sfgo.attribute text_constants) ≡ true
      → all_in text_constants (text_names ws) ≡ true
      → Ends ws process_names (process_texts sf.process)
      → Ends ws container_names (container_texts sf.container)
      → Shows (filled sfgo.sysflow_src sfgo.attribute ws ptree) sf
  shows ws sf ptree distinct covered of_process of_container =
      ap₂ (λ xs ys. xs ++ ys)
        (columns_read sfgo gjson ws ptree process_columns (process_texts sf.process) distinct refl
          covered (process_columns-IsColumn sfgo gjson) of_process)
        (columns_read sfgo gjson ws ptree container_columns (container_texts sf.container) distinct
          refl covered (container_columns-IsColumn sfgo gjson) of_container)
      ∙ sym (
          map-append trim_bounding_quotes (process_texts sf.process) (container_texts sf.container))

  -- What a handler of an event assigns, with what comes before and behind the entities.
  filled-Shows :
      (pre post : List Write) (t : Str) (v : ℤ) (sf : Ctx SfHeader E) (file : Option File)
      → all_distinct (map sfgo.attribute text_constants) ≡ true
      → all_in text_constants (text_names pre) ≡ true
      → text_names post ≡ []
      → Shows
          (filled sfgo.sysflow_src sfgo.attribute
            (pre ++ (set_int t v ∷ (filled_entities sfgo get_json_str sf file ++ post)))
            sf.ptree)
          sf
  filled-Shows pre post t v sf file distinct known quiet =
      let k = text_constants in
      let ent = filled_entities sfgo get_json_str sf file in
      let kind = set_int t v ∷ [] in
      let (of_process, of_container) = Ends-fill_entities sfgo get_json_str sf file in
      let pv = process_texts sf.process in
      let cv = container_texts sf.container in
      shows (pre ++ (kind ++ (ent ++ post))) sf sf.ptree distinct
        (all_in-append k pre (kind ++ (ent ++ post)) known
          (all_in-append k ent post (entities_in sfgo get_json_str sf file) (ap (all_in k) quiet)))
        (Ends-before pre (kind ++ (ent ++ post)) process_names pv (
          Ends-before kind (ent ++ post) process_names pv (
            Ends-behind ent post process_names pv of_process
              (text_names-Spares post process_names quiet))))
        (Ends-before pre (kind ++ (ent ++ post)) container_names cv (
          Ends-before kind (ent ++ post) container_names cv (
            Ends-behind ent post container_names cv of_container
              (text_names-Spares post container_names quiet))))

  -- If no two of the constants of the text attributes have the same number, then of the flat
  -- record of a process event, a network flow, a file flow or a file event the policy engine
  -- reads, without quotes around them, the executable, arguments, user and group of the event's
  -- own process and the id, name, image id and image of its container, of which executable,
  -- arguments, name and image have lost the white space around them; and it reads empty texts for
  -- an entity that the event lacks.
  pub values_of-handlers :
      (sf : Ctx SfHeader E) (pe : ProcessEvent) (nf : NetworkFlow) (ff : FileFlow) (fe : FileEvent)
      → all_distinct (map sfgo.attribute text_constants) ≡ true
      → Shows (handle_proc_evt sfgo get_json_str sf pe) sf
        × Shows (handle_net_flow sfgo get_json_str sf nf) sf
        × Shows (handle_file_flow sfgo get_json_str sf ff) sf
        × Shows (handle_file_evt sfgo get_json_str sf fe) sf
  unfolding handle_proc_evt handle_net_flow handle_file_flow handle_file_evt
  values_of-handlers sf pe nf ff fe distinct =
      let k = str "SF_REC_TYPE" in
      (
        filled-Shows [] (proc_evt_writes pe) k sfgo.proc_evt sf none distinct refl refl,
        filled-Shows [] (net_flow_writes nf) k sfgo.net_flow sf none distinct refl refl,
        filled-Shows [] (file_flow_writes ff) k sfgo.file_flow sf sf.file distinct refl refl,
        filled-Shows (fill_new_file sf.new_file) (file_evt_writes fe) k sfgo.file_evt sf sf.file
            distinct (new_file_in sf.new_file) refl,
      )
