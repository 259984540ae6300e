-- ===== src/Flattener/Reads.antt =====
-- core/flattener/flattener.go with core/policyengine/engine/fieldmapper.go: the attributes that the policy
-- engine reads of a flat record, and the entities that the record was made of.
use sf_processor.Prelude.{
  ℕ, ◌≡◌, refl, ap, ◌∙◌, Bool, true, Option, none, some, some-injective, List, [], ◌∷◌, map, All,
  list_eq, nat_eq, ◌==◌, if◌then◌else◌, nat_beq_iff, Bool-cases, inl, inr,
}
use sf_processor.Prelude.Assoc.{lookup}
use sf_processor.Prelude.Text.{Str, str}
use sf_processor.Engine.Quotes.{trim_bounding_quotes}
use sf_processor.Engine.Record.{Record, Columns, new_record, get_str, find_source}
use sf_processor.Engine.Mapper.{JsonGet, FieldMap, FieldMapper, map_str, map_value, value_text, cut}
use sf_processor.Engine.Fields.{Sfgo, map_str_attr}
use sf_processor.Engine.Fields.Entry.{FieldEntry}
use sf_processor.Engine.Fields.ProcessFields.{record_fields, proc_fields, pproc_fields}
use sf_processor.Engine.Fields.FileFields.{file_fields, flow_fields}
use sf_processor.Engine.Fields.ContextFields.{container_fields}
use sf_processor.Engine.Fields.Mappers.{
  global_mapper, get_mappers, get_exported_mappers, mapping_of, global_mapper-MapsFlat, EntryMap,
}
use sf_processor.Flattener.Writes.{Write, filled, zeros, assign_all}
use sf_processor.Sfgo.{Process}
use sf_processor.Flattener.Last.{
  last_text, text_names, is_in, all_in, all_distinct, strs-assign_all,
}

pub lookup-map :
    (m : EntryMap) (a : Str) (e : FieldEntry)
    → lookup a m ≡ some e
    → lookup a (map mapping_of m) ≡ some e.mapping
unfolding lookup
lookup-map [] a e h = absurd (cc)
lookup-map ((j, v) ∷ m) a e h = elim (Bool-cases (j == a)) [
  | inl y ↦ simp y (ap (λ (x : FieldEntry). some x.mapping) (some-injective _ _ (rw y at h)))
  | inr o ↦ simp o (lookup-map m a e (rw o at h))
]

pub map_str-found :
    (gjson : JsonGet) (m : FieldMapper) (a : Str) (r : Record) (f : FieldMap)
    → cut b'[' a ≡ none
    → lookup a m ≡ some f
    → map_str gjson m a r ≡ value_text gjson a none (f r)
unfolding map_str map_value
map_str-found gjson m a r f no_path found = simp (no_path, found)

if_true : {A : Type 0} → (b : Bool) (x y : A) → b ≡ true → (if b then x else y) ≡ x
if_true b x y h = simp h

find_source_self : (src : ℕ) (c : Columns) → find_source src ((src, c) ∷ []) ≡ some c
unfolding find_source
find_source_self src c =
    let same : src == src ≡ true = (nat_beq_iff src src).1 refl in
    if_true (src == src) (some c) none same

abbrev text_in : ℕ → Option Columns → Str
text_in i none = []
text_in i (some c) = c.strs i

get_str-filled :
    (src : ℕ) (at : Str → ℕ) (ws : List Write) (ptree : List Process) (i : ℕ)
    → get_str (new_record (filled src at ws ptree)) i src ≡ (assign_all at ws zeros).strs i
unfolding filled get_str new_record
get_str-filled src at ws ptree i =
    ap (λ o. text_in i o) (find_source_self src (assign_all at ws zeros))

-- An attribute of the engine that is a text of the record, and the constant of that text.
abbrev pub Column : Type 0
Column = Str × Str

-- The exported attributes of processes, and those of containers, that are texts of the record.
abbrev pub process_columns : List Column
process_columns =
    (str "sf.proc.exe", str "PROC_EXE_STR")
    ∷ (str "sf.proc.args", str "PROC_EXEARGS_STR")
    ∷ (str "sf.proc.user", str "PROC_USERNAME_STR")
    ∷ (str "sf.proc.group", str "PROC_GROUPNAME_STR")
    ∷ []

abbrev pub container_columns : List Column
container_columns =
    (str "sf.container.id", str "CONT_ID_STR")
    ∷ (str "sf.container.name", str "CONT_NAME_STR")
    ∷ (str "sf.container.imageid", str "CONT_IMAGEID_STR")
    ∷ (str "sf.container.image", str "CONT_IMAGE_STR")
    ∷ []

-- The constants of the texts that the handlers assign.
abbrev pub text_constants : List Str
text_constants =
    str "PROC_EXE_STR"
    ∷ str "PROC_EXEARGS_STR"
    ∷ str "PROC_USERNAME_STR"
    ∷ str "PROC_GROUPNAME_STR"
    ∷ str "CONT_ID_STR"
    ∷ str "CONT_NAME_STR"
    ∷ str "CONT_IMAGEID_STR"
    ∷ str "CONT_IMAGE_STR"
    ∷ str "PROC_CONTAINERID_STRING_STR"
    ∷ str "SFHE_EXPORTER_STR"
    ∷ str "SFHE_IP_STR"
    ∷ str "SFHE_FILENAME_STR"
    ∷ str "POD_ID_STR"
    ∷ str "POD_NAME_STR"
    ∷ str "POD_NODENAME_STR"
    ∷ str "POD_NAMESPACE_STR"
    ∷ str "POD_HOSTIP_STR"
    ∷ str "POD_INTERNALIP_STR"
    ∷ str "POD_SERVICES_STR"
    ∷ str "FILE_OID_STR"
    ∷ str "FILE_PATH_STR"
    ∷ str "FILE_CONTAINERID_STRING_STR"
    ∷ str "SEC_FILE_OID_STR"
    ∷ str "SEC_FILE_PATH_STR"
    ∷ str "SEC_FILE_CONTAINERID_STRING_STR"
    ∷ str "K8SE_MESSAGE_STR"
    ∷ []

module _ (sfgo : Sfgo) (gjson : JsonGet) where
  unfoldable pub IsColumn : Column → Type 0
  IsColumn (a, n) =
      (e : FieldEntry) × (lookup a (get_exported_mappers sfgo) ≡ some e)
      × (e.mapping ≡ map_str_attr sfgo.sysflow_src (sfgo.attribute n))
      × (cut b'[' a ≡ none)

  pub process_columns-IsColumn : All IsColumn process_columns
  unfolding IsColumn lookup get_exported_mappers record_fields proc_fields pproc_fields file_fields
      flow_fields container_fields cut
  process_columns-IsColumn = (
    (_, refl, refl, refl),
    ((_, refl, refl, refl), ((_, refl, refl, refl), ((_, refl, refl, refl), tt))),
  )

  pub container_columns-IsColumn : All IsColumn container_columns
  unfolding IsColumn lookup get_exported_mappers record_fields proc_fields pproc_fields file_fields
      flow_fields container_fields cut
  container_columns-IsColumn = (
    (_, refl, refl, refl),
    ((_, refl, refl, refl), ((_, refl, refl, refl), ((_, refl, refl, refl), tt))),
  )

  -- MapStr of such an attribute is the text of the record, without bounding quotes.
  map_str-column :
      (col : Column) (r : Record)
      → IsColumn col
      → map_str gjson (global_mapper sfgo) col.0 r
        ≡ trim_bounding_quotes (get_str r (sfgo.attribute col.1) sfgo.sysflow_src)
  unfolding IsColumn map_str global_mapper map_value value_text map_str_attr
  map_str-column (a, n) r (e, found, mapped, no_path) =
      let known = lookup-map (get_mappers sfgo) a e ((global_mapper-MapsFlat sfgo).1 a e found) in
      map_str-found gjson (global_mapper sfgo) a r e.mapping no_path known
      ∙ ap (λ (f : FieldMap). value_text gjson a none (f r)) mapped

  -- The attribute of a filled record, of which no two text attributes have the same number.
  pub map_str-filled :
      (ws : List Write) (ptree : List Process) (col : Column)
      → all_distinct (map sfgo.attribute text_constants) ≡ true
      → is_in col.1 text_constants ≡ true
      → all_in text_constants (text_names ws) ≡ true
      → IsColumn col
      → map_str gjson
          (global_mapper sfgo)
          col.0
          (new_record (filled sfgo.sysflow_src sfgo.attribute ws ptree))
        ≡ trim_bounding_quotes (last_text col.1 ws [])
  map_str-filled ws ptree col distinct inside covered is_col =
      map_str-column col (new_record (filled sfgo.sysflow_src sfgo.attribute ws ptree)) is_col
      ∙ ap trim_bounding_quotes (
          get_str-filled sfgo.sysflow_src sfgo.attribute ws ptree (sfgo.attribute col.1)
          ∙ strs-assign_all sfgo.attribute text_constants col.1 ws zeros distinct inside covered)
