-- ===== src/Engine/Fields/Entry.antt =====
-- core/policyengine/engine/fieldmapper.go: the entries of the attribute tables.
use sf_processor.Prelude.{ℕ, ◌-◌, ◌*◌, ◌^◌}
use sf_processor.Prelude.Text.{Str}
use sf_processor.Engine.Record.{ReadsFlat, RecAttribute, pproc_name}
use sf_processor.Engine.Mapper.{FieldMap}
use sf_processor.Engine.Fields.{Sfgo}

pub data MappingType : Type 0 where
  map_int_val map_str_val map_bool_val map_array_str map_array_int : MappingType
  map_special_int map_special_str map_special_bool map_array_svc : MappingType

pub data SectionType : Type 0 where
  sect_none sect_proc sect_p_proc sect_file sect_net sect_flow : SectionType
  sect_cont sect_node sect_meta sect_pod sect_k8s_evt : SectionType

-- (2 << 30) - 1 and (2 << 30) - 2
abbrev pub a_ids : ℕ
a_ids = 2 * 2 ^ 30 - 1

abbrev pub parent_ids : ℕ
parent_ids = 2 * 2 ^ 30 - 2

pub record FieldEntry : Type 0 where
  pub mapping : FieldMap
  pub flat_index : ℕ
  pub mapping_type : MappingType
  pub source : ℕ
  pub section : SectionType
  pub aux_attr : RecAttribute

-- An entry of the exported table, of which every source is SYSFLOW_SRC.
abbrev pub sf_entry : Sfgo → FieldMap → ℕ → MappingType → SectionType → RecAttribute → FieldEntry
sf_entry sfgo mapping flat_index mapping_type section aux_attr = record {
  mapping = mapping;
  flat_index = flat_index;
  mapping_type = mapping_type;
  source = sfgo.sysflow_src;
  section = section;
  aux_attr = aux_attr;
}

-- An entry with its mapping only: Go fills in the zero values.
abbrev pub query_entry : Sfgo → FieldMap → FieldEntry
query_entry sfgo mapping = record {
  mapping = mapping;
  flat_index = 0;
  mapping_type = map_int_val;
  source = 0;
  section = sect_none;
  aux_attr = pproc_name;
}

-- The mapping of an entry sees the telemetry only.
abbrev pub IsFlat : Str × FieldEntry → Type 0
IsFlat entry = ReadsFlat entry.1.mapping
