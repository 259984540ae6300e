-- ===== src/Engine/Fields.antt =====
-- core/policyengine/engine/fieldmapper.go: the functions that build field maps.
pub mod Telemetry
pub mod Entry
pub mod ProcessFields
pub mod FileFields
pub mod ContextFields
pub mod FalcoFields
pub mod Mappers
use sf_processor.Prelude.{
  ℕ, Bool, true, false, none, some, List, [], ◌∷◌, ◌++◌, map, nat_beq, if◌then◌else◌, list_eq,
  nat_eq, ◌==◌, ◌||◌, flatten, ltb, ◌-◌, ◌%◌, ◌^◌,
}
use sf_processor.Prelude.Int.{ℤ, pos, negsuc, add64, to_u64, int_eq}
use sf_processor.Prelude.Text.{Str, str, split, join}
use sf_processor.Prelude.Decimal.{format_int}
use sf_processor.Prelude.Paths.{base, dir}
use sf_processor.Engine.Record.{
  Value, text, int64, bool, ints, services, Record, RecAttribute, get_int, get_str, get_int_array,
  get_svc_array, get_cached_value,
}
use sf_processor.Engine.Mapper.{FieldMap}
use sf_processor.Engine.Symlink.{parse_sym_path}

-- What the field maps use of package sfgo and of the hash package: the numbers of attributes and
-- record types, the names of flags, and the hexadecimal digest of a text.
pub record Sfgo : Type 0 where
  pub sysflow_src : ℕ
  -- the number of an attribute by the name of its constant
  pub attribute : Str → ℕ
  pub sf_rec_type : ℕ
  pub ev_proc_opflags_int : ℕ
  pub ret_int : ℕ
  pub ts_int : ℕ
  pub fl_file_endts_int : ℕ
  pub fl_netw_endts_int : ℕ
  pub proc_evt : ℤ
  pub file_evt : ℤ
  pub file_flow : ℤ
  pub net_flow : ℤ
  pub k8s_evt : ℤ
  -- the name of the record type that ParseRecordType reads, and the flags for such a type
  pub record_type : ℤ → Str
  pub get_op_flags : ℤ → ℤ → List Str
  pub get_evt_types : ℤ → ℤ → List Str
  pub get_file_type : ℤ → Str
  pub is_open_write : ℤ → Bool
  pub is_open_read : ℤ → Bool
  pub get_open_flags : ℤ → List Str
  pub get_proto : ℤ → Str
  pub get_ip_str : ℤ → Str
  pub get_cont_type : ℤ → Str
  pub k8s_action : ℤ → Str
  pub k8s_component : ℤ → Str
  pub digest : Str → Str

-- A source and an attribute are numbers.
unfoldable pub map_str_attr : ℕ → ℕ → FieldMap
unfolding get_str
map_str_attr src attr r = text (get_str r attr src)

unfoldable pub map_int_attr : ℕ → ℕ → FieldMap
unfolding get_int
map_int_attr src attr r = int64 (get_int r attr src)

unfoldable pub map_int_array_attr : ℕ → ℕ → FieldMap
unfolding get_int_array
map_int_array_attr src attr r = ints (get_int_array r attr src)

unfoldable pub map_svc_array_attr : ℕ → ℕ → FieldMap
unfolding get_svc_array
map_svc_array_attr src attr r = services (get_svc_array r attr src)

-- The loop of mapSum, on int64.
unfoldable pub sum_from : ℤ → ℕ → List ℕ → Record → ℤ
unfolding get_int add64
sum_from sum src [] r = sum
sum_from sum src (attr ∷ attrs) r = sum_from (add64 sum (get_int r attr src)) src attrs r

unfoldable pub map_sum : ℕ → List ℕ → FieldMap
unfolding sum_from
map_sum src attrs r = int64 (sum_from (pos 0) src attrs r)

-- The loop of mapJoin.
unfoldable pub join_from : Str → ℕ → List ℕ → Record → Str
unfolding get_str
join_from acc src [] r = acc
join_from acc src (attr ∷ attrs) r = join_from (acc ++ (b' ' ∷ get_str r attr src)) src attrs r

-- The first attribute is apart: the code takes at least one.
unfoldable pub map_join : ℕ → ℕ → List ℕ → FieldMap
unfolding join_from
map_join src attr attrs r = text (join_from (get_str r attr src) src attrs r)

unfoldable pub map_name : ℕ → ℕ → FieldMap
unfolding get_str base
map_name src attr r = text (base (get_str r attr src))

unfoldable pub map_path : ℕ → ℕ → FieldMap
unfolding get_str parse_sym_path
map_path src attr r = text (parse_sym_path (get_str r attr src)).0

unfoldable pub map_symlink : ℕ → ℕ → FieldMap
unfolding get_str parse_sym_path
map_symlink src attr r = text (parse_sym_path (get_str r attr src)).1

unfoldable pub map_dir : ℕ → ℕ → FieldMap
unfolding get_str parse_sym_path dir
map_dir src attr r = text (dir (parse_sym_path (get_str r attr src)).0)

abbrev head_of : List Str → Str
head_of [] = []
head_of (s ∷ ss) = s

unfoldable pub map_repo : ℕ → ℕ → FieldMap
unfolding get_str split
map_repo src attr r = text (head_of (split b':' (get_str r attr src)))

unfoldable pub map_entry : ℕ → ℕ → FieldMap
unfolding get_int
map_entry src attr r = bool (get_int r attr src == pos 1)

unfoldable pub map_port : ℕ → List ℕ → FieldMap
unfolding get_int format_int join
map_port src attrs r = text (join b',' (map (λ attr. format_int (get_int r attr src)) attrs))

-- The object id is taken from the tree of the record.
unfoldable pub map_cached_value : ℕ → RecAttribute → FieldMap
unfolding get_cached_value
map_cached_value src attr r = get_cached_value r attr

unfoldable pub map_consts : List Str → FieldMap
unfolding join
map_consts consts r = text (join b',' consts)

-- A warning is logged.
unfoldable pub map_na : Str → FieldMap
map_na attr r = text []

-- int32(v): the low 32 bits, as a signed number.
unfoldable pub int32_of : ℤ → ℤ
int32_of v =
    let low = to_u64 v % 2 ^ 32 in if ltb low (2 ^ 31) then pos low else negsuc (2 ^ 32 - 1 - low)

module _ (sfgo : Sfgo) where
  unfoldable pub map_rec_type : ℕ → FieldMap
  unfolding get_int
  map_rec_type src r = text (sfgo.record_type (get_int r sfgo.sf_rec_type src))

  unfoldable pub map_op_flags : ℕ → FieldMap
  unfolding get_int int32_of join
  map_op_flags src r = text (
      join b',' (
        sfgo.get_op_flags (int32_of (get_int r sfgo.ev_proc_opflags_int src))
          (get_int r sfgo.sf_rec_type src)))

  unfoldable pub map_evt_type : ℕ → FieldMap
  unfolding get_int int32_of join
  map_evt_type src r = text (
      join b',' (
        sfgo.get_evt_types (int32_of (get_int r sfgo.ev_proc_opflags_int src))
          (get_int r sfgo.sf_rec_type src)))

  unfoldable pub map_ret : ℕ → FieldMap
  unfolding get_int
  map_ret src r =
      let rtype = get_int r sfgo.sf_rec_type src in
      if rtype == sfgo.proc_evt || rtype == sfgo.file_evt
      then int64 (get_int r sfgo.ret_int src)
      else int64 (pos 0)

  unfoldable pub map_end_ts : ℕ → FieldMap
  unfolding get_int
  map_end_ts src r =
      let rtype = get_int r sfgo.sf_rec_type src in
      if rtype == sfgo.file_flow
      then int64 (get_int r sfgo.fl_file_endts_int src)
      else if rtype == sfgo.net_flow
      then int64 (get_int r sfgo.fl_netw_endts_int src)
      else if rtype == sfgo.k8s_evt
      then int64 (get_int r sfgo.ts_int src)
      else int64 (pos 0)

  unfoldable pub map_file_type : ℕ → ℕ → FieldMap
  unfolding get_int
  map_file_type src attr r = text (sfgo.get_file_type (get_int r attr src))

  unfoldable pub map_is_open_write : ℕ → ℕ → FieldMap
  unfolding get_int
  map_is_open_write src attr r = bool (sfgo.is_open_write (get_int r attr src))

  unfoldable pub map_is_open_read : ℕ → ℕ → FieldMap
  unfolding get_int
  map_is_open_read src attr r = bool (sfgo.is_open_read (get_int r attr src))

  unfoldable pub map_open_flags : ℕ → ℕ → FieldMap
  unfolding get_int join
  map_open_flags src attr r = text (join b',' (sfgo.get_open_flags (get_int r attr src)))

  unfoldable pub map_proto : ℕ → ℕ → FieldMap
  unfolding get_int
  map_proto src attr r = text (sfgo.get_proto (get_int r attr src))

  unfoldable pub map_ip : ℕ → List ℕ → FieldMap
  unfolding get_int int32_of join
  map_ip src attrs r =
      text (join b',' (map (λ attr. sfgo.get_ip_str (int32_of (get_int r attr src))) attrs))

  unfoldable pub map_cont_type : ℕ → ℕ → FieldMap
  unfolding get_int
  map_cont_type src attr r = text (sfgo.get_cont_type (get_int r attr src))

  unfoldable pub map_action : ℕ → ℕ → FieldMap
  unfolding get_int
  map_action src attr r = text (sfgo.k8s_action (get_int r attr src))

  unfoldable pub map_kind : ℕ → ℕ → FieldMap
  unfolding get_int
  map_kind src attr r = text (sfgo.k8s_component (get_int r attr src))

  -- The numbers are written one behind the other, with nothing between them.
  unfoldable pub map_oid : ℕ → List ℕ → FieldMap
  unfolding get_int format_int
  map_oid src attrs r =
      text (sfgo.digest (flatten (map (λ attr. format_int (get_int r attr src)) attrs)))
