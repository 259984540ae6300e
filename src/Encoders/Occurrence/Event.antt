-- ===== src/Encoders/Occurrence/Event.antt =====
-- core/exporter/encoders/occurrence.go: the events of records, and where they are exported to.
use sf_processor.Prelude.{
  ℕ, Bool, not, ◌&&◌, ◌||◌, List, [], ◌∷◌, ◌++◌, map, flatten, ltb, if◌then◌else◌, list_eq, nat_eq,
  ◌==◌, nat_beq,
}
use sf_processor.Prelude.Int.{ℤ, int_eq}
use sf_processor.Prelude.Text.{Str, str, join}
use sf_processor.Prelude.Decimal.{format_int}
use sf_processor.Prelude.Paths.{clean}
use sf_processor.Engine.Record.{
  Record, RuleHead, Priority, low, medium, high, EnrichmentTag, tag_list, tag_text, get_int,
}
use sf_processor.Engine.Context.{get_rules, get_tags}
use sf_processor.Engine.Mapper.{JsonGet, map_str, map_int}
use sf_processor.Engine.Fields.{Sfgo}
use sf_processor.Engine.Fields.Mappers.{global_mapper}

-- SeverityLow, SeverityMedium and SeverityHigh are 0, 1 and 2, like the priorities.
abbrev pub Severity : Type 0
Severity = ℕ

abbrev pub of_priority : Priority → Severity
of_priority low = 0
of_priority medium = 1
of_priority high = 2

-- Severity.String; past the array it panics.
unfoldable pub severity_text : Severity → Str
severity_text s =
    if nat_beq s 0 then str "LOW" else if nat_beq s 1 then str "MEDIUM" else str "HIGH"

-- utils.Max
unfoldable pub max : ℕ → ℕ → ℕ
max x y = if ltb x y then y else x

-- The generated record of an event, with the record that it was made of.
pub record Event : Type 0 where
  pub ts : ℤ
  pub description : Str
  pub severity : Str
  pub cluster_id : Str
  pub node_id : Str
  pub node_ip : Str
  pub container_id : Str
  pub record_type : Str
  pub op_flags : Str
  pub p_proc_cmd : Str
  pub p_proc_pid : ℤ
  pub proc_cmd : Str
  pub proc_pid : ℤ
  pub resource : Str
  pub tags : Str
  pub trace : Str
  pub rec : Record

unfoldable pub get_export_file_name : Event → Str
get_export_file_name e = if e.container_id == [] then str "host" else e.container_id

-- filepath.Join of two parts, of which an empty one is left out
unfoldable pub join_path : Str → Str → Str
unfolding clean
join_path [] [] = []
join_path [] (d ∷ b) = clean (d ∷ b)
join_path (c ∷ a) [] = clean (c ∷ a)
join_path (c ∷ a) (d ∷ b) = clean ((c ∷ a) ++ (b'/' ∷ d ∷ b))

abbrev under : Bool → Str → Str → Str
under wanted dir path = if wanted then join_path dir path else path

unfoldable pub prepend_env_path : Event → Str → Str → Str → Str
unfolding join_path
prepend_env_path e prefix cluster_id path =
    let na = str "NA" in
    let by_ip = under (not (e.node_ip == []) && not (e.node_ip == na)) e.node_ip path in
    let by_node =
      under (not (e.node_id == []) && (not (e.node_id == na) && not (e.node_id == e.node_ip)))
        e.node_id by_ip in
    let by_cluster = under (not (cluster_id == [])) cluster_id by_node in
    under (not (prefix == [])) prefix by_cluster

-- strings.ReplaceAll of one byte
unfoldable pub replace_all : ℕ → Str → Str → Str
replace_all c by [] = []
replace_all c by (d ∷ s) = (if nat_beq d c then by else d ∷ []) ++ replace_all c by s

-- The separators of directories become bars.
unfoldable pub get_env_description : Event → Str → Str → Str
unfolding prepend_env_path replace_all
get_env_description e prefix cluster_id =
    replace_all b'/' (str "|") (prepend_env_path e prefix cluster_id [])

-- The year, the month and the day of a time in nanoseconds, in the local zone.
abbrev pub Calendar : Type 0
Calendar = ℤ → ℤ × ℤ × ℤ

-- %d/%d/%d/%s_%d.avro
unfoldable pub get_export_file_path : Calendar → Event → Str → Str → ℤ → Str
unfolding get_export_file_name prepend_env_path format_int
get_export_file_path date e prefix cluster_id enc_ts =
    let (y, m, d) = date e.ts in
    prepend_env_path e prefix cluster_id (
      format_int y
      ++ (b'/'
          ∷ (format_int m
              ++ (b'/'
                  ∷ (format_int d
                      ++ (b'/'
                          ∷ (get_export_file_name e
                              ++ (b'_' ∷ (format_int enc_ts ++ str ".avro")))))))))

abbrev tags_of : EnrichmentTag → List Str
tags_of (tag_list tags) = tags
tags_of (tag_text tag) = tag ∷ []

-- The loop over the rules: their names, their tags and the highest severity.
unfoldable pub summarize_rules :
    List RuleHead → List Str × List Str × Severity → List Str × List Str × Severity
unfolding max
summarize_rules [] acc = acc
summarize_rules (r ∷ rules) (rnames, tags, severity) = summarize_rules rules (
  rnames ++ r.name ∷ [],
  tags ++ flatten (map tags_of r.tags),
  max severity (of_priority r.priority),
)

unfoldable pub summarize_policy : Record → List Str × List Str × Severity
unfolding summarize_rules get_rules get_tags
summarize_policy r = summarize_rules (get_rules r.ctx) ([], get_tags r.ctx, 0)

module _ (sfgo : Sfgo) (gjson : JsonGet) where
  abbrev pub str_at : Str → Record → Str
  str_at attr r = map_str gjson (global_mapper sfgo) attr r

  abbrev pub int_at : Str → Record → ℤ
  int_at attr r = map_int (global_mapper sfgo) attr r

  -- %s:%d-%s:%d
  unfoldable pub format_resource : Record → Str
  unfolding get_int map_str map_int global_mapper format_int
  format_resource r =
      let rtype = get_int r sfgo.sf_rec_type sfgo.sysflow_src in
      if rtype == sfgo.file_evt || rtype == sfgo.file_flow
      then str_at (str "sf.file.path") r
      else if rtype == sfgo.net_flow
      then str_at (str "sf.net.sip") r
        ++ (b':'
            ∷ (format_int (int_at (str "sf.net.sport") r)
                ++ (b'-'
                    ∷ (str_at (str "sf.net.dip") r
                        ++ (b':' ∷ format_int (int_at (str "sf.net.dport") r))))))
      else []

  unfoldable pub encode_event : Str → Record → Event
  unfolding summarize_policy severity_text format_resource join map_str map_int global_mapper
  encode_event cluster_id r =
      let (rnames, tags, severity) = summarize_policy r in
      record {
        ts = int_at (str "sf.ts") r;
        description = join b',' rnames;
        severity = severity_text severity;
        cluster_id = cluster_id;
        node_id = str_at (str "sf.node.id") r;
        node_ip = str_at (str "sf.node.ip") r;
        container_id = str_at (str "sf.container.id") r;
        record_type = str_at (str "sf.type") r;
        op_flags = str_at (str "sf.opflags") r;
        p_proc_cmd = str_at (str "sf.pproc.cmdline") r;
        p_proc_pid = int_at (str "sf.pproc.pid") r;
        proc_cmd = str_at (str "sf.proc.cmdline") r;
        proc_pid = int_at (str "sf.proc.pid") r;
        resource = format_resource r;
        tags = join b',' tags;
        trace = str_at (str "sf.meta.tracename") r;
        rec = r;
      }

  -- What semanticHash writes into the hash.
  unfoldable pub semantic_text : Record → Str
  unfolding map_str global_mapper
  semantic_text r =
      str_at (str "sf.proc.cmdline") r
      ++ (str_at (str "sf.proc.uid") r
          ++ (str_at (str "sf.file.oid") r
              ++ (str_at (str "sf.opflags") r ++ str_at (str "sf.proc.tty") r)))
