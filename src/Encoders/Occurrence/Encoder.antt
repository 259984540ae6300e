-- ===== src/Encoders/Occurrence/Encoder.antt =====
-- core/exporter/encoders/occurrence.go: occurrences, and the encoder with its pool for each container.
use sf_processor.Prelude.{
  ℕ, ◌/◌, Bool, Option, none, some, List, [], ◌∷◌, ◌++◌, ltb, if◌then◌else◌, list_eq, nat_eq, ◌==◌,
}
use sf_processor.Prelude.Assoc.{lookup, insert}
use sf_processor.Prelude.Int.{ℤ, pos, int_eq}
use sf_processor.Prelude.Text.{Str, str, join}
use sf_processor.Prelude.Decimal.{format_int}
use sf_processor.Engine.Record.{Record, get_int}
use sf_processor.Engine.Mapper.{JsonGet, map_str}
use sf_processor.Engine.Fields.{Sfgo}
use sf_processor.Engine.Fields.Mappers.{global_mapper}
use sf_processor.Encoders.Occurrence.Event.{
  Event, Severity, Calendar, encode_event, summarize_policy, get_env_description,
  get_export_file_path, replace_all, format_resource, str_at,
}
use sf_processor.Encoders.Occurrence.Pool.{
  Moment, EventPool, OccurrenceConfig, new_event_pool, add_event,
}

-- CertaintyLow, CertaintyMedium and CertaintyHigh are 0, 1 and 2.
abbrev pub Certainty : Type 0
Certainty = ℕ

pub record Occurrence : Type 0 where
  pub id : Str
  pub short_descr : Str
  pub long_descr : Str
  pub severity : Severity
  pub certainty : Certainty
  pub res_type : Str
  pub res_name : Str
  pub alert_query : Str

abbrev pub notification : Str
notification = str "notification"

abbrev pub offense : Str
offense = str "actionable-offense"

unfoldable pub note_id : Occurrence → Str
note_id occ = if ltb occ.severity 2 then notification else offense

-- U+2192 between spaces, and U+2215
abbrev right_arrow : Str
right_arrow = 32 ∷ 226 ∷ 134 ∷ 146 ∷ 32 ∷ []

abbrev fwd_slash : Str
fwd_slash = 226 ∷ 136 ∷ 149 ∷ []

abbrev break : Str
break = str "<br><br>"

module _ (date : Calendar) (sfgo : Sfgo) (gjson : JsonGet) (c : OccurrenceConfig) where
  abbrev text_at : Str → Record → Str
  text_at attr r = str_at sfgo gjson attr r

  abbrev arrow : Str → Str → Str → Str
  arrow what a b = what ++ (a ++ (right_arrow ++ b))

  -- The details by the type of the record.
  unfoldable pub details : Record → Str
  unfolding get_int map_str global_mapper format_resource
  details r =
      let rtype = get_int r sfgo.sf_rec_type sfgo.sysflow_src in
      let proc = text_at (str "sf.proc.cmdline") r in
      if rtype == sfgo.proc_evt
      then arrow (str "Process execution ") (text_at (str "sf.pproc.cmdline") r) proc
      else if rtype == sfgo.file_evt
      then arrow (str "Filesystem manipulation ") proc (format_resource sfgo gjson r)
      else if rtype == sfgo.file_flow
      then arrow (str "File access ") proc (format_resource sfgo gjson r)
      else if rtype == sfgo.net_flow
      then arrow (str "Network traffic ") proc (format_resource sfgo gjson r)
      else []

  unfoldable pub short_descr_of : List Str → Str
  unfolding replace_all
  short_descr_of [] = str "telemetry event"
  short_descr_of (n ∷ []) = replace_all b'/' fwd_slash n
  short_descr_of (n ∷ m ∷ ns) = replace_all b'/' fwd_slash n ++ str " (+)"

  unfoldable pub create_occurrence : ℕ → Event → Str → ℤ → Occurrence
  unfolding details short_descr_of summarize_policy get_env_description get_export_file_path
  create_occurrence now e cid enc_ts =
      let env = str " [" ++ (get_env_description e c.findings_s3_prefix c.cluster_id ++ str "]") in
      let host = cid == [] in
      let (rnames, tags, severity) = summarize_policy e.rec in
      let bucket = c.findings_s3_region ++ (b'/' ∷ c.findings_s3_bucket) in
      record {
        id = cid ++ (b'-' ∷ format_int (pos (now / 1000)));
        short_descr = short_descr_of rnames;
        long_descr =
            replace_all b'/' fwd_slash (details e.rec)
            ++ (break
                ++ ((str "<b>Policies</b><br>" ++ join b',' rnames)
                    ++ (break ++ (str "<b>Tags</b><br>" ++ join b',' tags))));
        severity = severity;
        certainty = 1;
        res_type = if host then str "host" else text_at (str "sf.container.type") e.rec;
        res_name =
            if host
            then str "host" ++ env
            else cid ++ (b':' ∷ (text_at (str "sf.container.name") e.rec ++ env));
        alert_query =
            str "SELECT * FROM cos://"
            ++ (bucket
                ++ (b'/'
                    ∷ (get_export_file_path date e c.findings_s3_prefix c.cluster_id enc_ts
                        ++ (str " STORED AS AVRO LIMIT 500 INTO cos://"
                            ++ (bucket ++ str "/sql-query")))));
      }

-- The pool of each container, by its identifier.
abbrev pub Cache : Type 0 → Type 0
Cache F = List (Str × EventPool F)

-- The time is the one at which the encoder was made.
module _ {F : Type 0} (empty : F) (add : ℕ → F → F) (contains : ℕ → F → Bool) (sum64 : Str → ℕ)
    (date : Calendar) (sfgo : Sfgo) (gjson : JsonGet) (c : OccurrenceConfig) (ts : ℤ) where
  -- The pool that getEventPool returns; the caller's step puts it into the cache.
  unfoldable pub get_event_pool : Str → Cache F → EventPool F
  unfolding lookup
  get_event_pool cid cache = elim (lookup cid cache) [
    | none ↦ new_event_pool empty add contains sum64 date sfgo gjson c cid ts
    | some ep ↦ ep
  ]

  abbrev pub container_of : Record → Str
  container_of r = str_at sfgo gjson (str "sf.container.id") r

  -- encode: the record goes to the pool of its container, and what raises an alert is an occurrence.
  unfoldable pub encode : Moment → Record → Cache F → Option Occurrence × Cache F
  unfolding insert get_event_pool add_event create_occurrence encode_event
  encode m r cache =
      let cid = container_of r in
      let (alert, ep) =
        add_event empty add contains sum64 date sfgo gjson c m r (get_event_pool cid cache) in
      let e = encode_event sfgo gjson c.cluster_id r in
      (
        if alert
            then some (create_occurrence date sfgo gjson c m.created e ep.cid ep.enc_ts)
            else none,
        insert cid ep cache,
      )

  abbrev with_data : Option Occurrence → List Occurrence → List Occurrence
  with_data none batch = batch
  with_data (some occ) batch = occ ∷ batch

  -- Encode: the batch of the records, in their order.
  unfoldable pub encode_all : List (Moment × Record) → Cache F → List Occurrence × Cache F
  unfolding encode
  encode_all [] cache = ([], cache)
  encode_all ((m, r) ∷ steps) cache =
      let (encoded, cache') = encode m r cache in
      let (batch, after) = encode_all steps cache' in (with_data encoded batch, after)
