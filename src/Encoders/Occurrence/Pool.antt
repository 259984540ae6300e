-- ===== src/Encoders/Occurrence/Pool.antt =====
-- core/exporter/encoders/occurrence.go: the pool of a container's events, and what a record does to it.
use sf_processor.Prelude.{
  ℕ, ◌-◌, ◌*◌, suc, Bool, true, false, not, ◌&&◌, ◌||◌, Option, none, some, List, [], ◌∷◌, ◌++◌,
  ltb, length, if◌then◌else◌, list_eq, nat_eq, nat_beq,
}
use sf_processor.Prelude.Int.{ℤ, pos, negsuc, leb_ℤ, ltb_ℤ, sub_ℕ}
use sf_processor.Prelude.Text.{Str}
use sf_processor.Engine.Record.{Record, RuleHead}
use sf_processor.Engine.Context.{get_rules}
use sf_processor.Engine.Mapper.{JsonGet}
use sf_processor.Engine.Fields.{Sfgo}
use sf_processor.Exporter.Sets.{Set, new_set, set_add, set_len}
use sf_processor.Encoders.Occurrence.Writer.{
  Io, EventPoolWriter, update_writers, file_of, has_writer,
}
use sf_processor.Encoders.Occurrence.Event.{
  Event, Severity, Calendar, of_priority, max, get_export_file_path, encode_event, semantic_text,
}

-- `filter` is the Bloom filter; `written` has what was appended, with the file.
pub record EventPool (F : Type 0) : Type 0 where
  pub cid : Str
  pub events : List Event
  pub filter : F
  pub rule_types : Set
  pub top_severity : Severity
  pub last_flush_time : Option ℕ
  pub enc_ts : ℤ
  pub epw : Option EventPoolWriter
  pub written : List (Str × List Event)

-- The configuration that the encoder reads.
pub record OccurrenceConfig : Type 0 where
  pub findings_path : Str
  pub findings_s3_prefix : Str
  pub findings_s3_region : Str
  pub findings_s3_bucket : Str
  pub findings_pool_capacity : ℤ
  pub findings_pool_max_age : ℤ
  pub cluster_id : Str

-- The answers and the readings of the clock, in nanoseconds, of one call of encode.
pub record Moment : Type 0 where
  pub io : Io
  pub checked : ℕ
  pub flushed : ℕ
  pub reset_at : ℕ
  pub created : ℕ

-- Minutes as nanoseconds.
abbrev pub minutes : ℤ → ℤ
minutes (pos n) = pos (n * 60000000000)
minutes (negsuc n) = negsuc (suc n * 60000000000 - 1)

-- Since the zero time, which a new pool has, the longest duration has passed. The code compares minutes
-- as floating-point numbers, and here nanoseconds are compared.
unfoldable pub aged : ℕ → ℤ → Option ℕ → Bool
aged checked max_age none = leb_ℤ max_age (pos 153722867)
aged checked max_age (some last) = ltb_ℤ (minutes max_age) (sub_ℕ checked last)

-- %s/%s
abbrev pub export_path : Calendar → OccurrenceConfig → ℤ → Event → Str
export_path date c enc_ts e =
    c.findings_path ++ (b'/' ∷ get_export_file_path date e c.findings_s3_prefix c.cluster_id enc_ts)

module _ {F : Type 0} where
  unfoldable pub reached_capacity : ℤ → EventPool F → Bool
  reached_capacity capacity ep = leb_ℤ capacity (pos (length ep.events))

  -- State
  abbrev pub pool_state : EventPool F → ℕ × Severity
  pool_state ep = (set_len ep.rule_types, ep.top_severity)

  -- Flush, and whether it succeeds.
  unfoldable pub flush : Calendar → OccurrenceConfig → ℕ → Io → EventPool F → Bool × EventPool F
  flush date c now io ep =
      let (ok, epw) = update_writers io (export_path date c ep.enc_ts) ep.events ep.epw in
      if not ok
      then (false, record ep { epw = epw })
      else if ltb 0 (length ep.events)
      then (if has_writer epw && io.append_events
          then (
            true,
            record ep {
              events = [];
              last_flush_time = some now;
              epw = epw;
              written = ep.written ++ (file_of epw, ep.events) ∷ [];
            },
          )
          else (false, record ep { epw = epw }))
      else (true, record ep { events = []; last_flush_time = some now; epw = epw })

  -- The loop over the rules of the record.
  unfoldable pub add_rules : List RuleHead → EventPool F → EventPool F
  unfolding set_add max
  add_rules [] ep = ep
  add_rules (r ∷ rules) ep = add_rules rules (record ep {
    rule_types = set_add r.name ep.rule_types;
    top_severity = max ep.top_severity (of_priority r.priority);
  })

-- The Bloom filter of package steakknife, with the hash of a text.
module _ {F : Type 0} (empty : F) (add : ℕ → F → F) (contains : ℕ → F → Bool) (sum64 : Str → ℕ)
    (date : Calendar) (sfgo : Sfgo) (gjson : JsonGet) (c : OccurrenceConfig) where
  unfoldable pub new_event_pool : Str → ℤ → EventPool F
  unfolding new_set
  new_event_pool cid ts = record {
    cid = cid;
    events = [];
    filter = empty;
    rule_types = new_set;
    top_severity = 0;
    last_flush_time = none;
    enc_ts = ts;
    epw = none;
    written = [];
  }

  unfoldable pub reset : ℕ → EventPool F → EventPool F
  unfolding new_set
  reset now ep = record ep {
    events = [];
    filter = empty;
    rule_types = new_set;
    top_severity = 0;
    last_flush_time = some now;
  }

  -- The pool with the event of the record.
  unfoldable pub with_event : Record → EventPool F → EventPool F
  with_event r ep =
      add_rules (get_rules r.ctx)
        (record ep { events = ep.events ++ encode_event sfgo gjson c.cluster_id r ∷ [] })

  abbrev pub semantic_hash : Record → ℕ
  semantic_hash r = sum64 (semantic_text sfgo gjson r)

  abbrev pub seen : Record → EventPool F → Bool
  seen r ep = contains (semantic_hash r) ep.filter

  -- The pool once the record is in its filter.
  abbrev pub marked : Record → EventPool F → EventPool F
  marked r ep =
      let ep' = with_event r ep in
      record ep' { filter = if seen r ep' then ep'.filter else add (semantic_hash r) ep'.filter }

  -- Whether the record raises an alert: it is new, or the state of the pool has changed.
  unfoldable pub raises : Record → EventPool F → Bool
  raises r ep =
      let ep' = with_event r ep in
      let (rco, so) = pool_state ep in
      let (rc, s) = pool_state (marked r ep) in
      not (seen r ep') || (not (nat_beq rco rc) || not (nat_beq so s))

  -- The end of addEvent: the pool is flushed, and reset if it has aged, whether or not the flush
  -- succeeded.
  unfoldable pub write_out : Moment → Bool → EventPool F → EventPool F
  write_out m alert ep =
      let full = reached_capacity c.findings_pool_capacity ep in
      let old = aged m.checked c.findings_pool_max_age ep.last_flush_time in
      let flushed = (flush date c m.flushed m.io ep).1 in
      if alert || (full || old) then (if old then reset m.reset_at flushed else flushed) else ep

  -- addEvent, given the pool of the record's container.
  unfoldable pub add_event : Moment → Record → EventPool F → Bool × EventPool F
  add_event m r ep = let alert = raises r ep in (alert, write_out m alert (marked r ep))
