-- ===== src/Tests/Occurrence.antt =====
-- A Bloom filter that is a list, a pool with a capacity of two and a maximal age of an hour, and a
-- record that a rule of priority low matched.
use sf_processor.Prelude.{
  ℕ, ◌≡◌, ◌<◌, ◌↔◌, refl, Bool, true, false, none, some, List, [], ◌∷◌, map, any, length, nat_beq,
  list_eq, nat_eq, select, All, arith,
}
use sf_processor.Prelude.Text.{Str, str}
use sf_processor.Prelude.Int.{pos}
use sf_processor.Engine.Record.{Record}
use sf_processor.Engine.Context.{get_rules}
use sf_processor.Engine.Record.{RuleHead}
use sf_processor.Encoders.Occurrence.Event.{Calendar, encode_event, of_priority}
use sf_processor.Encoders.Occurrence.Writer.{Io, update_event_pool_writer, update_ocf_writer}
use sf_processor.Encoders.Occurrence.Pool.{
  EventPool, OccurrenceConfig, Moment, new_event_pool, raises, seen, pool_state, add_event,
}
use sf_processor.Encoders.Occurrence.Alerts.{raises-IsKnown, IsKnown}
use sf_processor.Encoders.Occurrence.Conserve.{history}
use sf_processor.Encoders.Occurrence.Works.{Works}
use sf_processor.Encoders.Occurrence.Bounded.{run, run-keeps, event_at}
use sf_processor.Encoders.Occurrence.Encoder.{
  encode_all, create_occurrence, note_id, notification, get_event_pool,
}
use sf_processor.Encoders.Occurrence.Independent.{encode_all-run, is_of}
use sf_processor.Encoders.Occurrence.Notes.{note_id-notification}
use sf_processor.Encoders.Occurrence.First.{update_event_pool_writer-stuck, add_event-first}
use sf_processor.Tests.Samples.{gjson, sample, sfgo, head}

abbrev has : ℕ → List ℕ → Bool
has h hs = any (λ k. nat_beq k h) hs

abbrev put : ℕ → List ℕ → List ℕ
put h hs = h ∷ hs

abbrev sum : Str → ℕ
sum s = length s

abbrev date : Calendar
date t = (pos 2021, pos 5, pos 1)

abbrev config : OccurrenceConfig
config = record {
  findings_path = str "/data";
  findings_s3_prefix = [];
  findings_s3_region = [];
  findings_s3_bucket = [];
  findings_pool_capacity = pos 2;
  findings_pool_max_age = pos 60;
  cluster_id = [];
}

abbrev fine : Io
fine = record {
  make_dir = λ d. true;
  open_file = λ p. true;
  new_codec = true;
  new_writer = λ p. true;
  append_events = true;
}

-- No file can be opened.
abbrev shut : Io
shut = record fine { open_file = λ p. false }

abbrev now : Moment
now = record { io = fine; checked = 1000; flushed = 1001; reset_at = 1002; created = 1003 }

abbrev matched : Record
matched = record sample { ctx = record sample.ctx { rules = some (head ∷ []) } }

abbrev start : EventPool (List ℕ)
start = new_event_pool [] put has sum date sfgo gjson config (str "c1") (pos 7)

-- A pool that was flushed a moment ago.
abbrev flushed_pool : EventPool (List ℕ)
flushed_pool = record start { last_flush_time = some 900 }

raises-IsKnown_example :
    (raises [] put has sum date sfgo gjson config matched flushed_pool ≡ false) ↔ (
      (seen [] put has sum date sfgo gjson config matched flushed_pool ≡ true)
      × All (IsKnown flushed_pool.rule_types flushed_pool.top_severity) (get_rules matched.ctx))
raises-IsKnown_example = raises-IsKnown [] put has sum date sfgo gjson config matched flushed_pool

abbrev steps : List (Moment × Record)
steps = (now, matched) ∷ (now, sample) ∷ (now, matched) ∷ []

run-keeps_example :
    (length (run [] put has sum date sfgo gjson config steps start).events < 2)
    × (history (run [] put has sum date sfgo gjson config steps start)
        ≡ map (event_at [] put has sum date sfgo gjson config) steps)
run-keeps_example =
    let works : Works fine = ((λ d. refl), (λ p. refl), refl, (λ p. refl), refl) in
    run-keeps [] put has sum date sfgo gjson config 2 (str "c1") (pos 7) steps refl (omega arith)
      (works, (works, (works, tt)))

encode_all-run_example :
    get_event_pool [] put has sum date sfgo gjson config
      (pos 7)
      (str "bash")
      (encode_all [] put has sum date sfgo gjson config (pos 7) steps []).1
    ≡ run [] put has sum date sfgo gjson config
        (select (is_of [] put has sum date sfgo gjson config (pos 7) (str "bash")) steps)
        (new_event_pool [] put has sum date sfgo gjson config (str "bash") (pos 7))
encode_all-run_example =
    encode_all-run [] put has sum date sfgo gjson config (pos 7) (str "bash") steps

note_id-notification_example :
    (note_id (
        create_occurrence date sfgo gjson config 1003
          (encode_event sfgo gjson [] matched)
          (str "c1")
          (pos 7))
      ≡ notification)
    ↔ All (λ (r : RuleHead). of_priority r.priority < 2) (get_rules matched.ctx)
unfolding encode_event
note_id-notification_example =
    note_id-notification date sfgo gjson config 1003 (encode_event sfgo gjson [] matched) (str "c1")
      (pos 7)

update_event_pool_writer-stuck_example :
    update_event_pool_writer fine
      (str "/data/f")
      (some (update_event_pool_writer shut (str "/data/f") none).1)
    ≡ (false, (update_event_pool_writer shut (str "/data/f") none).1)
unfolding update_event_pool_writer update_ocf_writer
update_event_pool_writer-stuck_example =
    update_event_pool_writer-stuck shut fine (str "/data/f") none refl refl refl

add_event-first_example :
    ((add_event [] put has sum date sfgo gjson config now matched start).0 ≡ true)
    × ((add_event [] put has sum date sfgo gjson config now matched start).1.events ≡ [])
    × ((add_event [] put has sum date sfgo gjson config now matched start).1.filter ≡ [])
    × (pool_state (add_event [] put has sum date sfgo gjson config now matched start).1 ≡ (0, 0))
    × ((add_event [] put has sum date sfgo gjson config now matched
          (add_event [] put has sum date sfgo gjson config now matched start).1).0
        ≡ true)
add_event-first_example =
    add_event-first [] put has sum date sfgo gjson config now now matched matched (str "c1") (pos 7)
      (λ h. refl) refl
