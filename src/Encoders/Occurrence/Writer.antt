-- ===== src/Encoders/Occurrence/Writer.antt =====
-- core/exporter/encoders/occurrence.go: the writer of a pool's files. What the file system and package
-- goavro answer is an input of each call.
use sf_processor.Prelude.{
  Bool, true, false, not, ◌&&◌, Option, none, some, List, [], ◌∷◌, if◌then◌else◌, list_eq, nat_eq,
  ◌==◌,
}
use sf_processor.Prelude.Text.{Str}
use sf_processor.Prelude.Paths.{dir}
use sf_processor.Encoders.Occurrence.Event.{Event}

-- What the calls answer: whether the directory of a file is there or was made, and whether a file
-- was opened, the codec made, a writer made for a file, and events appended.
pub record Io : Type 0 where
  pub make_dir : Str → Bool
  pub open_file : Str → Bool
  pub new_codec : Bool
  pub new_writer : Str → Bool
  pub append_events : Bool

-- The OCF writer is known by the file that it writes to.
pub record EventPoolWriter : Type 0 where
  pub current_export_path : Str
  pub fw : Option Str
  pub codec : Bool
  pub ocfw : Option Str

abbrev pub new_event_pool_writer : EventPoolWriter
new_event_pool_writer = record { current_export_path = []; fw = none; codec = false; ocfw = none }

-- UpdateOCFWriter, and whether it succeeds.
unfoldable pub update_ocf_writer : Io → Str → EventPoolWriter → Bool × EventPoolWriter
update_ocf_writer io path w =
    if not (io.open_file path)
    then (false, record w { current_export_path = path; fw = none })
    else if not w.codec && not io.new_codec
    then (false, record w { current_export_path = path; fw = some path })
    else if io.new_writer path
    then (
      true,
      record { current_export_path = path; fw = some path; codec = true; ocfw = some path },
    )
    else (false, record { current_export_path = path; fw = some path; codec = true; ocfw = none })

abbrev pub or_new : Option EventPoolWriter → EventPoolWriter
or_new none = new_event_pool_writer
or_new (some w) = w

-- The check at the end: a writer that is not there is an error.
abbrev pub has_ocfw : EventPoolWriter → Bool
has_ocfw w = elim w.ocfw [ none ↦ false | some _ ↦ true ]

unfoldable pub update_event_pool_writer : Io → Str → Option EventPoolWriter → Bool × EventPoolWriter
unfolding dir update_ocf_writer
update_event_pool_writer io path epw =
    let w = or_new epw in
    if path == w.current_export_path
    then (has_ocfw w, w)
    else if not (io.make_dir (dir path))
    then (false, w)
    else (let (ok, w') = update_ocf_writer io path w in (ok && has_ocfw w', w'))

-- The loop of Flush: the first error ends it.
unfoldable pub update_writers :
    Io → (Event → Str) → List Event → Option EventPoolWriter → Bool × Option EventPoolWriter
update_writers io path [] epw = (true, epw)
update_writers io path (e ∷ es) epw =
    let (ok, w) = update_event_pool_writer io (path e) epw in
    let rest = update_writers io path es (some w) in if ok then rest else (false, some w)

-- The file behind the writer.
abbrev pub file_of : Option EventPoolWriter → Str
file_of none = []
file_of (some w) = elim w.ocfw [ none ↦ [] | some path ↦ path ]

abbrev pub has_writer : Option EventPoolWriter → Bool
has_writer none = false
has_writer (some w) = has_ocfw w
