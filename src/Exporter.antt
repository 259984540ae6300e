-- ===== src/Exporter.antt =====
-- core/exporter/exporter.go: records are buffered, and handed to the encoder in batches. A step of
-- the loop is what its `select` receives; readings of the clock are in nanoseconds.
pub mod Batches
pub mod Sets
use sf_processor.Prelude.{
  ℕ, suc, ltb, ◌-◌, ◌*◌, ◌^◌, Bool, ◌&&◌, Option, none, some, List, [], ◌∷◌, ◌++◌, if◌then◌else◌,
}
use sf_processor.Prelude.Int.{ℤ, pos, leb_ℤ, ltb_ℤ, sub_ℕ}
use sf_processor.Engine.Record.{Record}

-- What the loop receives: a record, with the reading that a flush takes, or a tick, with the
-- reading that it compares and the one that a flush takes.
pub data Event : Type 0 where
  received : Record → ℕ → Event
  ticked : ℕ → ℕ → Event

-- The fields of Exporter with the loop's `lastFlush`, and what the encoder and the transport got.
pub record Exporter (Data : Type 0) : Type 0 where
  pub event_buffer : ℤ
  pub recs : List Record
  pub counter : ℕ
  pub last_flush : ℕ
  pub encoded : List (List Record)
  pub exported : List (List Data)

-- 1 * time.Second
abbrev pub max_idle : ℤ
max_idle = pos 1000000000

module _ {Data : Type 0} (encode : List Record → Option (List Data)) where
  -- What is exported for a batch: nothing, if it cannot be encoded or has no data.
  abbrev pub payload : Option (List Data) → List (List Data)
  payload none = []
  payload (some []) = []
  payload (some (d ∷ ds)) = (d ∷ ds) ∷ []

  -- process; its errors are logged.
  unfoldable pub process : Exporter Data → Exporter Data
  process s = record s {
    encoded = s.encoded ++ s.recs ∷ [];
    exported = s.exported ++ payload (encode s.recs);
  }

  unfoldable pub flush : ℕ → Exporter Data → Exporter Data
  unfolding process
  flush now s = record (process s) { recs = []; counter = 0; last_flush = now }

  -- One round of the loop.
  unfoldable pub step : Event → Exporter Data → Exporter Data
  unfolding flush
  step (received fc now) s =
      let s' : Exporter Data = record s { counter = suc s.counter; recs = s.recs ++ fc ∷ [] } in
      if leb_ℤ s.event_buffer (pos s'.counter) then flush now s' else s'
  step (ticked checked now) s =
      if ltb_ℤ max_idle (sub_ℕ checked s.last_flush) && ltb 0 s.counter then flush now s else s

  -- The channel is closed.
  unfoldable pub close : Exporter Data → Exporter Data
  unfolding process
  close s = if ltb 0 s.counter then process s else s

  unfoldable pub run : List Event → Exporter Data → Exporter Data
  unfolding step close
  run [] s = close s
  run (e ∷ es) s = run es (step e s)

-- The exporter as `Process` finds it.
unfoldable pub new_exporter : {Data : Type 0} → ℤ → ℕ → Exporter Data
new_exporter event_buffer now = record {
  event_buffer = event_buffer;
  recs = [];
  counter = 0;
  last_flush = now;
  encoded = [];
  exported = [];
}
