-- ===== src/Encoders/Json/Encoder.antt =====
-- core/exporter/encoders/json.go: the encoder, with what it keeps between records and between batches.
use sf_processor.Prelude.{Option, none, some, List, [], ◌∷◌, ◌++◌}
use sf_processor.Prelude.Text.{Str}
use sf_processor.Engine.Record.{Record}
use sf_processor.Engine.Mapper.{JsonGet}
use sf_processor.Engine.Fields.{Sfgo}
use sf_processor.Encoders.Json.Values.{Writer}
use sf_processor.Encoders.Json.Sections.{FieldValue, TypeNames, encode_text}

-- What the writer holds and has not built yet, and the slice of encoded records.
pub record JsonEncoder : Type 0 where
  pub buffered : Str
  pub batch : List Str

unfoldable pub new_json_encoder : JsonEncoder
new_json_encoder = record { buffered = []; batch = [] }

module _ (w : Writer) (sfgo : Sfgo) (gjson : JsonGet) (names : TypeNames) (version : Str)
    (fields : List FieldValue) where
  -- encode: BuildBytes takes what the writer holds, and empties it unless it fails.
  unfoldable pub encode : JsonEncoder → Record → Option Str × JsonEncoder
  encode enc r =
      let text = enc.buffered ++ encode_text w sfgo gjson names version fields r in
      elim (w.build text) [
        | none ↦ (none, record enc { buffered = text })
        | some j ↦ (some j, record enc { buffered = [] })
      ]

  abbrev with_data : JsonEncoder → Str → JsonEncoder
  with_data enc j = record enc { batch = enc.batch ++ j ∷ [] }

  -- The loop of Encode: the first record that fails ends it.
  unfoldable pub encode_loop : JsonEncoder → List Record → Option (List Str) × JsonEncoder
  unfolding encode
  encode_loop enc [] = (some enc.batch, enc)
  encode_loop enc (r ∷ rs) =
      let (result, enc') = encode enc r in
      elim result [ none ↦ (none, enc') | some j ↦ encode_loop (with_data enc' j) rs ]

  -- Encode
  unfoldable pub encode_all : JsonEncoder → List Record → Option (List Str) × JsonEncoder
  unfolding encode_loop
  encode_all enc recs = encode_loop (record enc { batch = [] }) recs

  -- What one encoder returns for one batch after the other. A result stands in the slice of the
  -- encoder, so it is read before the next call.
  unfoldable pub encode_batches : JsonEncoder → List (List Record) → List (Option (List Str))
  unfolding encode_all
  encode_batches enc [] = []
  encode_batches enc (recs ∷ batches) =
      let (result, enc') = encode_all enc recs in result ∷ encode_batches enc' batches
