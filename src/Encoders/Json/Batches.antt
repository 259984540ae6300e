-- ===== src/Encoders/Json/Batches.antt =====
-- core/exporter/encoders/json.go: nothing of a record or a batch is seen in a later one.
use sf_processor.Prelude.{◌≡◌, refl, sym, ap, ◌∙◌, Option, none, some, List, [], ◌∷◌, ◌++◌, map}
use mathlib.Core.Path.{ap₂}
use mathlib.Core.List.{append-nil, append_assoc}
use sf_processor.Prelude.Text.{Str}
use sf_processor.Engine.Record.{Record}
use sf_processor.Engine.Mapper.{JsonGet}
use sf_processor.Engine.Fields.{Sfgo}
use sf_processor.Encoders.Json.Values.{Writer}
use sf_processor.Encoders.Json.Sections.{FieldValue, TypeNames, encode_text}
use sf_processor.Encoders.Json.Encoder.{
  JsonEncoder, encode, encode_loop, encode_all, encode_batches,
}

module _ (w : Writer) (sfgo : Sfgo) (gjson : JsonGet) (names : TypeNames) (version : Str)
    (fields : List FieldValue) (built : Str → Str)
    (builds : (text : Str) → w.build text ≡ some (built text)) where
  -- What is due for a record.
  abbrev pub datum : Record → Str
  datum r = built (encode_text w sfgo gjson names version fields r)

  encode-empty :
      (enc : JsonEncoder) (r : Record)
      → enc.buffered ≡ []
      → encode w sfgo gjson names version fields enc r
        ≡ (some (datum r), record enc { buffered = [] })
  unfolding encode
  encode-empty enc r empty =
      let text = encode_text w sfgo gjson names version fields r in
      rw (builds (enc.buffered ++ text), encode)
        (ap (λ b. (some (built (b ++ text)), record enc { buffered = [] })) empty)

  encode_loop-empty :
      (enc : JsonEncoder) (recs : List Record)
      → enc.buffered ≡ []
      → encode_loop w sfgo gjson names version fields enc recs ≡ (
        some (enc.batch ++ map datum recs),
        record enc { buffered = []; batch = enc.batch ++ map datum recs },
      )
  unfolding encode_loop
  encode_loop-empty enc [] empty =
      ap₂ (λ b all. (some all, record enc { buffered = b; batch = all })) empty
        (sym (append-nil enc.batch))
  encode_loop-empty enc (r ∷ recs) empty =
      ap
        (λ (p : Option Str × JsonEncoder). elim p.0 [
          | none ↦ (none, p.1)
          | some j ↦
              encode_loop w sfgo gjson names version fields
                (record p.1 { batch = p.1.batch ++ j ∷ [] }) recs
        ])
        (encode-empty enc r empty)
      ∙ encode_loop-empty (record { buffered = []; batch = enc.batch ++ datum r ∷ [] }) recs refl
      ∙ ap (λ all. (some all, record { buffered = []; batch = all }))
          (append_assoc enc.batch (datum r ∷ []) (map datum recs))

  -- If the writer builds every text, one encoder whose writer is empty returns for each of any number
  -- of batches the texts of the records of that batch, in their order: nothing of an earlier record
  -- or batch is in them, whatever the slice of the encoder held before.
  pub encode_batches-apart :
      (enc : JsonEncoder) (batches : List (List Record))
      → enc.buffered ≡ []
      → encode_batches w sfgo gjson names version fields enc batches
        ≡ map (λ recs. some (map datum recs)) batches
  unfolding encode_batches encode_all
  encode_batches-apart enc [] empty = refl
  encode_batches-apart enc (recs ∷ batches) empty =
      rw (encode_loop-empty (record enc { batch = [] }) recs empty, encode_batches)
        (ap (λ rest. some (map datum recs) ∷ rest)
          (encode_batches-apart (record { buffered = []; batch = map datum recs }) batches refl))
