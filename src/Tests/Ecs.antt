-- ===== src/Tests/Ecs.antt =====
-- An event of a process outside of pods, that a rule of priority low matched, and a record of a type
-- that is not encoded.
use sf_processor.Prelude.{
  ℕ, ◌≡◌, ◌<◌, ◌↔◌, ◌∙◌, refl, ap, Option, none, some, [], ◌∷◌, length, ◌>>=◌, list_eq, nat_eq,
  ◌==◌,
}
use sf_processor.Prelude.Assoc.{lookup}
use sf_processor.Prelude.Int.{pos}
use sf_processor.Prelude.Text.{Str, str}
use sf_processor.Engine.Record.{Record, new_record}
use sf_processor.Engine.Context.{get_rules}
use sf_processor.Engine.Mapper.{value_text, cut}
use sf_processor.Engine.Fields.{map_rec_type, map_str_attr}
use sf_processor.Engine.Fields.Entry.{FieldEntry}
use sf_processor.Engine.Fields.Mappers.{
  get_exported_mappers, get_mappers, global_mapper, global_mapper-MapsFlat,
}
use sf_processor.Engine.Fields.ProcessFields.{record_fields, proc_fields, pproc_fields}
use sf_processor.Engine.Fields.FileFields.{file_fields, flow_fields}
use sf_processor.Engine.Fields.ContextFields.{container_fields, pod_fields}
use sf_processor.Flattener.Reads.{map_str-found, lookup-map}
use sf_processor.Encoders.Json.Sections.{TypeNames}
use sf_processor.Encoders.Occurrence.Event.{str_at, summarize_policy}
use sf_processor.Encoders.Ecs.Document.{EcsLibrary}
use sf_processor.Encoders.Ecs.Kinds.{EcsRecord, encode_process_event}
use sf_processor.Encoders.Ecs.Encode.{EcsConfig, encode, with_kind, with_policies}
use sf_processor.Encoders.Ecs.Summary.{
  Says, encode-summarize_policy, encode-other_type, is_known, without_pod, with_entities-no_pod,
}
use sf_processor.Tests.Samples.{gjson, sfgo, head}

abbrev names : TypeNames
names = record {
  ty_p_e_str = str "PE";
  ty_f_e_str = str "FE";
  ty_f_f_str = str "FF";
  ty_n_f_str = str "NF";
  ty_k_e_str = str "KE";
}

abbrev lib : EcsLibrary
lib = record {
  to_iso_time_str = λ t. str "2021-05-01T00:00:00Z";
  community_id = λ a b p q n. str "1:x";
  op = λ name. length name;
  k8s_action_number = λ name. pos (length name);
}

abbrev sum : Str → ℕ
sum s = length s

abbrev config : EcsConfig
config = record { version = str "0.4"; ecs_version = str "1.7.0" }

-- Numbers and texts are zero and empty.
abbrev blank : Record
blank = new_record (record {
  sources = (0, record { ints = λ i. pos 0; strs = λ i. []; anys = λ i. none }) ∷ [];
  ptree = none;
})

abbrev matched : Record
matched = record blank {
  ctx = record blank.ctx { rules = some (head ∷ []); tags = some (str "t" ∷ []) };
}

abbrev IsEntry : Str → FieldEntry → Type 0
IsEntry a e = lookup a (get_exported_mappers sfgo) ≡ some e

at :
    (a : Str) (e : FieldEntry) (r : Record)
    → cut b'[' a ≡ none
    → IsEntry a e
    → str_at sfgo gjson a r ≡ value_text gjson a none (e.mapping r)
unfolding global_mapper
at a e r no_path found =
    map_str-found gjson (global_mapper sfgo) a r e.mapping no_path
      (lookup-map (get_mappers sfgo) a e ((global_mapper-MapsFlat sfgo).1 a e found))

is_process_event : str_at sfgo gjson (str "sf.type") matched ≡ str "PE"
unfolding cut lookup get_exported_mappers record_fields value_text map_rec_type
is_process_event = at (str "sf.type") _ matched refl refl

no_pod : str_at sfgo gjson (str "sf.pod.id") matched ≡ []
unfolding cut lookup get_exported_mappers record_fields proc_fields pproc_fields file_fields
    flow_fields container_fields pod_fields value_text map_str_attr new_record
no_pod = at (str "sf.pod.id") _ matched refl refl

abbrev entities : EcsRecord
entities = without_pod sfgo gjson names lib sum config matched

abbrev with_process : EcsRecord
with_process = encode_process_event sfgo gjson names lib matched entities

abbrev or_entities : Option EcsRecord → EcsRecord
or_entities none = entities
or_entities (some ecs) = ecs

abbrev document : EcsRecord
document = or_entities (with_policies sfgo gjson names lib sum matched with_process)

kind : with_kind sfgo gjson names lib sum matched entities ≡ some with_process
unfolding with_kind
kind =
    let nf = ap (λ t. t == str "NF") is_process_event in
    let ff = ap (λ t. t == str "FF") is_process_event in
    let fe = ap (λ t. t == str "FE") is_process_event in
    let pe = ap (λ t. t == str "PE") is_process_event in simp (nf, ff, fe, pe)

encoded : encode sfgo gjson names lib sum config matched ≡ some document
unfolding encode with_policies encode_process_event
encoded =
    let ke = ap (λ t. t == str "KE") is_process_event in
    let policies = λ (ecs : EcsRecord). with_policies sfgo gjson names lib sum matched ecs in
    let kinds = λ (ecs : EcsRecord). with_kind sfgo gjson names lib sum matched ecs >>= policies in
    ap (λ (o : Option EcsRecord). o >>= kinds)
      (with_entities-no_pod sfgo gjson names lib sum config matched ke no_pod)
    ∙ ap (λ (o : Option EcsRecord). o >>= policies) kind

encode-summarize_policy_example :
    Says sfgo gjson names lib sum (summarize_policy matched) document matched
encode-summarize_policy_example =
    encode-summarize_policy sfgo gjson names lib sum config matched document encoded

-- The same names in small letters.
abbrev small_names : TypeNames
small_names = record {
  ty_p_e_str = str "pe";
  ty_f_e_str = str "fe";
  ty_f_f_str = str "ff";
  ty_n_f_str = str "nf";
  ty_k_e_str = str "ke";
}

encode-other_type_example :
    (encode sfgo gjson small_names lib sum config matched ≡ none)
    ↔ (0 < length (get_rules matched.ctx))
encode-other_type_example =
    encode-other_type sfgo gjson small_names lib sum config matched
      (ap (λ t. is_known sfgo gjson small_names lib sum t) is_process_event) no_pod
