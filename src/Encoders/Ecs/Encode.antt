-- ===== src/Encoders/Ecs/Encode.antt =====
-- core/exporter/encoders/ecs.go: the document of a record.
use sf_processor.Prelude.{
  ℕ, zero, suc, ◌/◌, ◌%◌, ◌^◌, ◌||◌, Option, none, some, ◌>>=◌, List, [], ◌∷◌, ◌++◌, map, flatten,
  ltb, length, if◌then◌else◌, list_eq, nat_eq, ◌==◌,
}
use sf_processor.Prelude.Int.{pos}
use sf_processor.Prelude.Text.{Str, str}
use sf_processor.Engine.Record.{Record, RuleHead, EnrichmentTag, tag_list, tag_text, get_int}
use sf_processor.Engine.Context.{get_rules, get_tags}
use sf_processor.Engine.Mapper.{JsonGet, map_str, map_int}
use sf_processor.Engine.Fields.{Sfgo}
use sf_processor.Engine.Fields.Mappers.{global_mapper}
use sf_processor.Flattener.Entities.{get_oid_str}
use sf_processor.Flattener.Output.{put_int64}
use sf_processor.Encoders.Json.Sections.{TypeNames}
use sf_processor.Encoders.Occurrence.Event.{Severity, of_priority, max}
use sf_processor.Encoders.Ecs.Document.{JsonData, no_member, json_text, json_int, set, EcsLibrary}
use sf_processor.Encoders.Ecs.Parts.{
  text_at, number_at, encode_container, encode_host, encode_user, encode_process,
}
use sf_processor.Encoders.Ecs.Kinds.{
  EcsRecord, encode_network_flow, encode_file_flow, encode_file_event, encode_process_event,
  encode_k8s_event, encode_orchestrator, encode_pod,
}

-- The configuration that the encoder reads.
pub record EcsConfig : Type 0 where
  pub version : Str
  pub ecs_version : Str

abbrev tags_in : EnrichmentTag → List Str
tags_in (tag_list tags) = tags
tags_in (tag_text tag) = tag ∷ []

unfoldable pub extrac_tags : List EnrichmentTag → List Str
extrac_tags tags = flatten (map tags_in tags)

-- The loop over the rules: their names, the tags and the highest priority.
unfoldable pub add_policies :
    List RuleHead → List Str × List Str × Severity → List Str × List Str × Severity
unfolding extrac_tags max
add_policies [] acc = acc
add_policies (r ∷ rules) (reasons, tags, priority) =
    add_policies rules
      (reasons ++ r.name ∷ [], tags ++ extrac_tags r.tags, max priority (of_priority r.priority))

-- strings.Join(s, ", ")
abbrev pub joined : List Str → Str
joined [] = []
joined (s ∷ []) = s
joined (s ∷ t ∷ rest) = s ++ (str ", " ++ joined (t ∷ rest))

-- The bytes of a 64-bit sum, the highest first.
unfoldable pub big_endian : ℕ → ℕ → Str → Str
big_endian zero n bytes = bytes
big_endian (suc k) n bytes = big_endian k (n / 2 ^ 8) (n % 2 ^ 8 ∷ bytes)

module _ (sfgo : Sfgo) (gjson : JsonGet) (names : TypeNames) (lib : EcsLibrary)
    (sum64 : Str → ℕ) where
  abbrev text_in : Str → Record → Str
  text_in attr r = text_at sfgo gjson names lib attr r

  abbrev bytes_of : Str → Record → Str
  bytes_of name r = put_int64 (get_int r (sfgo.attribute name) sfgo.sysflow_src)

  -- What encodeID writes into the hash.
  unfoldable pub id_bytes : Record → Str
  unfolding put_int64 get_int map_str global_mapper
  id_bytes r =
      let t = text_in (str "sf.type") r in
      text_in (str "sf.node.id") r
      ++ (text_in (str "sf.container.id") r
          ++ (put_int64 (get_int r sfgo.ts_int sfgo.sysflow_src)
              ++ (bytes_of (str "TID_INT") r
                  ++ (bytes_of (str "PROC_OID_CREATETS_INT") r
                      ++ (put_int64 (get_int r sfgo.ev_proc_opflags_int sfgo.sysflow_src)
                          ++ (if t == names.ty_f_f_str || t == names.ty_f_e_str
                              then text_in (str "sf.file.oid") r
                              else if t == names.ty_n_f_str
                              then bytes_of (str "FL_NETW_SIP_INT") r
                                ++ (bytes_of (str "FL_NETW_SPORT_INT") r
                                    ++ (bytes_of (str "FL_NETW_DIP_INT") r
                                        ++ (bytes_of (str "FL_NETW_DPORT_INT") r
                                            ++ bytes_of (str "FL_NETW_PROTO_INT") r)))
                              else if t == names.ty_k_e_str
                              then bytes_of (str "K8SE_ACTION_INT") r
                                ++ (bytes_of (str "K8SE_KIND_INT") r
                                    ++ text_in (str "sf.ke.message") r)
                              else []))))))

  unfoldable pub encode_id : Record → Str
  unfolding get_oid_str big_endian id_bytes
  encode_id r = get_oid_str (big_endian 8 (sum64 (id_bytes r)) [])

  unfoldable pub new_ecs_record : EcsConfig → Record → EcsRecord
  unfolding encode_id encode_host map_int global_mapper
  new_ecs_record config r = record {
    id = encode_id r;
    ts = lib.to_iso_time_str (number_at sfgo gjson names lib (str "sf.ts") r);
    agent_type = str "SysFlow";
    agent_version = config.version;
    ecs_version = config.ecs_version;
    event = none;
    host = encode_host sfgo gjson names lib r;
    container = no_member;
    orchestrator = no_member;
    pod = no_member;
    service = [];
    file = no_member;
    file_action = no_member;
    network = no_member;
    source = no_member;
    destination = no_member;
    process = no_member;
    user = no_member;
    tags = [];
  }

  -- The entities of the record.
  unfoldable pub with_entities : Record → EcsRecord → Option EcsRecord
  unfolding encode_container encode_orchestrator encode_pod encode_process encode_user map_str
      global_mapper
  with_entities r ecs =
      let contained = record ecs { container = encode_container sfgo gjson names lib r } in
      let orchestrated = encode_orchestrator sfgo gjson names lib r contained in
      let in_pod =
        if text_in (str "sf.pod.id") r == []
        then some contained
        else encode_pod sfgo gjson names lib r orchestrated in
      if text_in (str "sf.type") r == names.ty_k_e_str
      then some (encode_orchestrator sfgo gjson names lib r ecs)
      else (do
        e ← in_pod
        some (record e {
          process = encode_process sfgo gjson names lib r;
          user = encode_user sfgo gjson names lib r;
        }))

  -- The switch over the type of the record.
  unfoldable pub with_kind : Record → EcsRecord → Option EcsRecord
  unfolding encode_network_flow encode_file_flow encode_file_event encode_process_event
      encode_k8s_event map_str global_mapper
  with_kind r ecs =
      let t = text_in (str "sf.type") r in
      if t == names.ty_n_f_str
      then some (encode_network_flow sfgo gjson names lib r ecs)
      else if t == names.ty_f_f_str
      then some (encode_file_flow sfgo gjson names lib r ecs)
      else if t == names.ty_f_e_str
      then some (encode_file_event sfgo gjson names lib r ecs)
      else if t == names.ty_p_e_str
      then some (encode_process_event sfgo gjson names lib r ecs)
      else if t == names.ty_k_e_str
      then encode_k8s_event sfgo gjson names lib r ecs
      else some ecs

  -- An assignment to the nil map of an event fails.
  unfoldable pub with_policies : Record → EcsRecord → Option EcsRecord
  unfolding add_policies set get_rules get_tags
  with_policies r ecs =
      let rules = get_rules r.ctx in
      let (reasons, tags, priority) = add_policies rules ([], get_tags r.ctx, 0) in
      let tagged = if ltb 0 (length tags) then record ecs { tags = tags } else ecs in
      let event_with = λ (event : JsonData).
        set (str "severity") (json_int (pos priority))
          (set (str "reason") (json_text (joined reasons)) event) in
      if ltb 0 (length rules)
      then (do event ← ecs.event; some (record tagged { event = some (event_with event) }))
      else some tagged

  unfoldable pub encode : EcsConfig → Record → Option EcsRecord
  unfolding new_ecs_record with_entities with_kind with_policies
  encode config r = do
    entities ← with_entities r (new_ecs_record config r)
    ecs ← with_kind r entities
    with_policies r ecs

  -- Encode: the batch of the records, in their order.
  unfoldable pub encode_all : EcsConfig → List Record → Option (List EcsRecord)
  unfolding encode
  encode_all config [] = some []
  encode_all config (r ∷ rs) = do
    ecs ← encode config r
    batch ← encode_all config rs
    some (ecs ∷ batch)
