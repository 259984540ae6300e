-- ===== src/Encoders/Ecs/Kinds.antt =====
-- core/exporter/encoders/ecs.go: documents, and what each kind of record adds to one. A nil dereference
-- of the code is the absence of a result.
use sf_processor.Prelude.{
  ◌%◌, ◌^◌, Bool, ◌&&◌, ◌||◌, Option, some, ◌>>=◌, List, [], ◌∷◌, ◌++◌, map, ltb, length, get_elem?,
  if◌then◌else◌, list_eq, nat_eq, ◌==◌,
}
use sf_processor.Prelude.Int.{ℤ, pos, ltb_ℤ, int_eq, add64, to_u64}
use sf_processor.Prelude.Text.{Str, str, to_lower}
use sf_processor.Prelude.Decimal.{format_int}
use sf_processor.Engine.Record.{Record, get_int}
use sf_processor.Engine.Mapper.{JsonGet, map_str, map_int, map_int_array, map_svc_array}
use sf_processor.Engine.Fields.{Sfgo}
use sf_processor.Engine.Fields.Mappers.{global_mapper}
use sf_processor.Sfgo.{Service}
use sf_processor.Encoders.Json.Sections.{TypeNames}
use sf_processor.Encoders.Ecs.Document.{
  Json, json_text, json_int, json_texts, json_object, json_array, JsonData, members, objects, set,
  EcsLibrary, has_op,
}
use sf_processor.Encoders.Ecs.Parts.{
  text_at, number_at, time_of, to_ip_str_array, encode_port, encode_event, encode_file, op_flags,
}

pub record EcsRecord : Type 0 where
  pub id : Str
  pub ts : Str
  pub agent_type : Str
  pub agent_version : Str
  pub ecs_version : Str
  -- nil until the kind of the record is known
  pub event : Option JsonData
  pub host : JsonData
  pub container : JsonData
  pub orchestrator : JsonData
  pub pod : JsonData
  pub service : List JsonData
  pub file : JsonData
  pub file_action : JsonData
  pub network : JsonData
  pub source : JsonData
  pub destination : JsonData
  pub process : JsonData
  pub user : JsonData
  pub tags : List Str

abbrev dashed : Str → Str → Str
dashed a b = a ++ (b'-' ∷ b)

abbrev positive : ℤ → Bool
positive n = ltb_ℤ (pos 0) n

module _ (sfgo : Sfgo) (gjson : JsonGet) (names : TypeNames) (lib : EcsLibrary) where
  abbrev text_in : Str → Record → Str
  text_in attr r = text_at sfgo gjson names lib attr r

  abbrev number_in : Str → Record → ℤ
  number_in attr r = number_at sfgo gjson names lib attr r

  abbrev is_op : Record → Str → Bool
  is_op r name = has_op (op_flags sfgo gjson names lib r) (lib.op name)

  abbrev with_event : Record → Str → Str → Str → EcsRecord → EcsRecord
  with_event r category event_type action ecs = record ecs {
    event = some (encode_event sfgo gjson names lib r category event_type action);
  }

  abbrev endpoint : Str → ℤ → ℤ → ℤ → JsonData
  endpoint ip port bytes packets = members (
      (str "ip", json_text ip)
      ∷ (str "port", json_int port)
      ∷ (str "address", json_text ip)
      ∷ (str "bytes", json_int bytes)
      ∷ (str "packets", json_int packets)
      ∷ [])

  unfoldable pub encode_network_flow : Record → EcsRecord → EcsRecord
  unfolding encode_event map_str map_int global_mapper add64 format_int
  encode_network_flow r ecs =
      let rbytes = number_in (str "sf.flow.rbytes") r in
      let rops = number_in (str "sf.flow.rops") r in
      let wbytes = number_in (str "sf.flow.wbytes") r in
      let wops = number_in (str "sf.flow.wops") r in
      let sip = text_in (str "sf.net.sip") r in
      let dip = text_in (str "sf.net.dip") r in
      let sport = number_in (str "sf.net.sport") r in
      let dport = number_in (str "sf.net.dport") r in
      let proto = number_in (str "sf.net.proto") r in
      let cid =
        lib.community_id sip dip (to_u64 sport % 2 ^ 16) (to_u64 dport % 2 ^ 16)
          (to_u64 proto % 2 ^ 8) in
      with_event r (str "network") (str "connection") (str "network-connection-traffic")
        (record ecs {
          network = members (
              (str "bytes", json_int (add64 rbytes wbytes))
              ∷ (str "community_id", json_text cid)
              ∷ (str "iana_number", json_text (format_int proto))
              ∷ (str "protocol", json_text (sfgo.get_proto proto))
              ∷ []);
          source = endpoint sip sport wbytes wops;
          destination = endpoint dip dport rbytes rops;
        })

  unfoldable pub encode_file_flow : Record → EcsRecord → EcsRecord
  unfolding encode_event encode_file map_str map_int global_mapper has_op get_int
  encode_file_flow r ecs =
      let rbytes = number_in (str "sf.flow.rbytes") r in
      let rops = number_in (str "sf.flow.rops") r in
      let wbytes = number_in (str "sf.flow.wbytes") r in
      let wops = number_in (str "sf.flow.wops") r in
      let reads = is_op r (str "OP_READ_RECV") && (positive rbytes || positive rops) in
      let writes = is_op r (str "OP_WRITE_SEND") && (positive wbytes || positive wops) in
      let action = str "file-access" in
      let action_r = if reads then dashed action (str "read") else action in
      let event_type = if writes then str "change" else str "access" in
      let action_w = if writes then dashed action_r (str "write") else action_r in
      let flowing = positive rbytes || (positive rops || (positive wbytes || positive wops)) in
      with_event r (str "file") event_type action_w (record ecs {
        file = encode_file sfgo gjson names lib r;
        file_action =
            if flowing
            then members (
                (str "bytes_read", json_int rbytes)
                ∷ (str "read_ops", json_int rops)
                ∷ (str "bytes_written", json_int wbytes)
                ∷ (str "write_ops", json_int wops)
                ∷ [])
            else ecs.file_action;
      })

  unfoldable pub encode_file_event : Record → EcsRecord → EcsRecord
  unfolding encode_event encode_file map_str global_mapper has_op get_int set
  encode_file_event r ecs =
      let file = encode_file sfgo gjson names lib r in
      let target = json_text (text_in (str "sf.file.newpath") r) in
      let targeted = record ecs { file = set (str "target_path") target file } in
      let plain = record ecs { file = file } in
      if is_op r (str "OP_MKDIR")
      then with_event r (str "directory") (str "creation") (str "directory-create") plain
      else if is_op r (str "OP_RMDIR")
      then with_event r (str "directory") (str "deletion") (str "directory-delete") plain
      else if is_op r (str "OP_UNLINK")
      then with_event r (str "file") (str "deletion") (str "file-delete") plain
      else if is_op r (str "OP_SYMLINK") || is_op r (str "OP_LINK")
      then with_event r (str "file") (str "change") (str "file-link") targeted
      else if is_op r (str "OP_RENAME")
      then with_event r (str "file") (str "change") (str "file-rename") targeted
      else with_event r (str "file") (str "change") (str "file-change") plain

  unfoldable pub process_event_type : Record → Str
  unfolding map_int global_mapper has_op get_int
  process_event_type r =
      let same = number_in (str "sf.proc.pid") r == number_in (str "sf.proc.tid") r in
      if is_op r (str "OP_EXIT")
      then (if same then str "exit" else str "thread-exit")
      else if is_op r (str "OP_CLONE") || is_op r (str "OP_EXEC")
      then (if same then str "start" else str "thread-start")
      else if is_op r (str "OP_SETUID")
      then str "change"
      else str "start"

  unfoldable pub encode_process_event : Record → EcsRecord → EcsRecord
  unfolding encode_event process_event_type
  encode_process_event r ecs =
      let event_type = process_event_type r in
      with_event r (str "process") event_type (dashed (str "process") event_type) ecs

  -- The arrays are indexed by the number of the source, and not by its place.
  unfoldable pub k8s_action_to_event_type : Record → Option Str
  k8s_action_to_event_type r = do
    (_, columns) ← get_elem? r.fr.sources sfgo.sysflow_src
    let n = columns.ints (sfgo.attribute (str "K8SE_ACTION_INT"))
    some (
        if n == lib.k8s_action_number (str "ADDED")
        then str "creation"
        else if n == lib.k8s_action_number (str "DELETED")
        then str "deletion"
        else if n == lib.k8s_action_number (str "MODIFIED")
        then str "change"
        else if n == lib.k8s_action_number (str "ERROR")
        then str "error"
        else str "info")

  abbrev orchestrator_of : Str → Str → Str → JsonData
  orchestrator_of namespace kind name = members (
      (str "namespace", json_text namespace)
      ∷ (
        str "resource",
        json_object (members ((str "type", json_text kind) ∷ (str "name", json_text name) ∷ [])),
      )
      ∷ (str "type", json_text (str "kubernetes"))
      ∷ [])

  unfoldable pub encode_k8s_event : Record → EcsRecord → Option EcsRecord
  unfolding encode_event map_str global_mapper set to_lower k8s_action_to_event_type
  encode_k8s_event r ecs = do
    event_type ← k8s_action_to_event_type r
    let msg = text_in (str "sf.ke.message") r
    let event =
        encode_event sfgo gjson names lib r (str "orchestration") event_type
          (text_in (str "sf.ke.action") r)
    some (record ecs {
      event = some (set (str "original") (json_text msg) event);
      orchestrator =
          orchestrator_of (gjson msg (str "items.0.namespace")) (to_lower (gjson msg (str "kind")))
            (gjson msg (str "items.0.name"));
    })

  unfoldable pub encode_orchestrator : Record → EcsRecord → EcsRecord
  unfolding map_str global_mapper
  encode_orchestrator r ecs = record ecs {
    orchestrator =
        orchestrator_of (text_in (str "sf.pod.namespace") r) (str "pod")
          (text_in (str "sf.pod.name") r);
  }

  abbrev addresses : List ℤ → Json
  addresses ips = json_texts (to_ip_str_array sfgo gjson names lib ips)

  unfoldable pub encode_service : Service → JsonData
  unfolding to_ip_str_array encode_port
  encode_service svc = members (
      (str "id", json_text svc.id)
      ∷ (str "name", json_text svc.name)
      ∷ (str "namespace", json_text svc.namespace)
      ∷ (str "clusterip", addresses svc.cluster_ip)
      ∷ (str "ports", json_array (objects (map encode_port svc.port_list)))
      ∷ [])

  -- The services stay as they are if there is none.
  unfoldable pub encode_pod : Record → EcsRecord → Option EcsRecord
  unfolding to_ip_str_array encode_service map_str map_int map_int_array map_svc_array global_mapper
  encode_pod r ecs = do
    host ← map_int_array (global_mapper sfgo) (str "sf.pod.hostip+") r
    internal ← map_int_array (global_mapper sfgo) (str "sf.pod.internalip+") r
    services ← map_svc_array (global_mapper sfgo) (str "sf.pod.services+") r
    some (record ecs {
      pod = members (
          (str "ts", time_of sfgo gjson names lib (str "sf.pod.ts") r)
          ∷ (str "id", json_text (text_in (str "sf.pod.id") r))
          ∷ (str "name", json_text (text_in (str "sf.pod.name") r))
          ∷ (str "nodename", json_text (text_in (str "sf.pod.nodename") r))
          ∷ (str "namespace", json_text (text_in (str "sf.pod.namespace") r))
          ∷ (str "hostip", addresses host)
          ∷ (str "internalip", addresses internal)
          ∷ (str "restartcnt", json_int (number_in (str "sf.pod.restartcnt") r))
          ∷ []);
      service = if ltb 0 (length services) then map encode_service services else ecs.service;
    })
