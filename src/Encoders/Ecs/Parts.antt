-- ===== src/Encoders/Ecs/Parts.antt =====
-- core/exporter/encoders/ecs.go: the parts of a document that many records share.
use sf_processor.Prelude.{not, ◌||◌, List, [], ◌∷◌, ◌++◌, map, if◌then◌else◌, list_eq, nat_eq, ◌==◌}
use sf_processor.Prelude.Int.{ℤ, pos, int_eq}
use sf_processor.Prelude.Text.{Str, str}
use sf_processor.Prelude.Decimal.{format_int}
use sf_processor.Prelude.Paths.{base, dir}
use sf_processor.Engine.Record.{Record, get_int}
use sf_processor.Engine.Context.{is_alert}
use sf_processor.Engine.Mapper.{JsonGet, map_str, map_int}
use sf_processor.Engine.Fields.{Sfgo, int32_of}
use sf_processor.Engine.Fields.Mappers.{global_mapper}
use sf_processor.Sfgo.{Port}
use sf_processor.Encoders.Json.Sections.{TypeNames}
use sf_processor.Encoders.Occurrence.Event.{str_at, int_at}
use sf_processor.Encoders.Ecs.Document.{
  Json, json_text, json_int, json_bool, json_object, JsonData, members, no_member, set, EcsLibrary,
  has_op, sub64,
}

-- m[k] = v unless the text is empty
abbrev set_unless_empty : Str → Str → JsonData → JsonData
set_unless_empty k v d = if v == [] then d else set k (json_text v) d

unfoldable pub encode_port : Port → JsonData
encode_port p = members (
    (str "port", json_int p.port)
    ∷ (str "targetport", json_int p.target_port)
    ∷ (str "nodeport", json_int p.node_port)
    ∷ (str "proto", json_text p.proto)
    ∷ [])

unfoldable pub encode_file_type : Str → Str
encode_file_type ft =
    if ft == str "f"
    then str "file"
    else if ft == str "d"
    then str "dir"
    else if ft == str "u"
    then str "socket"
    else if ft == str "p"
    then str "pipe"
    else str "unknown"

module _ (sfgo : Sfgo) (gjson : JsonGet) (names : TypeNames) (lib : EcsLibrary) where
  abbrev pub text_at : Str → Record → Str
  text_at attr r = str_at sfgo gjson attr r

  abbrev pub number_at : Str → Record → ℤ
  number_at attr r = int_at sfgo gjson attr r

  abbrev pub text_of : Str → Record → Json
  text_of attr r = json_text (text_at attr r)

  abbrev pub number_of : Str → Record → Json
  number_of attr r = json_int (number_at attr r)

  abbrev pub time_of : Str → Record → Json
  time_of attr r = json_text (lib.to_iso_time_str (number_at attr r))

  -- utils.ToIPStrArray
  unfoldable pub to_ip_str_array : List ℤ → List Str
  unfolding int32_of
  to_ip_str_array ips = map (λ ip. sfgo.get_ip_str (int32_of ip)) ips

  unfoldable pub encode_container : Record → JsonData
  unfolding set map_str map_int global_mapper
  encode_container r =
      let cid = text_at (str "sf.container.id") r in
      let imageid = text_at (str "sf.container.imageid") r in
      let container = members (
        (str "id", json_text cid)
        ∷ (str "runtime", text_of (str "sf.container.type") r)
        ∷ (
          str "sf_privileged",
          json_bool (not (number_at (str "sf.container.privileged") r == pos 0)),
        )
        ∷ (str "name", text_of (str "sf.container.name") r)
        ∷ []) in
      let image =
        members (
          (str "id", json_text imageid)
          ∷ (str "name", text_of (str "sf.container.image") r)
          ∷ []) in
      if cid == []
      then no_member
      else if imageid == []
      then container
      else set (str "image") (json_object image) container

  unfoldable pub encode_host : Record → JsonData
  unfolding map_str global_mapper
  encode_host r =
      members
        ((str "id", text_of (str "sf.node.id") r) ∷ (str "ip", text_of (str "sf.node.ip") r) ∷ [])

  unfoldable pub encode_user : Record → JsonData
  unfolding set map_str map_int global_mapper
  encode_user r =
      let group =
        set_unless_empty (str "name") (text_at (str "sf.proc.group") r)
          (members ((str "id", number_of (str "sf.proc.gid") r) ∷ [])) in
      set_unless_empty (str "name") (text_at (str "sf.proc.user") r) (
        members
          ((str "group", json_object group) ∷ (str "id", number_of (str "sf.proc.uid") r) ∷ []))

  unfoldable pub encode_process : Record → JsonData
  unfolding set map_str map_int global_mapper base
  encode_process r =
      let exe = text_at (str "sf.proc.exe") r in
      let pexe = text_at (str "sf.pproc.exe") r in
      let process = members (
        (str "executable", json_text exe)
        ∷ (str "args", text_of (str "sf.proc.args") r)
        ∷ (str "command_line", text_of (str "sf.proc.cmdline") r)
        ∷ (str "pid", number_of (str "sf.proc.pid") r)
        ∷ (str "start", time_of (str "sf.proc.createts") r)
        ∷ (str "name", json_text (base exe))
        ∷ (str "thread", json_object (members ((str "id", number_of (str "sf.proc.tid") r) ∷ [])))
        ∷ []) in
      let parent = members (
        (str "executable", json_text pexe)
        ∷ (str "args", text_of (str "sf.pproc.args") r)
        ∷ (str "command_line", text_of (str "sf.pproc.cmdline") r)
        ∷ (str "pid", number_of (str "sf.pproc.pid") r)
        ∷ (str "start", time_of (str "sf.pproc.createts") r)
        ∷ (str "name", json_text (base pexe))
        ∷ []) in
      set (str "parent") (json_object parent) process

  unfoldable pub encode_event : Record → Str → Str → Str → JsonData
  unfolding set map_str map_int global_mapper sub64 is_alert
  encode_event r category event_type action =
      let start = number_at (str "sf.ts") r in
      let endts = number_at (str "sf.endts") r in
      let end = if endts == pos 0 then start else endts in
      let sf_type = text_at (str "sf.type") r in
      let event = members (
        (str "category", json_text category)
        ∷ (str "type", json_text event_type)
        ∷ (str "action", json_text action)
        ∷ (str "sf_type", json_text sf_type)
        ∷ (str "start", json_text (lib.to_iso_time_str start))
        ∷ (str "end", json_text (lib.to_iso_time_str end))
        ∷ (str "duration", json_int (sub64 end start))
        ∷ []) in
      let kind = if is_alert r.ctx then str "alert" else str "event" in
      let marked = set (str "kind") (json_text kind) event in
      if sf_type == names.ty_p_e_str || sf_type == names.ty_f_e_str
      then set (str "sf_ret") (number_of (str "sf.ret") r) marked
      else marked

  -- /proc/%d/fd/%d
  abbrev fd_path : ℤ → ℤ → Str
  fd_path pid fd = str "/proc/" ++ (format_int pid ++ (str "/fd/" ++ format_int fd))

  abbrev pub op_flags : Record → ℤ
  op_flags r = get_int r sfgo.ev_proc_opflags_int sfgo.sysflow_src

  unfoldable pub encode_file : Record → JsonData
  unfolding set map_str map_int global_mapper encode_file_type has_op get_int base dir format_int
  encode_file r =
      let fpath = text_at (str "sf.file.path") r in
      let fd = number_at (str "sf.file.fd") r in
      let pid = number_at (str "sf.proc.pid") r in
      let file_type =
        if has_op (op_flags r) (lib.op (str "OP_SYMLINK"))
        then str "symlink"
        else encode_file_type (text_at (str "sf.file.type") r) in
      let name = if fpath == [] then format_int fd else base fpath in
      let path = if fpath == [] then fd_path pid fd else fpath in
      let file = members ((str "type", json_text file_type) ∷ []) in
      if file_type == str "dir"
      then set (str "directory") (json_text path) file
      else (let placed =
            set (str "directory") (json_text (dir path)) (set (str "name") (json_text name) file) in
          if path == name then placed else set (str "path") (json_text path) placed)
