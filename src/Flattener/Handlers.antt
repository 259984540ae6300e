-- ===== src/Flattener/Handlers.antt =====
-- core/flattener/flattener.go: the handlers of events, each as the flat record that it makes.
use sf_processor.Prelude.{Option, none, some, List, [], ◌∷◌, ◌++◌}
use sf_processor.Prelude.Int.{pos}
use sf_processor.Prelude.Text.{Str, str}
use sf_processor.Engine.Record.{FlatRecord}
use sf_processor.Engine.Fields.{Sfgo}
use sf_processor.Reader.{Ctx, trim_space}
use sf_processor.Sfgo.{
  SfHeader, File, Service, ProcessEvent, NetworkFlow, FileFlow, FileEvent, K8sEvent,
}
use sf_processor.Flattener.Writes.{Write, set_int, set_str, filled}
use sf_processor.Flattener.Entities.{state_int, or_empty, get_oid_str, fill_header, fill_entities}

unfoldable pub fill_new_file : Option File → List Write
unfolding trim_space get_oid_str
fill_new_file none =
    set_int (str "SEC_FILE_STATE_INT") (pos 0)
    ∷ set_int (str "SEC_FILE_TS_INT") (pos 0)
    ∷ set_int (str "SEC_FILE_RESTYPE_INT") (pos 0)
    ∷ set_str (str "SEC_FILE_PATH_STR") []
    ∷ set_str (str "SEC_FILE_CONTAINERID_STRING_STR") []
    ∷ set_str (str "SEC_FILE_OID_STR") []
    ∷ []
fill_new_file (some f) =
    set_int (str "SEC_FILE_STATE_INT") (state_int f.state)
    ∷ set_int (str "SEC_FILE_TS_INT") f.ts
    ∷ set_int (str "SEC_FILE_RESTYPE_INT") f.restype
    ∷ set_str (str "SEC_FILE_OID_STR") (get_oid_str f.oid)
    ∷ set_str (str "SEC_FILE_PATH_STR") (trim_space f.path)
    ∷ set_str (str "SEC_FILE_CONTAINERID_STRING_STR") (or_empty f.container_id)
    ∷ []

-- The assignments behind the entities.
abbrev pub net_flow_writes : NetworkFlow → List Write
net_flow_writes nf =
    set_int (str "FL_NETW_TS_INT") nf.ts
    ∷ set_int (str "FL_NETW_TID_INT") nf.tid
    ∷ set_int (str "FL_NETW_OPFLAGS_INT") nf.op_flags
    ∷ set_int (str "FL_NETW_ENDTS_INT") nf.end_ts
    ∷ set_int (str "FL_NETW_SIP_INT") nf.sip
    ∷ set_int (str "FL_NETW_SPORT_INT") nf.sport
    ∷ set_int (str "FL_NETW_DIP_INT") nf.dip
    ∷ set_int (str "FL_NETW_DPORT_INT") nf.dport
    ∷ set_int (str "FL_NETW_PROTO_INT") nf.proto
    ∷ set_int (str "FL_NETW_FD_INT") nf.fd
    ∷ set_int (str "FL_NETW_NUMRRECVOPS_INT") nf.num_r_recv_ops
    ∷ set_int (str "FL_NETW_NUMWSENDOPS_INT") nf.num_w_send_ops
    ∷ set_int (str "FL_NETW_NUMRRECVBYTES_INT") nf.num_r_recv_bytes
    ∷ set_int (str "FL_NETW_NUMWSENDBYTES_INT") nf.num_w_send_bytes
    ∷ []

-- The assignments behind the entities.
abbrev pub file_flow_writes : FileFlow → List Write
file_flow_writes ff =
    set_int (str "FL_FILE_TS_INT") ff.ts
    ∷ set_int (str "FL_FILE_TID_INT") ff.tid
    ∷ set_int (str "FL_FILE_OPFLAGS_INT") ff.op_flags
    ∷ set_int (str "FL_FILE_OPENFLAGS_INT") ff.open_flags
    ∷ set_int (str "FL_FILE_ENDTS_INT") ff.end_ts
    ∷ set_int (str "FL_FILE_FD_INT") ff.fd
    ∷ set_int (str "FL_FILE_NUMRRECVOPS_INT") ff.num_r_recv_ops
    ∷ set_int (str "FL_FILE_NUMWSENDOPS_INT") ff.num_w_send_ops
    ∷ set_int (str "FL_FILE_NUMRRECVBYTES_INT") ff.num_r_recv_bytes
    ∷ set_int (str "FL_FILE_NUMWSENDBYTES_INT") ff.num_w_send_bytes
    ∷ []

-- The assignments behind the entities.
abbrev pub file_evt_writes : FileEvent → List Write
file_evt_writes fe =
    set_int (str "EV_FILE_TS_INT") fe.ts
    ∷ set_int (str "EV_FILE_TID_INT") fe.tid
    ∷ set_int (str "EV_FILE_OPFLAGS_INT") fe.op_flags
    ∷ set_int (str "EV_FILE_RET_INT") fe.ret
    ∷ []

-- The assignments behind the entities.
abbrev pub proc_evt_writes : ProcessEvent → List Write
proc_evt_writes pe =
    set_int (str "EV_PROC_TS_INT") pe.ts
    ∷ set_int (str "EV_PROC_TID_INT") pe.tid
    ∷ set_int (str "EV_PROC_OPFLAGS_INT") pe.op_flags
    ∷ set_int (str "EV_PROC_RET_INT") pe.ret
    ∷ []

module _ {E : Type 0} (sfgo : Sfgo) (get_json_str : List Service → Str) where
  abbrev record_of : List Write → Ctx SfHeader E → FlatRecord
  record_of ws sf = filled sfgo.sysflow_src sfgo.attribute ws sf.ptree

  abbrev entities : Ctx SfHeader E → Option File → List Write
  entities sf file = fill_entities sfgo get_json_str sf.header sf.pod sf.container sf.process file

  unfoldable pub handle_k8s_evt : Ctx SfHeader E → K8sEvent → FlatRecord
  unfolding filled fill_header
  handle_k8s_evt sf ke =
      filled sfgo.sysflow_src sfgo.attribute
        (set_int (str "SF_REC_TYPE") sfgo.k8s_evt
          ∷ (fill_header sf.header
              ++ (set_int (str "TS_INT") ke.ts
                  ∷ set_str (str "K8SE_MESSAGE_STR") ke.message
                  ∷ set_int (str "K8SE_KIND_INT") ke.kind
                  ∷ set_int (str "K8SE_ACTION_INT") ke.action
                  ∷ [])))
        []

  unfoldable pub handle_net_flow : Ctx SfHeader E → NetworkFlow → FlatRecord
  unfolding filled fill_entities
  handle_net_flow sf nf =
      record_of
        (set_int (str "SF_REC_TYPE") sfgo.net_flow ∷ (entities sf none ++ net_flow_writes nf)) sf

  unfoldable pub handle_file_flow : Ctx SfHeader E → FileFlow → FlatRecord
  unfolding filled fill_entities
  handle_file_flow sf ff =
      record_of
        (set_int (str "SF_REC_TYPE") sfgo.file_flow ∷ (entities sf sf.file ++ file_flow_writes ff))
        sf

  unfoldable pub handle_file_evt : Ctx SfHeader E → FileEvent → FlatRecord
  unfolding filled fill_entities fill_new_file
  handle_file_evt sf fe =
      record_of
        (fill_new_file sf.new_file
          ++ (set_int (str "SF_REC_TYPE") sfgo.file_evt
              ∷ (entities sf sf.file ++ file_evt_writes fe)))
        sf

  unfoldable pub handle_proc_evt : Ctx SfHeader E → ProcessEvent → FlatRecord
  unfolding filled fill_entities
  handle_proc_evt sf pe =
      record_of
        (set_int (str "SF_REC_TYPE") sfgo.proc_evt ∷ (entities sf none ++ proc_evt_writes pe)) sf
