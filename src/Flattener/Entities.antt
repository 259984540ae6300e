-- ===== src/Flattener/Entities.antt =====
-- core/flattener/flattener.go: the header and the entities of an event, as assignments.
use sf_processor.Prelude.{
  ℕ, ◌/◌, ◌%◌, Bool, true, false, Option, none, some, List, [], ◌∷◌, ◌++◌, map, flatten,
}
use sf_processor.Prelude.Int.{ℤ, pos}
use sf_processor.Prelude.Text.{Str, str}
use sf_processor.Engine.Record.{ints, services}
use sf_processor.Engine.Fields.{Sfgo, int32_of}
use sf_processor.Encoders.Json.Escape.{hex_digit}
use sf_processor.Reader.{trim_space}
use sf_processor.Sfgo.{
  SfObjectState, created_state, modified_state, reup_state, SfHeader, Container, Pod, Process, Oid,
  File, Service,
}
use sf_processor.Flattener.Writes.{Write, set_int, set_str, set_any}

abbrev pub state_int : SfObjectState → ℤ
state_int created_state = pos 0
state_int modified_state = pos 1
state_int reup_state = pos 2

abbrev pub flag : Bool → ℤ
flag true = pos 1
flag false = pos 0

abbrev pub or_empty : Option Str → Str
or_empty none = []
or_empty (some id) = id

abbrev hex_byte : ℕ → Str
hex_byte c = hex_digit (c / 16) ∷ hex_digit (c % 16) ∷ []

-- hex.EncodeToString(bs)
unfoldable pub get_oid_str : Str → Str
get_oid_str bs = flatten (map hex_byte bs)

unfoldable pub fill_header : Option SfHeader → List Write
fill_header none =
    set_int (str "SFHE_VERSION_INT") (pos 0)
    ∷ set_str (str "SFHE_EXPORTER_STR") []
    ∷ set_str (str "SFHE_IP_STR") []
    ∷ []
fill_header (some hdr) =
    set_int (str "SFHE_VERSION_INT") hdr.version
    ∷ set_str (str "SFHE_EXPORTER_STR") hdr.exporter
    ∷ set_str (str "SFHE_IP_STR") hdr.ip
    ∷ set_str (str "SFHE_FILENAME_STR") hdr.filename
    ∷ []

unfoldable pub fill_container : Option Container → List Write
unfolding trim_space
fill_container none =
    set_str (str "CONT_ID_STR") []
    ∷ set_str (str "CONT_NAME_STR") []
    ∷ set_str (str "CONT_IMAGE_STR") []
    ∷ set_str (str "CONT_IMAGEID_STR") []
    ∷ set_int (str "CONT_TYPE_INT") (pos 0)
    ∷ set_int (str "CONT_PRIVILEGED_INT") (pos 0)
    ∷ []
fill_container (some cont) =
    set_str (str "CONT_ID_STR") cont.id
    ∷ set_str (str "CONT_NAME_STR") (trim_space cont.name)
    ∷ set_str (str "CONT_IMAGE_STR") (trim_space cont.image)
    ∷ set_str (str "CONT_IMAGEID_STR") cont.imageid
    ∷ set_int (str "CONT_TYPE_INT") cont.cont_type
    ∷ set_int (str "CONT_PRIVILEGED_INT") (flag cont.privileged)
    ∷ []

abbrev pub parent_of : Option Oid → List Write
parent_of none =
    set_int (str "PROC_POID_CREATETS_INT") (pos 0) ∷ set_int (str "PROC_POID_HPID_INT") (pos 0) ∷ []
parent_of (some o) =
    set_int (str "PROC_POID_CREATETS_INT") o.create_ts
    ∷ set_int (str "PROC_POID_HPID_INT") o.hpid
    ∷ []

unfoldable pub fill_process : Option Process → List Write
unfolding trim_space
fill_process none =
    set_int (str "PROC_STATE_INT") (pos 0)
    ∷ set_int (str "PROC_OID_CREATETS_INT") (pos 0)
    ∷ set_int (str "PROC_OID_HPID_INT") (pos 0)
    ∷ set_int (str "PROC_POID_CREATETS_INT") (pos 0)
    ∷ set_int (str "PROC_POID_HPID_INT") (pos 0)
    ∷ set_int (str "PROC_TS_INT") (pos 0)
    ∷ set_str (str "PROC_EXE_STR") []
    ∷ set_str (str "PROC_EXEARGS_STR") []
    ∷ set_int (str "PROC_UID_INT") (pos 0)
    ∷ set_str (str "PROC_USERNAME_STR") []
    ∷ set_int (str "PROC_GID_INT") (pos 0)
    ∷ set_str (str "PROC_GROUPNAME_STR") []
    ∷ set_int (str "PROC_TTY_INT") (pos 0)
    ∷ set_int (str "PROC_ENTRY_INT") (pos 0)
    ∷ set_str (str "PROC_CONTAINERID_STRING_STR") []
    ∷ []
fill_process (some proc) =
    (set_int (str "PROC_STATE_INT") (state_int proc.state)
      ∷ set_int (str "PROC_OID_CREATETS_INT") proc.oid.create_ts
      ∷ set_int (str "PROC_OID_HPID_INT") proc.oid.hpid
      ∷ [])
    ++ (parent_of proc.poid
        ++ (set_int (str "PROC_TS_INT") proc.ts
            ∷ set_str (str "PROC_EXE_STR") (trim_space proc.exe)
            ∷ set_str (str "PROC_EXEARGS_STR") (trim_space proc.exe_args)
            ∷ set_int (str "PROC_UID_INT") proc.uid
            ∷ set_str (str "PROC_USERNAME_STR") proc.user_name
            ∷ set_int (str "PROC_GID_INT") proc.gid
            ∷ set_str (str "PROC_GROUPNAME_STR") proc.group_name
            ∷ set_int (str "PROC_TTY_INT") (flag proc.tty)
            ∷ set_int (str "PROC_ENTRY_INT") (flag proc.entry)
            ∷ set_str (str "PROC_CONTAINERID_STRING_STR") (or_empty proc.container_id)
            ∷ []))

unfoldable pub fill_file : Option File → List Write
unfolding trim_space get_oid_str
fill_file none =
    set_int (str "FILE_STATE_INT") (pos 0)
    ∷ set_int (str "FILE_TS_INT") (pos 0)
    ∷ set_int (str "FILE_RESTYPE_INT") (pos 0)
    ∷ set_str (str "FILE_PATH_STR") []
    ∷ set_str (str "FILE_CONTAINERID_STRING_STR") []
    ∷ set_str (str "FILE_OID_STR") []
    ∷ []
fill_file (some file) =
    set_int (str "FILE_STATE_INT") (state_int file.state)
    ∷ set_int (str "FILE_TS_INT") file.ts
    ∷ set_int (str "FILE_RESTYPE_INT") file.restype
    ∷ set_str (str "FILE_OID_STR") (get_oid_str file.oid)
    ∷ set_str (str "FILE_PATH_STR") (trim_space file.path)
    ∷ set_str (str "FILE_CONTAINERID_STRING_STR") (or_empty file.container_id)
    ∷ []

-- `get_json_str` is encoding/json on services, whose tags are those of package sfgo.
module _ (sfgo : Sfgo) (get_json_str : List Service → Str) where
  abbrev quoted_ip : ℤ → Str
  quoted_ip ip = b'"' ∷ (sfgo.get_ip_str (int32_of ip) ++ str "\"")

  -- getIPStr
  unfoldable pub get_ip_str_of : List ℤ → Str
  unfolding int32_of
  get_ip_str_of ips = b'[' ∷ (flatten (map quoted_ip ips) ++ str "]")

  unfoldable pub fill_pod : Option Pod → List Write
  unfolding trim_space get_ip_str_of
  fill_pod none =
      set_int (str "POD_TS_INT") (pos 0)
      ∷ set_str (str "POD_ID_STR") []
      ∷ set_str (str "POD_NAME_STR") []
      ∷ set_str (str "POD_NODENAME_STR") []
      ∷ set_str (str "POD_NAMESPACE_STR") []
      ∷ set_int (str "POD_RESTARTCOUNT_INT") (pos 0)
      ∷ set_str (str "POD_HOSTIP_STR") []
      ∷ set_any (str "POD_HOSTIP_ANY") none
      ∷ set_str (str "POD_INTERNALIP_STR") []
      ∷ set_any (str "POD_INTERNALIP_ANY") none
      ∷ set_str (str "POD_SERVICES_STR") []
      ∷ set_any (str "POD_SERVICES_ANY") none
      ∷ []
  fill_pod (some pod) =
      set_int (str "POD_TS_INT") pod.ts
      ∷ set_str (str "POD_ID_STR") pod.id
      ∷ set_str (str "POD_NAME_STR") (trim_space pod.name)
      ∷ set_str (str "POD_NODENAME_STR") (trim_space pod.node_name)
      ∷ set_str (str "POD_NAMESPACE_STR") (trim_space pod.namespace)
      ∷ set_int (str "POD_RESTARTCOUNT_INT") pod.restart_count
      ∷ set_str (str "POD_HOSTIP_STR") (get_ip_str_of pod.host_ip)
      ∷ set_any (str "POD_HOSTIP_ANY") (some (ints (some pod.host_ip)))
      ∷ set_str (str "POD_INTERNALIP_STR") (get_ip_str_of pod.internal_ip)
      ∷ set_any (str "POD_INTERNALIP_ANY") (some (ints (some pod.internal_ip)))
      ∷ set_str (str "POD_SERVICES_STR") (get_json_str pod.services)
      ∷ set_any (str "POD_SERVICES_ANY") (some (services (some pod.services)))
      ∷ []

  unfoldable pub fill_entities :
      Option SfHeader → Option Pod → Option Container → Option Process → Option File → List Write
  unfolding fill_header fill_container fill_pod fill_process fill_file
  fill_entities hdr pod cont proc file =
      fill_header hdr
      ++ (fill_container cont ++ (fill_pod pod ++ (fill_process proc ++ fill_file file)))
