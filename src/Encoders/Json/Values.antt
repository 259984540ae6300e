-- ===== src/Encoders/Json/Values.antt =====
-- core/exporter/encoders/json.go: the texts of values and attributes. A function that writes to the
-- writer is the text that it appends.
use sf_processor.Prelude.{
  ℕ, suc, ◌-◌, ◌/◌, ◌%◌, ◌^◌, Bool, true, false, Option, none, some, List, [], ◌∷◌, ◌++◌, map,
  flatten, ltb, length, if◌then◌else◌, nat_beq, ◌==◌, ◌||◌,
}
use sf_processor.Prelude.Int.{ℤ, pos, to_u64, int_eq}
use sf_processor.Prelude.Text.{Str, str}
use sf_processor.Prelude.Paths.{base}
use sf_processor.Sfgo.{Process, Oid, Port, Service}
use sf_processor.Engine.Record.{
  Record, Value, text, int64, bool, RecAttribute, pproc_name, pproc_exe, pproc_args, pproc_uid,
  pproc_user, pproc_gid, pproc_group, pproc_tty, pproc_entry, pproc_cmd_line, proc_aexe, proc_aname,
  proc_acmd_line, proc_apid, parent, get_int, get_str, get_int_array, get_svc_array,
}
use sf_processor.Engine.Quotes.{trim_bounding_quotes}
use sf_processor.Engine.Fields.{Sfgo, int32_of}
use sf_processor.Engine.Fields.Entry.{
  FieldEntry, MappingType, map_int_val, map_str_val, map_bool_val, map_array_str, map_array_int,
  map_special_int, map_special_str, map_special_bool, map_array_svc, a_ids, parent_ids,
}
use sf_processor.Encoders.Json.Escape.{string_no_quotes}

-- The writer of package easyjson: the texts of a JSON literal, of numbers and of a flag, and
-- BuildBytes, which fails if the writer has an error.
pub record Writer : Type 0 where
  pub string : Str → Str
  pub int64 : ℤ → Str
  pub int32 : ℤ → Str
  pub bool : Bool → Str
  pub build : Str → Option Str

-- A loop that writes a comma behind each of `l` texts but the last; `idx` counts the texts.
unfoldable pub comma_loop : ℕ → ℕ → List Str → Str
comma_loop l idx [] = []
comma_loop l idx (s ∷ ss) =
    s ++ ((if ltb idx (l - 1) then b',' ∷ [] else []) ++ comma_loop l (suc idx) ss)

abbrev pub quoted : Str → Str
quoted s = b'"' ∷ (s ++ b'"' ∷ [])

abbrev pub in_square : Str → Str
in_square s = b'[' ∷ (s ++ b']' ∷ [])

unfoldable pub map_str_array : List Str → Str
unfolding comma_loop
map_str_array ss = in_square (comma_loop (length ss) 0 (map quoted ss))

module _ (w : Writer) where
  -- `"name":`
  abbrev pub key : Str → Str
  key name = b'"' ∷ (name ++ str "\":")

  -- The bytes of the low 32 bits of an address, the lowest first.
  unfoldable pub map_ip_str : ℤ → Str
  map_ip_str ip =
      let n = to_u64 ip in
      w.int64 (pos (n % 256))
      ++ (b'.'
          ∷ (w.int64 (pos ((n / 2 ^ 8) % 256))
              ++ (b'.'
                  ∷ (w.int64 (pos ((n / 2 ^ 16) % 256))
                      ++ (b'.' ∷ w.int64 (pos ((n / 2 ^ 24) % 256)))))))

  -- The addresses stand one behind the other, with nothing between them.
  unfoldable pub map_ip_array : List ℤ → Str
  unfolding map_ip_str
  map_ip_array ips = in_square (flatten (map (λ ip. quoted (map_ip_str ip)) ips))

  unfoldable pub write_str_field : Str → Str → Str
  write_str_field name val = key name ++ w.string val

  unfoldable pub write_int_field : Str → ℤ → Str
  write_int_field name val = key name ++ w.int32 val

  unfoldable pub write_int_array_field : Str → List ℤ → Str
  unfolding map_ip_array
  write_int_array_field name val = key name ++ map_ip_array val

  abbrev port_fields : Port → Str
  port_fields p =
      b'{'
      ∷ (write_int_field (str "port") p.port
          ++ (b','
              ∷ (write_int_field (str "targetport") p.target_port
                  ++ (b','
                      ∷ (write_int_field (str "nodeport") p.node_port
                          ++ (b',' ∷ write_str_field (str "proto") p.proto))))))

  -- The loop over `n` ports, of which `i` were written.
  unfoldable pub ports_loop : ℕ → ℕ → List Port → Str
  unfolding write_str_field write_int_field
  ports_loop n i [] = []
  ports_loop n i (p ∷ ps) =
      port_fields p ++ ((if ltb (suc i) n then str "}," else str "}") ++ ports_loop n (suc i) ps)

  unfoldable pub map_port_list : List Port → Str
  unfolding ports_loop
  map_port_list ports = key (str "ports") ++ in_square (ports_loop (length ports) 0 ports)

  abbrev pub service_text : Service → Str
  service_text s =
      b'{'
      ∷ (write_str_field (str "id") s.id
          ++ (b','
              ∷ (write_str_field (str "name") s.name
                  ++ (b','
                      ∷ (write_str_field (str "namespace") s.namespace
                          ++ (b','
                              ∷ (write_int_array_field (str "clusterIP") s.cluster_ip
                                  ++ (b',' ∷ (map_port_list s.port_list ++ b'}' ∷ [])))))))))

  -- The services stand one behind the other too. A nil pointer panics; here it has no services.
  unfoldable pub map_svc_array : Option (List Service) → Str
  unfolding write_str_field write_int_array_field map_port_list
  map_svc_array none = in_square []
  map_svc_array (some svcs) = in_square (flatten (map service_text svcs))

  -- filepath.Base and the trimmed texts of a process
  abbrev name_of : Process → Str
  name_of p = w.string (trim_bounding_quotes (base p.exe))

  -- The command line, escaped between quotes; the writer escapes HTML.
  unfoldable pub cmd_line_text : Process → Str
  unfolding trim_bounding_quotes string_no_quotes
  cmd_line_text p =
      let exe_args = trim_bounding_quotes p.exe_args in
      quoted (
        string_no_quotes true (trim_bounding_quotes p.exe)
        ++ (if ltb 0 (length exe_args) then b' ' ∷ string_no_quotes true exe_args else []))

  abbrev pub array_of : (Process → Str) → List Process → Str
  array_of f ptree = in_square (comma_loop (length ptree) 0 (map f ptree))

  abbrev or_else : Str → (Process → Str) → List Process → Str
  or_else zero f ptree = elim (parent ptree) [ none ↦ zero | some p ↦ f p ]

  -- EMPTY_STRING is two quotes, which the writer then escapes and quotes itself.
  abbrev empty_string : Str
  empty_string = w.string (str "\"\"")

  -- The switch, given the tree.
  unfoldable pub tree_text : RecAttribute → List Process → Str
  unfolding trim_bounding_quotes base cmd_line_text comma_loop
  tree_text pproc_name t = or_else empty_string name_of t
  tree_text pproc_exe t = or_else empty_string (λ p. w.string (trim_bounding_quotes p.exe)) t
  tree_text pproc_args t = or_else empty_string (λ p. w.string (trim_bounding_quotes p.exe_args)) t
  tree_text pproc_uid t = or_else (w.int64 (pos 0)) (λ p. w.int64 p.uid) t
  tree_text pproc_user t = or_else empty_string (λ p. w.string (trim_bounding_quotes p.user_name)) t
  tree_text pproc_gid t = or_else (w.int64 (pos 0)) (λ p. w.int64 p.gid) t
  tree_text pproc_group t =
      or_else empty_string (λ p. w.string (trim_bounding_quotes p.group_name)) t
  tree_text pproc_tty t = or_else (w.bool false) (λ p. w.bool p.tty) t
  tree_text pproc_entry t = or_else (w.bool false) (λ p. w.bool p.entry) t
  tree_text pproc_cmd_line t = or_else empty_string cmd_line_text t
  tree_text proc_aname t = array_of name_of t
  tree_text proc_aexe t = array_of (λ p. w.string (trim_bounding_quotes p.exe)) t
  tree_text proc_acmd_line t = array_of cmd_line_text t
  tree_text proc_apid t = array_of (λ p. w.int64 (Oid.hpid (Process.oid p))) t

  -- With no tree nothing is written.
  unfoldable pub set_cached_value_to_json : Record → RecAttribute → Str
  unfolding tree_text
  set_cached_value_to_json r attr = elim r.fr.ptree [ none ↦ [] | some t ↦ tree_text attr t ]

  -- The assertions on the type of a mapped value; one that fails panics.
  abbrev as_text : Value → Str
  as_text (text v) = v
  as_text _ = []

  abbrev as_int : Value → ℤ
  as_int (int64 v) = v
  as_int _ = pos 0

  abbrev as_bool : Value → Bool
  as_bool (bool v) = v
  as_bool _ = false

  module _ (sfgo : Sfgo) where
    unfoldable pub map_op_flags : FieldEntry → Record → Str
    unfolding get_int int32_of map_str_array
    map_op_flags e r = map_str_array (
        sfgo.get_op_flags (int32_of (get_int r e.flat_index e.source))
          (get_int r sfgo.sf_rec_type e.source))

    unfoldable pub map_ips : FieldEntry → Record → Str
    unfolding get_int map_ip_str
    map_ips e r =
        let src_ip = get_int r (sfgo.attribute (str "FL_NETW_SIP_INT")) e.source in
        let dst_ip = get_int r (sfgo.attribute (str "FL_NETW_DIP_INT")) e.source in
        in_square (quoted (map_ip_str src_ip) ++ (b',' ∷ quoted (map_ip_str dst_ip)))

    unfoldable pub map_open_flags : FieldEntry → Record → Str
    unfolding get_int map_str_array
    map_open_flags e r = map_str_array (sfgo.get_open_flags (get_int r e.flat_index e.source))

    unfoldable pub map_ports : FieldEntry → Record → Str
    unfolding get_int
    map_ports e r =
        let src_port = get_int r (sfgo.attribute (str "FL_NETW_SPORT_INT")) e.source in
        let dst_port = get_int r (sfgo.attribute (str "FL_NETW_DPORT_INT")) e.source in
        in_square (w.int64 src_port ++ (b',' ∷ w.int64 dst_port))

    -- A nil pointer panics; here it has no addresses.
    abbrev ips_text : Option (List ℤ) → Str
    ips_text none = in_square []
    ips_text (some ips) = map_ip_array ips

    -- The inner switch, on the attributes of the telemetry that hold a list.
    unfoldable pub array_text : FieldEntry → Record → Str
    unfolding map_op_flags map_ips map_open_flags map_ports map_ip_array get_int get_int_array
    array_text e r =
        let whole = in_square (w.string (as_text (e.mapping r))) in
        if nat_beq e.source sfgo.sysflow_src
        then (if nat_beq e.flat_index sfgo.ev_proc_opflags_int
            then map_op_flags e r
            else if nat_beq e.flat_index (sfgo.attribute (str "FL_FILE_OPENFLAGS_INT"))
            then (if get_int r sfgo.sf_rec_type e.source == sfgo.net_flow
                then map_ips e r
                else map_open_flags e r)
            else if nat_beq e.flat_index (sfgo.attribute (str "FL_NETW_SPORT_INT"))
            then map_ports e r
            else if nat_beq e.flat_index (sfgo.attribute (str "POD_HOSTIP_ANY"))
                || nat_beq e.flat_index (sfgo.attribute (str "POD_INTERNALIP_ANY"))
            then ips_text (get_int_array r e.flat_index e.source)
            else whole)
        else whole

    -- The switch on the type of the entry.
    unfoldable pub typed_text : MappingType → FieldEntry → Record → Str
    unfolding get_str get_int trim_bounding_quotes array_text map_svc_array get_svc_array
    typed_text map_str_val e r = w.string (trim_bounding_quotes (get_str r e.flat_index e.source))
    typed_text map_int_val e r = w.int64 (get_int r e.flat_index e.source)
    typed_text map_bool_val e r = w.bool (get_int r e.flat_index e.source == pos 1)
    typed_text map_special_str e r = w.string (trim_bounding_quotes (as_text (e.mapping r)))
    typed_text map_special_int e r = w.int64 (as_int (e.mapping r))
    typed_text map_special_bool e r = w.bool (as_bool (e.mapping r))
    typed_text map_array_str e r = array_text e r
    typed_text map_array_int e r = array_text e r
    typed_text map_array_svc e r = map_svc_array (get_svc_array r e.flat_index e.source)

    -- MapJSON
    unfoldable pub map_json : FieldEntry → Record → Str
    unfolding set_cached_value_to_json typed_text
    map_json e r =
        if nat_beq e.flat_index a_ids || nat_beq e.flat_index parent_ids
        then set_cached_value_to_json r e.aux_attr
        else typed_text e.mapping_type e r
