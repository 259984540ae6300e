-- ===== src/Tests/Samples.antt =====
-- A mapper with two fields, a few records, and a policy with a list, a macro and a rule.
use sf_processor.Prelude.{ℕ, ◌%◌, none, some, [], ◌∷◌, true, false, nat_eq, list_eq}
use sf_processor.Prelude.Text.{Str, str}
use sf_processor.Prelude.Int.{pos, pos_part}
use sf_processor.Sfgo.{Oid, Process, created_state}
use sf_processor.Engine.Record.{
  FlatRecord, Record, RuleHead, HashSet, new_record, get_str, text, low,
}
use sf_processor.Engine.Mapper.{FieldMapper, JsonGet}
use sf_processor.Engine.Fields.{Sfgo}
use sf_processor.Policy.Syntax.{Expression, last_or, last_and, in_term, atom, variable, not_term}
use sf_processor.Policy.Lists.{ListTable}
use sf_processor.Policy.Visit.{Tables}

-- Every path gives the text itself.
abbrev pub gjson : JsonGet
gjson = λ json path. json

abbrev pub proc_exe : Str
proc_exe = str "sf.proc.exe"

abbrev pub mapper : FieldMapper
mapper = (proc_exe, λ r. text (get_str r 0 0)) ∷ []

abbrev pub flat : FlatRecord
flat = record {
  sources = (0, record { ints = λ i. pos 0; strs = λ i. str "bash"; anys = λ i. none }) ∷ [];
  ptree = none;
}

abbrev pub sample : Record
sample = new_record flat

abbrev pub shells : Str
shells = str "shells"

abbrev pub shell : Str
shell = str "shell"

abbrev pub lists : ListTable
lists = (shells, str "bash" ∷ str "zsh" ∷ []) ∷ []

abbrev pub shell_body : Expression
shell_body = last_or (last_and (in_term proc_exe (atom shells ∷ [])))

abbrev pub tables : Tables
tables = record { lists = lists; macro_ctxs = (shell, shell_body) ∷ [] }

abbrev pub no_shell : Expression
no_shell = last_or (last_and (not_term (variable shell)))

abbrev pub head : RuleHead
head = record {
  name = str "r";
  desc = [];
  actions = [];
  tags = [];
  priority = low;
  prefilter = [];
  enabled = true;
}

abbrev pub hashes : HashSet
hashes = record { md5 = str "m"; sha1 = str "s"; sha256 = str "t" }

-- A process and its child.
abbrev pub shell_oid : Oid
shell_oid = record { create_ts = pos 10; hpid = pos 1 }

abbrev pub child_oid : Oid
child_oid = record { create_ts = pos 20; hpid = pos 2 }

abbrev pub shell_process : Process
shell_process = record {
  state = created_state;
  oid = shell_oid;
  poid = none;
  exe = str "/bin/bash";
  exe_args = [];
  uid = pos 0;
  user_name = str "root";
  gid = pos 0;
  group_name = str "root";
  tty = true;
  entry = false;
  ts = pos 5;
  container_id = none;
}

abbrev pub child_process : Process
child_process = record shell_process { oid = child_oid; poid = some shell_oid; exe = str "/bin/ls" }

abbrev pub process_rank : Oid → ℕ
process_rank x = pos_part x.hpid % 3

abbrev pub sfgo : Sfgo
sfgo = record {
  sysflow_src = 0;
  attribute = λ name. 0;
  sf_rec_type = 0;
  ev_proc_opflags_int = 1;
  ret_int = 2;
  ts_int = 3;
  fl_file_endts_int = 4;
  fl_netw_endts_int = 5;
  proc_evt = pos 0;
  file_evt = pos 1;
  file_flow = pos 2;
  net_flow = pos 3;
  k8s_evt = pos 4;
  record_type = λ n. str "PE";
  get_op_flags = λ flags rtype. [];
  get_evt_types = λ flags rtype. [];
  get_file_type = λ n. str "f";
  is_open_write = λ n. false;
  is_open_read = λ n. true;
  get_open_flags = λ n. [];
  get_proto = λ n. str "tcp";
  get_ip_str = λ n. str "10.0.0.1";
  get_cont_type = λ n. str "DOCKER";
  k8s_action = λ n. str "ADDED";
  k8s_component = λ n. str "PODS";
  digest = λ text. text;
}
