-- ===== src/Tests/Handlers.antt =====
-- Attributes that are numbered by their place in a list, and an event of a process in a container.
use sf_processor.Prelude.{
  ℕ, suc, ◌≡◌, refl, false, none, some, List, [], ◌∷◌, ◌++◌, map, if◌then◌else◌, list_eq, nat_eq,
  ◌==◌,
}
use sf_processor.Prelude.Int.{pos}
use sf_processor.Prelude.Text.{Str, str}
use sf_processor.Engine.Quotes.{trim_bounding_quotes}
use sf_processor.Engine.Fields.{Sfgo}
use sf_processor.Sfgo.{SfHeader, Container, Service, ProcessEvent, NetworkFlow, FileFlow, FileEvent}
use sf_processor.Reader.{Ctx}
use sf_processor.Flattener.Handlers.{
  handle_proc_evt, handle_net_flow, handle_file_flow, handle_file_evt,
}
use sf_processor.Flattener.Reads.{text_constants}
use sf_processor.Flattener.Ends.{process_texts, container_texts}
use sf_processor.Flattener.Texts.{values_of, attributes, values_of-handlers}
use sf_processor.Tests.Samples.{gjson, sfgo, child_process, shell_process}

abbrev place : List Str → Str → ℕ
place [] n = 0
place (m ∷ ms) n = if m == n then 0 else suc (place ms n)

abbrev numbered : Sfgo
numbered = record sfgo { attribute = place text_constants }

abbrev get_json_str : List Service → Str
get_json_str services = str "[]"

abbrev box : Container
box = record {
  id = str "c1";
  name = str " web ";
  image = str "nginx";
  imageid = str "i1";
  cont_type = pos 0;
  privileged = false;
  pod_id = none;
}

abbrev context : Ctx SfHeader Str
context = record {
  header = none;
  pod = none;
  container = some box;
  process = some child_process;
  ptree = child_process ∷ shell_process ∷ [];
  file = none;
  new_file = none;
}

abbrev pe : ProcessEvent
pe = record { ts = pos 1; tid = pos 2; op_flags = pos 3; ret = pos 0 }

abbrev fe : FileEvent
fe = record { ts = pos 1; tid = pos 2; op_flags = pos 3; ret = pos 0 }

abbrev ff : FileFlow
ff = record {
  ts = pos 1;
  tid = pos 2;
  op_flags = pos 3;
  open_flags = pos 4;
  end_ts = pos 5;
  fd = pos 6;
  num_r_recv_ops = pos 7;
  num_w_send_ops = pos 8;
  num_r_recv_bytes = pos 9;
  num_w_send_bytes = pos 10;
}

abbrev nf : NetworkFlow
nf = record {
  ts = pos 1;
  tid = pos 2;
  op_flags = pos 3;
  end_ts = pos 5;
  sip = pos 11;
  sport = pos 12;
  dip = pos 13;
  dport = pos 14;
  proto = pos 6;
  fd = pos 6;
  num_r_recv_ops = pos 7;
  num_w_send_ops = pos 8;
  num_r_recv_bytes = pos 9;
  num_w_send_bytes = pos 10;
}

abbrev expected : List Str
expected =
    map trim_bounding_quotes (process_texts (some child_process) ++ container_texts (some box))

values_of-handlers_example :
    (values_of numbered gjson (handle_proc_evt numbered get_json_str context pe) attributes
      ≡ expected)
    × (values_of numbered gjson (handle_net_flow numbered get_json_str context nf) attributes
        ≡ expected)
    × (values_of numbered gjson (handle_file_flow numbered get_json_str context ff) attributes
        ≡ expected)
    × (values_of numbered gjson (handle_file_evt numbered get_json_str context fe) attributes
        ≡ expected)
values_of-handlers_example = values_of-handlers numbered gjson get_json_str context pe nf ff fe refl
