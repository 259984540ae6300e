-- ===== src/Tests/Json.antt =====
-- A JSON writer that quotes without escapes, and a table with a section that the record lacks.
use sf_processor.Prelude.{
  ◌≡◌, refl, true, false, some, List, [], ◌∷◌, ◌++◌, map, list_eq, nat_eq, arith,
}
use sf_processor.Prelude.Text.{Str, str, join}
use sf_processor.Prelude.Utf8.{valid_from, decode_rune}
use sf_processor.Engine.Record.{pproc_name, text}
use sf_processor.Prelude.Assoc.{lookup, insert}
use sf_processor.Engine.Fields.{map_rec_type}
use sf_processor.Engine.Fields.FalcoFields.{falco_event_fields, falco_proc_fields}
use sf_processor.Engine.Fields.ProcessFields.{record_fields, proc_fields, pproc_fields}
use sf_processor.Engine.Fields.FileFields.{file_fields, flow_fields}
use sf_processor.Engine.Fields.ContextFields.{container_fields, pod_fields, node_fields}
use sf_processor.Engine.Fields.Entry.{
  FieldEntry, SectionType, map_str_val, sect_none, sect_proc, sect_net,
}
use sf_processor.Encoders.Json.Literal.{read_literal, plain}
use sf_processor.Encoders.Json.Escape.{
  string_no_quotes, escape_from, escape_one, escape_table, escape_ascii,
}
use sf_processor.Encoders.Json.Escape.RoundTrip.{string_no_quotes-read}
use sf_processor.Encoders.Json.Values.{Writer}
use sf_processor.Encoders.Json.Sections.{
  FieldValue, TypeNames, proc_state, net_state, encode_text, section_of, present_in,
}
use sf_processor.Encoders.Json.Object.{Group}
use sf_processor.Encoders.Json.Whole.{members, Layout, encode_text-object}
use sf_processor.Encoders.Json.Encoder.{new_json_encoder, encode_batches}
use sf_processor.Encoders.Json.Batches.{datum, encode_batches-apart}
use sf_processor.Tests.Samples.{gjson, sample, sfgo}

string_no_quotes-read_example :
    read_literal plain (string_no_quotes true (str "<a\"\\b> \n" ++ 226 ∷ 128 ∷ 168 ∷ 200 ∷ []))
    ≡ some (valid_from 0 (str "<a\"\\b> \n" ++ 226 ∷ 128 ∷ 168 ∷ 200 ∷ []))
string_no_quotes-read_example =
    string_no_quotes-read true (str "<a\"\\b> \n" ++ 226 ∷ 128 ∷ 168 ∷ 200 ∷ [])

escaped_bytes :
    string_no_quotes true (str "<\"" ++ 226 ∷ 128 ∷ 168 ∷ 200 ∷ 195 ∷ 169 ∷ [])
    ≡ str "\\u003c\\\"\\u2028\\ufffd" ++ 195 ∷ 169 ∷ []
unfolding string_no_quotes escape_from escape_one escape_table escape_ascii decode_rune
escaped_bytes = refl

abbrev writer : Writer
writer = record {
  string = λ s. b'"' ∷ (s ++ b'"' ∷ []);
  int64 = λ n. str "0";
  int32 = λ n. str "0";
  bool = λ b. str "false";
  build = λ s. some s;
}

abbrev names : TypeNames
names = record {
  ty_p_e_str = str "PE";
  ty_f_e_str = str "FE";
  ty_f_f_str = str "FF";
  ty_n_f_str = str "NF";
  ty_k_e_str = str "KE";
}

abbrev entry : SectionType → FieldEntry
entry s = record {
  mapping = λ r. text [];
  flat_index = 0;
  mapping_type = map_str_val;
  source = 0;
  section = s;
  aux_attr = pproc_name;
}

abbrev field : Str → List Str → SectionType → FieldValue
field name sects s = record { field_name = name; field_sects = sects; entry = entry s }

abbrev type_field : FieldValue
type_field = field (str "sf.type") (str "sf" ∷ str "type" ∷ []) sect_none

abbrev ip_field : FieldValue
ip_field = field (str "sf.net.ip") (str "sf" ∷ str "net" ∷ str "ip" ∷ []) sect_net

abbrev pod_field : FieldValue
pod_field = field (str "sf.pod.hostip") (str "sf" ∷ str "pod" ∷ str "hostip" ∷ []) sect_none

abbrev exe_field : FieldValue
exe_field = field (str "sf.proc.exe") (str "sf" ∷ str "proc" ∷ str "exe" ∷ []) sect_proc

abbrev args_field : FieldValue
args_field = field (str "sf.proc.args") (str "sf" ∷ str "proc" ∷ str "args" ∷ []) sect_proc

abbrev table : List FieldValue
table = type_field ∷ ip_field ∷ pod_field ∷ args_field ∷ exe_field ∷ []

abbrev groups : List Group
groups =
    record {
      section = record { state = net_state; name = str "net"; present = false };
      first = ip_field;
      rest = [];
    }
    ∷ record {
      section = record { state = proc_state; name = str "proc"; present = true };
      first = args_field;
      rest = exe_field ∷ [];
    }
    ∷ []

layout : Layout writer sfgo gjson names table (type_field ∷ []) groups sample
unfolding section_of present_in lookup insert falco_event_fields falco_proc_fields record_fields
    proc_fields pproc_fields file_fields flow_fields container_fields pod_fields node_fields
    map_rec_type
layout = record {
  written = refl;
  are_outer = (refl, tt);
  are_groups = (
    refl,
    omega arith,
    ((refl, refl), tt),
    (refl, omega arith, ((refl, refl), ((refl, refl), tt)), tt),
  );
  nonempty = omega arith;
  ends = refl;
}

encode_text-object_example :
    encode_text writer sfgo gjson names (str "4") table sample
    ≡ b'{'
      ∷ (join b',' (
            (str "\"version\":" ++ str "4")
            ∷ members writer sfgo gjson names (type_field ∷ []) groups sample)
          ++ b'}' ∷ [])
encode_text-object_example =
    encode_text-object writer sfgo gjson names (str "4") table (type_field ∷ []) groups sample
      layout

new_empty : new_json_encoder.buffered ≡ []
unfolding new_json_encoder
new_empty = refl

encode_batches-apart_example :
    encode_batches writer sfgo gjson names
      (str "4")
      table
      new_json_encoder
      ((sample ∷ sample ∷ []) ∷ (sample ∷ []) ∷ [])
    ≡ map
        (λ recs.
          some (
            map (datum writer sfgo gjson names (str "4") table (λ text. text) (λ text. refl)) recs))
        ((sample ∷ sample ∷ []) ∷ (sample ∷ []) ∷ [])
encode_batches-apart_example =
    encode_batches-apart writer sfgo gjson names (str "4") table (λ text. text) (λ text. refl)
      new_json_encoder ((sample ∷ sample ∷ []) ∷ (sample ∷ []) ∷ []) new_empty
