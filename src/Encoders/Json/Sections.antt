-- ===== src/Encoders/Json/Sections.antt =====
-- core/exporter/encoders/json.go: the loop over the exported attributes, and the whole text.
use sf_processor.Prelude.{
  ℕ, suc, ◌+◌, Bool, true, not, ◌&&◌, ◌||◌, Option, none, some, List, [], ◌∷◌, ◌++◌, map, flatten,
  ltb, length, if◌then◌else◌, nat_beq, ◌==◌, list_eq, nat_eq,
}
use sf_processor.Prelude.Int.{ℤ, pos, int_eq}
use sf_processor.Prelude.Text.{Str, str, has_suffix}
use sf_processor.Engine.Record.{
  Record, RuleHead, Priority, low, medium, high, EnrichmentTag, tag_list, tag_text,
}
use sf_processor.Engine.Context.{get_rules, get_tags}
use sf_processor.Engine.Quotes.{but_last}
use sf_processor.Engine.Mapper.{JsonGet, map_str, map_int}
use sf_processor.Engine.Fields.{Sfgo}
use sf_processor.Engine.Fields.Mappers.{global_mapper}
use sf_processor.Engine.Fields.Entry.{
  FieldEntry, SectionType, sect_none, sect_proc, sect_p_proc, sect_file, sect_net, sect_flow,
  sect_cont, sect_node, sect_meta, sect_pod, sect_k8s_evt,
}
use sf_processor.Encoders.Json.Values.{Writer, comma_loop, key, map_json}

-- engine.FieldValue
pub record FieldValue : Type 0 where
  pub field_name : Str
  pub field_sects : List Str
  pub entry : FieldEntry

-- The names of the record types in package sfgo.
pub record TypeNames : Type 0 where
  pub ty_p_e_str : Str
  pub ty_f_e_str : Str
  pub ty_f_f_str : Str
  pub ty_n_f_str : Str
  pub ty_k_e_str : Str

-- SVC_STATE is never entered. The states are only compared with each other, so their numbers here
-- start at 0.
pub data State : Type 0 where
  begin_state proc_state pproc_state net_state file_state flow_state cont_state pod_state : State
  svc_state ke_state node_state meta_state : State

abbrev pub number : State → ℕ
number begin_state = 0
number proc_state = 1
number pproc_state = 2
number net_state = 3
number file_state = 4
number flow_state = 5
number cont_state = 6
number pod_state = 7
number svc_state = 8
number ke_state = 9
number node_state = 10
number meta_state = 11

-- What the loop asks of the record before it starts.
pub record Present : Type 0 where
  pub sftype : Str
  pub pproc_exists : Bool
  pub ct_exists : Bool
  pub pd_exists : Bool

-- A section's state, its name, and whether the record has it.
pub record Section : Type 0 where
  pub state : State
  pub name : Str
  pub present : Bool

module _ (names : TypeNames) where
  -- The switch for events of Kubernetes.
  unfoldable pub k8s_section : SectionType → Option Section
  k8s_section sect_k8s_evt = some (record { state = ke_state; name = str "k8s"; present = true })
  k8s_section sect_node = some (record { state = node_state; name = str "node"; present = true })
  k8s_section sect_meta = some (record { state = meta_state; name = str "meta"; present = true })
  k8s_section _ = none

  -- The switch for all other records.
  unfoldable pub record_section : Present → SectionType → Option Section
  record_section p sect_proc =
      some (record { state = proc_state; name = str "proc"; present = true })
  record_section p sect_p_proc =
      some (record { state = pproc_state; name = str "pproc"; present = p.pproc_exists })
  record_section p sect_net =
      some (record { state = net_state; name = str "net"; present = p.sftype == names.ty_n_f_str })
  record_section p sect_file = some (record {
    state = file_state;
    name = str "file";
    present = p.sftype == names.ty_f_f_str || p.sftype == names.ty_f_e_str;
  })
  record_section p sect_flow = some (record {
    state = flow_state;
    name = str "flow";
    present = p.sftype == names.ty_f_f_str || p.sftype == names.ty_n_f_str;
  })
  record_section p sect_cont =
      some (record { state = cont_state; name = str "container"; present = p.ct_exists })
  record_section p sect_pod =
      some (record { state = pod_state; name = str "pod"; present = p.pd_exists })
  record_section p sect_node =
      some (record { state = node_state; name = str "node"; present = true })
  record_section p sect_meta =
      some (record { state = meta_state; name = str "meta"; present = true })
  record_section p sect_none = none
  record_section p sect_k8s_evt = none

  unfoldable pub section_of : Present → SectionType → Option Section
  unfolding k8s_section record_section
  section_of p s = if p.sftype == names.ty_k_e_str then k8s_section s else record_section p s

-- fv.FieldSects[i], for an index in range
unfoldable pub sect_at : ℕ → List Str → Str
sect_at i [] = []
sect_at ℕ.zero (s ∷ ss) = s
sect_at (suc i) (s ∷ ss) = sect_at i ss

abbrev without_plus : Str → Str
without_plus name = if has_suffix name (str "+") then but_last name else name

module _ (w : Writer) (sfgo : Sfgo) where
  unfoldable pub write_attribute : FieldValue → ℕ → Record → Str
  unfolding has_suffix but_last sect_at map_json
  write_attribute fv field_id r =
      key w (without_plus (sect_at field_id fv.field_sects)) ++ map_json w sfgo fv.entry r

  unfoldable pub write_section_begin : Str → Str
  write_section_begin section = b'"' ∷ (section ++ str "\":{")

  -- A case of the switch: an attribute of a section that is entered, or in which the loop stands.
  unfoldable pub write_in : Section → State → Bool → FieldValue → Record → Str × State × Bool
  write_in s state existed fv r =
      if not (nat_beq (number state) (number s.state))
      then (
        (if not (nat_beq (number state) 0) && existed then str "}," else [])
            ++ (if s.present then write_section_begin s.name ++ write_attribute fv 2 r else []),
        s.state,
        s.present,
      )
      else (if s.present then b',' ∷ write_attribute fv 2 r else [], state, existed)

  abbrev in_section : Option Section → State → Bool → FieldValue → Record → Str × State × Bool
  in_section none state existed fv r = ([], state, existed)
  in_section (some s) state existed fv r = write_in s state existed fv r

  -- One round of the loop: attributes with two parts stand outside of the sections.
  unfoldable pub write_field :
      TypeNames → Present → State → Bool → FieldValue → Record → Str × State × Bool
  write_field names p state existed fv r =
      if nat_beq (length fv.field_sects) 2
      then (write_attribute fv 1 r ++ b',' ∷ [], state, existed)
      else if nat_beq (length fv.field_sects) 3
      then in_section (section_of names p fv.entry.section) state existed fv r
      else ([], state, existed)

  unfoldable pub write_fields : TypeNames → Present → State → Bool → List FieldValue → Record → Str
  write_fields names p state existed [] r = []
  write_fields names p state existed (fv ∷ fvs) r =
      let (out, state', existed') = write_field names p state existed fv r in
      out ++ write_fields names p state' existed' fvs r

  abbrev pub priority_number : Priority → ℤ
  priority_number low = pos 0
  priority_number medium = pos 1
  priority_number high = pos 2

  -- A rule, from its opening brace to its closing one.
  unfoldable pub rule_text : RuleHead → Str
  rule_text r =
      str "{\"id\":"
      ++ (w.string r.name
          ++ (str ",\"desc\":"
              ++ (w.string r.desc
                  ++ (str ",\"priority\":"
                      ++ (w.int64 (priority_number r.priority) ++ b'}' ∷ [])))))

  abbrev pub tags_of : EnrichmentTag → List Str
  tags_of (tag_list tags) = tags
  tags_of (tag_text tag) = tag ∷ []

  -- rtags
  unfoldable pub rule_tags : List RuleHead → List Str
  rule_tags rules = flatten (map (λ r. flatten (map tags_of (RuleHead.tags r))) rules)

  unfoldable pub policies_text : List RuleHead → Str
  unfolding rule_text comma_loop
  policies_text rules =
      if ltb 0 (length rules)
      then str ",\"policies\":[" ++ (comma_loop (length rules) 0 (map rule_text rules) ++ b']' ∷ [])
      else []

  -- The two loops over tags share their count.
  unfoldable pub tags_text : List Str → List Str → Str
  unfolding comma_loop
  tags_text tags rtags =
      let num_tags = length rtags + length tags in
      if ltb 0 num_tags
      then str ",\"tags\":["
        ++ (comma_loop num_tags 0 (map w.string tags)
            ++ (comma_loop num_tags (length tags) (map w.string rtags) ++ b']' ∷ []))
      else []

  module _ (gjson : JsonGet) (names : TypeNames) where
    unfoldable pub present_in : Record → Present
    unfolding map_str map_int global_mapper
    present_in r = record {
      sftype = map_str gjson (global_mapper sfgo) (str "sf.type") r;
      pproc_exists = not (map_int (global_mapper sfgo) (str "sf.pproc.pid") r == pos 0);
      ct_exists = not (map_str gjson (global_mapper sfgo) (str "sf.container.id") r == []);
      pd_exists = not (map_str gjson (global_mapper sfgo) (str "sf.pod.id") r == []);
    }

    -- The bytes that encode writes.
    unfoldable pub encode_text : Str → List FieldValue → Record → Str
    unfolding present_in write_fields policies_text tags_text rule_tags get_rules get_tags
    encode_text version fields r =
        str "{\"version\":"
        ++ (version
            ++ (b','
                ∷ (write_fields names (present_in r) begin_state true fields r
                    ++ (b'}'
                        ∷ (policies_text (get_rules r.ctx)
                            ++ (tags_text (get_tags r.ctx) (rule_tags (get_rules r.ctx))
                                ++ b'}' ∷ []))))))
