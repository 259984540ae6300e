-- ===== src/Encoders/Json/Whole.antt =====
-- core/exporter/encoders/json.go: what encode writes.
use sf_processor.Prelude.{
  ℕ, ◌+◌, ◌<◌, ◌≡◌, refl, sym, ap, ◌∙◌, true, false, List, [], ◌∷◌, ◌++◌, map, flatten, ltb, length,
  if◌then◌else◌, All, select, length-append, arith,
}
use mathlib.Core.Path.{ap₂}
use mathlib.Core.List.{append-nil, append_assoc, map-append}
use sf_processor.Prelude.Text.{Str, str, join}
use sf_processor.Engine.Record.{Record, RuleHead}
use sf_processor.Engine.Context.{get_rules, get_tags}
use sf_processor.Engine.Mapper.{JsonGet}
use sf_processor.Engine.Fields.{Sfgo}
use sf_processor.Encoders.Json.Values.{Writer, comma_loop}
use sf_processor.Encoders.Json.Commas.{
  lead, lead-append, join-lead, comma_loop-join, comma_loop-append,
}
use sf_processor.Encoders.Json.Sections.{
  FieldValue, TypeNames, write_attribute, write_fields, begin_state, rule_text, rule_tags,
  policies_text, tags_text, present_in, encode_text,
}
use sf_processor.Encoders.Json.Object.{
  Group, fields_of, IsOuter, is_written, AreGroups, EndsPresent, objects, write_fields-objects,
}

lead_parts :
    (a b c d : List Str)
    → lead (a ++ b) ++ (lead c ++ (lead d ++ b'}' ∷ [])) ≡ lead (a ++ (b ++ (c ++ d))) ++ b'}' ∷ []
lead_parts a b c d = simp (lead-append, append_assoc)

module _ (w : Writer) (sfgo : Sfgo) where
  -- A member that holds a list, if the list is not empty.
  abbrev pub list_member : Str → List Str → List Str
  list_member name [] = []
  list_member name (x ∷ xs) = (name ++ (join b',' (x ∷ xs) ++ b']' ∷ [])) ∷ []

  length-map : {A : Type 0} (f : A → Str) (xs : List A) → length (map f xs) ≡ length xs
  length-map f [] = refl
  length-map f (x ∷ xs) = omega (arith, length-map f xs)

  -- A list in brackets with its name, as a member.
  member_text :
      (name : Str) (l : ℕ) (xs : List Str)
      → length xs ≡ l
      → (if ltb 0 l then (b',' ∷ name) ++ (comma_loop l 0 xs ++ b']' ∷ []) else [])
        ≡ lead (list_member name xs)
  member_text name l [] e = let z : ltb 0 l ≡ false = ground (arith, e) in rw z refl
  member_text name l (x ∷ xs) e =
      let z : ltb 0 l ≡ true = ground (arith, e) in
      rw (z, comma_loop-join l 0 (x ∷ xs) (omega (arith, e))) (sym (append-nil _))

  policies_text-lead :
      (rules : List RuleHead)
      → policies_text w sfgo rules
        ≡ lead (list_member (str "\"policies\":[") (map (rule_text w sfgo) rules))
  unfolding policies_text
  policies_text-lead rules =
      member_text (str "\"policies\":[") (length rules) (map (rule_text w sfgo) rules)
        (length-map (rule_text w sfgo) rules)

  tags_text-lead :
      (tags rtags : List Str)
      → tags_text w sfgo tags rtags
        ≡ lead (list_member (str "\"tags\":[") (map w.string (tags ++ rtags)))
  unfolding tags_text
  tags_text-lead tags rtags =
      let l = length rtags + length tags in
      let loops : comma_loop l 0 (map w.string tags)
            ++ (comma_loop l (length tags) (map w.string rtags) ++ b']' ∷ [])
          ≡ comma_loop l 0 (map w.string (tags ++ rtags)) ++ b']' ∷ [] =
        ap
          (λ k.
            comma_loop l 0 (map w.string tags)
            ++ (comma_loop l k (map w.string rtags) ++ b']' ∷ []))
          (sym (length-map w.string tags) ∙ omega arith)
        ∙ sym (append_assoc (comma_loop l 0 (map w.string tags)) _ _)
        ∙ ap (λ t. t ++ b']' ∷ [])
            (sym (comma_loop-append l 0 (map w.string tags) (map w.string rtags))
              ∙ ap (comma_loop l 0) (sym (map-append w.string tags rtags))) in
      ap (λ t. if ltb 0 l then (b',' ∷ str "\"tags\":[") ++ t else []) loops
      ∙ member_text (str "\"tags\":[") l (map w.string (tags ++ rtags))
          (length-map w.string (tags ++ rtags) ∙ length-append tags rtags ∙ omega arith)

  module _ (gjson : JsonGet) (names : TypeNames) where
    -- The members of the object for a record, of which the version is the first.
    abbrev pub members : List FieldValue → List Group → Record → List Str
    members outer gs r =
        map (λ fv. write_attribute w sfgo fv 1 r) outer
        ++ (objects w sfgo names (present_in w sfgo gjson names r) r gs
            ++ (list_member (str "\"policies\":[") (map (rule_text w sfgo) (get_rules r.ctx))
                ++ list_member (str "\"tags\":[")
                    (map w.string (get_tags r.ctx ++ rule_tags w sfgo (get_rules r.ctx)))))

    -- The attributes of a table, as outer ones and groups that suit a record.
    pub record Layout (fields outer : List FieldValue) (gs : List Group) (r : Record) : Type 0 where
      pub written :
          select (is_written w sfgo names (present_in w sfgo gjson names r) r) fields
          ≡ outer ++ flatten (map fields_of gs)
      pub are_outer : All (IsOuter w sfgo names (present_in w sfgo gjson names r) r) outer
      pub are_groups : AreGroups w sfgo names (present_in w sfgo gjson names r) r 0 gs
      pub nonempty : 0 < length gs
      pub ends : EndsPresent w sfgo names (present_in w sfgo gjson names r) r true gs

    -- If the written attributes are some with two parts and then sections, of which the last is one
    -- that the record has, the text is one object of the version, the attributes, an object for each
    -- section that the record has, and the rules and the tags, if there are any.
    pub encode_text-object :
        (version : Str) (fields outer : List FieldValue) (gs : List Group) (r : Record)
        → Layout fields outer gs r
        → encode_text w sfgo gjson names version fields r
          ≡ b'{' ∷ (join b',' ((str "\"version\":" ++ version) ∷ members outer gs r) ++ b'}' ∷ [])
    unfolding encode_text
    encode_text-object version fields outer gs r l =
        let p = present_in w sfgo gjson names r in
        let v = b'{' ∷ (str "\"version\":" ++ version) in
        let outers = map (λ fv. write_attribute w sfgo fv 1 r) outer in
        let os = objects w sfgo names p r gs in
        let ps = list_member (str "\"policies\":[") (map (rule_text w sfgo) (get_rules r.ctx)) in
        let ts =
          list_member (str "\"tags\":[")
            (map w.string (get_tags r.ctx ++ rule_tags w sfgo (get_rules r.ctx))) in
        let body = b',' ∷ write_fields w sfgo names p begin_state true fields r in
        let policies = policies_text w sfgo (get_rules r.ctx) in
        let tags = tags_text w sfgo (get_tags r.ctx) (rule_tags w sfgo (get_rules r.ctx)) in
        ap (λ t. v ++ t)
          (sym (append_assoc body (b'}' ∷ []) (policies ++ (tags ++ b'}' ∷ [])))
            ∙ ap (λ t. t ++ (policies ++ (tags ++ b'}' ∷ [])))
                (write_fields-objects w sfgo names p r fields outer gs l.written l.are_outer
                  l.are_groups l.nonempty l.ends)
            ∙ ap₂ (λ x y. lead (outers ++ os) ++ (x ++ (y ++ b'}' ∷ [])))
                (policies_text-lead (get_rules r.ctx))
                (tags_text-lead (get_tags r.ctx) (rule_tags w sfgo (get_rules r.ctx)))
            ∙ lead_parts outers os ps ts)
        ∙ sym (append_assoc v _ _)
        ∙ ap (λ t. b'{' ∷ (t ++ b'}' ∷ [])) (sym (join-lead (str "\"version\":" ++ version) _))
