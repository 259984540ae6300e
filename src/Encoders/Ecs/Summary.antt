-- ===== src/Encoders/Ecs/Summary.antt =====
-- core/exporter/encoders/ecs.go and occurrence.go: when a document is there, and what it says of the
-- policies, next to an occurrence.
use sf_processor.Prelude.{
  ℕ, ◌<◌, ◌≡◌, ◌↔◌, refl, sym, ap, subst, ◌∙◌, Bool, true, false, ◌||◌, Option, none, some,
  some-injective, >>=-eq-some, ◌>>=◌, List, [], ◌∷◌, ltb, length, if◌then◌else◌, list_eq, nat_eq,
  ◌==◌, Bool-cases, inl, inr, arith, list_beq_iff,
}
use sf_processor.Prelude.Int.{pos}
use sf_processor.Prelude.Text.{Str, str}
use sf_processor.Engine.Record.{Record, RuleHead}
use sf_processor.Engine.Context.{get_rules, get_tags}
use sf_processor.Engine.Mapper.{JsonGet}
use sf_processor.Engine.Fields.{Sfgo}
use sf_processor.Encoders.Json.Sections.{TypeNames}
use sf_processor.Encoders.Occurrence.Event.{str_at, Severity, summarize_rules, summarize_policy}
use sf_processor.Encoders.Ecs.Document.{
  Json, JsonData, json_text, json_int, get, set, get-set, get-set_other, EcsLibrary,
}
use sf_processor.Encoders.Ecs.Kinds.{EcsRecord}
use sf_processor.Encoders.Ecs.Parts.{text_at, encode_container, encode_process, encode_user}
use sf_processor.Encoders.Ecs.Encode.{
  extrac_tags, EcsConfig, add_policies, joined, with_policies, with_kind, with_entities,
  new_ecs_record, encode,
}

-- The two encoders go over the rules alike.
add_policies-summarize_rules :
    (rules : List RuleHead) (acc : List Str × List Str × Severity)
    → add_policies rules acc ≡ summarize_rules rules acc
unfolding add_policies summarize_rules extrac_tags
add_policies-summarize_rules [] acc = refl
add_policies-summarize_rules (r ∷ rules) acc = add_policies-summarize_rules rules _

none_holds :
    (a b c d e : Bool)
    → (a || (b || (c || (d || e)))) ≡ false
    → (a ≡ false) × (b ≡ false) × (c ≡ false) × (d ≡ false) × (e ≡ false)
none_holds a b c d e h =
    (ground (arith, h), ground (arith, h), ground (arith, h), ground (arith, h), ground (arith, h))

some_none : {A B : Type 0} {x : A} → some x ≡ none → B
some_none h = absurd (cc)

module _ (sfgo : Sfgo) (gjson : JsonGet) (names : TypeNames) (lib : EcsLibrary)
    (sum64 : Str → ℕ) where
  abbrev policies : Record → EcsRecord → Option EcsRecord
  policies r ecs = with_policies sfgo gjson names lib sum64 r ecs

  -- The member of the event of a document.
  abbrev pub event_member : Str → EcsRecord → Option Json
  event_member k ecs = elim ecs.event [ none ↦ none | some event ↦ get k event ]

  -- What a document says of the policies of its record.
  abbrev pub Says : List Str × List Str × Severity → EcsRecord → Record → Type 0
  Says (reasons, tags, severity) ecs r =
      (0 < length tags → ecs.tags ≡ tags)
      × (0 < length (get_rules r.ctx)
          → (event_member (str "reason") ecs ≡ some (json_text (joined reasons)))
            × (event_member (str "severity") ecs ≡ some (json_int (pos severity))))

  abbrev tagged : EcsRecord → List Str → EcsRecord
  tagged ecs tags = if ltb 0 (length tags) then record ecs { tags = tags } else ecs

  tagged-tags :
      (ecs : EcsRecord) (tags : List Str) → 0 < length tags → (tagged ecs tags).tags ≡ tags
  tagged-tags ecs tags h = let y : ltb 0 (length tags) ≡ true = ground (arith, h) in simp y

  abbrev marked : List Str → Severity → JsonData → JsonData
  marked reasons severity event =
      set (str "severity") (json_int (pos severity))
        (set (str "reason") (json_text (joined reasons)) event)

  marked-get :
      (reasons : List Str) (severity : Severity) (event : JsonData)
      → (get (str "reason") (marked reasons severity event) ≡ some (json_text (joined reasons)))
        × (get (str "severity") (marked reasons severity event) ≡ some (json_int (pos severity)))
  marked-get reasons severity event =
      let told = set (str "reason") (json_text (joined reasons)) event in
      (
        get-set_other (str "reason") (str "severity") (json_int (pos severity)) told refl
            ∙ get-set (str "reason") (json_text (joined reasons)) event,
        get-set (str "severity") (json_int (pos severity)) told,
      )

  with_policies-Says :
      (r : Record) (ecs ecs' : EcsRecord)
      → policies r ecs ≡ some ecs'
      → Says (add_policies (get_rules r.ctx) ([], get_tags r.ctx, 0)) ecs' r
  unfolding with_policies
  with_policies-Says r ecs ecs' h =
      let (reasons, tags, severity) = add_policies (get_rules r.ctx) ([], get_tags r.ctx, 0) in
      elim (Bool-cases (ltb 0 (length (get_rules r.ctx)))) [
        | inr n ↦
            let same : tagged ecs tags ≡ ecs' = some-injective _ _ (simp n at h) in
            (
              λ k. ap (λ (e : EcsRecord). e.tags) (sym same) ∙ tagged-tags ecs tags k,
              λ k. absurd (ground (arith, n, k)),
            )
        | inl y ↦
            let (event, found, made) = >>=-eq-some ecs.event _ (simp y at h) in
            let same = some-injective _ _ made in
            (
              λ k. ap (λ (e : EcsRecord). e.tags) (sym same) ∙ tagged-tags ecs tags k,
              λ k.
                  let (reason, level) = marked-get reasons severity event in
                  (
                    ap (λ (e : EcsRecord). event_member (str "reason") e) (sym same) ∙ reason,
                    ap (λ (e : EcsRecord). event_member (str "severity") e) (sym same) ∙ level,
                  ),
            )
      ]

  -- If a record has a document, then the document has the tags that an occurrence of the record
  -- would be given, if there is one, and if a rule matched the record, the event of the document
  -- has the names of the rules as its reason and the severity of an occurrence as its own.
  pub encode-summarize_policy :
      (config : EcsConfig) (r : Record) (ecs : EcsRecord)
      → encode sfgo gjson names lib sum64 config r ≡ some ecs
      → Says (summarize_policy r) ecs r
  unfolding encode summarize_policy
  encode-summarize_policy config r ecs h =
      let (entities, _, h') = >>=-eq-some (with_entities sfgo gjson names lib sum64 r _) _ h in
      let (kind, _, h'') = >>=-eq-some (with_kind sfgo gjson names lib sum64 r entities) _ h' in
      subst (λ summary. Says summary ecs r)
        (add_policies-summarize_rules (get_rules r.ctx) ([], get_tags r.ctx, 0))
        (with_policies-Says r kind ecs h'')

  -- The type of a record, and whether it is one of the five that are encoded.
  abbrev pub type_of : Record → Str
  type_of r = str_at sfgo gjson (str "sf.type") r

  abbrev pub is_known : Str → Bool
  is_known t =
      t == names.ty_n_f_str
      || (t == names.ty_f_f_str
          || (t == names.ty_f_e_str || (t == names.ty_p_e_str || t == names.ty_k_e_str)))

  abbrev pub started : EcsConfig → Record → EcsRecord
  started config r = new_ecs_record sfgo gjson names lib sum64 config r

  abbrev pub without_pod : EcsConfig → Record → EcsRecord
  without_pod config r = record (started config r) {
    container = encode_container sfgo gjson names lib r;
    process = encode_process sfgo gjson names lib r;
    user = encode_user sfgo gjson names lib r;
  }

  -- The types of the code, one by one.
  abbrev type_text : Record → Str
  type_text r = text_at sfgo gjson names lib (str "sf.type") r

  not_known :
      (r : Record)
      → is_known (type_of r) ≡ false
      → (type_text r == names.ty_n_f_str ≡ false)
        × (type_text r == names.ty_f_f_str ≡ false)
        × (type_text r == names.ty_f_e_str ≡ false)
        × (type_text r == names.ty_p_e_str ≡ false)
        × (type_text r == names.ty_k_e_str ≡ false)
  not_known r other = none_holds _ _ _ _ _ other

  with_kind-other :
      (r : Record) (ecs : EcsRecord)
      → is_known (type_of r) ≡ false
      → with_kind sfgo gjson names lib sum64 r ecs ≡ some ecs
  unfolding with_kind
  with_kind-other r ecs other =
      let (nf, ff, fe, pe, ke) = not_known r other in simp (nf, ff, fe, pe, ke)

  -- A record of a process that is in no pod.
  pub with_entities-no_pod :
      (config : EcsConfig) (r : Record)
      → type_of r == names.ty_k_e_str ≡ false
      → str_at sfgo gjson (str "sf.pod.id") r ≡ []
      → with_entities sfgo gjson names lib sum64 r (started config r) ≡ some (without_pod config r)
  unfolding with_entities
  with_entities-no_pod config r ke no_pod =
      let other : type_text r == names.ty_k_e_str ≡ false = ke in
      let pod = (list_beq_iff (str_at sfgo gjson (str "sf.pod.id") r) []).1 no_pod in
      simp (other, pod)

  with_policies-no_event :
      (r : Record) (ecs : EcsRecord)
      → ecs.event ≡ none
      → (policies r ecs ≡ none) ↔ (0 < length (get_rules r.ctx))
  unfolding with_policies
  with_policies-no_event r ecs bare = elim (Bool-cases (ltb 0 (length (get_rules r.ctx)))) [
    | inl y ↦ (λ h. ground (arith, y), λ h. simp (y, bare))
    | inr n ↦ (λ h. some_none (simp n at h), λ h. absurd (ground (arith, n, h)))
  ]

  -- A record without a pod, of a type that is none of the five, has no document exactly if a rule
  -- matched it.
  pub encode-other_type :
      (config : EcsConfig) (r : Record)
      → is_known (type_of r) ≡ false
      → str_at sfgo gjson (str "sf.pod.id") r ≡ []
      → (encode sfgo gjson names lib sum64 config r ≡ none) ↔ (0 < length (get_rules r.ctx))
  unfolding encode new_ecs_record
  encode-other_type config r other no_pod =
      let ent = without_pod config r in
      let kinds = λ (e : EcsRecord). with_kind sfgo gjson names lib sum64 r e >>= policies r in
      let made =
        ap (λ (o : Option EcsRecord). o >>= kinds)
          (with_entities-no_pod config r (not_known r other).4 no_pod) in
      let kept = ap (λ (o : Option EcsRecord). o >>= policies r) (with_kind-other r ent other) in
      subst (λ (o : Option EcsRecord). (o ≡ none) ↔ (0 < length (get_rules r.ctx)))
        (sym (made ∙ kept)) (with_policies-no_event r ent refl)
