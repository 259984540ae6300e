-- ===== src/Encoders/Json/Object.antt =====
-- core/exporter/encoders/json.go: the text of a record as one JSON object.
use sf_processor.Prelude.{
  ℕ, ◌<◌, ◌≡◌, refl, sym, ap, ◌∙◌, Bool, true, false, not, ◌&&◌, ◌||◌, Option, none, some, List, [],
  ◌∷◌, ◌++◌, map, flatten, length, if◌then◌else◌, nat_beq, nat_beq_iff, list_eq, nat_eq, All,
  select, select-true, select-false, Bool-cases, Option-cases, inl, inr, ◌⊎◌, arith,
}
use mathlib.Core.List.{append_assoc}
use sf_processor.Prelude.Text.{Str, str, join}
use sf_processor.Engine.Record.{Record}
use sf_processor.Engine.Fields.{Sfgo}
use sf_processor.Encoders.Json.Values.{Writer}
use sf_processor.Encoders.Json.Commas.{lead, lead-append, join-lead}
use sf_processor.Encoders.Json.Sections.{
  FieldValue, TypeNames, State, begin_state, number, Present, Section, section_of, write_attribute,
  write_section_begin, write_in, write_field, write_fields,
}

-- The attributes of one section that stand one behind the other.
pub record Group : Type 0 where
  pub section : Section
  pub first : FieldValue
  pub rest : List FieldValue

abbrev pub fields_of : Group → List FieldValue
fields_of g = g.first ∷ g.rest

module _ (w : Writer) (sfgo : Sfgo) (names : TypeNames) (p : Present) (r : Record) where
  -- An attribute with two parts, one with three in a section, and one that the loop writes at all.
  abbrev pub IsOuter : FieldValue → Type 0
  IsOuter fv = nat_beq (length fv.field_sects) 2 ≡ true

  abbrev pub IsIn : Section → FieldValue → Type 0
  IsIn s fv = (length fv.field_sects ≡ 3) × (section_of names p fv.entry.section ≡ some s)

  abbrev is_some : Option Section → Bool
  is_some none = false
  is_some (some _) = true

  abbrev pub is_written : FieldValue → Bool
  is_written fv =
      nat_beq (length fv.field_sects) 2
      || (nat_beq (length fv.field_sects) 3 && is_some (section_of names p fv.entry.section))

  -- Groups that follow the state with the number `n`: each has attributes of its section only, and
  -- enters another state than the one before.
  abbrev pub AreGroups : ℕ → List Group → Type 0
  AreGroups n [] = Unit {0}
  AreGroups n (g ∷ gs) =
      (nat_beq n (number g.section.state) ≡ false)
      × (0 < number g.section.state)
      × All (IsIn g.section) (fields_of g)
      × AreGroups (number g.section.state) gs

  -- The last group is one that the record has.
  abbrev pub EndsPresent : Bool → List Group → Type 0
  EndsPresent present [] = present ≡ true
  EndsPresent present (g ∷ gs) = EndsPresent g.section.present gs

  abbrev pub object_of : Group → Str
  object_of g =
      (b'"' ∷ (g.section.name ++ str "\":{"))
      ++ (join b',' (map (λ fv. write_attribute w sfgo fv 2 r) (fields_of g)) ++ b'}' ∷ [])

  abbrev pub objects : List Group → List Str
  objects [] = []
  objects (g ∷ gs) = (if g.section.present then object_of g ∷ [] else []) ++ objects gs

  abbrev fields_text : State → Bool → List FieldValue → Str
  fields_text state existed fvs = write_fields w sfgo names p state existed fvs r

  abbrev attribute : FieldValue → Str
  attribute fv = write_attribute w sfgo fv 2 r

  -- A field that is not written leaves no trace.
  unwritten :
      (state : State) (existed : Bool) (fv : FieldValue)
      → is_written fv ≡ false
      → write_field w sfgo names p state existed fv r ≡ ([], state, existed)
  unfolding write_field
  unwritten state existed fv h = elim (Option-cases (section_of names p fv.entry.section)) [
    | inl e ↦ ground (arith, e)
    | inr (s, e) ↦ ground (arith, e)
  ]

  write_fields-select :
      (state : State) (existed : Bool) (fvs : List FieldValue)
      → fields_text state existed fvs ≡ fields_text state existed (select is_written fvs)
  unfolding write_fields
  write_fields-select state existed [] = refl
  write_fields-select state existed (fv ∷ fvs) = elim (Bool-cases (is_written fv)) [
    | inl y ↦
        let (out, state', existed') = write_field w sfgo names p state existed fv r in
        ap (λ t. out ++ t) (write_fields-select state' existed' fvs)
        ∙ ap (fields_text state existed) (sym (select-true is_written fv fvs y))
    | inr n ↦
        ap (λ (o : Str × State × Bool). o.0 ++ fields_text o.1 o.2 fvs)
          (unwritten state existed fv n)
        ∙ write_fields-select state existed fvs
        ∙ ap (fields_text state existed) (sym (select-false is_written fv fvs n))
  ]

  in_step :
      (s : Section) (state : State) (existed : Bool) (fv : FieldValue)
      → IsIn s fv
      → write_field w sfgo names p state existed fv r ≡ write_in w sfgo s state existed fv r
  unfolding write_field
  in_step s state existed fv (three, here) = rw (three, here) refl

  within :
      (s : Section) (fv : FieldValue)
      → write_in w sfgo s s.state s.present fv r
        ≡ (if s.present then b',' ∷ attribute fv else [], s.state, s.present)
  unfolding write_in
  within s fv = let same = (nat_beq_iff (number s.state) (number s.state)).1 refl in rw same refl

  -- The attributes of a section in which the loop stands.
  rest_text :
      (s : Section) (fvs more : List FieldValue)
      → All (IsIn s) fvs
      → fields_text s.state s.present (fvs ++ more)
        ≡ (if s.present then lead (map attribute fvs) else []) ++ fields_text s.state s.present more
  unfolding write_fields
  rest_text s [] more h = elim (Bool-cases s.present) [ inl e ↦ simp e | inr e ↦ simp e ]
  rest_text s (fv ∷ fvs) more (h, hs) =
      ap (λ (o : Str × State × Bool). o.0 ++ fields_text o.1 o.2 (fvs ++ more))
        (in_step s s.state s.present fv h ∙ within s fv)
      ∙ ap (λ t. (if s.present then b',' ∷ attribute fv else []) ++ t) (rest_text s fvs more hs)
      ∙ (elim (Bool-cases s.present) [ inl e ↦ simp (e, append_assoc) | inr e ↦ simp e ])

  abbrev separator : State → Bool → Str
  separator state existed = if not (nat_beq (number state) 0) && existed then str "}," else []

  abbrev opening : Section → Str
  opening s = b'"' ∷ (s.name ++ str "\":{")

  entered :
      (s : Section) (state : State) (existed : Bool) (fv : FieldValue)
      → nat_beq (number state) (number s.state) ≡ false
      → write_in w sfgo s state existed fv r ≡ (
        separator state existed ++ (if s.present then opening s ++ attribute fv else []),
        s.state,
        s.present,
      )
  unfolding write_in write_section_begin
  entered s state existed fv apart = rw apart refl

  -- A group, from the state before it.
  group_text :
      (g : Group) (state : State) (existed : Bool) (more : List FieldValue)
      → All (IsIn g.section) (fields_of g)
      → nat_beq (number state) (number g.section.state) ≡ false
      → fields_text state existed (fields_of g ++ more)
        ≡ separator state existed
          ++ ((if g.section.present
                then opening g.section ++ join b',' (map attribute (fields_of g))
                else [])
              ++ fields_text g.section.state g.section.present more)
  unfolding write_fields
  group_text g state existed more (h, hs) apart =
      let s = g.section in
      ap (λ (o : Str × State × Bool). o.0 ++ fields_text o.1 o.2 (g.rest ++ more))
        (in_step s state existed g.first h ∙ entered s state existed g.first apart)
      ∙ ap
          (λ t.
            (separator state existed ++ (if s.present then opening s ++ attribute g.first else []))
            ++ t)
          (rest_text s g.rest more hs)
      ∙ (elim (Bool-cases s.present) [
        | inl e ↦ simp (e, join-lead, append_assoc)
        | inr e ↦ simp (e, append_assoc)
      ])

  separator_open :
      (state : State) (existed : Bool)
      → 0 < number state
      → existed ≡ true
      → separator state existed ≡ str "},"
  separator_open state existed enters e =
      let apart : nat_beq (number state) 0 ≡ false = ground arith in rw (apart, e) refl

  separator_shut : (state : State) (existed : Bool) → existed ≡ false → separator state existed ≡ []
  separator_shut state existed e = ground arith

  -- The text of groups, with the brace that closes the last one.
  abbrev closed_text : State → Bool → List Group → Str
  closed_text state existed gs = fields_text state existed (flatten (map fields_of gs)) ++ b'}' ∷ []

  abbrev body : Group → Str
  body g =
      if g.section.present then opening g.section ++ join b',' (map attribute (fields_of g)) else []

  group_closed :
      (g : Group) (gs : List Group) (after : Str)
      → (g.section.present ≡ true → after ≡ b'}' ∷ lead (objects gs))
      → (g.section.present ≡ false → b',' ∷ after ≡ lead (objects gs))
      → b',' ∷ (body g ++ after) ≡ lead (objects (g ∷ gs))
  group_closed g gs after here gone = elim (Bool-cases g.section.present) [
    | inl e ↦ simp (e, here e, append_assoc)
    | inr e ↦ simp (e, gone e)
  ]

  groups_text :
      (gs : List Group) (state : State) (existed : Bool)
      → AreGroups (number state) gs
      → EndsPresent existed gs
      → (separator state existed ≡ str "},"
          → closed_text state existed gs ≡ b'}' ∷ lead (objects gs))
        × (separator state existed ≡ []
            → (existed ≡ false) ⊎ (0 < length gs)
            → b',' ∷ closed_text state existed gs ≡ lead (objects gs))
  groups_text [] state existed a e = (λ s. unfold write_fields in refl, λ s o. absurd (nothing o))
    where
      nothing : (existed ≡ false) ⊎ (0 < 0) → ⊥
      nothing (inl f) = ground arith
      nothing (inr l) = omega arith
  groups_text (g ∷ gs) state existed (apart, enters, h, a) e =
      let s = g.section in
      let (open_ih, shut_ih) = groups_text gs s.state s.present a e in
      let after = closed_text s.state s.present gs in
      let closed =
        group_closed g gs after (λ y. open_ih (separator_open s.state s.present enters y))
          (λ n. shut_ih (separator_shut s.state s.present n) (inl n)) in
      let whole : closed_text state existed (g ∷ gs)
          ≡ separator state existed ++ (body g ++ after) =
        ap (λ t. t ++ b'}' ∷ []) (group_text g state existed (flatten (map fields_of gs)) h apart)
        ∙ simp append_assoc in
      let text_at = λ (x : Str).
        λ (q : separator state existed ≡ x). whole ∙ ap (λ z. z ++ (body g ++ after)) q in
      (
        λ q. text_at (str "},") q ∙ ap (λ t. b'}' ∷ t) closed,
        λ q o. ap (λ t. b',' ∷ t) (text_at [] q) ∙ closed,
      )

  -- Attributes with two parts, each with a comma behind.
  outer_text :
      (outer more : List FieldValue)
      → All IsOuter outer
      → b',' ∷ fields_text begin_state true (outer ++ more)
        ≡ lead (map (λ fv. write_attribute w sfgo fv 1 r) outer)
          ++ (b',' ∷ fields_text begin_state true more)
  unfolding write_fields
  outer_text [] more h = refl
  outer_text (fv ∷ fvs) more (h, hs) =
      let a = write_attribute w sfgo fv 1 r in
      let one : write_field w sfgo names p begin_state true fv r
          ≡ (a ++ b',' ∷ [], begin_state, true) =
        unfold write_field in rw h refl in
      ap (λ (o : Str × State × Bool). b',' ∷ (o.0 ++ fields_text o.1 o.2 (fvs ++ more))) one
      ∙ ap (λ t. b',' ∷ t) (append_assoc a (b',' ∷ []) _)
      ∙ ap (λ t. b',' ∷ (a ++ t)) (outer_text fvs more hs)
      ∙ ap (λ t. b',' ∷ t) (sym (append_assoc a _ _))

  -- The loop writes the outer attributes and then one object for each group that the record has,
  -- with commas between them, if the last group is one that it has.
  pub write_fields-objects :
      (fvs outer : List FieldValue) (gs : List Group)
      → select is_written fvs ≡ outer ++ flatten (map fields_of gs)
      → All IsOuter outer
      → AreGroups 0 gs
      → 0 < length gs
      → EndsPresent true gs
      → (b',' ∷ write_fields w sfgo names p begin_state true fvs r) ++ b'}' ∷ []
        ≡ lead (map (λ fv. write_attribute w sfgo fv 1 r) outer ++ objects gs)
  write_fields-objects fvs outer gs e ho hg nonempty ends =
      let attributes = map (λ fv. write_attribute w sfgo fv 1 r) outer in
      ap (λ t. (b',' ∷ t) ++ b'}' ∷ [])
        (write_fields-select begin_state true fvs ∙ ap (fields_text begin_state true) e)
      ∙ ap (λ t. t ++ b'}' ∷ []) (outer_text outer (flatten (map fields_of gs)) ho)
      ∙ append_assoc (lead attributes) _ _
      ∙ ap (λ t. lead attributes ++ t)
          ((groups_text gs begin_state true hg ends).1 refl (inr nonempty))
      ∙ sym (lead-append attributes (objects gs))
