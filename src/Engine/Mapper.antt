-- ===== src/Engine/Mapper.antt =====
-- core/policyengine/engine/fieldmapper.go: the adapter from attribute names to values.
use sf_processor.Prelude.{
  ℕ, Bool, true, false, not, ◌&&◌, ◌||◌, Option, none, some, List, [], ◌∷◌, ltb, nat_beq,
  if◌then◌else◌, nat_eq, list_eq, ◌==◌, length,
}
use sf_processor.Prelude.Assoc.{lookup}
use sf_processor.Prelude.Int.{ℤ, pos, int_eq}
use sf_processor.Prelude.Text.{Str, str}
use sf_processor.Prelude.Decimal.{format_int, parse_int}
use sf_processor.Engine.Quotes.{trim_bounding_quotes, but_last}
use sf_processor.Engine.Record.{Value, text, int64, int32, bool, ints, services, Record}
use sf_processor.Sfgo.{Service}

abbrev pub FieldMap : Type 0
FieldMap = Record → Value

-- FieldMapper.Mappers, of each entry the mapping function.
abbrev pub FieldMapper : Type 0
FieldMapper = List (Str × FieldMap)

abbrev or_constant : Str → Option FieldMap → FieldMap
or_constant attr none r = text attr
or_constant attr (some f) r = f r

-- FieldMapper.Map: an attribute that has no mapper maps to its own name.
unfoldable pub map_value : FieldMapper → Str → FieldMap
map_value m attr = or_constant attr (lookup attr m)

abbrev or_number : Str → Value → ℤ
or_number attr (int64 v) = v
or_number attr _ = elim (parse_int attr) [ none ↦ pos 0 | some v ↦ v ]

-- FieldMapper.MapInt
unfoldable pub map_int : FieldMapper → Str → Record → ℤ
unfolding map_value parse_int
map_int m attr r = or_number attr (map_value m attr r)

abbrev ints_only : Value → Option (List ℤ)
ints_only (ints v) = v
ints_only _ = none

abbrev services_only : Value → Option (List Service)
services_only (services v) = v
services_only _ = none

unfoldable pub map_int_array : FieldMapper → Str → Record → Option (List ℤ)
unfolding map_value
map_int_array m attr r = ints_only (map_value m attr r)

unfoldable pub map_svc_array : FieldMapper → Str → Record → Option (List Service)
unfolding map_value
map_svc_array m attr r = services_only (map_value m attr r)

-- `cut` at the byte `[`: what stands before and after its first occurrence.
unfoldable pub cut : ℕ → Str → Option (Str × Str)
cut sep [] = none
cut sep (c ∷ s) =
    let rest = cut sep s in
    if nat_beq c sep
    then some ([], s)
    else elim rest [ none ↦ none | some (before, after) ↦ some (c ∷ before, after) ]

unfoldable pub format_bool : Bool → Str
format_bool true = str "true"
format_bool false = str "false"

-- strconv.FormatBool for the two flags that a record keeps as an int64.
abbrev int_text : Str → ℤ → Str
int_text attr v =
    if attr == str "sf.proc.tty" || attr == str "sf.proc.entry"
    then format_bool (not (v == pos 0))
    else format_int v

-- gjson.Get(text, path).String() of the JSON package.
abbrev pub JsonGet : Type 0
JsonGet = Str → Str → Str

-- The text of a value of attribute `attr`; `path` is the JSON path behind a field name.
unfoldable pub value_text : JsonGet → Str → Option Str → Value → Str
unfolding format_bool format_int trim_bounding_quotes
value_text gjson attr none (text v) = trim_bounding_quotes v
value_text gjson attr (some path) (text v) =
    if ltb 0 (length v) && ltb 0 (length path) then gjson v path else trim_bounding_quotes v
value_text gjson attr path (int64 v) = int_text attr v
value_text gjson attr path (int32 v) = format_int v
value_text gjson attr path (bool v) = format_bool v
value_text gjson attr path (ints v) = []
value_text gjson attr path (services v) = []

-- The base attribute and the JSON path of `attr`. Behind a name with no mapper the map falls back
-- to the part before the bracket.
abbrev pub split_path : FieldMapper → Str → Option (Str × Str) → Str × Option Str
split_path m attr none = (attr, none)
split_path m attr (some (before, after)) = elim (lookup before m) [
  | none ↦ (before, none)
  | some _ ↦ (before, some (but_last after))
]

-- FieldMapper.MapStr. The slice that drops the bracket panics on a field name with a bare `[` at its
-- end, which no attribute of the policy grammar is; here it gives the empty path.
unfoldable pub map_str : JsonGet → FieldMapper → Str → Record → Str
unfolding value_text map_value cut but_last
map_str gjson m attr r =
    let (name, path) = split_path m attr (cut b'[' attr) in
    value_text gjson name path (map_value m name r)
