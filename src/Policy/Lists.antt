-- ===== src/Policy/Lists.antt =====
-- core/policyengine/engine/interpreter.go: lists of atoms, and named lists resolved to their atoms.
pub mod Expand
pub mod RoundTrip
use sf_processor.Prelude.{
  ◌>>=◌, ℕ, zero, suc, Bool, true, false, Option, none, some, List, [], ◌∷◌, ◌++◌, map, nat_beq,
  if◌then◌else◌, nat_eq, list_eq, ◌≡◌, refl,
}
use sf_processor.Prelude.Assoc.{lookup}
use sf_processor.Prelude.Text.{Str, split}
use sf_processor.Engine.Quotes.{trim_bounding_quotes}
use sf_processor.Policy.Syntax.{Element, atom, items}

-- A text without its last `]`.
unfoldable pub cut_last_bracket : Str → Option Str
cut_last_bracket [] = none
cut_last_bracket (c ∷ s) = elim (cut_last_bracket s) [
  | some rest ↦ some (c ∷ rest)
  | none ↦ if nat_beq c b']' then some s else none
]

-- itemsre.ReplaceAllString(text, "$2") with itemsre = (^\[)(.*)(\]$?), on a text with no newline.
abbrev or_whole : Str → Option Str → Str
or_whole s none = s
or_whole s (some t) = t

unfoldable pub strip_brackets : Str → Str
unfolding cut_last_bracket
strip_brackets [] = []
strip_brackets (c ∷ s) = if nat_beq c b'[' then or_whole (c ∷ s) (cut_last_bracket s) else c ∷ s

unfoldable pub extract_list : Str → List Str
unfolding strip_brackets split trim_bounding_quotes
extract_list s = map trim_bounding_quotes (split b',' (strip_brackets s))

-- A missing context gives the empty list.
unfoldable pub extract_list_from_items : Option Str → List Str
unfolding extract_list
extract_list_from_items none = []
extract_list_from_items (some s) = extract_list s

abbrev pub ListTable : Type 0
ListTable = List (Str × List Str)

-- The loop over the elements of a list, with the call for one element.
unfoldable pub append_all : (Str → Option (List Str)) → List Str → Option (List Str)
append_all f [] = some []
append_all f (v ∷ vs) = do here ← f v; rest ← append_all f vs; some (here ++ rest)

-- The fuel is the depth of nested lists; Go recurs without a bound.
unfoldable pub reduce_list : ListTable → ℕ → Str → Option (List Str)
unfolding append_all trim_bounding_quotes
reduce_list lists zero sl = none
reduce_list lists (suc f) sl = elim (lookup sl lists) [
  | some l ↦ append_all (reduce_list lists f) l
  | none ↦ some (trim_bounding_quotes sl ∷ [])
]

-- AllAtom()[1:]: the elements that are atoms.
unfoldable pub atoms : List Element → List Str
atoms [] = []
atoms (atom s ∷ es) = s ∷ atoms es
atoms (items _ ∷ es) = atoms es

unfoldable pub extract_list_from_atoms : ListTable → ℕ → List Element → Option (List Str)
unfolding append_all atoms
extract_list_from_atoms lists f es = append_all (reduce_list lists f) (atoms es)
