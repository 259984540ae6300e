-- ===== src/Policy/Lists/RoundTrip.antt =====
-- core/policyengine/engine/interpreter.go: reading a bracketed list gives back its items.
use sf_processor.Prelude.{◌≡◌, refl, ap, some, List, [], ◌∷◌, ◌++◌, map, All}
use sf_processor.Prelude.Text.{Str, join, Lacks, split-join}
use sf_processor.Engine.Quotes.{trim_bounding_quotes}
use sf_processor.Policy.Lists.{cut_last_bracket, strip_brackets, extract_list}

cut_last_bracket-append : (s : Str) → cut_last_bracket (s ++ b']' ∷ []) ≡ some s
unfolding cut_last_bracket
cut_last_bracket-append [] = refl
cut_last_bracket-append (c ∷ s) = rw (cut_last_bracket-append s)

strip_brackets-bracketed : (s : Str) → strip_brackets (b'[' ∷ (s ++ b']' ∷ [])) ≡ s
unfolding strip_brackets
strip_brackets-bracketed s = rw (cut_last_bracket-append s)

-- A bracketed list of one item or more, none of which holds a comma, is read as its items with
-- their bounding quotes off, in their order; brackets and quotes within the items are kept.
pub extract_list-bracketed :
    (p : Str) (ps : List Str)
    → All (Lacks b',') (p ∷ ps)
    → extract_list (b'[' ∷ (join b',' (p ∷ ps) ++ b']' ∷ [])) ≡ map trim_bounding_quotes (p ∷ ps)
unfolding extract_list
extract_list-bracketed p ps h =
    rw (strip_brackets-bracketed (join b',' (p ∷ ps)))
      (ap (map trim_bounding_quotes) (split-join b',' p ps h))
