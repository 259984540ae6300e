-- ===== src/Engine/Context.antt =====
-- core/policyengine/engine/types.go: the methods of a record's context.
use sf_processor.Prelude.{◌≡◌, refl, Bool, false, Option, none, some, List, [], ◌∷◌, ◌++◌, arith}
use mathlib.Core.Option.{get_or}
use sf_processor.Prelude.Text.{Str}
use sf_processor.Engine.Record.{Context, RuleHead, HashSet}

unfoldable pub is_alert : Context → Bool
is_alert c = get_or c.alert false

unfoldable pub set_alert : Bool → Context → Context
set_alert b c = record c { alert = some b }

-- A nil slot holds no element.
abbrev pub slot {ℓ} : {A : Type ℓ} → Option (List A) → List A
slot none = []
slot (some xs) = xs

unfoldable pub add_rule : RuleHead → Context → Context
add_rule r c = record c { rules = some (slot c.rules ++ r ∷ []) }

unfoldable pub get_rules : Context → List RuleHead
get_rules c = slot c.rules

unfoldable pub set_tags : List Str → Context → Context
set_tags tags c = record c { tags = some tags }

unfoldable pub add_tag : Str → Context → Context
add_tag tag c = record c { tags = some (slot c.tags ++ tag ∷ []) }

unfoldable pub get_tags : Context → List Str
get_tags c = slot c.tags

pub data HashType : Type 0 where
  hash_type_proc hash_type_file : HashType

abbrev hash_slot : HashType → Option HashSet × Option HashSet → Option HashSet
hash_slot hash_type_proc h = h.0
hash_slot hash_type_file h = h.1

unfoldable pub get_hash : HashType → Context → Option HashSet
get_hash ht c = elim c.hashes [ none ↦ none | some h ↦ hash_slot ht h ]

abbrev or_new : HashSet → Option HashSet → Option HashSet
or_new hs none = some hs
or_new hs (some old) = some old

abbrev fill : HashType → HashSet → Option HashSet × Option HashSet → Option HashSet × Option HashSet
fill hash_type_proc hs h = (or_new hs h.0, h.1)
fill hash_type_file hs h = (h.0, or_new hs h.1)

-- A slot that holds a hash set keeps it.
unfoldable pub set_hashes : HashType → HashSet → Context → Context
set_hashes ht hs c = record c { hashes = some (fill ht hs (get_or c.hashes (none, none))) }

-- Adding a rule appends it to the rules of the context, and changes neither the alert flag, nor
-- the tags, nor a hash set.
pub get_rules-add_rule :
    (r : RuleHead) (c : Context) (ht : HashType)
    → (get_rules (add_rule r c) ≡ get_rules c ++ r ∷ [])
      × (is_alert (add_rule r c) ≡ is_alert c)
      × (get_tags (add_rule r c) ≡ get_tags c)
      × (get_hash ht (add_rule r c) ≡ get_hash ht c)
unfolding get_rules add_rule is_alert get_tags get_hash
get_rules-add_rule r c ht = (refl, refl, refl, refl)

-- The first hash set stored for a type is the one that a context returns, whatever is stored for
-- that type later, and the hash set of the other type stays what it was.
pub get_hash-set_hashes :
    (first second : HashSet) (c : Context) (ht : HashType)
    → get_hash ht c ≡ none
    → (get_hash ht (set_hashes ht second (set_hashes ht first c)) ≡ some first)
      × ((other : HashType)
          → (other ≡ ht → ⊥)
          → get_hash other (set_hashes ht first c) ≡ get_hash other c)
unfolding get_hash set_hashes
get_hash-set_hashes first second c hash_type_proc free = (
  ground arith,
  elim [ hash_type_proc ↦ λ n. absurd (n refl) | hash_type_file ↦ λ n. ground arith ],
)
get_hash-set_hashes first second c hash_type_file free = (
  ground arith,
  elim [ hash_type_proc ↦ λ n. ground arith | hash_type_file ↦ λ n. absurd (n refl) ],
)
