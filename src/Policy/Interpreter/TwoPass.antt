-- ===== src/Policy/Interpreter/TwoPass.antt =====
-- core/policyengine/engine/interpreter.go: the first walk over a file registers its lists and
-- macros, so that the second may use them before their definitions.
use sf_processor.Prelude.{
  ℕ, ◌≡◌, ◌≢◌, refl, ap, Option, some, List, [], ◌∷◌, map, All, nat_eq, list_eq, list_beq_iff,
  arith,
}
use sf_processor.Prelude.Assoc.{lookup, insert, lookup-insert, lookup-insert_self, insert_same}
use sf_processor.Prelude.Text.{Str}
use sf_processor.Engine.Mapper.{FieldMapper, JsonGet}
use sf_processor.Policy.Lists.{extract_list_from_items}
use sf_processor.Policy.Visit.{Tables}
use sf_processor.Policy.Interpreter.{
  PolicyInterpreter, Declaration, prule, pfilter, pmacro, plist, skipped, exit, walk,
}

-- What the grammar of the first pass makes of a declaration: rules and filters have no handler.
abbrev pub first_pass : Declaration → Declaration
first_pass (pmacro name e) = pmacro name e
first_pass (plist name s) = plist name s
first_pass _ = skipped

-- The tables hold what the declaration defines.
abbrev pub Defined : Tables → Declaration → Type 0
Defined t (pmacro name e) = lookup name t.macro_ctxs ≡ some e
Defined t (plist name s) = lookup name t.lists ≡ some (extract_list_from_items s)
Defined t _ = Unit

-- The two declarations do not define macros, or lists, of one name.
abbrev pub Apart : Declaration → Declaration → Type 0
Apart (pmacro a e) (pmacro b f) = a ≢ b
Apart (plist a e) (plist b f) = a ≢ b
Apart _ _ = Unit

-- No two macros and no two lists of a file share a name.
abbrev pub AreApart : List Declaration → Type 0
AreApart [] = Unit
AreApart (d ∷ ds) = All (Apart d) ds × AreApart ds

-- What a declaration writes into the tables.
unfoldable pub define : Tables → Declaration → Tables
define t (pmacro name e) = record t { macro_ctxs = insert name e t.macro_ctxs }
define t (plist name s) = record t { lists = insert name (extract_list_from_items s) t.lists }
define t _ = t

pub define_all : Tables → List Declaration → Tables
unfolding define
define_all t [] = t
define_all t (d ∷ ds) = define_all (define t d) ds

define-Defined : (t : Tables) (d : Declaration) → Defined (define t d) d
unfolding define
define-Defined t (pmacro name e) = lookup-insert_self name e t.macro_ctxs
define-Defined t (plist name s) = lookup-insert_self name (extract_list_from_items s) t.lists
define-Defined t (prule c) = tt
define-Defined t (pfilter n e b) = tt
define-Defined t skipped = tt

insert_other :
    {V : Type 0} (a b : Str) (v : V) (m : List (Str × V)) {w : Option V}
    → a ≢ b
    → lookup a m ≡ w
    → lookup a (insert b v m) ≡ w
insert_other a b v m n h = ground (arith, lookup-insert b a v m, list_beq_iff b a)

define-keeps :
    (t : Tables) (d d' : Declaration) → Apart d d' → Defined t d → Defined (define t d') d
unfolding define
define-keeps t (pmacro a e) (pmacro b f) n h = insert_other a b f t.macro_ctxs n h
define-keeps t (pmacro a e) (plist b f) n h = h
define-keeps t (pmacro a e) (prule c) n h = h
define-keeps t (pmacro a e) (pfilter x y z) n h = h
define-keeps t (pmacro a e) skipped n h = h
define-keeps t (plist a s) (plist b f) n h =
    insert_other a b (extract_list_from_items f) t.lists n h
define-keeps t (plist a s) (pmacro b f) n h = h
define-keeps t (plist a s) (prule c) n h = h
define-keeps t (plist a s) (pfilter x y z) n h = h
define-keeps t (plist a s) skipped n h = h
define-keeps t (prule c) d' n h = tt
define-keeps t (pfilter x y z) d' n h = tt
define-keeps t skipped d' n h = tt

define_all-keeps :
    (t : Tables) (d : Declaration) (ds : List Declaration)
    → All (Apart d) ds
    → Defined t d
    → Defined (define_all t ds) d
unfolding define_all
define_all-keeps t d [] a h = h
define_all-keeps t d (d' ∷ ds) (a, as') h =
    define_all-keeps (define t d') d ds as' (define-keeps t d d' a h)

pub define_all-Defined :
    (t : Tables) (ds : List Declaration) → AreApart ds → All (Defined (define_all t ds)) ds
unfolding define_all
define_all-Defined t [] a = tt
define_all-Defined t (d ∷ ds) (a, as') = (
  define_all-keeps (define t d) d ds a (define-Defined t d),
  define_all-Defined (define t d) ds as',
)

pub define_same : (t : Tables) (d : Declaration) → Defined t d → define t d ≡ t
unfolding define
define_same t (pmacro name e) h =
    ap (λ m. record t { macro_ctxs = m }) (insert_same name e t.macro_ctxs h)
define_same t (plist name s) h =
    ap (λ m. record t { lists = m }) (insert_same name (extract_list_from_items s) t.lists h)
define_same t (prule c) h = refl
define_same t (pfilter x y z) h = refl
define_same t skipped h = refl

module _ (gjson : JsonGet) (m : FieldMapper) (depth fuel : ℕ) where
  pub first_walk :
      (ds : List Declaration) (pi : PolicyInterpreter)
      → walk gjson m depth fuel pi (map first_pass ds)
        ≡ some (record pi { tables = define_all pi.tables ds })
  unfolding walk exit define_all define
  first_walk [] pi = refl
  first_walk (pmacro name e ∷ ds) pi =
      first_walk ds (record pi { tables = define pi.tables (pmacro name e) })
  first_walk (plist name s ∷ ds) pi =
      first_walk ds (record pi { tables = define pi.tables (plist name s) })
  first_walk (prule c ∷ ds) pi = first_walk ds pi
  first_walk (pfilter x y z ∷ ds) pi = first_walk ds pi
  first_walk (skipped ∷ ds) pi = first_walk ds pi
