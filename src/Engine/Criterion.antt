-- ===== src/Engine/Criterion.antt =====
-- core/policyengine/engine/predicates.go: criteria, their combinators and the basic predicates.
pub mod Laws
pub mod Telemetry
use sf_processor.Prelude.{
  Bool, true, false, not as bool_not, ◌&&◌, ◌||◌, none, some, List, [], nat_eq, list_eq, ◌==◌,
  any as exists_in,
}
use mathlib.Core.List.{foldl}
use sf_processor.Prelude.Int.{pos, int_eq, leb_ℤ, ltb_ℤ}
use sf_processor.Prelude.Text.{Str, split, to_lower}
use sf_processor.Prelude.Text
use sf_processor.Engine.Record.{Value, text, int64, int32, bool, ints, services, Record}
use sf_processor.Engine.Mapper.{FieldMapper, JsonGet, map_value, map_int, map_str}

pub record Criterion : Type 0 where
  pub pred : Record → Bool

unfoldable pub eval : Criterion → Record → Bool
eval c r = c.pred r

unfoldable pub true_criterion : Criterion
true_criterion = record { pred = λ r. true }

unfoldable pub false_criterion : Criterion
false_criterion = record { pred = λ r. false }

unfoldable pub and : Criterion → Criterion → Criterion
unfolding eval
and c d = record { pred = λ r. eval c r && eval d r }

unfoldable pub or : Criterion → Criterion → Criterion
unfolding eval
or c d = record { pred = λ r. eval c r || eval d r }

unfoldable pub not : Criterion → Criterion
unfolding eval
not c = record { pred = λ r. bool_not (eval c r) }

unfoldable pub all : List Criterion → Criterion
unfolding true_criterion and
all = foldl and true_criterion

unfoldable pub any : List Criterion → Criterion
unfolding false_criterion or
any = foldl or false_criterion

abbrev pub Operator : Type 0
Operator = Str → Str → Bool

-- The fields of `ops`.
unfoldable pub eq_op : Operator
eq_op l r = l == r

unfoldable pub contains_op : Operator
contains_op l r = Text.contains l r

-- strings.ToLower on the ASCII letters
unfoldable pub icontains_op : Operator
icontains_op l r = Text.contains (to_lower l) (to_lower r)

unfoldable pub startswith_op : Operator
startswith_op l r = Text.has_prefix l r

unfoldable pub endswith_op : Operator
endswith_op l r = Text.has_suffix l r

-- The lower-case `eval`: some part of the left list stands in the relation to some part of the right.
unfoldable pub eval_lists : Str → Str → Operator → Bool
unfolding split
eval_lists l r op =
    exists_in (λ lattr. exists_in (λ rattr. op lattr rattr) (split b',' r)) (split b',' l)

-- reflect.Value.IsZero on what a field map returns
unfoldable pub is_zero : Value → Bool
is_zero (text s) = s == []
is_zero (int64 v) = v == pos 0
is_zero (int32 v) = v == pos 0
is_zero (bool b) = bool_not b
is_zero (ints none) = true
is_zero (ints (some _)) = false
is_zero (services none) = true
is_zero (services (some _)) = false

-- `Mapper` is global in the source; here it is a parameter, with the JSON package beside it.
module _ (gjson : JsonGet) (m : FieldMapper) where
  unfoldable pub exists : Str → Criterion
  unfolding is_zero
  exists attr = record { pred = λ r. bool_not (is_zero (map_value m attr r)) }

  -- The body that the predicates on texts share.
  unfoldable pub compare_texts : Operator → Str → Str → Criterion
  unfolding eval_lists
  compare_texts op lattr rattr = record {
    pred = λ r. eval_lists (map_str gjson m lattr r) (map_str gjson m rattr r) op;
  }

  unfoldable pub eq : Str → Str → Criterion
  unfolding compare_texts
  eq = compare_texts eq_op

  unfoldable pub neq : Str → Str → Criterion
  unfolding eq not
  neq l r = not (eq l r)

  unfoldable pub ge : Str → Str → Criterion
  ge lattr rattr = record { pred = λ r. leb_ℤ (map_int m rattr r) (map_int m lattr r) }

  unfoldable pub gt : Str → Str → Criterion
  gt lattr rattr = record { pred = λ r. ltb_ℤ (map_int m rattr r) (map_int m lattr r) }

  unfoldable pub le : Str → Str → Criterion
  unfolding gt not
  le l r = not (gt l r)

  unfoldable pub lt : Str → Str → Criterion
  unfolding ge not
  lt l r = not (ge l r)

  unfoldable pub starts_with : Str → Str → Criterion
  unfolding compare_texts
  starts_with = compare_texts startswith_op

  unfoldable pub ends_with : Str → Str → Criterion
  unfolding compare_texts
  ends_with = compare_texts endswith_op

  unfoldable pub contains : Str → Str → Criterion
  unfolding compare_texts
  contains = compare_texts contains_op

  unfoldable pub icontains : Str → Str → Criterion
  unfolding compare_texts
  icontains = compare_texts icontains_op

  unfoldable pub in_list : Str → List Str → Criterion
  unfolding eval_lists
  in_list attr list = record {
    pred = λ r. exists_in (λ v. eval_lists (map_str gjson m attr r) v eq_op) list;
  }

  unfoldable pub pmatch : Str → List Str → Criterion
  unfolding eval_lists
  pmatch attr list = record {
    pred = λ r. exists_in (λ v. eval_lists (map_str gjson m attr r) v contains_op) list;
  }
