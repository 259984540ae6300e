-- ===== src/Flattener/Writes.antt =====
-- core/flattener/flattener.go: the assignments to the arrays of a flat record.
use sf_processor.Prelude.{ℕ, Option, none, some, List, [], ◌∷◌, nat_beq, if◌then◌else◌}
use sf_processor.Prelude.Int.{ℤ, pos}
use sf_processor.Prelude.Text.{Str}
use sf_processor.Engine.Record.{Value, Columns, FlatRecord}
use sf_processor.Sfgo.{Process}

-- fr.Ints[SYSFLOW_IDX][A] = v, and so for Strs and Anys, with A by the name of its constant.
pub data Write : Type 0 where
  set_int : Str → ℤ → Write
  set_str : Str → Str → Write
  set_any : Str → Option Value → Write

abbrev pub put {ℓ} : {A : Type ℓ} → ℕ → A → (ℕ → A) → ℕ → A
put i v column j = if nat_beq i j then v else column j

abbrev pub assign : (Str → ℕ) → Write → Columns → Columns
assign at (set_int a v) c = record c { ints = put (at a) v c.ints }
assign at (set_str a v) c = record c { strs = put (at a) v c.strs }
assign at (set_any a v) c = record c { anys = put (at a) v c.anys }

-- The assignments, one after the other.
unfoldable pub assign_all : (Str → ℕ) → List Write → Columns → Columns
assign_all at [] c = c
assign_all at (w ∷ ws) c = assign_all at ws (assign at w c)

abbrev pub zeros : Columns
zeros = record { ints = λ i. pos 0; strs = λ i. []; anys = λ i. none }

-- The slice of a tree; one without a process is nil.
abbrev tree_of : List Process → Option (List Process)
tree_of [] = none
tree_of (p ∷ ps) = some (p ∷ ps)

-- newFlatRecord, with the assignments of a handler and the tree.
unfoldable pub filled : ℕ → (Str → ℕ) → List Write → List Process → FlatRecord
unfolding assign_all
filled sysflow_src at ws ptree = record {
  sources = (sysflow_src, assign_all at ws zeros) ∷ [];
  ptree = tree_of ptree;
}
