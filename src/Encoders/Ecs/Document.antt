-- ===== src/Encoders/Ecs/Document.antt =====
-- core/exporter/encoders/ecs.go: documents, and what the encoder uses of other packages.
use sf_processor.Prelude.{
  ℕ, zero, suc, ◌+◌, ◌*◌, ◌/◌, ◌%◌, ◌≡◌, refl, sym, subst, Bool, false, Option, none, some, List,
  [], ◌∷◌, nat_beq, if◌then◌else◌, list_eq, nat_eq, ◌==◌, Bool-cases, inl, inr, list_beq_iff,
}
use sf_processor.Prelude.Int.{ℤ, negsuc, pos, add64, to_u64}
use sf_processor.Prelude.Text.{Str}

-- JSONData and what it holds; the keys of a map stand in the order in which they were written.
mutual
  pub data Json : Type 0 where
    json_text : Str → Json
    json_int : ℤ → Json
    json_bool : Bool → Json
    json_texts : List Str → Json
    json_object : JsonData → Json
    json_array : Objects → Json

  pub data JsonData : Type 0 where
    no_member : JsonData
    member : Str → Json → JsonData → JsonData

  pub data Objects : Type 0 where
    no_object : Objects
    one_object : JsonData → Objects → Objects

-- A literal with these keys and values.
abbrev pub members : List (Str × Json) → JsonData
members [] = no_member
members ((k, v) ∷ rest) = member k v (members rest)

abbrev pub objects : List JsonData → Objects
objects [] = no_object
objects (d ∷ rest) = one_object d (objects rest)

-- d[k]
unfoldable pub get : Str → JsonData → Option Json
get k no_member = none
get k (member j w d) = if j == k then some w else get k d

-- d[k] = v
unfoldable pub set : Str → Json → JsonData → JsonData
set k v no_member = member k v no_member
set k v (member j w d) = if j == k then member k v d else member j w (set k v d)

pub get-set : (k : Str) (v : Json) (d : JsonData) → get k (set k v d) ≡ some v
unfolding get set
get-set k v no_member = let same = (list_beq_iff k k).1 refl in simp same
get-set k v (member j w d) = elim (Bool-cases (j == k)) [
  | inl y ↦ let same = (list_beq_iff k k).1 refl in simp (y, same)
  | inr o ↦ simp o (get-set k v d)
]

pub get-set_other :
    (k j : Str) (v : Json) (d : JsonData) → j == k ≡ false → get k (set j v d) ≡ get k d
unfolding get set
get-set_other k j v no_member other = simp other
get-set_other k j v (member i w d) other = elim (Bool-cases (i == j)) [
  | inl y ↦
      let apart = subst (λ (n : Str). n == k ≡ false) (sym ((list_beq_iff i j).0 y)) other in
      simp (y, other, apart)
  | inr o ↦ elim (Bool-cases (i == k)) [
    | inl y' ↦ simp (o, y')
    | inr o' ↦ simp (o, o') (get-set_other k j v d other)
  ]
]

-- What the encoder uses of the packages time, gommunityid and sfgo: the text of a time, the
-- community id of a flow, and the numbers of operations and of the actions of Kubernetes.
pub record EcsLibrary : Type 0 where
  pub to_iso_time_str : ℤ → Str
  pub community_id : Str → Str → ℕ → ℕ → ℕ → Str
  pub op : Str → ℕ
  pub k8s_action_number : Str → ℤ

-- The conjunction of the lowest bits.
unfoldable pub bit_and : ℕ → ℕ → ℕ → ℕ
bit_and zero a b = 0
bit_and (suc k) a b = (a % 2) * (b % 2) + 2 * bit_and k (a / 2) (b / 2)

-- flags&f == f
unfoldable pub has_op : ℤ → ℕ → Bool
unfolding bit_and
has_op flags f = nat_beq (bit_and 64 (to_u64 flags) f) f

-- Go's unary minus and `-` on int64, the first not on the least number
abbrev negated : ℤ → ℤ
negated (pos zero) = pos 0
negated (pos (suc n)) = negsuc n
negated (negsuc n) = pos (suc n)

unfoldable pub sub64 : ℤ → ℤ → ℤ
unfolding add64
sub64 a b = add64 a (negated b)
