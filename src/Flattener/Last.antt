-- ===== src/Flattener/Last.antt =====
-- core/flattener/flattener.go: what a text attribute holds after a sequence of assignments.
use sf_processor.Prelude.{
  ℕ, ◌≡◌, refl, sym, ap, subst, ◌∙◌, Bool, true, false, not, ◌&&◌, ◌||◌, List, [], ◌∷◌, ◌++◌, map,
  any, nat_beq, nat_beq_iff, if◌then◌else◌, list_eq, nat_eq, ◌==◌, list_beq_iff, Bool-cases, inl,
  inr, and_iff, or_iff, arith,
}
use sf_processor.Prelude.Text.{Str}
use sf_processor.Engine.Record.{Columns}
use sf_processor.Flattener.Writes.{Write, set_int, set_str, set_any, assign, assign_all}

-- The last text that is assigned to the attribute, and before the first a text that is given.
abbrev pub last_text : Str → List Write → Str → Str
last_text n [] d = d
last_text n (set_str m v ∷ ws) d = last_text n ws (if m == n then v else d)
last_text n (set_int m v ∷ ws) d = last_text n ws d
last_text n (set_any m v ∷ ws) d = last_text n ws d

-- The names of the text attributes that are assigned.
abbrev pub text_names : List Write → List Str
text_names [] = []
text_names (set_str m v ∷ ws) = m ∷ text_names ws
text_names (set_int m v ∷ ws) = text_names ws
text_names (set_any m v ∷ ws) = text_names ws

abbrev pub is_in : Str → List Str → Bool
is_in n [] = false
is_in n (m ∷ ms) = m == n || is_in n ms

abbrev pub all_in : List Str → List Str → Bool
all_in known [] = true
all_in known (m ∷ ms) = is_in m known && all_in known ms

abbrev pub all_distinct : List ℕ → Bool
all_distinct [] = true
all_distinct (i ∷ is) = not (any (nat_beq i) is) && all_distinct is

pub last_text-append :
    (n : Str) (ws us : List Write) (d : Str)
    → last_text n (ws ++ us) d ≡ last_text n us (last_text n ws d)
last_text-append n [] us d = refl
last_text-append n (set_str m v ∷ ws) us d = last_text-append n ws us _
last_text-append n (set_int m v ∷ ws) us d = last_text-append n ws us d
last_text-append n (set_any m v ∷ ws) us d = last_text-append n ws us d

pub last_text-skip :
    (n : Str) (ws : List Write) (d : Str) → is_in n (text_names ws) ≡ false → last_text n ws d ≡ d
last_text-skip n [] d h = refl
last_text-skip n (set_str m v ∷ ws) d h = elim (Bool-cases (m == n)) [
  | inl y ↦ absurd (ground (arith, h, y))
  | inr o ↦ simp o (last_text-skip n ws d (ground (arith, h, o)))
]
last_text-skip n (set_int m v ∷ ws) d h = last_text-skip n ws d h
last_text-skip n (set_any m v ∷ ws) d h = last_text-skip n ws d h

pub is_in-append :
    (n : Str) (ws us : List Write)
    → is_in n (text_names ws) ≡ false
    → is_in n (text_names us) ≡ false
    → is_in n (text_names (ws ++ us)) ≡ false
is_in-append n [] us h k = k
is_in-append n (set_str m v ∷ ws) us h k =
    ground (arith, h, is_in-append n ws us (ground (arith, h)) k)
is_in-append n (set_int m v ∷ ws) us h k = is_in-append n ws us h k
is_in-append n (set_any m v ∷ ws) us h k = is_in-append n ws us h k

pub all_in-append :
    (known : List Str) (ws us : List Write)
    → all_in known (text_names ws) ≡ true
    → all_in known (text_names us) ≡ true
    → all_in known (text_names (ws ++ us)) ≡ true
all_in-append known [] us h k = k
all_in-append known (set_str m v ∷ ws) us h k =
    let (one, rest) = (and_iff _ _).0 h in (and_iff _ _).1 (one, all_in-append known ws us rest k)
all_in-append known (set_int m v ∷ ws) us h k = all_in-append known ws us h k
all_in-append known (set_any m v ∷ ws) us h k = all_in-append known ws us h k

false-true : {b : Bool} → not b ≡ true → b ≡ true → ⊥
false-true h k = absurd (ground (arith, h, k))

module _ (at : Str → ℕ) where
  at_in : (n : Str) (l : List Str) → is_in n l ≡ true → any (nat_beq (at n)) (map at l) ≡ true
  at_in n [] h = absurd (cc)
  at_in n (m ∷ ms) h = elim (Bool-cases (m == n)) [
    | inl y ↦ (or_iff _ _).1 (inl ((nat_beq_iff _ _).1 (ap at (sym ((list_beq_iff m n).0 y)))))
    | inr o ↦ (or_iff _ _).1 (inr (at_in n ms (ground (arith, h, o))))
  ]

  -- Attributes with distinct numbers are told apart by them.
  pub injective_on :
      (l : List Str) (m n : Str)
      → all_distinct (map at l) ≡ true
      → is_in m l ≡ true
      → is_in n l ≡ true
      → at m ≡ at n
      → m ≡ n
  injective_on [] m n d h k e = absurd (cc)
  injective_on (x ∷ xs) m n d h k e =
      let (fresh, d') =
        (and_iff (not (any (nat_beq (at x)) (map at xs))) (all_distinct (map at xs))).0 d in
      let apart = λ (j : Str) (eq : at x ≡ at j) (inside : is_in j xs ≡ true).
        false-true fresh
          (subst (λ i. any (nat_beq i) (map at xs) ≡ true) (sym eq) (at_in j xs inside)) in
      elim (Bool-cases (x == m)) [
        | inl y ↦ elim (Bool-cases (x == n)) [
          | inl y' ↦ sym ((list_beq_iff x m).0 y) ∙ (list_beq_iff x n).0 y'
          | inr o' ↦ absurd (apart n (ap at ((list_beq_iff x m).0 y) ∙ e) (ground (arith, k, o')))
        ]
        | inr o ↦ elim (Bool-cases (x == n)) [
          | inl y' ↦
              absurd (apart m (ap at ((list_beq_iff x n).0 y') ∙ sym e) (ground (arith, h, o)))
          | inr o' ↦ injective_on xs m n d' (ground (arith, h, o)) (ground (arith, k, o')) e
        ]
      ]

  put_at :
      (m n : Str) (v t : Str)
      → (at m ≡ at n → m ≡ n)
      → (if nat_beq (at m) (at n) then v else t) ≡ (if m == n then v else t)
  put_at m n v t inj = elim (Bool-cases (m == n)) [
    | inl y ↦
        let same = (nat_beq_iff (at m) (at n)).1 (ap at ((list_beq_iff m n).0 y)) in simp (y, same)
    | inr o ↦ elim (Bool-cases (nat_beq (at m) (at n))) [
      | inr o' ↦ simp (o, o')
      | inl y ↦
          let same = (list_beq_iff m n).1 (inj ((nat_beq_iff (at m) (at n)).0 y)) in
          absurd (ground (arith, same, o))
    ]
  ]

  -- With known attributes of distinct numbers, a text attribute holds the last text assigned to it.
  pub strs-assign_all :
      (known : List Str) (n : Str) (ws : List Write) (c : Columns)
      → all_distinct (map at known) ≡ true
      → is_in n known ≡ true
      → all_in known (text_names ws) ≡ true
      → (assign_all at ws c).strs (at n) ≡ last_text n ws (c.strs (at n))
  unfolding assign_all
  strs-assign_all known n [] c d h k = refl
  strs-assign_all known n (set_int m v ∷ ws) c d h k = strs-assign_all known n ws _ d h k
  strs-assign_all known n (set_any m v ∷ ws) c d h k = strs-assign_all known n ws _ d h k
  strs-assign_all known n (set_str m v ∷ ws) c d h k =
      let (one, rest) = (and_iff _ _).0 k in
      strs-assign_all known n ws (assign at (set_str m v) c) d h rest
      ∙ ap (last_text n ws) (put_at m n v (c.strs (at n)) (λ e. injective_on known m n d one h e))
