-- ===== src/Encoders/Json/Commas.antt =====
-- core/exporter/encoders/json.go: the loops that write commas between texts.
use sf_processor.Prelude.{
  ℕ, suc, ◌+◌, ◌-◌, ◌≡◌, refl, sym, ap, ◌∙◌, true, false, List, [], ◌∷◌, ◌++◌, ltb, length,
  if◌then◌else◌, arith,
}
use mathlib.Core.List.{append-nil, append_assoc}
use sf_processor.Prelude.Text.{Str, join}
use sf_processor.Encoders.Json.Values.{comma_loop}

-- Texts, each with a comma in front.
abbrev pub lead : List Str → Str
lead [] = []
lead (s ∷ ss) = (b',' ∷ s) ++ lead ss

pub lead-append : (xs ys : List Str) → lead (xs ++ ys) ≡ lead xs ++ lead ys
lead-append [] ys = refl
lead-append (x ∷ xs) ys =
    ap (λ t. (b',' ∷ x) ++ t) (lead-append xs ys)
    ∙ sym (append_assoc (b',' ∷ x) (lead xs) (lead ys))

pub join-lead : (x : Str) (xs : List Str) → join b',' (x ∷ xs) ≡ x ++ lead xs
unfolding join
join-lead x [] = sym (append-nil x)
join-lead x (y ∷ ys) = ap (λ t. x ++ (b',' ∷ t)) (join-lead y ys)

pub comma_loop-join :
    (l idx : ℕ) (xs : List Str) → idx + length xs ≡ l → comma_loop l idx xs ≡ join b',' xs
unfolding comma_loop join
comma_loop-join l idx [] e = refl
comma_loop-join l idx (x ∷ []) e =
    let t : ltb idx (l - 1) ≡ false = ground arith in rw t (append-nil x)
comma_loop-join l idx (x ∷ y ∷ ys) e =
    let t : ltb idx (l - 1) ≡ true = ground arith in
    let ih = comma_loop-join l (suc idx) (y ∷ ys) (omega arith) in
    rw t (ap (λ s. x ++ (b',' ∷ s)) ih)

pub comma_loop-append :
    (l idx : ℕ) (xs ys : List Str)
    → comma_loop l idx (xs ++ ys) ≡ comma_loop l idx xs ++ comma_loop l (idx + length xs) ys
unfolding comma_loop
comma_loop-append l idx [] ys = ap (λ n. comma_loop l n ys) (omega arith)
comma_loop-append l idx (x ∷ xs) ys =
    let next : suc idx + length xs ≡ idx + suc (length xs) = omega arith in
    let comma = if ltb idx (l - 1) then b',' ∷ [] else [] in
    ap (λ s. x ++ (comma ++ s)) (comma_loop-append l (suc idx) xs ys)
    ∙ ap (λ n. x ++ (comma ++ (comma_loop l (suc idx) xs ++ comma_loop l n ys))) next
    ∙ simp append_assoc
