-- ===== src/Encoders/Json/Literal.antt =====
-- The texts that JSON literals stand for, by RFC 8259: the reader that the encoder's texts are for.
use sf_processor.Prelude.{
  ℕ, zero, suc, ◌-◌, ◌+◌, ◌*◌, ◌&&◌, ◌||◌, [], ◌∷◌, ◌++◌, ltb, leb, nat_beq, if◌then◌else◌, Option,
  none, some, ◌≡◌, refl, ap, ◌∙◌,
}
use mathlib.Core.Option
use sf_processor.Prelude.Text.{Str}
use sf_processor.Prelude.Utf8.{encode_rune}

-- Where a reader stands inside a JSON literal: `hex n acc` has n more digits to read.
pub data Reading : Type 0 where
  plain escaped : Reading
  hex : ℕ → ℕ → Reading

unfoldable pub hex_value : ℕ → Option ℕ
hex_value c =
    if leb b'0' c && leb c b'9'
    then some (c - b'0')
    else if leb b'a' c && leb c b'f'
    then some (c - b'a' + 10)
    else if leb b'A' c && leb c b'F'
    then some (c - b'A' + 10)
    else none

unfoldable pub read_plain : ℕ → Option (Str × Reading)
read_plain c =
    if nat_beq c b'\\'
    then some ([], escaped)
    else if nat_beq c b'"' || ltb c 32
    then none
    else some (c ∷ [], plain)

unfoldable pub read_escaped : ℕ → Option (Str × Reading)
read_escaped c =
    if nat_beq c b'"' || (nat_beq c b'\\' || nat_beq c b'/')
    then some (c ∷ [], plain)
    else if nat_beq c b'b'
    then some (8 ∷ [], plain)
    else if nat_beq c b'f'
    then some (12 ∷ [], plain)
    else if nat_beq c b'n'
    then some (10 ∷ [], plain)
    else if nat_beq c b'r'
    then some (13 ∷ [], plain)
    else if nat_beq c b't'
    then some (9 ∷ [], plain)
    else if nat_beq c b'u'
    then some ([], hex 4 0)
    else none

unfoldable pub hex_step : ℕ → ℕ → Option (Str × Reading)
unfolding encode_rune
hex_step zero r = some (encode_rune r, plain)
hex_step (suc n) r = some ([], hex (suc n) r)

unfoldable pub read_one : Reading → ℕ → Option (Str × Reading)
unfolding read_plain read_escaped hex_value hex_step
read_one plain c = read_plain c
read_one escaped c = read_escaped c
read_one (hex zero acc) c = none
read_one (hex (suc n) acc) c = elim (hex_value c) [
  | none ↦ none
  | some d ↦ hex_step n (acc * 16 + d)
]

-- The literal is complete outside of an escape.
unfoldable pub at_end : Reading → Option Str
at_end plain = some []
at_end _ = none

-- The text that a JSON literal stands for; `none` if it is no literal.
unfoldable pub read_literal : Reading → Str → Option Str
unfolding read_one at_end
read_literal m [] = at_end m
read_literal m (c ∷ s) = elim (read_one m c) [
  | none ↦ none
  | some (out, m') ↦ Option.map (λ t. out ++ t) (read_literal m' s)
]

pub literal-step :
    (m m' : Reading) (c : ℕ) (out s : Str)
    → read_one m c ≡ some (out, m')
    → read_literal m (c ∷ s) ≡ Option.map (λ t. out ++ t) (read_literal m' s)
unfolding read_literal
literal-step m m' c out s h =
    ap (λ o. elim o [ none ↦ none | some (p, n) ↦ Option.map (λ t. p ++ t) (read_literal n s) ]) h

map-empty : (o : Option Str) → Option.map (λ t. [] ++ t) o ≡ o
map-empty none = refl
map-empty (some t) = refl

pub literal-skip :
    (m m' : Reading) (c : ℕ) (s : Str)
    → read_one m c ≡ some ([], m')
    → read_literal m (c ∷ s) ≡ read_literal m' s
literal-skip m m' c s h = literal-step m m' c [] s h ∙ map-empty (read_literal m' s)
