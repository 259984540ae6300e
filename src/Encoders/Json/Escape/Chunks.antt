-- ===== src/Encoders/Json/Escape/Chunks.antt =====
-- core/exporter/encoders/json.go: what a JSON reader makes of the pieces that the loop writes.
use sf_processor.Prelude.{
  ℕ, suc, ◌-◌, ◌/◌, ◌%◌, ◌+◌, ◌*◌, ◌≤◌, ◌≡◌, refl, ap, ◌∙◌, Bool, true, false, [], ◌∷◌, ◌++◌, ltb,
  leb, nat_beq_iff, nat_beq, none, some, inl, inr, or_iff, arith,
}
use mathlib.Core.Option
use sf_processor.Prelude.Text.{Str, str}
use sf_processor.Prelude.Utf8.{encode_rune}
use sf_processor.Encoders.Json.Escape.{escape_ascii, hex_digit}
use sf_processor.Encoders.Json.Literal.{
  plain, escaped, hex, read_literal, read_one, hex_value, hex_step, literal-step, literal-skip,
}
use sf_processor.Encoders.Json.Escape.Runes.{is_separator}

hex_value-hex_digit : (d : ℕ) → ltb d 16 ≡ true → hex_value (hex_digit d) ≡ some d
unfolding hex_value
hex_value-hex_digit d h = ground arith

digit_read :
    (n acc d : ℕ)
    → ltb d 16 ≡ true
    → read_one (hex (suc n) acc) (hex_digit d) ≡ hex_step n (acc * 16 + d)
unfolding read_one
digit_read n acc d h =
    ap (λ o. elim o [ none ↦ none | some v ↦ hex_step n (acc * 16 + v) ]) (hex_value-hex_digit d h)

byte_read : (c : ℕ) → ltb c 128 ≡ true → hex_step 0 (c / 16 * 16 + c % 16) ≡ some (c ∷ [], plain)
unfolding hex_step encode_rune
byte_read c low = let e : c / 16 * 16 + c % 16 ≡ c = omega arith in rw (e, low) refl

next_digit : (d : ℕ) → hex_step 1 (0 * 16 + d) ≡ some ([], hex 1 d)
unfolding hex_step
next_digit d = ap (λ n. some ([], hex 1 n)) (omega arith)

-- The escape of a byte in four digits.
unicode_chunk :
    (c : ℕ) (t : Str)
    → ltb c 128 ≡ true
    → read_literal plain (b'\\' ∷ b'u' ∷ b'0' ∷ b'0' ∷ hex_digit (c / 16) ∷ hex_digit (c % 16) ∷ t)
      ≡ Option.map (λ t. c ∷ t) (read_literal plain t)
unicode_chunk c t low =
    literal-skip plain escaped b'\\' _ (unfold read_one in refl)
    ∙ literal-skip escaped (hex 4 0) b'u' _ (unfold read_one in refl)
    ∙ literal-skip (hex 4 0) (hex 3 0) b'0' _ (unfold read_one in refl)
    ∙ literal-skip (hex 3 0) (hex 2 0) b'0' _ (unfold read_one in refl)
    ∙ literal-skip (hex 2 0) (hex 1 (c / 16)) (hex_digit (c / 16)) _
        (digit_read 1 0 (c / 16) (ground arith) ∙ next_digit (c / 16))
    ∙ literal-step (hex 1 (c / 16)) plain (hex_digit (c % 16)) (c ∷ []) t
        (digit_read 0 (c / 16) (c % 16) (ground arith) ∙ byte_read c low)

pub kept_chunk :
    (c : ℕ) (t : Str)
    → nat_beq c b'\\' ≡ false
    → nat_beq c b'"' ≡ false
    → leb 32 c ≡ true
    → read_literal plain (c ∷ t) ≡ Option.map (λ t. c ∷ t) (read_literal plain t)
kept_chunk c t p q r = literal-step plain plain c (c ∷ []) t (unfold read_one in ground arith)

short_chunk :
    (c d : ℕ) (t : Str)
    → read_one escaped d ≡ some (c ∷ [], plain)
    → read_literal plain (b'\\' ∷ d ∷ t) ≡ Option.map (λ t. c ∷ t) (read_literal plain t)
short_chunk c d t h =
    literal-skip plain escaped b'\\' _ (unfold read_one in refl)
    ∙ literal-step escaped plain d (c ∷ []) t h

pub ascii_chunk :
    (html : Bool) (c : ℕ) (t : Str)
    → ltb c 128 ≡ true
    → read_literal plain (escape_ascii c ++ t) ≡ Option.map (λ t. c ∷ t) (read_literal plain t)
unfolding escape_ascii
ascii_chunk html c t low = ground (
  arith,
  unicode_chunk c t low,
  short_chunk 9 b't' t (unfold read_one in refl),
  short_chunk 13 b'r' t (unfold read_one in refl),
  short_chunk 10 b'n' t (unfold read_one in refl),
  short_chunk b'\\' b'\\' t (unfold read_one in refl),
  short_chunk b'"' b'"' t (unfold read_one in refl),
)

pub high_chunk :
    (c : ℕ) (t : Str)
    → 128 ≤ c
    → read_literal plain (c ∷ t) ≡ Option.map (λ t. c ∷ t) (read_literal plain t)
high_chunk c t h = kept_chunk c t (ground arith) (ground arith) (ground arith)

pub error_chunk :
    (t : Str)
    → read_literal plain (str "\\ufffd" ++ t)
      ≡ Option.map (λ t. 239 ∷ 191 ∷ 189 ∷ t) (read_literal plain t)
error_chunk t =
    literal-skip plain escaped b'\\' _ (unfold read_one in refl)
    ∙ literal-skip escaped (hex 4 0) b'u' _ (unfold read_one in refl)
    ∙ literal-skip (hex 4 0) (hex 3 15) b'f' _ (unfold read_one in refl)
    ∙ literal-skip (hex 3 15) (hex 2 255) b'f' _ (unfold read_one in refl)
    ∙ literal-skip (hex 2 255) (hex 1 4095) b'f' _ (unfold read_one in refl)
    ∙ literal-step (hex 1 4095) plain b'd' (239 ∷ 191 ∷ 189 ∷ []) t (unfold read_one in refl)

pub separator_chunk :
    (r : ℕ) (t : Str)
    → is_separator r ≡ true
    → read_literal plain ((str "\\u202" ++ hex_digit (r % 16) ∷ []) ++ t)
      ≡ Option.map (λ t. 226 ∷ 128 ∷ (r - 8064) ∷ t) (read_literal plain t)
separator_chunk r t p =
    literal-skip plain escaped b'\\' _ (unfold read_one in refl)
    ∙ literal-skip escaped (hex 4 0) b'u' _ (unfold read_one in refl)
    ∙ literal-skip (hex 4 0) (hex 3 2) b'2' _ (unfold read_one in refl)
    ∙ literal-skip (hex 3 2) (hex 2 32) b'0' _ (unfold read_one in refl)
    ∙ literal-skip (hex 2 32) (hex 1 514) b'2' _ (unfold read_one in refl)
    ∙ literal-step (hex 1 514) plain (hex_digit (r % 16)) (226 ∷ 128 ∷ (r - 8064) ∷ []) t last
  where
    last : read_one (hex 1 514) (hex_digit (r % 16)) ≡ some (226 ∷ 128 ∷ (r - 8064) ∷ [], plain)
    last = elim ((or_iff (nat_beq r 8232) (nat_beq r 8233)).0 p) [
      | inl e ↦ let q = (nat_beq_iff r 8232).0 e in rw q (unfold read_one in refl)
      | inr e ↦ let q = (nat_beq_iff r 8233).0 e in rw q (unfold read_one in refl)
    ]
