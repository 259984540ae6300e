-- ===== src/Encoders/Json/Escape.antt =====
-- core/exporter/encoders/json.go: stringNoQuotes, which escapes a text for a JSON literal.
pub mod Runes
pub mod Chunks
pub mod RoundTrip
use sf_processor.Prelude.{
  ℕ, zero, suc, ◌-◌, ◌/◌, ◌%◌, ◌+◌, Bool, true, false, not, ◌&&◌, ◌||◌, [], ◌∷◌, ◌++◌, ltb, leb,
  nat_beq, if◌then◌else◌,
}
use sf_processor.Prelude.Text.{Str, str}
use sf_processor.Prelude.Utf8.{decode_rune, rune_error}

-- The two tables of bytes below 128 that need no escape; `html` is the opposite of NoEscapeHTML.
unfoldable pub escape_table : Bool → ℕ → Bool
escape_table html c =
    leb 32 c
    && (not (nat_beq c b'"')
        && (not (nat_beq c b'\\')
            && not (html && (nat_beq c b'&' || (nat_beq c b'<' || nat_beq c b'>')))))

-- chars[d]
abbrev pub hex_digit : ℕ → ℕ
hex_digit d = if ltb d 10 then b'0' + d else b'a' + (d - 10)

-- The switch on a byte that is escaped.
unfoldable pub escape_ascii : ℕ → Str
escape_ascii c =
    if nat_beq c 9
    then b'\\' ∷ b't' ∷ []
    else if nat_beq c 13
    then b'\\' ∷ b'r' ∷ []
    else if nat_beq c 10
    then b'\\' ∷ b'n' ∷ []
    else if nat_beq c b'\\'
    then b'\\' ∷ b'\\' ∷ []
    else if nat_beq c b'"'
    then b'\\' ∷ b'"' ∷ []
    else b'\\' ∷ b'u' ∷ b'0' ∷ b'0' ∷ hex_digit (c / 16) ∷ hex_digit (c % 16) ∷ []

-- One round of the loop at the byte `c`: what is written, and of the bytes that follow how many
-- belong to the same rune, and whether these are written as they are. The code writes bytes that
-- need no escape in one go with those behind them.
unfoldable pub escape_one : Bool → ℕ → Str → Str × Bool × ℕ
escape_one html c s =
    let (rune, width) = decode_rune (c ∷ s) in
    if ltb c 128
    then (if escape_table html c then (c ∷ [], true, 0) else (escape_ascii c, true, 0))
    else if nat_beq rune rune_error && nat_beq width 1
    then (str "\\ufffd", true, 0)
    else if nat_beq rune 8232 || nat_beq rune 8233
    then (str "\\u202" ++ hex_digit (rune % 16) ∷ [], false, width - 1)
    else (c ∷ [], true, width - 1)

-- The loop, with `n` bytes of a rune ahead that are kept or dropped.
unfoldable pub escape_from : Bool → Bool → ℕ → Str → Str
unfolding escape_one
escape_from html keep n [] = []
escape_from html keep zero (c ∷ s) =
    let (out, keep', n') = escape_one html c s in out ++ escape_from html keep' n' s
escape_from html true (suc n) (c ∷ s) = c ∷ escape_from html true n s
escape_from html false (suc n) (c ∷ s) = escape_from html false n s

unfoldable pub string_no_quotes : Bool → Str → Str
unfolding escape_from
string_no_quotes html s = escape_from html true 0 s
