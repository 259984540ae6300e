-- ===== src/Encoders/Json/Escape/RoundTrip.antt =====
-- core/exporter/encoders/json.go: what a JSON reader makes of an escaped text.
use sf_processor.Prelude.{
  ℕ, zero, suc, ◌-◌, ◌%◌, ◌≤◌, ◌≡◌, refl, ap, sym, ◌∙◌, Bool, true, false, [], ◌∷◌, ◌++◌, ltb,
  nat_beq_iff, nat_beq, if◌then◌else◌, Option, some, length, Bool-cases, inl, inr, and_iff, arith,
}
use mathlib.Core.Option
use mathlib.Core.Path.{ap₂}
use sf_processor.Prelude.Text.{Str, str}
use sf_processor.Prelude.Utf8.{is_broken, decode_rune, rune_error, valid_from}
use sf_processor.Encoders.Json.Escape.{
  escape_table, escape_ascii, escape_one, escape_from, string_no_quotes, hex_digit,
}
use sf_processor.Encoders.Json.Literal.{plain, read_literal}
use sf_processor.Encoders.Json.Escape.Runes.{Ahead, is_separator, decode_rune-Rune}
use sf_processor.Encoders.Json.Escape.Chunks.{
  kept_chunk, ascii_chunk, high_chunk, error_chunk, separator_chunk,
}

-- One round of the loop, by the kind of its first byte.
module _ (html : Bool) (c : ℕ) (s : Str) where
  abbrev decoded : ℕ × ℕ
  decoded = decode_rune (c ∷ s)

  escape_ascii_round :
      ltb c 128 ≡ true
      → escape_from html true 0 (c ∷ s)
        ≡ (if escape_table html c then c ∷ [] else escape_ascii c) ++ escape_from html true 0 s
  unfolding escape_from escape_one
  escape_ascii_round low = elim (Bool-cases (escape_table html c)) [
    | inl e ↦ simp (low, e)
    | inr e ↦ simp (low, e)
  ]

  escape_broken_round :
      ltb c 128 ≡ false
      → is_broken decoded ≡ true
      → escape_from html true 0 (c ∷ s) ≡ str "\\ufffd" ++ escape_from html true 0 s
  unfolding escape_from escape_one
  escape_broken_round high b = simp (high, b)

  escape_separator_round :
      ltb c 128 ≡ false
      → is_broken decoded ≡ false
      → is_separator decoded.0 ≡ true
      → escape_from html true 0 (c ∷ s)
        ≡ (str "\\u202" ++ hex_digit (decoded.0 % 16) ∷ [])
          ++ escape_from html false (decoded.1 - 1) s
  unfolding escape_from escape_one
  escape_separator_round high b p = simp (high, b, p)

  escape_kept_round :
      ltb c 128 ≡ false
      → is_broken decoded ≡ false
      → is_separator decoded.0 ≡ false
      → escape_from html true 0 (c ∷ s) ≡ c ∷ escape_from html true (decoded.1 - 1) s
  unfolding escape_from escape_one
  escape_kept_round high b p = simp (high, b, p)

  valid_kept : is_broken decoded ≡ false → valid_from 0 (c ∷ s) ≡ c ∷ valid_from (decoded.1 - 1) s
  unfolding valid_from
  valid_kept b = simp (b)

  valid_broken : is_broken decoded ≡ true → valid_from 0 (c ∷ s) ≡ 239 ∷ 191 ∷ 189 ∷ valid_from 0 s
  unfolding valid_from
  valid_broken b =
      let one : decoded.1 ≡ 1 =
        (nat_beq_iff decoded.1 1).0
          ((and_iff (nat_beq decoded.0 rune_error) (nat_beq decoded.1 1)).0 b).1 in
      simp b (ap (λ n. 239 ∷ 191 ∷ 189 ∷ valid_from (n - 1) s) one)

  valid_ascii : ltb c 128 ≡ true → valid_from 0 (c ∷ s) ≡ c ∷ valid_from 0 s
  unfolding valid_from decode_rune
  valid_ascii low = ground arith

  ascii_read :
      ltb c 128 ≡ true
      → read_literal plain (escape_from html true 0 (c ∷ s))
        ≡ Option.map (λ t. c ∷ t) (read_literal plain (escape_from html true 0 s))
  ascii_read low = elim (Bool-cases (escape_table html c)) [
    | inl e ↦ rw (escape_ascii_round low, e) (table_chunk e)
    | inr e ↦ rw (escape_ascii_round low, e) (ascii_chunk html c _ low)
  ]
    where
      table_chunk :
          escape_table html c ≡ true
          → read_literal plain (c ∷ escape_from html true 0 s)
            ≡ Option.map (λ t. c ∷ t) (read_literal plain (escape_from html true 0 s))
      table_chunk e =
          unfold escape_table in kept_chunk c _ (ground arith) (ground arith) (ground arith)

-- The reader's result for a text, with the bytes of a chunk in front.
in_front :
    (chunk out expected : Str) (r : Option Str)
    → r ≡ some out
    → chunk ++ out ≡ expected
    → Option.map (λ t. chunk ++ t) r ≡ some expected
in_front chunk out expected r e f = ap (Option.map (λ t. chunk ++ t)) e ∙ ap some f

-- A separator has three bytes, the last two of which are dropped and valid.
separator_rest :
    (html : Bool) (c n r : ℕ) (s s' : Str)
    → s ≡ 128 ∷ r ∷ s'
    → n ≡ 2
    → (escape_from html false n s ≡ escape_from html true 0 s')
      × (valid_from n s ≡ 128 ∷ r ∷ valid_from 0 s')
separator_rest html c n r s s' e two = rw (e, two) (both s')
  where
    both :
        (s' : Str)
        → (escape_from html false 2 (128 ∷ r ∷ s') ≡ escape_from html true 0 s')
          × (valid_from 2 (128 ∷ r ∷ s') ≡ 128 ∷ r ∷ valid_from 0 s')
    both [] = unfold escape_from in unfold valid_from in (refl, refl)
    both (d ∷ t) = unfold escape_from in unfold valid_from in (refl, refl)

-- A byte ahead is kept.
ahead_read :
    (html : Bool) (c n : ℕ) (s : Str)
    → 128 ≤ c
    → read_literal plain (escape_from html true n s) ≡ some (valid_from n s)
    → read_literal plain (escape_from html true (suc n) (c ∷ s)) ≡ some (valid_from (suc n) (c ∷ s))
unfolding escape_from valid_from
ahead_read html c n s high ih =
    high_chunk c (escape_from html true n s) high ∙ in_front (c ∷ []) (valid_from n s) _ _ ih refl

shorter : (s s' : Str) (r k : ℕ) → s ≡ 128 ∷ r ∷ s' → suc (length s) ≤ suc k → length s' ≤ k
shorter s s' r k e le = let n = ap length e in omega arith

module _ (html : Bool) (c : ℕ) (s : Str) where
  separator_read :
      (s' : Str)
      → ltb c 128 ≡ false
      → is_broken (decode_rune (c ∷ s)) ≡ false
      → is_separator (decode_rune (c ∷ s)).0 ≡ true
      → c ≡ 226
      → s ≡ 128 ∷ ((decode_rune (c ∷ s)).0 - 8064) ∷ s'
      → (decode_rune (c ∷ s)).1 - 1 ≡ 2
      → read_literal plain (escape_from html true 0 s') ≡ some (valid_from 0 s')
      → read_literal plain (escape_from html true 0 (c ∷ s)) ≡ some (valid_from 0 (c ∷ s))
  separator_read s' high b p first shape two ih =
      let r = (decode_rune (c ∷ s)).0 in
      let (out, valid) = separator_rest html c _ (r - 8064) s s' shape two in
      ap (read_literal plain) (escape_separator_round html c s high b p)
      ∙ separator_chunk r _ p
      ∙ ap (λ t. Option.map (λ t. 226 ∷ 128 ∷ (r - 8064) ∷ t) (read_literal plain t)) out
      ∙ in_front (226 ∷ 128 ∷ (r - 8064) ∷ []) (valid_from 0 s') _ _ ih
          (sym (valid_kept html c s b ∙ ap₂ (λ a t. a ∷ t) first valid))

  kept_read :
      (more : ℕ)
      → ltb c 128 ≡ false
      → is_broken (decode_rune (c ∷ s)) ≡ false
      → is_separator (decode_rune (c ∷ s)).0 ≡ false
      → (decode_rune (c ∷ s)).1 - 1 ≡ more
      → read_literal plain (escape_from html true more s) ≡ some (valid_from more s)
      → read_literal plain (escape_from html true 0 (c ∷ s)) ≡ some (valid_from 0 (c ∷ s))
  kept_read more high b q width ih =
      ap (read_literal plain)
        (escape_kept_round html c s high b q ∙ ap (λ n. c ∷ escape_from html true n s) width)
      ∙ high_chunk c _ (ground arith)
      ∙ in_front (c ∷ []) (valid_from more s) _ _ ih
          (sym (valid_kept html c s b ∙ ap (λ n. c ∷ valid_from n s) width))

escape_from-read :
    (html : Bool) (k n : ℕ) (s : Str)
    → length s ≤ k
    → Ahead n s
    → read_literal plain (escape_from html true n s) ≡ some (valid_from n s)
escape_from-read html k zero [] le h =
    unfold escape_from in unfold valid_from in unfold read_literal in refl
escape_from-read html k (suc n) [] le h = absurd h
escape_from-read html zero n (c ∷ s) le h = absurd (omega arith)
escape_from-read html (suc k) (suc n) (c ∷ s) le (high, h) =
    ahead_read html c n s high (escape_from-read html k n s (omega arith) h)
escape_from-read html (suc k) zero (c ∷ s) le h =
    let ih = escape_from-read html k zero s (omega arith) tt in
    elim (Bool-cases (ltb c 128)) [
      | inl low ↦
          ascii_read html c s low
          ∙ in_front (c ∷ []) (valid_from 0 s) _ _ ih (sym (valid_ascii html c s low))
      | inr high ↦ elim (Bool-cases (is_broken (decode_rune (c ∷ s)))) [
        | inl b ↦
            ap (read_literal plain) (escape_broken_round html c s high b)
            ∙ error_chunk (escape_from html true 0 s)
            ∙ in_front (239 ∷ 191 ∷ 189 ∷ []) (valid_from 0 s) _ _ ih
                (sym (valid_broken html c s b))
        | inr b ↦
            let r = decode_rune-Rune c s high b in
            let w = r.width in
            let open_width : (decode_rune (c ∷ s)).1 - 1 ≡ r.more = omega arith in
            elim (Bool-cases (is_separator (decode_rune (c ∷ s)).0)) [
              | inl p ↦
                  let (s', first, shape, two) = r.separator p in
                  separator_read html c s s' high b p first shape (open_width ∙ two)
                    (escape_from-read html k zero s' (shorter s s' _ k shape le) tt)
              | inr q ↦
                  kept_read html c s r.more high b q open_width
                    (escape_from-read html k r.more s (omega arith) r.ahead)
            ]
      ]
    ]

-- Between quotes, the escaped text is a JSON literal, whatever bytes it was made of, and stands for
-- the text, of which each byte that belongs to no rune became the replacement character.
pub string_no_quotes-read :
    (html : Bool) (s : Str) → read_literal plain (string_no_quotes html s) ≡ some (valid_from 0 s)
unfolding string_no_quotes
string_no_quotes-read html s = escape_from-read html (length s) zero s (omega arith) tt
