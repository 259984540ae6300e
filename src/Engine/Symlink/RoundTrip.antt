-- ===== src/Engine/Symlink/RoundTrip.antt =====
-- core/policyengine/engine/utils.go: a link that is written with `->` is read back.
use sf_processor.Prelude.{
  ℕ, zero, suc, ◌-◌, ◌≤◌, ◌∙◌, ◌≡◌, refl, ap, Bool, true, false, some, [], ◌∷◌, ◌++◌, All, length,
  nat_beq, arith, nat_eq, list_eq,
}
use mathlib.Core.Path.{ap₂}
use mathlib.Core.List.{append_assoc}
use sf_processor.Prelude.Text.{Str, str, lower_byte, to_lower}
use sf_processor.Prelude.Utf8.{decode_rune, is_broken, is_space}
use sf_processor.Engine.Symlink.{
  is_hex, skip_space_from, skip_space, span, strip_zeros, scan_hex, expect, some_space, token_from,
  scan_token, scan_link, parse_sym_path,
}

-- A hexadecimal numeral of 64 bits, as `%x` prints it.
pub record IsNumber (a : Str) : Type 0 where
  pub digits : All (λ c. is_hex c ≡ true) a
  pub lower : All (λ c. lower_byte c ≡ c) a
  pub normal : strip_zeros a ≡ a
  pub filled : 1 ≤ length a
  pub short : length a ≤ 16

-- The text is of runes that are no white space; `n` bytes of a rune are ahead.
abbrev pub IsTokenFrom : ℕ → Str → Type 0
IsTokenFrom n [] = Unit
IsTokenFrom zero (c ∷ s) =
    (is_space (decode_rune (c ∷ s)).0 ≡ false)
    × (is_broken (decode_rune (c ∷ s)) ≡ false)
    × IsTokenFrom ((decode_rune (c ∷ s)).1 - 1) s
IsTokenFrom (suc n) (c ∷ s) = IsTokenFrom n s

span-append :
    (p : ℕ → Bool) (a : Str) (c : ℕ) (s : Str)
    → All (λ d. p d ≡ true) a
    → p c ≡ false
    → span p (a ++ c ∷ s) ≡ (a, c ∷ s)
unfolding span
span-append p [] c s h e = rw e
span-append p (d ∷ a) c s (q, h) e = rw q (ap (λ r. (d ∷ r.0, r.1)) (span-append p a c s h e))

span-all : (p : ℕ → Bool) (a : Str) → All (λ d. p d ≡ true) a → span p a ≡ (a, [])
unfolding span
span-all p [] h = refl
span-all p (d ∷ a) (q, h) = rw q (ap (λ r. (d ∷ r.0, r.1)) (span-all p a h))

to_lower-same : (a : Str) → All (λ c. lower_byte c ≡ c) a → to_lower a ≡ a
unfolding to_lower
to_lower-same [] h = refl
to_lower-same (c ∷ a) (e, h) = ap₂ (λ d b. d ∷ b) e (to_lower-same a h)

-- A rune that is no white space is no newline.
no_newline : (r : ℕ) → is_space r ≡ false → nat_beq r 10 ≡ false
unfolding is_space
no_newline r h = ground arith

hex_rune : (c : ℕ) (s : Str) → is_hex c ≡ true → (decode_rune (c ∷ s)).0 ≡ c
unfolding decode_rune is_hex
hex_rune c s h = ground arith

hex_space : (c : ℕ) → is_hex c ≡ true → is_space c ≡ false
unfolding is_hex is_space
hex_space c h = ground arith

skip_space-visible :
    (c : ℕ) (s : Str) → is_space (decode_rune (c ∷ s)).0 ≡ false → skip_space (c ∷ s) ≡ some (c ∷ s)
unfolding skip_space_from
skip_space-visible c s h = rw (no_newline (decode_rune (c ∷ s)).0 h, h) refl

skip_space-hex : (c : ℕ) (s : Str) → is_hex c ≡ true → skip_space (c ∷ s) ≡ some (c ∷ s)
skip_space-hex c s h =
    skip_space-visible c s (ap (λ r. is_space r) (hex_rune c s h) ∙ hex_space c h)

skip_space-number :
    (a : Str) (c : ℕ) (s : Str) → IsNumber a → skip_space (a ++ c ∷ s) ≡ some (a ++ c ∷ s)
skip_space-number [] c s h = absurd (omega (arith, h.filled))
skip_space-number (d ∷ a) c s h = skip_space-hex d (a ++ c ∷ s) h.digits.0

scan_hex-number :
    (a : Str) (c : ℕ) (s : Str)
    → IsNumber a
    → is_hex c ≡ false
    → scan_hex (a ++ c ∷ s) ≡ some (a, c ∷ s)
unfolding scan_hex
scan_hex-number a c s h stop =
    rw
      (
        skip_space-number a c s h,
        span-append is_hex a c s h.digits stop,
        to_lower-same a h.lower,
        h.normal,
      )
      (ground (arith, h.filled, h.short))

token_from-same : (n : ℕ) (s : Str) → IsTokenFrom n s → token_from n s ≡ s
unfolding token_from
token_from-same n [] h = refl
token_from-same zero (c ∷ s) (visible, whole, h) =
    rw (visible, whole) (ap (λ t. c ∷ t) (token_from-same ((decode_rune (c ∷ s)).1 - 1) s h))
token_from-same (suc n) (c ∷ s) h = ap (λ t. c ∷ t) (token_from-same n s h)

scan_token-path : (c : ℕ) (p : Str) → IsTokenFrom 0 (c ∷ p) → scan_token (c ∷ p) ≡ some (c ∷ p)
unfolding scan_token
scan_token-path c p h = rw (skip_space-visible c p h.0, token_from-same 0 (c ∷ p) h) (ground arith)

blank_path :
    (c : ℕ) (p : Str)
    → is_space (decode_rune (c ∷ p)).0 ≡ false
    → some_space (b' ' ∷ c ∷ p) ≡ some (c ∷ p)
unfolding some_space skip_space_from decode_rune is_space
blank_path c p h = skip_space-visible c p h

scan_link-print :
    (a b : Str) (c : ℕ) (p : Str)
    → IsNumber a
    → IsNumber b
    → IsTokenFrom 0 (c ∷ p)
    → scan_link (str "->") (a ++ (b'-' ∷ b'>' ∷ (b ++ b' ' ∷ c ∷ p)))
      ≡ some (c ∷ p, a ++ (b'-' ∷ b'>' ∷ b))
unfolding scan_link expect is_hex
scan_link-print a b c p ha hb hp =
    rw
      (
        scan_hex-number a b'-' (b'>' ∷ (b ++ b' ' ∷ c ∷ p)) ha refl,
        scan_hex-number b b' ' (c ∷ p) hb refl,
        blank_path c p hp.0,
        scan_token-path c p hp,
      )
      (ap (λ l. some (c ∷ p, l)) (append_assoc a (str "->") b))

-- A link of two numbers, written with `->` before the path of its target, is split into that path
-- and the link, if the path is a text in UTF-8, is not empty and has no white space of Unicode.
pub parse_sym_path-print :
    (a b : Str) (c : ℕ) (p : Str)
    → IsNumber a
    → IsNumber b
    → IsTokenFrom 0 (c ∷ p)
    → parse_sym_path (a ++ (b'-' ∷ b'>' ∷ (b ++ b' ' ∷ c ∷ p))) ≡ (c ∷ p, a ++ (b'-' ∷ b'>' ∷ b))
unfolding parse_sym_path
parse_sym_path-print a b c p ha hb hp = rw (scan_link-print a b c p ha hb hp)
