-- ===== src/Engine/Symlink.antt =====
-- core/policyengine/engine/utils.go: parseSymPath, with what fmt.Sscanf does for its two formats.
pub mod RoundTrip
use sf_processor.Prelude.{
  ℕ, zero, suc, ◌-◌, ◌+◌, leb, nat_beq, Bool, true, false, ◌&&◌, ◌||◌, Option, none, some, List, [],
  ◌∷◌, ◌++◌, length, if◌then◌else◌, ◌>>=◌, list_eq, nat_eq, ◌==◌,
}
use sf_processor.Prelude.Text.{Str, str, lower_byte, to_lower}
use sf_processor.Prelude.Utf8.{decode_rune, is_broken, is_space, replacement}

unfoldable pub is_hex : ℕ → Bool
is_hex c = (leb b'0' c && leb c b'9') || (leb b'a' c && leb c b'f') || (leb b'A' c && leb c b'F')

-- SkipSpace: a newline is an error. The scanner reads runes; `n` bytes of a space are ahead.
unfoldable pub skip_space_from : ℕ → Str → Option Str
skip_space_from n [] = some []
skip_space_from zero (c ∷ s) =
    let (rune, width) = decode_rune (c ∷ s) in
    let rest = skip_space_from (width - 1) s in
    if nat_beq rune 10 then none else if is_space rune then rest else some (c ∷ s)
skip_space_from (suc n) (c ∷ s) = skip_space_from n s

abbrev pub skip_space : Str → Option Str
skip_space s = skip_space_from 0 s

-- The longest prefix of which every byte passes the test, and what is behind it.
unfoldable pub span : (ℕ → Bool) → Str → Str × Str
span p [] = ([], [])
span p (c ∷ s) = let (front, back) = span p s in if p c then (c ∷ front, back) else ([], c ∷ s)

-- A numeral without its leading zeros, as `%x` prints its number.
unfoldable pub strip_zeros : Str → Str
strip_zeros [] = []
strip_zeros (c ∷ []) = c ∷ []
strip_zeros (c ∷ d ∷ s) =
    let rest = strip_zeros (d ∷ s) in if nat_beq c b'0' then rest else c ∷ d ∷ s

-- `%x` into a uint64: the number as `%x` prints it, and the rest. A number of more than 64 bits is
-- an error.
unfoldable pub scan_hex : Str → Option (Str × Str)
unfolding span is_hex strip_zeros to_lower
scan_hex s = do
  t ← skip_space s
  let (digits, rest) = span is_hex t
  let number = strip_zeros (to_lower digits)
  if leb 1 (length digits) && leb (length number) 16 then some (number, rest) else none

-- The bytes of the format that stand for themselves.
unfoldable pub expect : Str → Str → Option Str
expect [] s = some s
expect (f ∷ fs) [] = none
expect (f ∷ fs) (c ∷ s) = let rest = expect fs s in if nat_beq f c then rest else none

-- A space of the format: one space or more, but no newline.
unfoldable pub some_space : Str → Option Str
some_space [] = some []
some_space (c ∷ s) = if is_space (decode_rune (c ∷ s)).0 then skip_space (c ∷ s) else none

-- The runes up to a space or a newline, where a byte that belongs to no rune is replaced; `n` bytes
-- of a rune are ahead.
unfoldable pub token_from : ℕ → Str → Str
token_from n [] = []
token_from zero (c ∷ s) =
    let (rune, width) = decode_rune (c ∷ s) in
    let rest = token_from (width - 1) s in
    if is_space rune then [] else (if is_broken (rune, width) then replacement else c ∷ []) ++ rest
token_from (suc n) (c ∷ s) = c ∷ token_from n s

-- `%s`: a text of one rune or more, up to a space or a newline.
unfoldable pub scan_token : Str → Option Str
unfolding token_from
scan_token s = do
  t ← skip_space s
  let token = token_from 0 t
  if leb 1 (length token) then some token else none

-- fmt.Sscanf(orig, "%x" ++ arrow ++ "%x %s", &src, &dst, &targetPath): the path and the link.
unfoldable pub scan_link : Str → Str → Option (Str × Str)
unfolding scan_hex expect some_space scan_token
scan_link arrow orig = do
  (src, after_src) ← scan_hex orig
  after_arrow ← expect arrow after_src
  (dst, after_dst) ← scan_hex after_arrow
  blank ← some_space after_dst
  path ← scan_token blank
  some (path, src ++ arrow ++ dst)

-- parseSymPath: the target path and the link, which is empty for a plain path.
abbrev or_plain : Str → Option (Str × Str) → Str × Str
or_plain orig none = (orig, [])
or_plain orig (some link) = link

abbrev or_try {ℓ} : {A : Type ℓ} → Option A → Option A → Option A
or_try none b = b
or_try (some a) b = some a

unfoldable pub parse_sym_path : Str → Str × Str
unfolding scan_link
parse_sym_path orig =
    or_plain orig (or_try (scan_link (str "->") orig) (scan_link (str "-\\u") orig))
