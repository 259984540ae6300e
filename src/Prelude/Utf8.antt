-- ===== src/Prelude/Utf8.antt =====
-- Package unicode/utf8: the decoding of one rune, and the encoding of the runes below 2^16.
use sf_processor.Prelude.Tests.{ltb, leb, nat_beq, if◌then◌else◌}
use sf_processor.Prelude.Text.{Str}
use Prim.Native.Nat.{ℕ, zero, suc, ◌+◌, ◌-◌, ◌*◌, ◌/◌, ◌%◌}
use mathlib.Core.Bool.{Bool, ◌&&◌, ◌||◌}
use mathlib.Core.List.{[], ◌∷◌, ◌++◌}

-- What a first byte announces.
pub data Lead : Type 0 where
  bad_lead two_bytes three_bytes four_bytes : Lead

abbrev pub between : ℕ → ℕ → ℕ → Bool
between lo hi c = leb lo c && leb c hi

abbrev pub lead : ℕ → Lead
lead c =
    if between 194 223 c
    then two_bytes
    else if between 224 239 c
    then three_bytes
    else if between 240 244 c
    then four_bytes
    else bad_lead

-- The least and the largest second byte: no overlong form, no surrogate, nothing past the last rune.
abbrev pub second_of : ℕ → ℕ → Bool
second_of c d =
    between (if nat_beq c 224 then 160 else if nat_beq c 240 then 144 else 128)
      (if nat_beq c 237 then 159 else if nat_beq c 244 then 143 else 191) d

-- utf8.RuneError
abbrev pub rune_error : ℕ
rune_error = 65533

-- The bytes behind the first one.
unfoldable pub decode_more : Lead → ℕ → Str → ℕ × ℕ
decode_more two_bytes c (d ∷ s) =
    if between 128 191 d then ((c - 192) * 64 + (d - 128), 2) else (rune_error, 1)
decode_more three_bytes c (d ∷ e ∷ s) =
    if second_of c d && between 128 191 e
    then ((c - 224) * 4096 + ((d - 128) * 64 + (e - 128)), 3)
    else (rune_error, 1)
decode_more four_bytes c (d ∷ e ∷ f ∷ s) =
    if second_of c d && (between 128 191 e && between 128 191 f)
    then ((c - 240) * 262144 + ((d - 128) * 4096 + ((e - 128) * 64 + (f - 128))), 4)
    else (rune_error, 1)
decode_more _ c s = (rune_error, 1)

-- utf8.DecodeRuneInString: a rune and its width.
unfoldable pub decode_rune : Str → ℕ × ℕ
unfolding decode_more
decode_rune [] = (rune_error, 0)
decode_rune (c ∷ s) = if ltb c 128 then (c, 1) else decode_more (lead c) c s

-- The white space of package fmt, which is that of unicode.IsSpace.
unfoldable pub is_space : ℕ → Bool
is_space r =
    between 9 13 r
    || (nat_beq r 32
        || (nat_beq r 133
            || (nat_beq r 160
                || (nat_beq r 5760
                    || (between 8192 8202 r
                        || (between 8232 8233 r
                            || (nat_beq r 8239 || (nat_beq r 8287 || nat_beq r 12288))))))))

-- The byte at the start of the text belongs to no rune.
abbrev pub is_broken : ℕ × ℕ → Bool
is_broken (r, w) = nat_beq r rune_error && nat_beq w 1

-- The replacement character as bytes.
abbrev pub replacement : Str
replacement = 239 ∷ 191 ∷ 189 ∷ []

-- utf8.AppendRune
unfoldable pub encode_rune : ℕ → Str
encode_rune r =
    if ltb r 128
    then r ∷ []
    else if ltb r 2048
    then (192 + r / 64) ∷ (128 + r % 64) ∷ []
    else (224 + r / 4096) ∷ (128 + (r / 64) % 64) ∷ (128 + r % 64) ∷ []

-- The text with each byte that belongs to no rune replaced by the replacement character; `n` bytes
-- of a rune are ahead.
unfoldable pub valid_from : ℕ → Str → Str
valid_from n [] = []
valid_from zero (c ∷ s) =
    let (rune, width) = decode_rune (c ∷ s) in
    (if is_broken (rune, width) then replacement else c ∷ []) ++ valid_from (width - 1) s
valid_from (suc n) (c ∷ s) = c ∷ valid_from n s
