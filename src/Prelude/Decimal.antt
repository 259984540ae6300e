-- ===== src/Prelude/Decimal.antt =====
-- strconv.FormatInt and strconv.ParseInt in base ten, on int64.
use sf_processor.Prelude.Tests.{ltb, leb, nat_beq, if◌then◌else◌}
use sf_processor.Prelude.Int.{ℤ, pos, negsuc}
use sf_processor.Prelude.Text.{Str}
use Prim.Native.Nat.{ℕ, zero, suc, ◌+◌, ◌-◌, ◌*◌, ◌/◌, ◌%◌, ◌^◌}
use mathlib.Core.Bool.{Bool, true, false, ◌&&◌}
use mathlib.Core.Option.{Option, none, some}
use mathlib.Core.Option
use mathlib.Core.List.{[], ◌∷◌}

-- The digits of n in front of `acc`; the fuel is above the number of digits.
pub digits_onto : ℕ → ℕ → Str → Str
digits_onto zero n acc = acc
digits_onto (suc f) n acc =
    let more = digits_onto f (n / 10) ((b'0' + n % 10) ∷ acc) in
    if ltb n 10 then (b'0' + n) ∷ acc else more

unfoldable pub format_nat : ℕ → Str
unfolding digits_onto
format_nat n = digits_onto (suc n) n []

unfoldable pub format_int : ℤ → Str
unfolding format_nat
format_int (pos n) = format_nat n
format_int (negsuc n) = b'-' ∷ format_nat (suc n)

-- The digit loop: `none` on a byte that is no digit.
pub read_digits : ℕ → Str → Option ℕ
read_digits acc [] = some acc
read_digits acc (c ∷ s) =
    let rest = read_digits (acc * 10 + (c - b'0')) s in
    if leb b'0' c && leb c b'9' then rest else none

-- ErrSyntax on the empty text, ErrRange past the limit.
abbrev pub below : ℕ → Option ℕ → Option ℕ
below limit none = none
below limit (some n) = if ltb n limit then some n else none

unfoldable pub parse_unsigned : ℕ → Str → Option ℕ
unfolding read_digits
parse_unsigned limit [] = none
parse_unsigned limit (c ∷ s) = below limit (read_digits 0 (c ∷ s))

abbrev pub negate_nat : ℕ → ℤ
negate_nat zero = pos 0
negate_nat (suc n) = negsuc n

-- strconv.ParseInt(s, 10, 64); `none` is an error.
unfoldable pub parse_int : Str → Option ℤ
unfolding parse_unsigned
parse_int [] = none
parse_int (c ∷ s) =
    if nat_beq c b'-'
    then Option.map negate_nat (parse_unsigned (2 ^ 63 + 1) s)
    else if nat_beq c b'+'
    then Option.map pos (parse_unsigned (2 ^ 63) s)
    else Option.map pos (parse_unsigned (2 ^ 63) (c ∷ s))

-- What ParseInt returns along with an error: the bound that is passed, or zero for bad syntax.
abbrev bound_or_zero : ℤ → Str → ℤ
bound_or_zero bound [] = pos 0
bound_or_zero bound (c ∷ s) = elim (read_digits 0 (c ∷ s)) [ none ↦ pos 0 | some _ ↦ bound ]

unfoldable pub on_error : Str → ℤ
unfolding read_digits
on_error [] = pos 0
on_error (c ∷ s) =
    if nat_beq c b'-'
    then bound_or_zero (negsuc (2 ^ 63 - 1)) s
    else if nat_beq c b'+'
    then bound_or_zero (pos (2 ^ 63 - 1)) s
    else bound_or_zero (pos (2 ^ 63 - 1)) (c ∷ s)

-- strconv.Atoi, and whether it fails.
unfoldable pub atoi : Str → ℤ × Bool
unfolding parse_int on_error
atoi s = elim (parse_int s) [ some v ↦ (v, false) | none ↦ (on_error s, true) ]
