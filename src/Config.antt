-- ===== src/Config.antt =====
-- Configuration dictionaries, and durations in nanoseconds.
pub mod PolicyConfig
pub mod FlattenerConfig
use sf_processor.Prelude.{
  ℕ, ◌*◌, ◌%◌, ◌^◌, Bool, true, false, Option, none, some, List, list_eq, nat_eq,
}
use sf_processor.Prelude.Assoc.{lookup}
use sf_processor.Prelude.Int.{ℤ, to_u64, of_u64}
use sf_processor.Prelude.Text.{Str}

-- A value of the dictionary: a text, or of another type.
pub data Setting : Type 0 where
  setting : Str → Setting
  other_setting : Setting

abbrev pub Conf : Type 0
Conf = List (Str × Setting)

-- conf[key].(string)
abbrev text_of : Option Setting → Option Str
text_of (some (setting v)) = some v
text_of _ = none

unfoldable pub text_at : Str → Conf → Option Str
text_at key conf = text_of (lookup key conf)

-- time.Duration(n) * time.Second, on int64
unfoldable pub seconds : ℤ → ℤ
seconds n = of_u64 (to_u64 n * 1000000000 % 2 ^ 64)
