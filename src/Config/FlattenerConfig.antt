-- ===== src/Config/FlattenerConfig.antt =====
-- core/flattener/config.go: the configuration of the flattener's filter.
use sf_processor.Prelude.{
  Bool, true, false, Option, none, some, if◌then◌else◌, list_eq, nat_eq, ◌==◌,
}
use sf_processor.Prelude.Int.{ℤ, pos}
use sf_processor.Prelude.Text.{Str, str}
use sf_processor.Prelude.Decimal.{atoi}
use sf_processor.Config.{Conf, text_at, seconds}

pub data OnOff : Type 0 where
  off on : OnOff

unfoldable pub on_off_text : OnOff → Str
on_off_text off = str "off"
on_off_text on = str "on"

unfoldable pub is_enabled : OnOff → Bool
is_enabled off = false
is_enabled on = true

unfoldable pub parse_on_off_type : Str → OnOff
unfolding on_off_text
parse_on_off_type s = if on_off_text off == s then off else if on_off_text on == s then on else off

pub record FlattenerConfig : Type 0 where
  pub filter_on_off : OnOff
  pub filter_max_age : ℤ

abbrev or_off : Option Str → OnOff
or_off none = off
or_off (some v) = parse_on_off_type v

-- 24 hours, which a text that is no number keeps.
unfoldable pub max_age_of : Option Str → ℤ × Bool
unfolding atoi seconds
max_age_of none = (seconds (pos 86400), false)
max_age_of (some v) =
    let (n, failed) = atoi v in if failed then (seconds (pos 86400), true) else (seconds n, false)

unfoldable pub create_flattener_config : Conf → FlattenerConfig × Bool
unfolding text_at max_age_of parse_on_off_type
create_flattener_config conf =
    let (age, failed) = max_age_of (text_at (str "filter.maxage") conf) in
    (
      record { filter_on_off = or_off (text_at (str "filter.enabled") conf); filter_max_age = age },
      failed,
    )
