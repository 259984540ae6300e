-- ===== src/Config/PolicyConfig.antt =====
-- core/policyengine/engine/config.go: the configuration of the policy engine.
use sf_processor.Prelude.{
  Bool, true, false, Option, none, some, [], if◌then◌else◌, list_eq, nat_eq, ◌==◌,
}
use mathlib.Core.Option.{get_or}
use sf_processor.Prelude.Int.{ℤ, pos}
use sf_processor.Prelude.Text.{Str, str}
use sf_processor.Prelude.Decimal.{atoi}
use sf_processor.Policy.Interpreter.{Mode, enrich_mode, alert_mode}
use sf_processor.Config.{Conf, text_at, seconds}

pub data MonitorType : Type 0 where
  none_type local_type : MonitorType

unfoldable pub mode_text : Mode → Str
mode_text enrich_mode = str "enrich"
mode_text alert_mode = str "alert"

unfoldable pub parse_mode_config : Str → Mode
unfolding mode_text
parse_mode_config s =
    if mode_text enrich_mode == s
    then enrich_mode
    else if mode_text alert_mode == s
    then alert_mode
    else enrich_mode

unfoldable pub monitor_text : MonitorType → Str
monitor_text none_type = str "none"
monitor_text local_type = str "local"

unfoldable pub parse_monitor_type : Str → MonitorType
unfolding monitor_text
parse_monitor_type s =
    if monitor_text none_type == s
    then none_type
    else if monitor_text local_type == s
    then local_type
    else none_type

pub record PolicyConfig : Type 0 where
  pub policies_path : Str
  pub mode : Mode
  pub version : Str
  pub json_schema_version : Str
  pub build_number : Str
  pub monitor : MonitorType
  pub monitor_interval : ℤ
  pub concurrency : ℤ
  pub action_dir : Str

abbrev or_mode : Option Str → Mode
or_mode none = alert_mode
or_mode (some v) = parse_mode_config v

abbrev or_monitor : Option Str → MonitorType
or_monitor none = none_type
or_monitor (some v) = parse_monitor_type v

-- The interval and the error so far: a text that is no number keeps the default.
unfoldable pub interval_of : Option Str → ℤ × Bool
unfolding atoi seconds
interval_of none = (seconds (pos 30), false)
interval_of (some v) =
    let (n, failed) = atoi v in if failed then (seconds (pos 30), true) else (seconds n, false)

-- The concurrency and the error: here what Atoi returns is stored also with an error, and the error
-- of the interval is overwritten.
unfoldable pub concurrency_of : Option Str → Bool → ℤ × Bool
unfolding atoi
concurrency_of none failed = (pos 5, failed)
concurrency_of (some v) failed = atoi v

unfoldable pub create_policy_config : Conf → PolicyConfig × Bool
unfolding text_at interval_of concurrency_of parse_mode_config parse_monitor_type
create_policy_config conf =
    let (interval, failed) = interval_of (text_at (str "monitor.interval") conf) in
    let (concurrency, failed') = concurrency_of (text_at (str "concurrency") conf) failed in
    (
      record {
        policies_path = get_or (text_at (str "policies") conf) [];
        mode = or_mode (text_at (str "mode") conf);
        version = get_or (text_at (str "version") conf) [];
        json_schema_version = get_or (text_at (str "jsonschemaversion") conf) [];
        build_number = get_or (text_at (str "buildnumber") conf) [];
        monitor = or_monitor (text_at (str "monitor") conf);
        monitor_interval = interval;
        concurrency = concurrency;
        action_dir = get_or (text_at (str "actiondir") conf) (str "../resources/actions");
      },
      failed',
    )
