-- ===== src/Tests/Engine.antt =====
-- The theorems on contexts, quotes and criteria, at concrete values.
use sf_processor.Prelude.{arith}
use sf_processor.Prelude.Text.{Str, lower_byte}
use sf_processor.Prelude.Utf8.{decode_rune, is_space}
use sf_processor.Engine.Symlink.{parse_sym_path, scan_link, skip_space_from, is_hex, strip_zeros}
use sf_processor.Engine.Symlink.RoundTrip.{IsNumber, IsTokenFrom, parse_sym_path-print}
use sf_processor.Engine.Criterion.Telemetry.{MapsFlat}
use sf_processor.Engine.Fields.Entry.{FieldEntry}
use sf_processor.Engine.Fields.Mappers.{
  get_exported_mappers, get_mappers, global_mapper, global_mapper-MapsFlat,
}
use sf_processor.Prelude.{◌≡◌, refl, true, some, [], ◌∷◌, map, nat_eq, list_eq}
use sf_processor.Prelude.Text.{str}
use sf_processor.Engine.Record.{get_str, find_source, new_record}
use sf_processor.Prelude.Assoc.{lookup}
use sf_processor.Engine.Quotes.{trim_bounding_quotes, is_quote, trim-quoted}
use sf_processor.Engine.Mapper.{map_int, map_str, map_value, cut, value_text}
use sf_processor.Engine.Criterion.{eval, all, any, le, lt, ge, gt, in_list, pmatch, eq, contains}
use sf_processor.Engine.Criterion
use sf_processor.Engine.Criterion.Laws.{in_pmatch-any}
use sf_processor.Tests.Samples.{gjson, mapper, proc_exe, sample, sfgo}

quote : is_quote 34 ≡ true
unfolding is_quote
quote = refl

trim-quoted_example : trim_bounding_quotes (str "\"sh\"") ≡ str "sh"
trim-quoted_example = trim-quoted 34 34 (str "sh") quote quote

literal : map_str gjson mapper (str "bash") sample ≡ str "bash"
unfolding map_str map_value cut value_text lookup
literal = refl

in_pmatch-any_example :
    (eval (in_list gjson mapper proc_exe (str "bash" ∷ [])) sample
      ≡ eval (any (map (eq gjson mapper proc_exe) (str "bash" ∷ []))) sample)
    × (eval (pmatch gjson mapper proc_exe (str "bash" ∷ [])) sample
        ≡ eval (any (map (contains gjson mapper proc_exe) (str "bash" ∷ []))) sample)
in_pmatch-any_example = in_pmatch-any gjson mapper proc_exe (str "bash" ∷ []) sample (literal, tt)

le_ten : eval (le gjson mapper (str "2") (str "10")) sample ≡ true
unfolding eval le map_int map_value lookup
le_ten = refl

in_bash : eval (in_list gjson mapper proc_exe (str "zsh" ∷ str "bash" ∷ [])) sample ≡ true
unfolding eval in_list map_str map_value cut value_text get_str find_source new_record lookup
    Criterion.eq_op
in_bash = refl

deadbeef : IsNumber (str "deadbeef")
unfolding is_hex lower_byte strip_zeros
deadbeef = record {
  digits = (refl, (refl, (refl, (refl, (refl, (refl, (refl, (refl, tt))))))));
  lower = (refl, (refl, (refl, (refl, (refl, (refl, (refl, (refl, tt))))))));
  normal = refl;
  filled = omega arith;
  short = omega arith;
}

plain : IsTokenFrom 0 (str "/tmp")
unfolding is_space decode_rune
plain = (refl, refl, (refl, refl, (refl, refl, (refl, refl, tt))))

parse_sym_path-print_example :
    parse_sym_path (str "deadbeef->deadbeef /tmp") ≡ (str "/tmp", str "deadbeef->deadbeef")
parse_sym_path-print_example =
    parse_sym_path-print (str "deadbeef") (str "deadbeef") b'/' (str "tmp") deadbeef deadbeef plain

-- The form with an escaped `>`, of 20 digits behind the `u`, is not read as a link.
escaped_link :
    parse_sym_path (str "ffff9ce02054c800-\\u003effff9ce02054c000 /sock/sysflow.sock")
    ≡ (str "ffff9ce02054c800-\\u003effff9ce02054c000 /sock/sysflow.sock", [])
unfolding parse_sym_path scan_link skip_space_from decode_rune is_space
escaped_link = refl

global_mapper-MapsFlat_example :
    MapsFlat (global_mapper sfgo)
    × ((k : Str) (e : FieldEntry)
        → lookup k (get_exported_mappers sfgo) ≡ some e
        → lookup k (get_mappers sfgo) ≡ some e)
global_mapper-MapsFlat_example = global_mapper-MapsFlat sfgo
