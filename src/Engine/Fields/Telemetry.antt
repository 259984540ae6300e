-- ===== src/Engine/Fields/Telemetry.antt =====
-- core/policyengine/engine/fieldmapper.go: every field map sees the telemetry of a record only.
use sf_processor.Prelude.{ℕ, refl, ap, ◌∙◌, List, [], ◌∷◌, ◌++◌}
use sf_processor.Prelude.Int.{ℤ, pos, add64}
use sf_processor.Prelude.Text.{Str}
use sf_processor.Engine.Record.{ReadsFlat, RecAttribute, text, int64, get_int, get_str}
use sf_processor.Engine.Fields.{
  Sfgo, sum_from, map_sum, join_from, map_join, map_str_attr, map_int_attr, map_int_array_attr,
  map_svc_array_attr, map_name, map_path, map_symlink, map_dir, map_repo, map_entry, map_port,
  map_cached_value, map_consts, map_rec_type, map_op_flags, map_evt_type, map_ret, map_end_ts,
  map_file_type, map_is_open_write, map_is_open_read, map_open_flags, map_proto, map_ip,
  map_cont_type, map_action, map_kind, map_oid,
}

get_int-ReadsFlat : (attr src : ℕ) → ReadsFlat (λ r. get_int r attr src)
unfolding get_int
get_int-ReadsFlat attr src r s e = ap (λ q. get_int (record r { fr = q }) attr src) e

get_str-ReadsFlat : (attr src : ℕ) → ReadsFlat (λ r. get_str r attr src)
unfolding get_str
get_str-ReadsFlat attr src r s e = ap (λ q. get_str (record r { fr = q }) attr src) e

sum_from-ReadsFlat : (sum : ℤ) (src : ℕ) (attrs : List ℕ) → ReadsFlat (sum_from sum src attrs)
unfolding sum_from
sum_from-ReadsFlat sum src [] r s e = refl
sum_from-ReadsFlat sum src (attr ∷ attrs) r s e =
    sum_from-ReadsFlat (add64 sum (get_int r attr src)) src attrs r s e
    ∙ ap (λ v. sum_from (add64 sum v) src attrs s) (get_int-ReadsFlat attr src r s e)

join_from-ReadsFlat : (acc : Str) (src : ℕ) (attrs : List ℕ) → ReadsFlat (join_from acc src attrs)
unfolding join_from
join_from-ReadsFlat acc src [] r s e = refl
join_from-ReadsFlat acc src (attr ∷ attrs) r s e =
    join_from-ReadsFlat (acc ++ (b' ' ∷ get_str r attr src)) src attrs r s e
    ∙ ap (λ v. join_from (acc ++ (b' ' ∷ v)) src attrs s) (get_str-ReadsFlat attr src r s e)

pub map_sum-ReadsFlat : (src : ℕ) (attrs : List ℕ) → ReadsFlat (map_sum src attrs)
unfolding map_sum
map_sum-ReadsFlat src attrs r s e = ap int64 (sum_from-ReadsFlat (pos 0) src attrs r s e)

pub map_join-ReadsFlat : (src attr : ℕ) (attrs : List ℕ) → ReadsFlat (map_join src attr attrs)
unfolding map_join
map_join-ReadsFlat src attr attrs r s e = ap text (
    join_from-ReadsFlat (get_str r attr src) src attrs r s e
    ∙ ap (λ v. join_from v src attrs s) (get_str-ReadsFlat attr src r s e))

-- The field maps that read one attribute, several, or the process tree.
pub map_str_attr-ReadsFlat : (src attr : ℕ) → ReadsFlat (map_str_attr src attr)
unfolding map_str_attr
map_str_attr-ReadsFlat src attr r s e = ap (λ q. map_str_attr src attr (record r { fr = q })) e

pub map_int_attr-ReadsFlat : (src attr : ℕ) → ReadsFlat (map_int_attr src attr)
unfolding map_int_attr
map_int_attr-ReadsFlat src attr r s e = ap (λ q. map_int_attr src attr (record r { fr = q })) e

pub map_int_array_attr-ReadsFlat : (src attr : ℕ) → ReadsFlat (map_int_array_attr src attr)
unfolding map_int_array_attr
map_int_array_attr-ReadsFlat src attr r s e =
    ap (λ q. map_int_array_attr src attr (record r { fr = q })) e

pub map_svc_array_attr-ReadsFlat : (src attr : ℕ) → ReadsFlat (map_svc_array_attr src attr)
unfolding map_svc_array_attr
map_svc_array_attr-ReadsFlat src attr r s e =
    ap (λ q. map_svc_array_attr src attr (record r { fr = q })) e

pub map_name-ReadsFlat : (src attr : ℕ) → ReadsFlat (map_name src attr)
unfolding map_name
map_name-ReadsFlat src attr r s e = ap (λ q. map_name src attr (record r { fr = q })) e

pub map_path-ReadsFlat : (src attr : ℕ) → ReadsFlat (map_path src attr)
unfolding map_path
map_path-ReadsFlat src attr r s e = ap (λ q. map_path src attr (record r { fr = q })) e

pub map_symlink-ReadsFlat : (src attr : ℕ) → ReadsFlat (map_symlink src attr)
unfolding map_symlink
map_symlink-ReadsFlat src attr r s e = ap (λ q. map_symlink src attr (record r { fr = q })) e

pub map_dir-ReadsFlat : (src attr : ℕ) → ReadsFlat (map_dir src attr)
unfolding map_dir
map_dir-ReadsFlat src attr r s e = ap (λ q. map_dir src attr (record r { fr = q })) e

pub map_repo-ReadsFlat : (src attr : ℕ) → ReadsFlat (map_repo src attr)
unfolding map_repo
map_repo-ReadsFlat src attr r s e = ap (λ q. map_repo src attr (record r { fr = q })) e

pub map_entry-ReadsFlat : (src attr : ℕ) → ReadsFlat (map_entry src attr)
unfolding map_entry
map_entry-ReadsFlat src attr r s e = ap (λ q. map_entry src attr (record r { fr = q })) e

pub map_port-ReadsFlat : (src : ℕ) (attrs : List ℕ) → ReadsFlat (map_port src attrs)
unfolding map_port
map_port-ReadsFlat src attrs r s e = ap (λ q. map_port src attrs (record r { fr = q })) e

pub map_cached_value-ReadsFlat :
    (src : ℕ) (rec_attr : RecAttribute) → ReadsFlat (map_cached_value src rec_attr)
unfolding map_cached_value
map_cached_value-ReadsFlat src rec_attr r s e =
    ap (λ q. map_cached_value src rec_attr (record r { fr = q })) e

pub map_consts-ReadsFlat : (consts : List Str) → ReadsFlat (map_consts consts)
unfolding map_consts
map_consts-ReadsFlat consts r s e = ap (λ q. map_consts consts (record r { fr = q })) e

pub map_rec_type-ReadsFlat : (sfgo : Sfgo) (src : ℕ) → ReadsFlat (map_rec_type sfgo src)
unfolding map_rec_type
map_rec_type-ReadsFlat sfgo src r s e = ap (λ q. map_rec_type sfgo src (record r { fr = q })) e

pub map_op_flags-ReadsFlat : (sfgo : Sfgo) (src : ℕ) → ReadsFlat (map_op_flags sfgo src)
unfolding map_op_flags
map_op_flags-ReadsFlat sfgo src r s e = ap (λ q. map_op_flags sfgo src (record r { fr = q })) e

pub map_evt_type-ReadsFlat : (sfgo : Sfgo) (src : ℕ) → ReadsFlat (map_evt_type sfgo src)
unfolding map_evt_type
map_evt_type-ReadsFlat sfgo src r s e = ap (λ q. map_evt_type sfgo src (record r { fr = q })) e

pub map_ret-ReadsFlat : (sfgo : Sfgo) (src : ℕ) → ReadsFlat (map_ret sfgo src)
unfolding map_ret
map_ret-ReadsFlat sfgo src r s e = ap (λ q. map_ret sfgo src (record r { fr = q })) e

pub map_end_ts-ReadsFlat : (sfgo : Sfgo) (src : ℕ) → ReadsFlat (map_end_ts sfgo src)
unfolding map_end_ts
map_end_ts-ReadsFlat sfgo src r s e = ap (λ q. map_end_ts sfgo src (record r { fr = q })) e

pub map_file_type-ReadsFlat : (sfgo : Sfgo) (src attr : ℕ) → ReadsFlat (map_file_type sfgo src attr)
unfolding map_file_type
map_file_type-ReadsFlat sfgo src attr r s e =
    ap (λ q. map_file_type sfgo src attr (record r { fr = q })) e

pub map_is_open_write-ReadsFlat :
    (sfgo : Sfgo) (src attr : ℕ) → ReadsFlat (map_is_open_write sfgo src attr)
unfolding map_is_open_write
map_is_open_write-ReadsFlat sfgo src attr r s e =
    ap (λ q. map_is_open_write sfgo src attr (record r { fr = q })) e

pub map_is_open_read-ReadsFlat :
    (sfgo : Sfgo) (src attr : ℕ) → ReadsFlat (map_is_open_read sfgo src attr)
unfolding map_is_open_read
map_is_open_read-ReadsFlat sfgo src attr r s e =
    ap (λ q. map_is_open_read sfgo src attr (record r { fr = q })) e

pub map_open_flags-ReadsFlat :
    (sfgo : Sfgo) (src attr : ℕ) → ReadsFlat (map_open_flags sfgo src attr)
unfolding map_open_flags
map_open_flags-ReadsFlat sfgo src attr r s e =
    ap (λ q. map_open_flags sfgo src attr (record r { fr = q })) e

pub map_proto-ReadsFlat : (sfgo : Sfgo) (src attr : ℕ) → ReadsFlat (map_proto sfgo src attr)
unfolding map_proto
map_proto-ReadsFlat sfgo src attr r s e = ap (λ q. map_proto sfgo src attr (record r { fr = q })) e

pub map_ip-ReadsFlat : (sfgo : Sfgo) (src : ℕ) (attrs : List ℕ) → ReadsFlat (map_ip sfgo src attrs)
unfolding map_ip
map_ip-ReadsFlat sfgo src attrs r s e = ap (λ q. map_ip sfgo src attrs (record r { fr = q })) e

pub map_cont_type-ReadsFlat : (sfgo : Sfgo) (src attr : ℕ) → ReadsFlat (map_cont_type sfgo src attr)
unfolding map_cont_type
map_cont_type-ReadsFlat sfgo src attr r s e =
    ap (λ q. map_cont_type sfgo src attr (record r { fr = q })) e

pub map_action-ReadsFlat : (sfgo : Sfgo) (src attr : ℕ) → ReadsFlat (map_action sfgo src attr)
unfolding map_action
map_action-ReadsFlat sfgo src attr r s e =
    ap (λ q. map_action sfgo src attr (record r { fr = q })) e

pub map_kind-ReadsFlat : (sfgo : Sfgo) (src attr : ℕ) → ReadsFlat (map_kind sfgo src attr)
unfolding map_kind
map_kind-ReadsFlat sfgo src attr r s e = ap (λ q. map_kind sfgo src attr (record r { fr = q })) e

pub map_oid-ReadsFlat :
    (sfgo : Sfgo) (src : ℕ) (attrs : List ℕ) → ReadsFlat (map_oid sfgo src attrs)
unfolding map_oid
map_oid-ReadsFlat sfgo src attrs r s e = ap (λ q. map_oid sfgo src attrs (record r { fr = q })) e
