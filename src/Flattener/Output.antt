-- ===== src/Flattener/Output.antt =====
-- core/flattener/flattener.go and filter.go: what the flattener sends, and the semantic hash by which
-- it tells records apart.
pub mod Duplicate
pub mod Window
use sf_processor.Prelude.{
  ℕ, zero, suc, ◌/◌, ◌%◌, ◌^◌, Bool, true, false, ◌||◌, Option, none, some, List, [], ◌∷◌, ◌++◌,
  if◌then◌else◌, ◌==◌,
}
use sf_processor.Prelude.Int.{ℤ, to_u64, int_eq}
use sf_processor.Prelude.Text.{Str}
use sf_processor.Engine.Record.{Columns}
use sf_processor.Config.FlattenerConfig.{FlattenerConfig, is_enabled}
use sf_processor.Flattener.Filter.{Filter, Clock, new_filter, test_and_add}

-- The numbers that sfgo gives to the attributes and the record types of the hash.
pub record HashAttributes : Type 0 where
  pub proc_exe_str : ℕ
  pub proc_exeargs_str : ℕ
  pub proc_uid_int : ℕ
  pub proc_gid_int : ℕ
  pub opflags_int : ℕ
  pub proc_tty_int : ℕ
  pub sf_rec_type : ℕ
  pub fl_netw_sip_int : ℕ
  pub fl_netw_dip_int : ℕ
  pub fl_netw_dport_int : ℕ
  pub fl_netw_proto_int : ℕ
  pub file_path_str : ℕ
  pub net_flow : ℤ
  pub file_flow : ℤ
  pub file_evt : ℤ

-- binary.LittleEndian.PutUint64(byteInt64, uint64(v))
unfoldable pub little_endian : ℕ → ℕ → Str
little_endian zero n = []
little_endian (suc k) n = n % 2 ^ 8 ∷ little_endian k (n / 2 ^ 8)

unfoldable pub put_int64 : ℤ → Str
unfolding little_endian
put_int64 v = little_endian 8 (to_u64 v)

-- The flattener's output: its configuration, its filter, and what was sent to an output channel.
pub record Output : Type 0 where
  pub config : FlattenerConfig
  pub filter : Option Filter
  pub sent : List Columns

-- Init, with no output yet.
unfoldable pub init : FlattenerConfig → Output
unfolding is_enabled new_filter
init config = record {
  config = config;
  filter =
      if is_enabled config.filter_on_off then some (new_filter config.filter_max_age) else none;
  sent = [];
}

module _ (a : HashAttributes) where
  -- What semanticHash writes into the hash, of the arrays of the record's one source.
  unfoldable pub semantic_bytes : Columns → Str
  unfolding put_int64
  semantic_bytes c =
      let sf_type = c.ints a.sf_rec_type in
      c.strs a.proc_exe_str
      ++ (c.strs a.proc_exeargs_str
          ++ (put_int64 (c.ints a.proc_uid_int)
              ++ (put_int64 (c.ints a.proc_gid_int)
                  ++ (put_int64 (c.ints a.opflags_int)
                      ++ (put_int64 (c.ints a.proc_tty_int)
                          ++ ((if sf_type == a.net_flow
                                then put_int64 (c.ints a.fl_netw_sip_int)
                                  ++ (put_int64 (c.ints a.fl_netw_dip_int)
                                      ++ (put_int64 (c.ints a.fl_netw_dport_int)
                                          ++ put_int64 (c.ints a.fl_netw_proto_int)))
                                else [])
                              ++ (if sf_type == a.file_flow || sf_type == a.file_evt
                                  then c.strs a.file_path_str
                                  else [])))))))

  -- `sum64` is xxhash of the bytes that were written.
  module _ (sum64 : Str → ℕ) (clock : Clock) where
    unfoldable pub semantic_hash : Columns → ℕ
    unfolding semantic_bytes
    semantic_hash c = sum64 (semantic_bytes c)

    -- The condition under which out returns early, at reading i of the clock: the filter is asked only
    -- if it is enabled and there.
    unfoldable pub is_held_back : ℕ → ℕ → Bool → Option Filter → Bool × Option Filter × ℕ
    unfolding test_and_add
    is_held_back i h false filter = (false, filter, i)
    is_held_back i h true none = (false, none, i)
    is_held_back i h true (some f) =
        let (seen, f', j) = test_and_add clock i h f in (seen, some f', j)

    -- What out does on that condition: every channel gets the record, or none.
    unfoldable pub deliver : Columns → Output → Bool × Option Filter × ℕ → Output × ℕ
    deliver c s (true, filter, j) = (record s { filter = filter }, j)
    deliver c s (false, filter, j) = (record s { filter = filter; sent = s.sent ++ c ∷ [] }, j)

    unfoldable pub out : ℕ → Columns → Output → Output × ℕ
    unfolding is_enabled semantic_hash is_held_back deliver
    out i c s =
        deliver c s (is_held_back i (semantic_hash c) (is_enabled s.config.filter_on_off) s.filter)

    -- The records of the handlers, one after the other.
    unfoldable pub out_all : ℕ → List Columns → Output → Output × ℕ
    unfolding out
    out_all i [] s = (s, i)
    out_all i (c ∷ cs) s = let (s', j) = out i c s in out_all j cs s'
