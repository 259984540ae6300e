-- ===== src/Tests/Flattener.antt =====
-- The filter of semantic hashes, with a clock of one nanosecond for each reading.
use sf_processor.Prelude.{
  ◌≡◌, ◌-◌, ◌+◌, ◌↔◌, ℕ, Bool, if◌then◌else◌, refl, true, false, none, some, [], ◌∷◌, ◌++◌, nat_beq,
  nat_eq,
}
use sf_processor.Prelude.Assoc.{lookup, insert}
use sf_processor.Prelude.Int.{pos}
use sf_processor.Prelude.Text.{Str}
use sf_processor.Engine.Record.{Columns}
use sf_processor.Config.FlattenerConfig.{OnOff, on, off, is_enabled}
use sf_processor.Flattener.Filter.{
  Filter, Clock, queued, test, test_and_add, is_young, evict_aged_entries, evict_loop,
}
use sf_processor.Flattener.Filter.Evict.{IsMonotone}
use sf_processor.Flattener.Filter.Window.{IsValid, HasWindow, test-HasWindow}
use sf_processor.Flattener.Filter.Add.{evicted_filter, one_more, test_and_add-counts}
use sf_processor.Flattener.Output.{
  HashAttributes, Output, little_endian, put_int64, semantic_bytes, semantic_hash, is_held_back,
  deliver, out, out_all,
}
use sf_processor.Flattener.Output.Duplicate.{out-duplicate}
use sf_processor.Flattener.Output.Window.{out_all-disabled, out-HasWindow}
use sf_processor.Flattener.Filter.Repeat.{second-test_and_add}

abbrev clock : Clock
clock = λ i. i

mono : IsMonotone clock
mono = λ i j le. le

abbrev filter : Filter
filter = record { m = []; q = []; ttl = pos 5 }

valid : IsValid clock 0 filter
unfolding lookup
valid = record { agree = λ h. refl; distinct = tt; sorted = tt; past = tt }

unseen : (test_and_add clock 0 7 filter).0 ≡ false
unfolding test_and_add evict_aged_entries evict_loop lookup
unseen = refl

test_and_add-counts_example :
    IsValid clock (test_and_add clock 0 7 filter).2 (test_and_add clock 0 7 filter).1
    × ((test_and_add clock 0 7 filter).0 ≡ queued 7 (evicted_filter clock mono 0 7 filter valid).q)
    × ((x : ℕ)
        → lookup x (test_and_add clock 0 7 filter).1.m ≡ (
            if nat_beq 7 x
            then some (one_more (lookup 7 (evicted_filter clock mono 0 7 filter valid).m))
            else lookup x (evicted_filter clock mono 0 7 filter valid).m))
test_and_add-counts_example = test_and_add-counts clock mono 0 7 filter valid

test-HasWindow_example :
    ((test clock 0 7 filter).0 ≡ true ↔ HasWindow clock mono 0 filter valid 7)
    × ((test_and_add clock 0 7 filter).0 ≡ true ↔ HasWindow clock mono 0 filter valid 7)
test-HasWindow_example = test-HasWindow clock mono 0 filter valid 7

second-test_and_add_example :
    (test_and_add clock (test_and_add clock 0 7 filter).2 7 (test_and_add clock 0 7 filter).1).0
    ≡ is_young clock
        ((evict_aged_entries clock
            (test_and_add clock 0 7 filter).2
            (test_and_add clock 0 7 filter).1).1
          - 1)
        (pos 5)
        (record { h = 7; first_seen = (test_and_add clock 0 7 filter).2 - 1 })
second-test_and_add_example = second-test_and_add clock mono 0 7 filter valid unseen

abbrev attributes : HashAttributes
attributes = record {
  proc_exe_str = 0;
  proc_exeargs_str = 1;
  proc_uid_int = 0;
  proc_gid_int = 1;
  opflags_int = 2;
  proc_tty_int = 3;
  sf_rec_type = 4;
  fl_netw_sip_int = 5;
  fl_netw_dip_int = 6;
  fl_netw_dport_int = 7;
  fl_netw_proto_int = 8;
  file_path_str = 2;
  net_flow = pos 5;
  file_flow = pos 6;
  file_evt = pos 7;
}

abbrev columns : ℕ → Columns
columns n = record { ints = λ k. pos (n + k); strs = λ k. k ∷ []; anys = λ k. none }

abbrev byte_sum : Str → ℕ
byte_sum [] = 0
byte_sum (b ∷ bs) = b + byte_sum bs

abbrev with_filter : OnOff → Output
with_filter b = record {
  config = record { filter_on_off = b; filter_max_age = pos 5 };
  filter = some filter;
  sent = columns 9 ∷ [];
}

-- A process record hashes neither addresses nor a path: two texts and four integers of 8 bytes.
bytes_of_process :
    semantic_bytes attributes (columns 0)
    ≡ 0 ∷ 1 ∷ put_int64 (pos 0) ++ put_int64 (pos 1) ++ put_int64 (pos 2) ++ put_int64 (pos 3)
unfolding semantic_bytes put_int64 little_endian
bytes_of_process = refl

-- The second of two equal records is held back.
duplicate :
    (out_all attributes byte_sum clock 0
      (columns 3 ∷ columns 3 ∷ columns 4 ∷ [])
      (with_filter on)).0.sent
    ≡ columns 9 ∷ columns 3 ∷ columns 4 ∷ []
unfolding out_all out is_held_back deliver is_enabled semantic_hash semantic_bytes put_int64
    little_endian test_and_add evict_aged_entries evict_loop lookup insert
duplicate = refl

is_off : is_enabled off ≡ false
unfolding is_enabled
is_off = refl

is_on : is_enabled on ≡ true
unfolding is_enabled
is_on = refl

out_all-disabled_example :
    out_all attributes byte_sum clock 0 (columns 3 ∷ columns 3 ∷ []) (with_filter off) ≡ (
      record {
        config = record { filter_on_off = off; filter_max_age = pos 5 };
        filter = some filter;
        sent = columns 9 ∷ columns 3 ∷ columns 3 ∷ [];
      },
      0,
    )
out_all-disabled_example =
    out_all-disabled attributes byte_sum clock 0 (columns 3 ∷ columns 3 ∷ []) (with_filter off)
      is_off

out-HasWindow_example :
    (HasWindow clock mono 0 filter valid (semantic_hash attributes byte_sum clock (columns 3))
      → (out attributes byte_sum clock 0 (columns 3) (with_filter on)).0.sent ≡ columns 9 ∷ [])
    × (¬ HasWindow clock mono 0 filter valid (semantic_hash attributes byte_sum clock (columns 3))
        → (out attributes byte_sum clock 0 (columns 3) (with_filter on)).0.sent
          ≡ columns 9 ∷ columns 3 ∷ [])
    × ((f : Filter) × ((out attributes byte_sum clock 0 (columns 3) (with_filter on)).0.filter
          ≡ some f)
        × IsValid clock (out attributes byte_sum clock 0 (columns 3) (with_filter on)).1 f)
out-HasWindow_example =
    out-HasWindow attributes byte_sum clock 0 (columns 3) (with_filter on) filter is_on refl mono
      valid

unseen_columns :
    (test_and_add clock 0 (semantic_hash attributes byte_sum clock (columns 3)) filter).0 ≡ false
unfolding test_and_add evict_aged_entries evict_loop lookup
unseen_columns = refl

abbrev asked : Bool × Filter × ℕ
asked = test_and_add clock 0 (semantic_hash attributes byte_sum clock (columns 3)) filter

out-duplicate_example :
    ((out attributes byte_sum clock 0 (columns 3) (with_filter on)).0.sent
      ≡ columns 9 ∷ columns 3 ∷ [])
    × ((out attributes byte_sum clock
          (out attributes byte_sum clock 0 (columns 3) (with_filter on)).1
          (columns 3)
          (out attributes byte_sum clock 0 (columns 3) (with_filter on)).0).0.sent
        ≡ (if is_young clock ((evict_aged_entries clock asked.2 asked.1).1 - 1) (pos 5) (record {
          h = semantic_hash attributes byte_sum clock (columns 3);
          first_seen = asked.2 - 1;
        })
            then columns 9 ∷ columns 3 ∷ []
            else columns 9 ∷ columns 3 ∷ columns 3 ∷ []))
out-duplicate_example =
    out-duplicate attributes byte_sum clock mono 0 (columns 3) (with_filter on) filter is_on refl
      valid unseen_columns (columns 3) refl
