-- ===== src/Flattener/Filter.antt =====
-- core/flattener/filter.go: a time-decaying filter of hashes. A call of time.Now or time.Since takes
-- the next reading of a clock; each operation returns the number of readings taken so far.
pub mod Evict
pub mod Window
pub mod Add
pub mod Repeat
use sf_processor.Prelude.{
  ℕ, suc, ◌+◌, Bool, true, false, ◌||◌, Option, none, some, List, [], ◌∷◌, ◌++◌, any, nat_beq,
  nat_eq, if◌then◌else◌,
}
use sf_processor.Prelude.Assoc.{lookup, insert, delete}
use sf_processor.Prelude.Int.{ℤ, pos, sub_ℕ, ltb_ℤ, add64}

pub record Entry : Type 0 where
  pub h : ℕ
  pub first_seen : ℕ

-- The counts, the queue from front to back, and the time to live, which may be negative.
pub record Filter : Type 0 where
  pub m : List (ℕ × ℤ)
  pub q : List Entry
  pub ttl : ℤ

unfoldable pub new_filter : ℤ → Filter
new_filter ttl = record { m = []; q = []; ttl = ttl }

abbrev pub has : ℕ → List (ℕ × ℤ) → Bool
has h m = elim (lookup h m) [ none ↦ false | some _ ↦ true ]

-- The readings of the clock, in nanoseconds.
abbrev pub Clock : Type 0
Clock = ℕ → ℕ

-- time.Since(entry.firstSeen) < f.ttl, at reading i
abbrev pub is_young : Clock → ℕ → ℤ → Entry → Bool
is_young clock i ttl e = ltb_ℤ (sub_ℕ (clock i) e.first_seen) ttl

module _ (clock : Clock) (ttl : ℤ) where
  -- The loop of evictAgedEntries over the queue.
  unfoldable pub evict_loop : ℕ → List (ℕ × ℤ) → List Entry → List (ℕ × ℤ) × List Entry × ℕ
  evict_loop i m [] = (m, [], i)
  evict_loop i m (e ∷ q) =
      let rest = evict_loop (suc i) (delete e.h m) q in
      if is_young clock i ttl e then (m, e ∷ q, suc i) else rest

module _ (clock : Clock) where
  unfoldable pub evict_aged_entries : ℕ → Filter → Filter × ℕ
  evict_aged_entries i f =
      let (m, q, j) = evict_loop clock f.ttl i f.m f.q in (record f { m = m; q = q }, j)

  unfoldable pub add : ℕ → ℕ → Filter → Filter × ℕ
  add i h f = elim (lookup h f.m) [
    | none ↦ (
      record f { m = insert h (pos 1) f.m; q = f.q ++ record { h = h; first_seen = clock i } ∷ [] },
      suc i,
    )
    | some v ↦ (record f { m = insert h (add64 v (pos 1)) f.m }, i)
  ]

  unfoldable pub test : ℕ → ℕ → Filter → Bool × Filter × ℕ
  unfolding evict_aged_entries
  test i h f = let (f', j) = evict_aged_entries i f in (has h f'.m, f', j)

  unfoldable pub test_and_add : ℕ → ℕ → Filter → Bool × Filter × ℕ
  unfolding evict_aged_entries add
  test_and_add i h f =
      let (f', j) = evict_aged_entries i f in let (f'', k) = add j h f' in (has h f'.m, f'', k)

  unfoldable pub count : ℕ → ℕ → Filter → ℤ × Filter × ℕ
  unfolding evict_aged_entries
  count i h f =
      let (f', j) = evict_aged_entries i f in
      (elim (lookup h f'.m) [ none ↦ pos 0 | some c ↦ c ], f', j)

-- The queue has an entry for a hash.
abbrev pub queued : ℕ → List Entry → Bool
queued h q = any (λ e. nat_beq (Entry.h e) h) q
