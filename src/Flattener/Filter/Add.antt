-- ===== src/Flattener/Filter/Add.antt =====
-- core/flattener/filter.go: what adding a hash does to the counts and to the queue.
use sf_processor.Prelude.{
  ℕ, suc, ◌≤◌, ◌≡◌, refl, sym, ap, ◌∙◌, inl, inr, true, false, ◌||◌, Option, none, some, List, [],
  ◌∷◌, ◌++◌, All, All-map, Option-cases, any-append, nat_beq, nat_beq_iff, nat_eq, if◌then◌else◌,
  arith,
}
use sf_processor.Prelude.Assoc.{lookup, insert, lookup-insert}
use sf_processor.Prelude.Int.{ℤ, pos, add64}
use sf_processor.Flattener.Filter.{
  Entry, Filter, Clock, has, evict_aged_entries, add, test_and_add, queued,
}
use sf_processor.Flattener.Filter.Evict.{IsSorted, IsMonotone}
use sf_processor.Flattener.Filter.Window.{IsValid, IsDistinct, evict-IsValid}

All-append_one :
    (P : Entry → Type 0) (q : List Entry) (e : Entry) → All P q → P e → All P (q ++ e ∷ [])
All-append_one P [] e h p = (p, tt)
All-append_one P (d ∷ q) e (k, h) p = (k, All-append_one P q e h p)

IsDistinct-append :
    (q : List Entry) (e : Entry) → IsDistinct q → queued e.h q ≡ false → IsDistinct (q ++ e ∷ [])
IsDistinct-append [] e d n = (refl, tt)
IsDistinct-append (x ∷ q) e (k, d) n = (
  ground (
    arith,
    any-append (λ d. nat_beq (Entry.h d) x.h) q (e ∷ []),
    nat_beq_iff x.h e.h,
    nat_beq_iff e.h x.h,
  ),
  IsDistinct-append q e d (ground arith),
)

IsSorted-append :
    (q : List Entry) (e : Entry)
    → IsSorted q
    → All (λ d. Entry.first_seen d ≤ e.first_seen) q
    → IsSorted (q ++ e ∷ [])
IsSorted-append [] e s h = (tt, tt)
IsSorted-append (x ∷ q) e (k, s) (l, h) =
    (All-append_one (λ d. x.first_seen ≤ Entry.first_seen d) q e k l, IsSorted-append q e s h)

has-insert : (h x : ℕ) (v : ℤ) (m : List (ℕ × ℤ)) → has x (insert h v m) ≡ (nat_beq h x || has x m)
has-insert h x v m = ground (arith, lookup-insert h x v m)

module _ (clock : Clock) (mono : IsMonotone clock) (i : ℕ) (h : ℕ) (f : Filter)
    (v : IsValid clock i f) where
  pub add_new :
      lookup h f.m ≡ none
      → add clock i h f ≡ (
        record f {
          m = insert h (pos 1) f.m;
          q = f.q ++ record { h = h; first_seen = clock i } ∷ [];
        },
        suc i,
      )
  unfolding add
  add_new e = rw (e, add)

  add_again :
      (c : ℤ)
      → lookup h f.m ≡ some c
      → add clock i h f ≡ (record f { m = insert h (add64 c (pos 1)) f.m }, i)
  unfolding add
  add_again c e = rw (e, add)

  not_queued : lookup h f.m ≡ none → queued h f.q ≡ false
  not_queued free = sym (v.agree h) ∙ rw (free, has)

  is_queued : (c : ℤ) → lookup h f.m ≡ some c → queued h f.q ≡ true
  is_queued c found = sym (v.agree h) ∙ rw (found, has)

  pub add-IsValid : IsValid clock (add clock i h f).1 (add clock i h f).0
  add-IsValid = elim (Option-cases (lookup h f.m)) [
    | inl free ↦
        let e : Entry = record { h = h; first_seen = clock i } in
        rw (add_new free) (record {
          agree = λ x. ground (
            arith,
            has-insert h x (pos 1) f.m,
            v.agree x,
            any-append (λ d. nat_beq (Entry.h d) x) f.q (e ∷ []),
          );
          distinct = IsDistinct-append f.q e v.distinct (not_queued free);
          sorted = IsSorted-append f.q e v.sorted v.past;
          past =
              All-append_one (λ d. Entry.first_seen d ≤ clock (suc i)) f.q e
                (All-map (λ d le. omega (arith, mono i (suc i) (omega arith))) f.q v.past)
                (mono i (suc i) (omega arith));
        })
    | inr (c, found) ↦ rw (add_again c found) (record {
      agree = λ x. ground (
        arith,
        has-insert h x (add64 c (pos 1)) f.m,
        v.agree x,
        is_queued c found,
        nat_beq_iff h x,
        ap (λ y. queued y f.q) {x = h} {y = x},
      );
      distinct = v.distinct;
      sorted = v.sorted;
      past = v.past;
    })
  ]

-- A count, one higher than before.
abbrev pub one_more : Option ℤ → ℤ
one_more none = pos 1
one_more (some v) = add64 v (pos 1)

add-counts :
    (clock : Clock) (i h x : ℕ) (f : Filter)
    → lookup x (add clock i h f).0.m
      ≡ (if nat_beq h x then some (one_more (lookup h f.m)) else lookup x f.m)
unfolding add
add-counts clock i h x f = elim (Option-cases (lookup h f.m)) [
  | inl free ↦ rw (free, add) (lookup-insert h x (pos 1) f.m)
  | inr (c, found) ↦ rw (found, add) (lookup-insert h x (add64 c (pos 1)) f.m)
]

module _ (clock : Clock) (mono : IsMonotone clock) (i : ℕ) (h : ℕ) (f : Filter)
    (v : IsValid clock i f) where
  abbrev pub evicted_filter : Filter
  evicted_filter = (evict_aged_entries clock i f).0

  abbrev evicted_at : ℕ
  evicted_at = (evict_aged_entries clock i f).1

  -- The map has the hashes of the queue, each of which stands there once, in the order in which they
  -- were first seen.
  pub test_and_add-IsValid : IsValid clock (test_and_add clock i h f).2 (test_and_add clock i h f).1
  unfolding test_and_add
  test_and_add-IsValid =
      add-IsValid clock mono evicted_at h evicted_filter (evict-IsValid clock mono i f v)

  -- `TestAndAdd` on a valid filter counts its hash: behind the eviction, the count of the hash is one
  -- higher than before it, or 1 if there was none, and every other count is as it was. The answer is
  -- whether there was a count. The filter stays valid: its map has a count for the hashes of its
  -- queue and for no other, each hash stands there once, in the order in which they were first seen.
  pub test_and_add-counts :
      IsValid clock (test_and_add clock i h f).2 (test_and_add clock i h f).1
      × ((test_and_add clock i h f).0 ≡ queued h evicted_filter.q)
      × ((x : ℕ)
          → lookup x (test_and_add clock i h f).1.m ≡ (
              if nat_beq h x
              then some (one_more (lookup h evicted_filter.m))
              else lookup x evicted_filter.m))
  unfolding test_and_add
  test_and_add-counts = (
    test_and_add-IsValid,
    (evict-IsValid clock mono i f v).agree h,
    λ x. add-counts clock evicted_at h x evicted_filter,
  )
