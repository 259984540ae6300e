-- ===== src/Flattener/Filter/Window.antt =====
-- core/flattener/filter.go: the map and the queue agree, and the answers of the operations say
-- whether the window of a hash is open.
use sf_processor.Prelude.{
  ℕ, ◌-◌, ◌≤◌, ◌≡◌, sym, ap, subst, ◌∙◌, ◌↔◌, inl, inr, Bool, true, false, none, List, [], ◌∷◌,
  ◌++◌, All, All-map, All-In, In, In-append_right, In-append_cases, any-append, any_intro, any_elim,
  Bool-cases, nat_beq, nat_beq_iff, nat_eq, if◌then◌else◌, arith,
}
use sf_processor.Prelude.Assoc.{lookup}
use sf_processor.Prelude.Int.{ℤ}
use sf_processor.Flattener.Filter.{
  Entry, Filter, Clock, has, is_young, evict_loop, evict_aged_entries, test, test_and_add, queued,
}
use sf_processor.Flattener.Filter.Evict.{IsSorted, IsMonotone, Evicted, evict_loop-Evicted}

-- No two entries of the queue have one hash.
abbrev pub IsDistinct : List Entry → Type 0
IsDistinct [] = Unit
IsDistinct (e ∷ q) = (queued e.h q ≡ false) × IsDistinct q

-- The filter between two operations, with i readings of the clock taken.
pub record IsValid (clock : Clock) (i : ℕ) (f : Filter) : Type 0 where
  -- the map counts the hashes of the queue and no others
  pub agree : (h : ℕ) → has h f.m ≡ queued h f.q
  pub distinct : IsDistinct f.q
  pub sorted : IsSorted f.q
  pub past : All (λ e. Entry.first_seen e ≤ clock i) f.q

IsDistinct-back : (xs ys : List Entry) → IsDistinct (xs ++ ys) → IsDistinct ys
IsDistinct-back [] ys d = d
IsDistinct-back (e ∷ xs) ys (n, d) = IsDistinct-back xs ys d

IsSorted-back : (xs ys : List Entry) → IsSorted (xs ++ ys) → IsSorted ys
IsSorted-back [] ys s = s
IsSorted-back (e ∷ xs) ys (n, s) = IsSorted-back xs ys s

All-back : (P : Entry → Type 0) (xs ys : List Entry) → All P (xs ++ ys) → All P ys
All-back P [] ys h = h
All-back P (e ∷ xs) ys (p, h) = All-back P xs ys h

-- A hash stands in one part of a distinct queue only.
apart :
    (h : ℕ) (xs ys : List Entry) → IsDistinct (xs ++ ys) → queued h xs ≡ true → queued h ys ≡ false
apart h [] ys d t = absurd (cc)
apart h (e ∷ xs) ys (n, d) t = elim (Bool-cases (nat_beq e.h h)) [
  | inl same ↦ ground (
    arith,
    subst (λ k. queued k (xs ++ ys) ≡ false) ((nat_beq_iff e.h h).0 same) n,
    any-append (λ d. nat_beq (Entry.h d) h) xs ys,
  )
  | inr other ↦ apart h xs ys d (rw other at t)
]

has-if :
    (b : Bool) (h : ℕ) (m m' : List (ℕ × ℤ))
    → lookup h m' ≡ (if b then none else lookup h m)
    → has h m' ≡ (if b then false else has h m)
has-if true h m m' e = rw (e, has)
has-if false h m m' e = rw (e, has)

module _ (clock : Clock) (mono : IsMonotone clock) where
  module _ (i : ℕ) (f : Filter) (v : IsValid clock i f) where
    evicted : Evicted clock mono f.ttl i f.m f.q (evict_loop clock f.ttl i f.m f.q)
    evicted = evict_loop-Evicted clock mono f.ttl i f.m f.q v.sorted

    pub evict-IsValid :
        IsValid clock (evict_aged_entries clock i f).1 (evict_aged_entries clock i f).0
    unfolding evict_aged_entries
    evict-IsValid =
        let (m', q', j) = evict_loop clock f.ttl i f.m f.q in
        let e = evicted in
        let d = subst IsDistinct e.parts v.distinct in
        record {
          agree = λ h. ground (
            arith,
            has-if (queued h e.gone) h f.m m' (e.counts h),
            v.agree h,
            ap (queued h) e.parts,
            any-append (λ d. nat_beq (Entry.h d) h) e.gone q',
            apart h e.gone q' d,
          );
          distinct = IsDistinct-back e.gone q' d;
          sorted = IsSorted-back e.gone q' (subst IsSorted e.parts v.sorted);
          past =
              All-map (λ x le. omega (arith, mono i j e.later)) q'
                (All-back (λ x. Entry.first_seen x ≤ clock i) e.gone q'
                  (subst (All (λ x. Entry.first_seen x ≤ clock i)) e.parts v.past));
        }

    -- The hash has an entry that is younger than the time to live at the last reading of the clock
    -- that the eviction took.
    abbrev pub HasWindow : ℕ → Type 0
    HasWindow h =
        (e : Entry) × In e f.q
        × (e.h ≡ h)
        × (is_young clock ((evict_aged_entries clock i f).1 - 1) f.ttl e ≡ true)

    queued_iff : (h : ℕ) → (queued h (evict_aged_entries clock i f).0.q ≡ true) ↔ HasWindow h
    unfolding evict_aged_entries
    queued_iff h =
        let (m', q', j) = evict_loop clock f.ttl i f.m f.q in
        let e = evicted in
        (
          λ t.
              let (d, n, s) = any_elim (λ d. nat_beq (Entry.h d) h) q' t in
              (
                d,
                subst (In d) (sym e.parts) (In-append_right d e.gone q' n),
                (nat_beq_iff d.h h).0 s,
                All-In (λ x. is_young clock (j - 1) f.ttl x ≡ true) d q' e.young n,
              ),
          λ (d, n, s, y). elim (In-append_cases d e.gone q' (subst (In d) e.parts n)) [
            | inl old ↦ absurd (
                ground
                  (arith, All-In (λ x. is_young clock (j - 1) f.ttl x ≡ false) d e.gone e.old old))
            | inr there ↦
                any_intro (λ d. nat_beq (Entry.h d) h) d q' there ((nat_beq_iff d.h h).1 s)
          ],
        )

    -- Of a valid filter `Test` and `TestAndAdd` answer that a hash has been seen exactly when the
    -- hash has an entry that has not outlived the time to live.
    pub test-HasWindow :
        (h : ℕ)
        → ((test clock i h f).0 ≡ true ↔ HasWindow h)
          × ((test_and_add clock i h f).0 ≡ true ↔ HasWindow h)
    unfolding test test_and_add
    test-HasWindow h =
        let same = evict-IsValid.agree h in
        let w = queued_iff h in
        ((λ t. w.0 (sym same ∙ t), λ x. same ∙ w.1 x), (λ t. w.0 (sym same ∙ t), λ x. same ∙ w.1 x))
