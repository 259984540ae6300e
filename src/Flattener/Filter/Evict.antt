-- ===== src/Flattener/Filter/Evict.antt =====
-- core/flattener/filter.go: what the eviction loop removes and what it leaves.
use sf_processor.Prelude.{
  ℕ, suc, ◌-◌, ◌≤◌, ◌≡◌, refl, ap, subst, inl, inr, true, false, none, List, [], ◌∷◌, ◌++◌, All,
  All-map, Bool-cases, nat_eq, if◌then◌else◌, arith,
}
use sf_processor.Prelude.Assoc.{lookup, delete, lookup-delete}
use sf_processor.Prelude.Int.{ℤ}
use sf_processor.Flattener.Filter.{Entry, Clock, is_young, evict_loop, queued}

-- From front to back the entries were first seen in order.
abbrev pub IsSorted : List Entry → Type 0
IsSorted [] = Unit
IsSorted (e ∷ q) = All (λ d. Entry.first_seen e ≤ Entry.first_seen d) q × IsSorted q

-- Go's monotonic clock: later readings are not smaller.
abbrev pub IsMonotone : Clock → Type 0
IsMonotone clock = (i j : ℕ) → i ≤ j → clock i ≤ clock j

module _ (clock : Clock) (mono : IsMonotone clock) (ttl : ℤ) where
  abbrev pub Young : ℕ → Entry → Type 0
  Young i e = is_young clock i ttl e ≡ true

  abbrev pub Old : ℕ → Entry → Type 0
  Old i e = is_young clock i ttl e ≡ false

  -- Age only grows, with the reading and with how early an entry was first seen.
  Old-later : (i j : ℕ) (e : Entry) → i ≤ j → Old i e → Old j e
  Old-later i j e h o = ground (arith, mono i j h)

  Young-behind : (i : ℕ) (e d : Entry) → e.first_seen ≤ d.first_seen → Young i e → Young i d
  Young-behind i e d h y = ground arith

  -- The entries that went, with what that did to the map; `j - 1` is the last reading.
  pub record Evicted (i : ℕ) (m : List (ℕ × ℤ)) (q : List Entry)
      (out : List (ℕ × ℤ) × List Entry × ℕ) : Type 0 where
    pub gone : List Entry
    pub parts : q ≡ gone ++ out.1
    pub old : All (Old (out.2 - 1)) gone
    pub young : All (Young (out.2 - 1)) out.1
    pub later : i ≤ out.2
    pub counts : (h : ℕ) → lookup h out.0 ≡ (if queued h gone then none else lookup h m)

  pub evict_loop-Evicted :
      (i : ℕ) (m : List (ℕ × ℤ)) (q : List Entry)
      → IsSorted q
      → Evicted i m q (evict_loop clock ttl i m q)
  unfolding evict_loop
  evict_loop-Evicted i m [] s = record {
    gone = [];
    parts = refl;
    old = tt;
    young = tt;
    later = omega arith;
    counts = λ h. refl;
  }
  evict_loop-Evicted i m (e ∷ q) (first, s) = elim (Bool-cases (is_young clock i ttl e)) [
    | inl y ↦ rw y (record {
      gone = [];
      parts = refl;
      old = tt;
      young =
          subst (λ k. All (Young k) (e ∷ q)) (omega arith)
            (y, All-map (λ d le. Young-behind i e d le y) q first);
      later = omega arith;
      counts = λ h. refl;
    })
    | inr o ↦
        let ih = evict_loop-Evicted (suc i) (delete e.h m) q s in
        rw o (record {
          gone = e ∷ ih.gone;
          parts = ap (λ z. e ∷ z) ih.parts;
          old = (Old-later i _ e (omega (arith, ih.later)) o, ih.old);
          young = ih.young;
          later = omega (arith, ih.later);
          counts = λ h. ground (arith, ih.counts h, lookup-delete e.h h m);
        })
  ]
