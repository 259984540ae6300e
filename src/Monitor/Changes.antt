-- ===== src/Monitor/Changes.antt =====
-- core/policyengine/monitor/localpolicymonitor.go: when the policies on disk call for an update.
use sf_processor.Prelude.{
  ◌≡◌, refl, sym, ap, subst, ◌∙◌, ◌↔◌, ◌⊎◌, Bool, true, false, not, ◌||◌, Option, none, some,
  some-injective, List, [], ◌∷◌, any as exists_in, length, nat_beq, nat_beq_iff, if◌then◌else◌,
  Bool-cases, inl, inr, list_eq, nat_eq, list_beq_iff, ◌==◌, beq_refl, arith,
}
use sf_processor.Prelude.Assoc.{lookup, insert, lookup-insert}
use sf_processor.Prelude.Keys.{IsUnique, insert-IsUnique, KeysIn, KeysIn-length, KeysIn-back}
use sf_processor.Prelude.Text.{Str}
use sf_processor.Monitor.{
  Checksums, Outcome, checked, no_policies, sum_all, calculate_checksum, checks_update, differs,
}

-- A path is one of those listed.
abbrev pub is_listed : List Str → Str → Bool
is_listed paths x = exists_in (λ p. p == x) paths

differs_iff : (o : Option Str) (cs : Str) → (differs o cs ≡ false) ↔ (o ≡ some cs)
differs_iff none cs = (λ h. absurd (cc), λ h. absurd (cc))
differs_iff (some v) cs = (
  λ h. ap some ((list_beq_iff v cs).0 (ground (arith, h))),
  λ h. ground (arith, (list_beq_iff v cs).1 (some-injective _ _ h)),
)

if_or :
    (b c : Bool) (v w z : Option Str)
    → (c ≡ true → w ≡ v)
    → (if b then v else if c then w else z) ≡ (if c || b then v else z)
if_or true true v w z h = refl
if_or true false v w z h = refl
if_or false true v w z h = h refl
if_or false false v w z h = refl

module _ (checksum : Str → Option Str) (f : Str → Str) (old : Checksums) where
  abbrev pub Readable : List Str → Type 0
  Readable [] = Unit
  Readable (p ∷ ps) = (checksum p ≡ some (f p)) × Readable ps

  -- The changes that the loop finds.
  abbrev found_changes : List Str → Bool
  found_changes paths = exists_in (λ p. differs (lookup p old) (f p)) paths

  record Summed (paths : List Str) (new : Checksums) (changes : Bool) (r : Checksums × Bool)
      : Type 0 where
    holds : (x : Str) → lookup x r.0 ≡ (if is_listed paths x then some (f x) else lookup x new)
    unique : IsUnique r.0
    flag : r.1 ≡ (changes || found_changes paths)

  listed :
      (p x : Str) (paths : List Str) (new : Checksums)
      → (if is_listed paths x then some (f x) else lookup x (insert p (f p) new))
        ≡ (if is_listed (p ∷ paths) x then some (f x) else lookup x new)
  listed p x paths new =
      ap (λ o. if is_listed paths x then some (f x) else o) (lookup-insert p x (f p) new)
      ∙ if_or (is_listed paths x) (p == x) (some (f x)) (some (f p)) (lookup x new)
          (λ same. ap (λ z. some (f z)) ((list_beq_iff p x).0 same))

  sum_all-Summed :
      (paths : List Str) (new : Checksums) (changes : Bool)
      → IsUnique new
      → Readable paths
      → (r : Checksums × Bool) × (sum_all checksum old paths new changes ≡ some r)
        × Summed paths new changes r
  unfolding sum_all
  sum_all-Summed [] new changes u h =
      ((new, changes), refl, record { holds = λ x. refl; unique = u; flag = ground arith })
  sum_all-Summed (p ∷ paths) new changes u (e, h) =
      let changes' = changes || differs (lookup p old) (f p) in
      let (r, done, s) =
        sum_all-Summed paths (insert p (f p) new) changes' (insert-IsUnique p (f p) new u) h in
      (
        r,
        rw (e, sum_all) done,
        record {
          holds = λ x. s.holds x ∙ listed p x paths new;
          unique = s.unique;
          flag = ground (arith, s.flag);
        },
      )

  -- No change is found exactly if the old sums of the paths are their present sums.
  found_changes_iff :
      (paths : List Str)
      → (found_changes paths ≡ false)
        ↔ ((x : Str) → is_listed paths x ≡ true → lookup x old ≡ some (f x))
  found_changes_iff [] = (λ h x l. absurd (cc), λ h. refl)
  found_changes_iff (p ∷ paths) =
      let rest = found_changes_iff paths in
      let here = differs_iff (lookup p old) (f p) in
      (
        λ h x l. elim (Bool-cases (p == x)) [
          | inl same ↦
              subst (λ z. lookup z old ≡ some (f z)) ((list_beq_iff p x).0 same)
                (here.0 (ground (arith, h)))
          | inr other ↦ rest.0 (ground (arith, h)) x (ground (arith, l, other))
        ],
        λ h. ground (
          arith,
          here.1 (h p (ground (arith, beq_refl p))),
          rest.1 (λ x l. h x (ground (arith, l))),
        ),
      )

  module _ (paths : List Str) (new : Checksums) (unique : IsUnique old) (unique' : IsUnique new)
      (holds : (x : Str) → lookup x new ≡ (if is_listed paths x then some (f x) else none)) where
    new-KeysIn : found_changes paths ≡ false → KeysIn new old
    new-KeysIn h k v found = elim (Bool-cases (is_listed paths k)) [
      | inl l ↦ (f k, (found_changes_iff paths).0 h k l)
      | inr l ↦ absurd (ground (arith, found, holds k, l))
    ]

    unchanged :
        found_changes paths ≡ false
        → length old ≡ length new
        → (x : Str) → lookup x old ≡ lookup x new
    unchanged h same x = elim (Bool-cases (is_listed paths x)) [
      | inl l ↦ (found_changes_iff paths).0 h x l ∙ sym (holds x ∙ rw l)
      | inr l ↦
          let free : lookup x new ≡ none = holds x ∙ rw l in
          KeysIn-back new old unique' (sym same) (new-KeysIn h) x free ∙ sym free
    ]

    same_length : ((x : Str) → lookup x old ≡ lookup x new) → length old ≡ length new
    same_length h = omega (
      arith,
      KeysIn-length old new unique (λ k v found. (v, sym (h k) ∙ found)),
      KeysIn-length new old unique' (λ k v found. (v, h k ∙ found)),
    )

    changes_iff :
        (((found_changes paths) || not (nat_beq (length old) (length new))) ≡ false)
        ↔ ((x : Str) → lookup x old ≡ lookup x new)
    changes_iff = (
      λ h.
          unchanged (ground (arith, h))
            ((nat_beq_iff (length old) (length new)).0 (ground (arith, h))),
      λ h. ground (
        arith,
        (found_changes_iff paths).1 (λ x l. h x ∙ holds x ∙ rw l),
        (nat_beq_iff (length old) (length new)).1 (same_length h),
      ),
    )

  -- The result on a listing with a path in it.
  some_listed :
      (p : Str) (ps : List Str)
      → IsUnique old
      → Readable (p ∷ ps)
      → (changes : Bool) × (new : Checksums) × (calculate_checksum checksum old (some (p ∷ ps))
          ≡ (checked changes (p ∷ ps), new))
        × IsUnique new
        × ((x : Str) → lookup x new ≡ (if is_listed (p ∷ ps) x then some (f x) else none))
        × ((changes ≡ false) ↔ ((x : Str) → lookup x old ≡ lookup x new))
  unfolding calculate_checksum lookup
  some_listed p ps unique readable =
      let paths = p ∷ ps in
      let (r, done, s) = sum_all-Summed paths [] false tt readable in
      let changes = r.1 || not (nat_beq (length old) (length r.0)) in
      (
        changes,
        r.0,
        rw (done, calculate_checksum),
        s.unique,
        s.holds,
        subst
            (λ b.
              ((b || not (nat_beq (length old) (length r.0))) ≡ false)
              ↔ ((x : Str) → lookup x old ≡ lookup x r.0))
            (sym s.flag) (changes_iff paths r.0 unique s.unique s.holds),
      )

  -- If the checksums of the listed paths can be read, the new sums are those of the paths and of
  -- nothing else, and the loop does not call for an update exactly if no path is listed or the new
  -- sums are the old ones. So on an empty listing it calls for none, whatever the old sums are.
  pub calculate_checksum-changes :
      (paths : List Str)
      → IsUnique old
      → Readable paths
      → (outcome : Outcome) × (new : Checksums) × (calculate_checksum checksum old (some paths)
          ≡ (outcome, new))
        × IsUnique new
        × ((x : Str) → lookup x new ≡ (if is_listed paths x then some (f x) else none))
        × ((checks_update outcome ≡ false)
            ↔ ((paths ≡ []) ⊎ ((x : Str) → lookup x old ≡ lookup x new)))
  unfolding calculate_checksum checks_update lookup
  calculate_checksum-changes [] unique readable =
      (no_policies, [], refl, tt, λ x. refl, (λ h. inl refl, λ h. refl))
  calculate_checksum-changes (p ∷ ps) unique readable =
      let (changes, new, done, unique', holds, iff) = some_listed p ps unique readable in
      (
        checked changes (p ∷ ps),
        new,
        done,
        unique',
        holds,
        (λ h. inr (iff.0 h), elim [ inl nothing ↦ absurd (cc) | inr same ↦ iff.1 same ]),
      )
