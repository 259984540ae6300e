-- ===== src/Reader/Stored.antt =====
-- core/processor/reader.go: tables that hold what a history of announced processes stores.
use sf_processor.Prelude.{
  ℕ, ◌<◌, ◌≡◌, refl, sym, ap, ◌∙◌, Bool, true, false, ◌&&◌, Option, none, some, some-injective,
  List, [], ◌∷◌, ◌++◌, All, All-In, In, Option-cases, Bool-cases, inl, inr, if◌then◌else◌, ◌==◌,
  and_iff, arith,
}
use mathlib.Core.Path.{ap₂}
use sf_processor.Prelude.Assoc.{lookup}
use sf_processor.Sfgo.{
  Oid, oid_eq, oid_beq_iff, SfObjectState, created_state, modified_state, reup_state, Process,
}
use sf_processor.Cache.Tables.{SfTables, or_else, get_proc, set_proc, new_sf_tables}
use sf_processor.Cache.Tables.Latest.{
  stored, slot_of, latest, is_state, stored-set_proc, get_proc-stored,
}
use sf_processor.Cache.Tables.Ancestry.{IsAcyclic}

-- The process that the history of an id calls for.
abbrev pub current : Oid → List (Oid × Process) → Option Process
current x ws =
    or_else (latest modified_state x ws)
      (or_else (latest created_state x ws) (latest reup_state x ws))

latest-append :
    (s : SfObjectState) (x k : Oid) (o : Process) (ws : List (Oid × Process))
    → latest s x (ws ++ (k, o) ∷ [])
      ≡ (if k == x && is_state s o.state then some o else latest s x ws)
latest-append s x k o [] = refl
latest-append s x k o ((j, q) ∷ ws) =
    ap (λ l. or_else l (if j == x && is_state s q.state then some q else none))
      (latest-append s x k o ws)
    ∙ go (k == x && is_state s o.state)
  where
    go :
        (b : Bool)
        → or_else
            (if b then some o else latest s x ws)
            (if j == x && is_state s q.state then some q else none)
          ≡ (if b
              then some o
              else or_else (latest s x ws) (if j == x && is_state s q.state then some q else none))
    go true = refl
    go false = refl

latest-In :
    (s : SfObjectState) (x : Oid) (p : Process) (ws : List (Oid × Process))
    → latest s x ws ≡ some p
    → In (x, p) ws
latest-In s x p [] h = absurd (cc)
latest-In s x p ((k, o) ∷ ws) h = elim (Option-cases (latest s x ws)) [
  | inr (q, late) ↦ inr (latest-In s x p ws (late ∙ rw late at h))
  | inl early ↦ elim (Bool-cases (k == x && is_state s o.state)) [
    | inl hit ↦ inl (
        ap₂ (λ a b. (a, b))
          (sym ((oid_beq_iff k x).0 ((and_iff (k == x) (is_state s o.state)).0 hit).0))
          (sym (some-injective _ _ (rw (early, hit) at h))))
    | inr miss ↦ absurd (ground (arith, rw (early, miss) at h))
  ]
]

-- The tables hold what the history stores.
abbrev pub Tells : List (Oid × Process) → SfTables → Type 0
Tells ws t = (s : SfObjectState) (x : Oid) → stored s x t ≡ latest s x ws

pub Tells-current :
    (ws : List (Oid × Process)) (t : SfTables) (x : Oid) → Tells ws t → get_proc x t ≡ current x ws
Tells-current ws t x h =
    get_proc-stored x t
    ∙ ap₂ or_else (h modified_state x) (ap₂ or_else (h created_state x) (h reup_state x))

pub Tells-same :
    (ws : List (Oid × Process)) (t u : SfTables)
    → u.proc_table ≡ t.proc_table
    → Tells ws t
    → Tells ws u
Tells-same ws t u same h s x = ap (λ m. slot_of s (lookup x m)) same ∙ h s x

pub Tells-set_proc :
    (ws : List (Oid × Process)) (t : SfTables) (k : Oid) (o : Process)
    → Tells ws t
    → Tells (ws ++ (k, o) ∷ []) (set_proc k o t)
Tells-set_proc ws t k o h s x =
    stored-set_proc s x k o t
    ∙ ap (λ l. if k == x && is_state s o.state then some o else l) (h s x)
    ∙ sym (latest-append s x k o ws)

-- The parent of a process has a lower rank.
abbrev pub Falls : (Oid → ℕ) → Oid × Process → Type 0
Falls rank (k, o) = (y : Oid) → Process.poid o ≡ some y → rank y < rank k

or_else-cases :
    {P : Type 0} (a b : Option Process) (p : Process)
    → or_else a b ≡ some p
    → (a ≡ some p → P)
    → (b ≡ some p → P)
    → P
or_else-cases none b p h f g = g h
or_else-cases (some a) b p h f g = f h

current-In :
    (x : Oid) (p : Process) (ws : List (Oid × Process)) → current x ws ≡ some p → In (x, p) ws
current-In x p ws h =
    or_else-cases _ _ p h (latest-In modified_state x p ws) λ rest.
      or_else-cases _ _ p rest (latest-In created_state x p ws) (latest-In reup_state x p ws)

pub Tells-IsAcyclic :
    (rank : Oid → ℕ) (ws : List (Oid × Process)) (t : SfTables)
    → Tells ws t
    → All (Falls rank) ws
    → IsAcyclic t rank
Tells-IsAcyclic rank ws t h falls = record {
  falls = λ x y p found up.
      All-In (Falls rank) (x, p) ws falls (current-In x p ws (sym (Tells-current ws t x h) ∙ found))
        y up;
}

pub All-front {ℓ κ} : {A : Type ℓ} (P : A → Type κ) (xs ys : List A) → All P (xs ++ ys) → All P xs
All-front P [] ys h = tt
All-front P (x ∷ xs) ys (p, h) = (p, All-front P xs ys h)

pub stored-empty : (q : SfObjectState) (x : Oid) → stored q x new_sf_tables ≡ none
unfolding new_sf_tables lookup
stored-empty q x = refl
