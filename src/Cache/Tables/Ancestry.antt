-- ===== src/Cache/Tables/Ancestry.antt =====
-- core/cache/tables.go: the tree of a process is the chain of its parents.
use sf_processor.Prelude.{
  ◌>>=◌, >>=-eq-some, ℕ, zero, suc, ◌<◌, ◌≡◌, refl, sym, ap, subst, ◌∙◌, none, some, some-injective,
  List, [], ◌∷◌, Option-cases, inl, inr, arith,
}
use sf_processor.Prelude.Assoc.{lookup, insert, lookup-insert_self}
use sf_processor.Sfgo.{Oid, oid_eq, Process}
use sf_processor.Cache.Tables.{SfTables, get_proc, set_proc, get_proc_prov, get_ptree, with_parents}
use sf_processor.Cache.Tables.Latest.{set_all}

-- The processes from an id up, to one with no parent or to an id that the tables do not have.
pub data IsAncestry (t : SfTables) : Oid → List Process → Type 0 where
  unknown : {x : Oid} → get_proc x t ≡ none → IsAncestry t x []
  root : {x : Oid} {p : Process} → get_proc x t ≡ some p → p.poid ≡ none → IsAncestry t x (p ∷ [])
  child :
      {x y : Oid} {p : Process} {ps : List Process}
      → get_proc x t ≡ some p
      → p.poid ≡ some y
      → IsAncestry t y ps
      → IsAncestry t x (p ∷ ps)

-- No process is its own ancestor, by a rank that falls from a process to its parent.
pub record IsAcyclic (t : SfTables) (rank : Oid → ℕ) : Type 0 where
  pub falls : (x y : Oid) (p : Process) → get_proc x t ≡ some p → p.poid ≡ some y → rank y < rank x

module _ (t : SfTables) where
  prov-unknown : (f : ℕ) (x : Oid) → get_proc x t ≡ none → get_proc_prov (suc f) x t ≡ some []
  unfolding get_proc_prov
  prov-unknown f x free = rw (free, get_proc_prov)

  prov-root :
      (f : ℕ) (x : Oid) (p : Process)
      → get_proc x t ≡ some p
      → p.poid ≡ none
      → get_proc_prov (suc f) x t ≡ some (p ∷ [])
  unfolding get_proc_prov
  prov-root f x p found top =
      rw (found, get_proc_prov) (ap (λ o. with_parents p o (λ y. get_proc_prov f y t)) top)

  prov-child :
      (f : ℕ) (x y : Oid) (p : Process) (ps : List Process)
      → get_proc x t ≡ some p
      → p.poid ≡ some y
      → get_proc_prov f y t ≡ some ps
      → get_proc_prov (suc f) x t ≡ some (p ∷ ps)
  unfolding get_proc_prov
  prov-child f x y p ps found up e =
      rw (found, get_proc_prov)
        (ap (λ o. with_parents p o (λ y. get_proc_prov f y t)) up
          ∙ ap (λ o. o >>= λ rest. some (p ∷ rest)) e)

  module _ (rank : Oid → ℕ) (acyclic : IsAcyclic t rank) where
    -- If no process is its own ancestor, the tree of a process is built within a fuel above its
    -- rank, and is the chain of processes from it over its parents up to one without a parent or
    -- to an id that is not stored.
    pub get_proc_prov-IsAncestry :
        (f : ℕ) (x : Oid)
        → rank x < f
        → (ps : List Process) × (get_proc_prov f x t ≡ some ps) × IsAncestry t x ps
    get_proc_prov-IsAncestry zero x low = absurd (omega arith)
    get_proc_prov-IsAncestry (suc f) x low = elim (Option-cases (get_proc x t)) [
      | inl free ↦ ([], prov-unknown f x free, unknown free)
      | inr (p, found) ↦ elim (Option-cases p.poid) [
        | inl top ↦ (p ∷ [], prov-root f x p found top, root found top)
        | inr (y, up) ↦
            let less = acyclic.falls x y p found up in
            let (ps, e, chain) = get_proc_prov-IsAncestry f y (omega arith) in
            (p ∷ ps, prov-child f x y p ps found up e, child found up chain)
      ]
    ]

set_proc-keeps :
    (k : Oid) (o : Process) (t : SfTables) → (set_proc k o t).ptree_table ≡ t.ptree_table
unfolding set_proc
set_proc-keeps k o t = elim (Option-cases (lookup k t.proc_table)) [
  | inl free ↦ rw (free, set_proc)
  | inr (p, found) ↦ rw (found, set_proc)
]

set_all-keeps :
    (ws : List (Oid × Process)) (t : SfTables) → (set_all ws t).ptree_table ≡ t.ptree_table
set_all-keeps [] t = refl
set_all-keeps ((k, o) ∷ ws) t = set_all-keeps ws (set_proc k o t) ∙ set_proc-keeps k o t

get_ptree-found :
    (f : ℕ) (x : Oid) (t : SfTables) (ps : List Process)
    → lookup x t.ptree_table ≡ some ps
    → get_ptree f x t ≡ some (ps, t)
unfolding get_ptree
get_ptree-found f x t ps found = rw (found, get_ptree)

get_ptree-new :
    (f : ℕ) (x : Oid) (t : SfTables)
    → lookup x t.ptree_table ≡ none
    → get_ptree f x t ≡ (
        get_proc_prov f x t >>= λ ptree.
        some (ptree, record t { ptree_table = insert x ptree t.ptree_table }))
unfolding get_ptree
get_ptree-new f x t free = rw (free, get_ptree)

get_ptree-caches :
    (f : ℕ) (x : Oid) (t t' : SfTables) (ps : List Process)
    → get_ptree f x t ≡ some (ps, t')
    → lookup x t'.ptree_table ≡ some ps
get_ptree-caches f x t t' ps h = elim (Option-cases (lookup x t.ptree_table)) [
  | inr (qs, found) ↦
      let same = some-injective _ _ (sym (get_ptree-found f x t qs found) ∙ h) in
      subst (λ (r : List Process × SfTables). lookup x r.1.ptree_table ≡ some r.0) same found
  | inl free ↦
      let (qs, e, w) =
        >>=-eq-some (get_proc_prov f x t)
          (λ ptree. some (ptree, record t { ptree_table = insert x ptree t.ptree_table }))
          (sym (get_ptree-new f x t free) ∙ h) in
      subst (λ (r : List Process × SfTables). lookup x r.1.ptree_table ≡ some r.0)
        (some-injective _ _ w) (lookup-insert_self x qs t.ptree_table)
]

-- If no process is its own ancestor, GetPtree ends, and leaves the processes as they are.
pub get_ptree-total :
    (rank : Oid → ℕ) (f : ℕ) (x : Oid) (t : SfTables)
    → IsAcyclic t rank
    → rank x < f
    → (ps : List Process) × (t' : SfTables) × (get_ptree f x t ≡ some (ps, t'))
      × (t'.proc_table ≡ t.proc_table)
get_ptree-total rank f x t acyclic low = elim (Option-cases (lookup x t.ptree_table)) [
  | inr (ps, found) ↦ (ps, t, get_ptree-found f x t ps found, refl)
  | inl free ↦
      let (ps, e, chain) = get_proc_prov-IsAncestry t rank acyclic f x low in
      (
        ps,
        record t { ptree_table = insert x ps t.ptree_table },
        get_ptree-new f x t free
            ∙ ap
                (λ o. o >>= λ ptree.
                  some (ptree, record t { ptree_table = insert x ptree t.ptree_table }))
                e,
        refl,
      )
]

-- A tree that was found once is found again, the same and with no recursion, whatever processes
-- are stored in between.
pub get_ptree-set_all :
    (f g : ℕ) (x : Oid) (t t' : SfTables) (ps : List Process) (ws : List (Oid × Process))
    → get_ptree f x t ≡ some (ps, t')
    → get_ptree g x (set_all ws t') ≡ some (ps, set_all ws t')
get_ptree-set_all f g x t t' ps ws h =
    get_ptree-found g x (set_all ws t') ps
      (ap (lookup x) (set_all-keeps ws t') ∙ get_ptree-caches f x t t' ps h)
