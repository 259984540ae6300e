-- ===== src/Reader/Events.antt =====
-- core/processor/reader.go: one round of the loop, as far as processes are concerned.
use sf_processor.Prelude.{
  ℕ, ◌<◌, ◌≡◌, refl, sym, subst, Bool, true, false, Option, none, some, List, [], ◌∷◌, ◌++◌, All,
  Option-cases, inl, inr,
}
use mathlib.Core.List.{append-nil}
use sf_processor.Sfgo.{Oid, Process}
use sf_processor.Cache.Tables.{SfTables, get_proc, set_proc, set_cont, set_pod, set_file}
use sf_processor.Cache.Tables.Ancestry.{IsAcyclic, get_ptree-total}
use sf_processor.Reader.{
  Rec, sf_header, sf_cont, sf_pod, sf_k8s_evt, sf_process, sf_file, sf_proc_evt, sf_net_flow,
  sf_file_flow, sf_file_evt, sf_proc_flow, sf_net_evt, unsupported, Ctx, Call, Reader, empty_ctx,
  trimmed, get_pod_cont_and_proc, with_context, step, get_pod_from_cont, get_cont_from_proc,
  handle_process,
}
use sf_processor.Reader.Stored.{Tells, Tells-same, Tells-set_proc, Tells-IsAcyclic, Falls}

module _ {Header Event : Type 0} where
  -- The processes that the records announce, as they are stored.
  abbrev pub processes : List (Rec Header Event) → List (Oid × Process)
  processes [] = []
  processes (sf_process p ∷ rs) = (p.oid, trimmed p) ∷ processes rs
  processes (_ ∷ rs) = processes rs

  -- A record other than a header.
  abbrev pub IsEntry : Rec Header Event → Type 0
  IsEntry (sf_header h) = ⊥
  IsEntry _ = Unit

  module _ (rank : Oid → ℕ) (fuel : ℕ) (deep : (x : Oid) → rank x < fuel) where
    pub context-total :
        (x : Oid) (ctx : Ctx Header Event) (t : SfTables)
        → IsAcyclic t rank
        → (ctx' : Ctx Header Event) × (t' : SfTables) × (get_pod_cont_and_proc fuel x ctx t
            ≡ some (ctx', t'))
          × (t'.proc_table ≡ t.proc_table)
          × (ctx'.process ≡ get_proc x t)
          × (ctx'.header ≡ ctx.header)
    unfolding get_pod_cont_and_proc
    context-total x ctx t acyclic = elim (Option-cases (get_proc x t)) [
      | inl free ↦ (
        record ctx { pod = none; container = none; process = none; ptree = [] },
        t,
        rw (free, get_pod_cont_and_proc),
        refl,
        sym free,
        refl,
      )
      | inr (p, found) ↦
          let (ps, t', e, same) = get_ptree-total rank fuel x t acyclic (deep x) in
          (
            record ctx {
              pod = get_pod_from_cont (get_cont_from_proc p t') t';
              container = get_cont_from_proc p t';
              process = some p;
              ptree = ps;
            },
            t',
            rw (found, get_pod_cont_and_proc) (rw e),
            same,
            sym found,
            refl,
          )
    ]

    -- A state of the reader that has seen the header `h` and then the processes `ws`.
    pub record Seen (h : Header) (ws : List (Oid × Process)) (s : Reader Header Event)
        : Type 0 where
      pub hdr : s.hdr ≡ some h
      pub tells : Tells ws s.tables

    -- The step gives such a state.
    abbrev pub Ends :
        Header
        → List (Oid × Process)
        → Option (Reader Header Event × List (Call Header Event))
        → Type 0
    Ends h ws o =
        (s : Reader Header Event) × (calls : List (Call Header Event)) × (o ≡ some (s, calls))
        × Seen h ws s

    with_context-Ends :
        (h : Header) (ws : List (Oid × Process)) (s : Reader Header Event) (x : Oid)
        (call : Ctx Header Event → SfTables → Call Header Event)
        → Seen h ws s
        → All (Falls rank) ws
        → Ends h ws (with_context fuel x s call)
    unfolding with_context
    with_context-Ends h ws s x call seen falls =
        let (ctx, t, e, same, _, _) =
          context-total x (empty_ctx s.hdr) s.tables
            (Tells-IsAcyclic rank ws s.tables seen.tells falls) in
        (
          record s { tables = t },
          call ctx t ∷ [],
          rw e,
          record { hdr = seen.hdr; tells = Tells-same ws s.tables t same seen.tells },
        )

    -- A round that leaves the processes as they are.
    stays :
        (h : Header) (ws : List (Oid × Process)) (s : Reader Header Event) (t : SfTables)
        (calls : List (Call Header Event))
        → t.proc_table ≡ s.tables.proc_table
        → Seen h ws s
        → Ends h ws (some (record s { tables = t }, calls))
    stays h ws s t calls same seen = (
      record s { tables = t },
      calls,
      refl,
      record { hdr = seen.hdr; tells = Tells-same ws s.tables t same seen.tells },
    )

    process-Ends :
        (h : Header) (ws : List (Oid × Process)) (enabled : Bool) (s : Reader Header Event)
        (p : Process)
        → Seen h ws s
        → All (Falls rank) (ws ++ (p.oid, trimmed p) ∷ [])
        → Ends h (ws ++ (p.oid, trimmed p) ∷ []) (step fuel enabled s (sf_process p))
    unfolding step
    process-Ends h ws false s p seen falls = (
      record s { tables = set_proc p.oid (trimmed p) s.tables },
      [],
      refl,
      record { hdr = seen.hdr; tells = Tells-set_proc ws s.tables p.oid (trimmed p) seen.tells },
    )
    process-Ends h ws true s p seen falls =
        let t = set_proc p.oid (trimmed p) s.tables in
        let tells = Tells-set_proc ws s.tables p.oid (trimmed p) seen.tells in
        let (ps, t', e, same) =
          get_ptree-total rank fuel p.oid t
            (Tells-IsAcyclic rank (ws ++ (p.oid, trimmed p) ∷ []) t tells falls) (deep p.oid) in
        (
          record s { tables = t' },
          handle_process
                (record (empty_ctx s.hdr) {
                  process = some (trimmed p);
                  ptree = ps;
                  container = get_cont_from_proc (trimmed p) t';
                  pod = get_pod_from_cont (get_cont_from_proc (trimmed p) t') t';
                })
                (trimmed p)
              ∷ [],
          rw e,
          record {
            hdr = seen.hdr;
            tells = Tells-same (ws ++ (p.oid, trimmed p) ∷ []) t t' same tells;
          },
        )

    pub grow :
        (h : Header) (ws : List (Oid × Process))
        (o : Option (Reader Header Event × List (Call Header Event)))
        → Ends h ws o
        → Ends h (ws ++ []) o
    grow h ws o = subst (λ l. Ends h l o) (sym (append-nil ws))

    pub step-Ends :
        (h : Header) (ws : List (Oid × Process)) (enabled : Bool) (s : Reader Header Event)
        (r : Rec Header Event)
        → IsEntry r
        → Seen h ws s
        → All (Falls rank) (ws ++ processes (r ∷ []))
        → Ends h (ws ++ processes (r ∷ [])) (step fuel enabled s r)
    unfolding step set_cont set_pod set_file
    step-Ends h ws enabled s (sf_header g) entry seen falls = absurd entry
    step-Ends h ws enabled s (sf_process p) entry seen falls =
        process-Ends h ws enabled s p seen falls
    step-Ends h ws enabled s (sf_cont c) entry seen falls =
        grow h ws _ (stays h ws s (set_cont c.id c s.tables) _ refl seen)
    step-Ends h ws enabled s (sf_pod p) entry seen falls =
        grow h ws _ (stays h ws s (set_pod p.id p s.tables) _ refl seen)
    step-Ends h ws enabled s (sf_file f) entry seen falls =
        grow h ws _ (stays h ws s (set_file f.oid f s.tables) _ refl seen)
    step-Ends h ws enabled s (sf_k8s_evt e) entry seen falls =
        grow h ws _ (stays h ws s s.tables _ refl seen)
    step-Ends h ws enabled s (sf_proc_evt x e) entry seen falls =
        grow h ws _
          (with_context-Ends h ws s x _ seen (subst (All (Falls rank)) (append-nil ws) falls))
    step-Ends h ws enabled s (sf_net_flow x e) entry seen falls =
        grow h ws _
          (with_context-Ends h ws s x _ seen (subst (All (Falls rank)) (append-nil ws) falls))
    step-Ends h ws enabled s (sf_file_flow x f e) entry seen falls =
        grow h ws _
          (with_context-Ends h ws s x _ seen (subst (All (Falls rank)) (append-nil ws) falls))
    step-Ends h ws enabled s (sf_file_evt x f g e) entry seen falls =
        grow h ws _
          (with_context-Ends h ws s x _ seen (subst (All (Falls rank)) (append-nil ws) falls))
    step-Ends h ws enabled s sf_proc_flow entry seen falls =
        grow h ws _ (stays h ws s s.tables _ refl seen)
    step-Ends h ws enabled s sf_net_evt entry seen falls =
        grow h ws _ (stays h ws s s.tables _ refl seen)
    step-Ends h ws enabled s unsupported entry seen falls =
        grow h ws _ (stays h ws s s.tables _ refl seen)
