-- ===== src/Reader/Runs.antt =====
-- core/processor/reader.go: the process that an event is handed on with is the one that was announced
-- last since the header.
use sf_processor.Prelude.{
  ℕ, ◌<◌, ◌≡◌, refl, sym, ap, subst, ◌∙◌, Bool, some, List, [], ◌∷◌, ◌++◌, All,
}
use mathlib.Core.List.{append_assoc}
use sf_processor.Prelude.Assoc.{lookup}
use sf_processor.Sfgo.{Oid, Process}
use sf_processor.Cache.Tables.{SfTables, new_sf_tables, reset}
use sf_processor.Reader.{
  Rec, sf_header, sf_cont, sf_pod, sf_k8s_evt, sf_process, sf_file, sf_proc_evt, sf_net_flow,
  sf_file_flow, sf_file_evt, sf_proc_flow, sf_net_evt, unsupported, Ctx, Call, handle_proc_evt,
  Reader, empty_ctx, get_pod_cont_and_proc, with_context, step, run,
}
use sf_processor.Reader.Stored.{
  current, Tells-current, Tells-IsAcyclic, Falls, All-front, stored-empty,
}
use sf_processor.Reader.Events.{processes, IsEntry, context-total, Seen, Ends, grow, step-Ends}

module _ {Header Event : Type 0} where
  module _ (rank : Oid → ℕ) (fuel : ℕ) (deep : (x : Oid) → rank x < fuel) where
    processes-cons :
        (r : Rec Header Event) (rs : List (Rec Header Event))
        → processes (r ∷ rs) ≡ processes (r ∷ []) ++ processes rs
    processes-cons (sf_header h) rs = refl
    processes-cons (sf_cont c) rs = refl
    processes-cons (sf_pod p) rs = refl
    processes-cons (sf_k8s_evt e) rs = refl
    processes-cons (sf_process p) rs = refl
    processes-cons (sf_file f) rs = refl
    processes-cons (sf_proc_evt x e) rs = refl
    processes-cons (sf_net_flow x e) rs = refl
    processes-cons (sf_file_flow x f e) rs = refl
    processes-cons (sf_file_evt x f g e) rs = refl
    processes-cons sf_proc_flow rs = refl
    processes-cons sf_net_evt rs = refl
    processes-cons unsupported rs = refl

    run-cons :
        (enabled : Bool) (s s' s'' : Reader Header Event) (r : Rec Header Event)
        (rs : List (Rec Header Event)) (calls more : List (Call Header Event))
        → step fuel enabled s r ≡ some (s', calls)
        → run fuel enabled s' rs ≡ some (s'', more)
        → run fuel enabled s (r ∷ rs) ≡ some (s'', calls ++ more)
    unfolding run
    run-cons enabled s s' s'' r rs calls more e e' = rw e (rw e')

    run-Ends :
        (h : Header) (ws : List (Oid × Process)) (enabled : Bool) (s : Reader Header Event)
        (rs : List (Rec Header Event))
        → All IsEntry rs
        → Seen rank fuel deep h ws s
        → All (Falls rank) (ws ++ processes rs)
        → Ends rank fuel deep h (ws ++ processes rs) (run fuel enabled s rs)
    unfolding run
    run-Ends h ws enabled s [] entries seen falls = grow rank fuel deep h ws _ (s, [], refl, seen)
    run-Ends h ws enabled s (r ∷ rs) (entry, entries) seen falls =
        let here = processes (r ∷ []) in
        let parts : ws ++ processes (r ∷ rs) ≡ (ws ++ here) ++ processes rs =
          ap (λ l. ws ++ l) (processes-cons r rs) ∙ sym (append_assoc ws here (processes rs)) in
        let falls' = subst (All (Falls rank)) parts falls in
        let (s', calls, e, seen') =
          step-Ends rank fuel deep h ws enabled s r entry seen
            (All-front (Falls rank) (ws ++ here) (processes rs) falls') in
        let (s'', more, e', seen'') = run-Ends h (ws ++ here) enabled s' rs entries seen' falls' in
        (
          s'',
          calls ++ more,
          run-cons enabled s s' s'' r rs calls more e e',
          subst (λ l. Seen rank fuel deep h l s'') (sym parts) seen'',
        )

    event-step :
        (enabled : Bool) (s : Reader Header Event) (x : Oid) (e : Event) (ctx : Ctx Header Event)
        (t : SfTables)
        → get_pod_cont_and_proc fuel x (empty_ctx s.hdr) s.tables ≡ some (ctx, t)
        → step fuel enabled s (sf_proc_evt x e)
          ≡ some (record s { tables = t }, handle_proc_evt ctx e ∷ [])
    unfolding step with_context
    event-step enabled s x e ctx t h = rw h

    header-Ends :
        (h : Header) (enabled : Bool) (s : Reader Header Event)
        → Ends rank fuel deep h [] (step fuel enabled s (sf_header h))
    unfolding step reset new_sf_tables lookup
    header-Ends h enabled s = (_, _, refl, record { hdr = refl; tells = λ q x. stored-empty q x })

    -- If every process falls in rank to its parent, and the fuel is above all ranks: whatever the
    -- reader has seen before a header, it runs through the header and the records behind it up to the
    -- next header, and then hands a process event on with this header and with the process that was
    -- announced last for its id since the header, a modified one before a created one and that before
    -- a re-announced one, or with none if none was announced.
    pub run-current :
        (h : Header) (enabled : Bool) (s : Reader Header Event) (rs : List (Rec Header Event))
        → All IsEntry rs
        → All (Falls rank) (processes rs)
        → (x : Oid) (e : Event)
        → (s' : Reader Header Event) × (calls : List (Call Header Event)) × (run fuel enabled s
              (sf_header h ∷ rs)
            ≡ some (s', calls))
          × ((s'' : Reader Header Event) × (ctx : Ctx Header Event) × (step fuel enabled s'
                  (sf_proc_evt x e)
                ≡ some (s'', handle_proc_evt ctx e ∷ []))
              × (ctx.process ≡ current x (processes rs))
              × (ctx.header ≡ some h))
    run-current h enabled s rs entries falls x e =
        let (s1, calls, e1, seen1) = header-Ends h enabled s in
        let (s2, more, e2, seen2) = run-Ends h [] enabled s1 rs entries seen1 falls in
        let (ctx, t, e3, same, found, head) =
          context-total rank fuel deep x (empty_ctx s2.hdr) s2.tables
            (Tells-IsAcyclic rank (processes rs) s2.tables seen2.tells falls) in
        (
          s2,
          calls ++ more,
          run-cons enabled s s1 s2 (sf_header h) rs calls more e1 e2,
          (
            record s2 { tables = t },
            ctx,
            event-step enabled s2 x e ctx t e3,
            found ∙ Tells-current (processes rs) s2.tables x seen2.tells,
            head ∙ seen2.hdr,
          ),
        )
