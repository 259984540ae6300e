-- ===== src/Reader.antt =====
-- core/processor/reader.go: the reader feeds the entity tables, and hands each event on with the
-- entities that it refers to.
pub mod Stored
pub mod Events
pub mod Runs
use sf_processor.Prelude.{
  ℕ, zero, suc, ◌-◌, Bool, true, false, ◌&&◌, ◌||◌, Option, none, some, List, [], ◌∷◌, ◌++◌,
  if◌then◌else◌, ◌>>=◌, nat_beq, leb,
}
use sf_processor.Prelude.Text.{Str}
use sf_processor.Prelude.Utf8.{decode_rune, is_space}
use sf_processor.Sfgo.{Oid, Process, Container, Pod, File}
use sf_processor.Cache.Tables.{
  SfTables, new_sf_tables, reset, get_cont, set_cont, get_pod, set_pod, get_proc, set_proc,
  get_file, set_file, get_ptree,
}

-- The text without the white space at its start; `n` bytes of a space are ahead.
unfoldable pub trim_left_from : ℕ → Str → Str
unfolding is_space
trim_left_from n [] = []
trim_left_from zero (c ∷ s) =
    let (rune, width) = decode_rune (c ∷ s) in
    let rest = trim_left_from (width - 1) s in if is_space rune then rest else c ∷ s
trim_left_from (suc n) (c ∷ s) = trim_left_from n s

-- Behind the bytes of a rune there is only white space.
unfoldable pub is_blank_from : ℕ → Str → Bool
unfolding is_space
is_blank_from n [] = true
is_blank_from zero (c ∷ s) =
    let (rune, width) = decode_rune (c ∷ s) in is_space rune && is_blank_from (width - 1) s
is_blank_from (suc n) (c ∷ s) = is_blank_from n s

-- The text without the white space at its end; `n` bytes of a rune are ahead.
unfoldable pub trim_right_from : ℕ → Str → Str
unfolding is_space is_blank_from
trim_right_from n [] = []
trim_right_from zero (c ∷ s) =
    let (rune, width) = decode_rune (c ∷ s) in
    let rest = trim_right_from (width - 1) s in
    if is_space rune && is_blank_from (width - 1) s then [] else c ∷ rest
trim_right_from (suc n) (c ∷ s) = c ∷ trim_right_from n s

-- strings.TrimSpace
unfoldable pub trim_space : Str → Str
unfolding trim_left_from trim_right_from
trim_space s = trim_right_from 0 (trim_left_from 0 s)

-- The process as the reader stores it.
abbrev pub trimmed : Process → Process
trimmed p = record p { exe = trim_space p.exe; exe_args = trim_space p.exe_args }

-- The headers and the events of a trace are handed on as they are.
module _ (Header Event : Type 0) where
  -- sf.Rec, with the ids by which an event refers to entities.
  pub data Rec : Type 0 where
    sf_header : Header → Rec
    sf_cont : Container → Rec
    sf_pod : Pod → Rec
    sf_k8s_evt : Event → Rec
    sf_process : Process → Rec
    sf_file : File → Rec
    sf_proc_evt sf_net_flow : Oid → Event → Rec
    sf_file_flow : Oid → Str → Event → Rec
    sf_file_evt : Oid → Str → Option Str → Event → Rec
    sf_proc_flow sf_net_evt unsupported : Rec

  -- plugins.CtxSysFlow
  pub record Ctx : Type 0 where
    pub header : Option Header
    pub pod : Option Pod
    pub container : Option Container
    pub process : Option Process
    pub ptree : List Process
    pub file : Option File
    pub new_file : Option File

  -- The calls of the handler.
  pub data Call : Type 0 where
    handle_header : Ctx → Header → Call
    handle_container : Ctx → Container → Call
    handle_pod : Ctx → Pod → Call
    handle_process : Ctx → Process → Call
    handle_file : Ctx → File → Call
    handle_k8s_evt handle_proc_evt handle_net_flow handle_file_flow handle_file_evt :
        Ctx → Event → Call

  pub record Reader : Type 0 where
    pub hdr : Option Header
    pub tables : SfTables

-- A container whose id is not in the tables is logged.
unfoldable pub get_cont_from_proc : Process → SfTables → Option Container
unfolding get_cont
get_cont_from_proc p t = elim p.container_id [ none ↦ none | some id ↦ get_cont id t ]

abbrev pod_by : Option Str → SfTables → Option Pod
pod_by none t = none
pod_by (some id) t = get_pod id t

unfoldable pub get_pod_from_cont : Option Container → SfTables → Option Pod
unfolding get_pod
get_pod_from_cont none t = none
get_pod_from_cont (some c) t = pod_by c.pod_id t

-- `none` is a ContainerId of the null type. The code dereferences the pointer without a test, so a
-- file whose ContainerId is nil, which would make it panic, has no counterpart here.
unfoldable pub get_cont_from_file : File → SfTables → Option Container
unfolding get_cont
get_cont_from_file f t = elim f.container_id [ none ↦ none | some id ↦ get_cont id t ]

unfoldable pub get_opt_file : Option Str → SfTables → Option File
unfolding get_file
get_opt_file none t = none
get_opt_file (some id) t = get_file id t

module _ {Header Event : Type 0} where
  abbrev pub empty_ctx : Option Header → Ctx Header Event
  empty_ctx hdr = record {
    header = hdr;
    pod = none;
    container = none;
    process = none;
    ptree = [];
    file = none;
    new_file = none;
  }

  -- getPodContAndProc, written into the context; the tables remember the tree.
  unfoldable pub get_pod_cont_and_proc :
      ℕ → Oid → Ctx Header Event → SfTables → Option (Ctx Header Event × SfTables)
  unfolding get_proc get_ptree get_cont_from_proc get_pod_from_cont
  get_pod_cont_and_proc fuel oid ctx t = elim (get_proc oid t) [
    | none ↦ some (record ctx { pod = none; container = none; process = none; ptree = [] }, t)
    | some p ↦ do
      (ptree, t') ← get_ptree fuel oid t
      let c = get_cont_from_proc p t'
      some (
        record ctx { pod = get_pod_from_cont c t'; container = c; process = some p; ptree = ptree },
        t',
      )
  ]

  -- An event with the context of its process.
  unfoldable pub with_context :
      ℕ
      → Oid
      → Reader Header Event
      → (Ctx Header Event → SfTables → Call Header Event)
      → Option (Reader Header Event × List (Call Header Event))
  unfolding get_pod_cont_and_proc
  with_context fuel oid s call = do
    (ctx, t) ← get_pod_cont_and_proc fuel oid (empty_ctx s.hdr) s.tables
    some (record s { tables = t }, call ctx t ∷ [])

  abbrev when : Bool → Call Header Event → List (Call Header Event)
  when true call = call ∷ []
  when false call = []

  -- One round of the loop of `Process`; the first argument is the fuel of the trees, the second
  -- whether entities are handed on.
  unfoldable pub step :
      ℕ
      → Bool
      → Reader Header Event
      → Rec Header Event
      → Option (Reader Header Event × List (Call Header Event))
  unfolding with_context trim_space
  step fuel enabled s (sf_header h) = some (
    record { hdr = some h; tables = reset s.tables },
    when enabled (handle_header (empty_ctx s.hdr) h),
  )
  step fuel enabled s (sf_cont c) = some (
    record s { tables = set_cont c.id c s.tables },
    when enabled (handle_container (empty_ctx s.hdr) c),
  )
  step fuel enabled s (sf_pod p) =
      some (
        record s { tables = set_pod p.id p s.tables },
        when enabled (handle_pod (empty_ctx s.hdr) p),
      )
  step fuel enabled s (sf_k8s_evt e) = some (s, handle_k8s_evt (empty_ctx s.hdr) e ∷ [])
  step fuel true s (sf_process proc) =
      let p = trimmed proc in
      let t = set_proc p.oid p s.tables in
      do
        (ptree, t') ← get_ptree fuel p.oid t
        let c = get_cont_from_proc p t'
        some (
          record s { tables = t' },
          handle_process
                (record (empty_ctx s.hdr) {
                  process = some p;
                  ptree = ptree;
                  container = c;
                  pod = get_pod_from_cont c t';
                })
                p
              ∷ [],
        )
  step fuel false s (sf_process proc) =
      let p = trimmed proc in some (record s { tables = set_proc p.oid p s.tables }, [])
  step fuel enabled s (sf_file f) =
      let t = set_file f.oid f s.tables in
      let c = get_cont_from_file f t in
      some (
        record s { tables = t },
        when enabled (
            handle_file
              (record (empty_ctx s.hdr) {
                file = some f;
                container = c;
                pod = get_pod_from_cont c t;
              })
              f),
      )
  step fuel enabled s (sf_proc_evt oid e) = with_context fuel oid s (λ ctx t. handle_proc_evt ctx e)
  step fuel enabled s (sf_net_flow oid e) = with_context fuel oid s (λ ctx t. handle_net_flow ctx e)
  step fuel enabled s (sf_file_flow oid foid e) =
      with_context fuel oid s (λ ctx t. handle_file_flow (record ctx { file = get_file foid t }) e)
  step fuel enabled s (sf_file_evt oid foid new_foid e) = with_context fuel oid s (λ ctx t.
      handle_file_evt (record ctx { file = get_file foid t; new_file = get_opt_file new_foid t }) e)
  step fuel enabled s sf_proc_flow = some (s, [])
  step fuel enabled s sf_net_evt = some (s, [])
  step fuel enabled s unsupported = some (s, [])

  -- The loop, up to the end of the channel.
  unfoldable pub run :
      ℕ
      → Bool
      → Reader Header Event
      → List (Rec Header Event)
      → Option (Reader Header Event × List (Call Header Event))
  unfolding step
  run fuel enabled s [] = some (s, [])
  run fuel enabled s (r ∷ rs) = do
    (s', calls) ← step fuel enabled s r
    (s'', more) ← run fuel enabled s' rs
    some (s'', calls ++ more)
