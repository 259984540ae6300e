-- ===== src/Flattener/Ends.antt =====
-- core/flattener/flattener.go: the text attributes of processes and containers behind all assignments.
use sf_processor.Prelude.{
  ◌≡◌, refl, ◌∙◌, true, false, Option, none, some, List, [], ◌∷◌, ◌++◌, All, list_eq, nat_eq,
}
use sf_processor.Prelude.Text.{Str, str}
use sf_processor.Engine.Fields.{Sfgo}
use sf_processor.Sfgo.{SfHeader, Container, Pod, Process, File, Service}
use sf_processor.Reader.{Ctx, trim_space}
use sf_processor.Flattener.Writes.{Write}
use sf_processor.Flattener.Entities.{
  fill_header, fill_container, fill_pod, fill_process, fill_file, fill_entities,
}
use sf_processor.Flattener.Handlers.{fill_new_file}
use sf_processor.Flattener.Last.{
  last_text, last_text-append, last_text-skip, is_in-append, text_names, is_in, all_in,
  all_in-append,
}
use sf_processor.Flattener.Reads.{text_constants}

-- The values of the attributes, in the order of `columns`; those of an absent entity are empty.
abbrev pub process_texts : Option Process → List Str
process_texts none = [] ∷ [] ∷ [] ∷ [] ∷ []
process_texts (some p) = trim_space p.exe ∷ trim_space p.exe_args ∷ p.user_name ∷ p.group_name ∷ []

abbrev pub container_texts : Option Container → List Str
container_texts none = [] ∷ [] ∷ [] ∷ [] ∷ []
container_texts (some c) = c.id ∷ trim_space c.name ∷ c.imageid ∷ trim_space c.image ∷ []

abbrev pub process_names : List Str
process_names =
    str "PROC_EXE_STR"
    ∷ str "PROC_EXEARGS_STR"
    ∷ str "PROC_USERNAME_STR"
    ∷ str "PROC_GROUPNAME_STR"
    ∷ []

abbrev pub container_names : List Str
container_names =
    str "CONT_ID_STR" ∷ str "CONT_NAME_STR" ∷ str "CONT_IMAGEID_STR" ∷ str "CONT_IMAGE_STR" ∷ []

-- The last texts of the names, whatever was there.
abbrev pub Ends : List Write → List Str → List Str → Type 0
Ends ws [] [] = Unit
Ends ws (n ∷ ns) (v ∷ vs) = ((d : Str) → last_text n ws d ≡ v) × Ends ws ns vs
Ends ws _ _ = ⊥

-- None of the names is assigned.
abbrev pub Spares : List Write → List Str → Type 0
Spares ws ns = All (λ (n : Str). is_in n (text_names ws) ≡ false) ns

pub Ends-before : (ws us : List Write) (ns vs : List Str) → Ends us ns vs → Ends (ws ++ us) ns vs
Ends-before ws us [] [] h = tt
Ends-before ws us (n ∷ ns) (v ∷ vs) (h, hs) =
    ((λ d. last_text-append n ws us d ∙ h _), Ends-before ws us ns vs hs)
Ends-before ws us [] (v ∷ vs) h = h
Ends-before ws us (n ∷ ns) [] h = h

pub Ends-behind :
    (ws us : List Write) (ns vs : List Str) → Ends ws ns vs → Spares us ns → Ends (ws ++ us) ns vs
Ends-behind ws us [] [] h k = tt
Ends-behind ws us (n ∷ ns) (v ∷ vs) (h, hs) (k, ks) = (
  (λ d. last_text-append n ws us d ∙ last_text-skip n us _ k ∙ h d),
  Ends-behind ws us ns vs hs ks,
)
Ends-behind ws us [] (v ∷ vs) h k = h
Ends-behind ws us (n ∷ ns) [] h k = h

Ends-fill_process : (p : Option Process) → Ends (fill_process p) process_names (process_texts p)
unfolding fill_process
Ends-fill_process none = ((λ d. refl), ((λ d. refl), ((λ d. refl), ((λ d. refl), tt))))
Ends-fill_process (some p) =
    elim p.poid
      as (λ poid.
        Ends (fill_process (some (record p { poid = poid }))) process_names
          (process_texts (some p))) [
            | none ↦ ((λ d. refl), ((λ d. refl), ((λ d. refl), ((λ d. refl), tt))))
            | some o ↦ ((λ d. refl), ((λ d. refl), ((λ d. refl), ((λ d. refl), tt))))
          ]

Ends-fill_container :
    (c : Option Container) → Ends (fill_container c) container_names (container_texts c)
unfolding fill_container
Ends-fill_container none = ((λ d. refl), ((λ d. refl), ((λ d. refl), ((λ d. refl), tt))))
Ends-fill_container (some c) = ((λ d. refl), ((λ d. refl), ((λ d. refl), ((λ d. refl), tt))))

Spares-append :
    (ws us : List Write) (ns : List Str) → Spares ws ns → Spares us ns → Spares (ws ++ us) ns
Spares-append ws us [] h k = tt
Spares-append ws us (n ∷ ns) (h, hs) (k, ks) =
    (is_in-append n ws us h k, Spares-append ws us ns hs ks)

-- The names of the filled entities spare those of the others.
fill_file-Spares :
    (f : Option File) → Spares (fill_file f) process_names × Spares (fill_file f) container_names
unfolding fill_file
fill_file-Spares none = ((refl, (refl, (refl, (refl, tt)))), (refl, (refl, (refl, (refl, tt)))))
fill_file-Spares (some f) = ((refl, (refl, (refl, (refl, tt)))), (refl, (refl, (refl, (refl, tt)))))

fill_process-Spares : (p : Option Process) → Spares (fill_process p) container_names
unfolding fill_process
fill_process-Spares none = (refl, (refl, (refl, (refl, tt))))
fill_process-Spares (some p) =
    elim p.poid
      as (λ poid. Spares (fill_process (some (record p { poid = poid }))) container_names) [
        | none ↦ (refl, (refl, (refl, (refl, tt))))
        | some o ↦ (refl, (refl, (refl, (refl, tt))))
      ]

header_in : (h : Option SfHeader) → all_in text_constants (text_names (fill_header h)) ≡ true
unfolding fill_header
header_in none = refl
header_in (some h) = refl

container_in : (c : Option Container) → all_in text_constants (text_names (fill_container c)) ≡ true
unfolding fill_container
container_in none = refl
container_in (some c) = refl

process_in : (p : Option Process) → all_in text_constants (text_names (fill_process p)) ≡ true
unfolding fill_process
process_in none = refl
process_in (some p) =
    elim p.poid
      as (λ poid.
        all_in text_constants (text_names (fill_process (some (record p { poid = poid }))))
        ≡ true) [ none ↦ refl | some o ↦ refl ]

file_in : (f : Option File) → all_in text_constants (text_names (fill_file f)) ≡ true
unfolding fill_file
file_in none = refl
file_in (some f) = refl

pub new_file_in : (f : Option File) → all_in text_constants (text_names (fill_new_file f)) ≡ true
unfolding fill_new_file
new_file_in none = refl
new_file_in (some f) = refl

module _ (sfgo : Sfgo) (get_json_str : List Service → Str) where
  pod_in :
      (p : Option Pod) → all_in text_constants (text_names (fill_pod sfgo get_json_str p)) ≡ true
  unfolding fill_pod
  pod_in none = refl
  pod_in (some p) = refl

  fill_pod-Spares : (p : Option Pod) → Spares (fill_pod sfgo get_json_str p) container_names
  unfolding fill_pod
  fill_pod-Spares none = (refl, (refl, (refl, (refl, tt))))
  fill_pod-Spares (some p) = (refl, (refl, (refl, (refl, tt))))

module _ {E : Type 0} (sfgo : Sfgo) (get_json_str : List Service → Str) where
  abbrev pub filled_entities : Ctx SfHeader E → Option File → List Write
  filled_entities sf file =
      fill_entities sfgo get_json_str sf.header sf.pod sf.container sf.process file

  pub Ends-fill_entities :
      (sf : Ctx SfHeader E) (file : Option File)
      → Ends (filled_entities sf file) process_names (process_texts sf.process)
        × Ends (filled_entities sf file) container_names (container_texts sf.container)
  unfolding fill_entities
  Ends-fill_entities sf file =
      let h = fill_header sf.header in
      let c = fill_container sf.container in
      let p = fill_process sf.process in
      let pod = fill_pod sfgo get_json_str sf.pod in
      let f = fill_file file in
      let pns = process_names in
      let cns = container_names in
      let pv = process_texts sf.process in
      let cv = container_texts sf.container in
      (
        Ends-before h (c ++ (pod ++ (p ++ f))) pns pv (
            Ends-before c (pod ++ (p ++ f)) pns pv (
              Ends-before pod (p ++ f) pns pv
                (Ends-behind p f pns pv (Ends-fill_process sf.process) (fill_file-Spares file).0))),
        Ends-before h (c ++ (pod ++ (p ++ f))) cns cv (
            Ends-behind c (pod ++ (p ++ f)) cns cv (Ends-fill_container sf.container) (
              Spares-append pod (p ++ f) cns (fill_pod-Spares sfgo get_json_str sf.pod) (
                Spares-append p f cns (fill_process-Spares sf.process) (fill_file-Spares file).1))),
      )

  pub entities_in :
      (sf : Ctx SfHeader E) (file : Option File)
      → all_in text_constants (text_names (filled_entities sf file)) ≡ true
  unfolding fill_entities
  entities_in sf file =
      let k = text_constants in
      all_in-append k (fill_header sf.header) _ (header_in sf.header) (
        all_in-append k (fill_container sf.container) _ (container_in sf.container) (
          all_in-append k (fill_pod sfgo get_json_str sf.pod) _ (pod_in sfgo get_json_str sf.pod)
            (all_in-append k (fill_process sf.process) _ (process_in sf.process) (file_in file))))
