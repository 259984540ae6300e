-- ===== src/Engine/Fields/Mappers.antt =====
-- core/policyengine/engine/fieldmapper.go: the attribute table of the policy engine.
use sf_processor.Prelude.{
  ◌≡◌, ap, subst, none, some, some-injective, List, [], ◌∷◌, ◌++◌, All, All-append, map,
  Option-cases, Bool-cases, inl, inr, list_eq, nat_eq, list_beq_iff, ◌==◌, arith,
}
use sf_processor.Prelude.Assoc.{lookup, insert, lookup-insert}
use sf_processor.Prelude.Text.{Str}
use sf_processor.Engine.Record.{ReadsFlat}
use sf_processor.Engine.Mapper.{FieldMapper, FieldMap}
use sf_processor.Engine.Criterion.Telemetry.{MapsFlat}
use sf_processor.Engine.Fields.{Sfgo}
use sf_processor.Engine.Fields.Entry.{FieldEntry, IsFlat}
use sf_processor.Engine.Fields.ProcessFields.{
  record_fields, proc_fields, pproc_fields, record_fields-IsFlat, proc_fields-IsFlat,
  pproc_fields-IsFlat,
}
use sf_processor.Engine.Fields.FileFields.{
  file_fields, flow_fields, file_fields-IsFlat, flow_fields-IsFlat,
}
use sf_processor.Engine.Fields.ContextFields.{
  container_fields, pod_fields, node_fields, container_fields-IsFlat, pod_fields-IsFlat,
  node_fields-IsFlat,
}
use sf_processor.Engine.Fields.FalcoFields.{
  falco_event_fields, falco_proc_fields, falco_event_fields-IsFlat, falco_proc_fields-IsFlat,
}

abbrev pub EntryMap : Type 0
EntryMap = List (Str × FieldEntry)

-- The loop over the second table: a key of the first is kept, with a warning.
unfoldable pub add_missing : EntryMap → EntryMap → EntryMap
add_missing mappers [] = mappers
add_missing mappers ((k, v) ∷ rest) = elim (lookup k mappers) [
  | none ↦ add_missing (insert k v mappers) rest
  | some _ ↦ add_missing mappers rest
]

module _ (sfgo : Sfgo) where
  unfoldable pub get_exported_mappers : EntryMap
  get_exported_mappers =
      record_fields sfgo
      ++ (proc_fields sfgo
          ++ (pproc_fields sfgo
              ++ (file_fields sfgo
                  ++ (flow_fields sfgo
                      ++ (container_fields sfgo ++ (pod_fields sfgo ++ node_fields sfgo))))))

  unfoldable pub get_non_exported_mappers : EntryMap
  get_non_exported_mappers = falco_event_fields sfgo ++ falco_proc_fields sfgo

  unfoldable pub get_mappers : EntryMap
  unfolding add_missing get_exported_mappers get_non_exported_mappers
  get_mappers = add_missing get_exported_mappers get_non_exported_mappers

-- The map functions of a table, as the adapter looks them up.
abbrev pub mapping_of : Str × FieldEntry → Str × FieldMap
mapping_of entry = (entry.0, entry.1.mapping)

-- The global `Mapper`.
unfoldable pub global_mapper : Sfgo → FieldMapper
unfolding get_mappers
global_mapper sfgo = map mapping_of (get_mappers sfgo)

insert-IsFlat :
    (k : Str) (v : FieldEntry) (m : EntryMap)
    → IsFlat (k, v)
    → All IsFlat m
    → All IsFlat (insert k v m)
unfolding insert
insert-IsFlat k v [] p h = (p, tt)
insert-IsFlat k v ((j, w) ∷ m) p (q, h) = elim (Bool-cases (j == k)) [
  | inl same ↦ rw same (p, h)
  | inr other ↦ rw other (q, insert-IsFlat k v m p h)
]

add_missing-IsFlat : (m n : EntryMap) → All IsFlat m → All IsFlat n → All IsFlat (add_missing m n)
unfolding add_missing
add_missing-IsFlat m [] h g = h
add_missing-IsFlat m ((k, v) ∷ n) h (p, g) = elim (Option-cases (lookup k m)) [
  | inl free ↦
      rw (free, add_missing) (add_missing-IsFlat (insert k v m) n (insert-IsFlat k v m p h) g)
  | inr (w, found) ↦ rw (found, add_missing) (add_missing-IsFlat m n h g)
]

add_missing-keeps :
    (m n : EntryMap) (k : Str) (e : FieldEntry)
    → lookup k m ≡ some e
    → lookup k (add_missing m n) ≡ some e
unfolding add_missing
add_missing-keeps m [] k e h = h
add_missing-keeps m ((j, v) ∷ n) k e h = elim (Option-cases (lookup j m)) [
  | inl free ↦
      rw (free, add_missing)
        (add_missing-keeps (insert j v m) n k e (
          ground
            (arith, lookup-insert j k v m, list_beq_iff j k, ap (λ x. lookup x m) {x = j} {y = k})))
  | inr (w, found) ↦ rw (found, add_missing) (add_missing-keeps m n k e h)
]

lookup-IsFlat :
    (m : EntryMap) (a : Str) (f : FieldMap)
    → All IsFlat m
    → lookup a (map mapping_of m) ≡ some f
    → ReadsFlat f
unfolding lookup
lookup-IsFlat [] a f h e = absurd (cc)
lookup-IsFlat ((j, v) ∷ m) a f (p, h) e = elim (Bool-cases (j == a)) [
  | inl same ↦ subst ReadsFlat (some-injective _ _ (rw same at e)) p
  | inr other ↦ lookup-IsFlat m a f h (rw other at e)
]

append-IsFlat : (m n : EntryMap) → All IsFlat m → All IsFlat n → All IsFlat (m ++ n)
append-IsFlat m n h g = All-append IsFlat m n h g

get_mappers-IsFlat : (sfgo : Sfgo) → All IsFlat (get_mappers sfgo)
unfolding get_mappers get_exported_mappers get_non_exported_mappers
get_mappers-IsFlat sfgo =
    add_missing-IsFlat (get_exported_mappers sfgo) (get_non_exported_mappers sfgo)
      (append-IsFlat _ _ (record_fields-IsFlat sfgo) (
        append-IsFlat _ _ (proc_fields-IsFlat sfgo) (
          append-IsFlat _ _ (pproc_fields-IsFlat sfgo) (
            append-IsFlat _ _ (file_fields-IsFlat sfgo) (
              append-IsFlat _ _ (flow_fields-IsFlat sfgo) (
                append-IsFlat _ _ (container_fields-IsFlat sfgo)
                  (append-IsFlat _ _ (pod_fields-IsFlat sfgo) (node_fields-IsFlat sfgo))))))))
      (append-IsFlat _ _ (falco_event_fields-IsFlat sfgo) (falco_proc_fields-IsFlat sfgo))

-- Every attribute of the policy engine's table is read from the telemetry of a record only, and not
-- from its context; and an exported attribute is not replaced by a query attribute of its name.
pub global_mapper-MapsFlat :
    (sfgo : Sfgo)
    → MapsFlat (global_mapper sfgo)
      × ((k : Str) (e : FieldEntry)
          → lookup k (get_exported_mappers sfgo) ≡ some e
          → lookup k (get_mappers sfgo) ≡ some e)
unfolding global_mapper get_mappers
global_mapper-MapsFlat sfgo = (
  record { at = λ a f found. lookup-IsFlat (get_mappers sfgo) a f (get_mappers-IsFlat sfgo) found },
  λ k e found.
      add_missing-keeps (get_exported_mappers sfgo) (get_non_exported_mappers sfgo) k e found,
)
