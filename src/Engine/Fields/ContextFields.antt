-- ===== src/Engine/Fields/ContextFields.antt =====
-- core/policyengine/engine/fieldmapper.go: the exported attributes of containers, pods and nodes.
use sf_processor.Prelude.{List, [], ◌∷◌, All}
use sf_processor.Prelude.Text.{Str, str}
use sf_processor.Engine.Record.{pproc_name}
use sf_processor.Engine.Fields.{
  Sfgo, map_action, map_cont_type, map_int_array_attr, map_int_attr, map_kind, map_name,
  map_str_attr, map_svc_array_attr,
}
use sf_processor.Engine.Fields.Telemetry.{
  map_action-ReadsFlat, map_cont_type-ReadsFlat, map_int_array_attr-ReadsFlat,
  map_int_attr-ReadsFlat, map_kind-ReadsFlat, map_name-ReadsFlat, map_str_attr-ReadsFlat,
  map_svc_array_attr-ReadsFlat,
}
use sf_processor.Engine.Fields.Entry.{
  FieldEntry, IsFlat, sf_entry, map_int_val, map_str_val, map_array_int, map_special_str,
  map_array_svc, sect_none, sect_cont, sect_node, sect_meta, sect_pod, sect_k8s_evt,
}

module _ (sfgo : Sfgo) where
  -- sf.container
  unfoldable pub container_fields : List (Str × FieldEntry)
  container_fields =
      (
        str "sf.container.id",
        sf_entry sfgo (map_str_attr sfgo.sysflow_src (sfgo.attribute (str "CONT_ID_STR")))
            (sfgo.attribute (str "CONT_ID_STR")) map_str_val sect_cont pproc_name,
      )
      ∷ (
        str "sf.container.name",
        sf_entry sfgo (map_str_attr sfgo.sysflow_src (sfgo.attribute (str "CONT_NAME_STR")))
            (sfgo.attribute (str "CONT_NAME_STR")) map_str_val sect_cont pproc_name,
      )
      ∷ (
        str "sf.container.imageid",
        sf_entry sfgo (map_str_attr sfgo.sysflow_src (sfgo.attribute (str "CONT_IMAGEID_STR")))
            (sfgo.attribute (str "CONT_IMAGEID_STR")) map_str_val sect_cont pproc_name,
      )
      ∷ (
        str "sf.container.image",
        sf_entry sfgo (map_str_attr sfgo.sysflow_src (sfgo.attribute (str "CONT_IMAGE_STR")))
            (sfgo.attribute (str "CONT_IMAGE_STR")) map_str_val sect_cont pproc_name,
      )
      ∷ (
        str "sf.container.type",
        sf_entry sfgo (map_cont_type sfgo sfgo.sysflow_src (sfgo.attribute (str "CONT_TYPE_INT")))
            (sfgo.attribute (str "CONT_TYPE_INT")) map_special_str sect_cont pproc_name,
      )
      ∷ (
        str "sf.container.privileged",
        sf_entry sfgo (map_int_attr sfgo.sysflow_src (sfgo.attribute (str "CONT_PRIVILEGED_INT")))
            (sfgo.attribute (str "CONT_PRIVILEGED_INT")) map_int_val sect_cont pproc_name,
      )
      ∷ []

  -- sf.pod and sf.ke
  unfoldable pub pod_fields : List (Str × FieldEntry)
  pod_fields =
      (
        str "sf.pod.ts",
        sf_entry sfgo (map_int_attr sfgo.sysflow_src (sfgo.attribute (str "POD_TS_INT")))
            (sfgo.attribute (str "POD_TS_INT")) map_int_val sect_pod pproc_name,
      )
      ∷ (
        str "sf.pod.id",
        sf_entry sfgo (map_str_attr sfgo.sysflow_src (sfgo.attribute (str "POD_ID_STR")))
            (sfgo.attribute (str "POD_ID_STR")) map_str_val sect_pod pproc_name,
      )
      ∷ (
        str "sf.pod.name",
        sf_entry sfgo (map_str_attr sfgo.sysflow_src (sfgo.attribute (str "POD_NAME_STR")))
            (sfgo.attribute (str "POD_NAME_STR")) map_str_val sect_pod pproc_name,
      )
      ∷ (
        str "sf.pod.nodename",
        sf_entry sfgo (map_str_attr sfgo.sysflow_src (sfgo.attribute (str "POD_NODENAME_STR")))
            (sfgo.attribute (str "POD_NODENAME_STR")) map_str_val sect_pod pproc_name,
      )
      ∷ (
        str "sf.pod.namespace",
        sf_entry sfgo (map_str_attr sfgo.sysflow_src (sfgo.attribute (str "POD_NAMESPACE_STR")))
            (sfgo.attribute (str "POD_NAMESPACE_STR")) map_str_val sect_pod pproc_name,
      )
      ∷ (
        str "sf.pod.restartcnt",
        sf_entry sfgo (map_int_attr sfgo.sysflow_src (sfgo.attribute (str "POD_RESTARTCOUNT_INT")))
            (sfgo.attribute (str "POD_RESTARTCOUNT_INT")) map_int_val sect_pod pproc_name,
      )
      ∷ (
        str "sf.pod.hostip",
        sf_entry sfgo (map_str_attr sfgo.sysflow_src (sfgo.attribute (str "POD_HOSTIP_STR")))
            (sfgo.attribute (str "POD_HOSTIP_STR")) map_str_val sect_none pproc_name,
      )
      ∷ (
        str "sf.pod.hostip+",
        sf_entry sfgo (map_int_array_attr sfgo.sysflow_src (sfgo.attribute (str "POD_HOSTIP_ANY")))
            (sfgo.attribute (str "POD_HOSTIP_ANY")) map_array_int sect_pod pproc_name,
      )
      ∷ (
        str "sf.pod.internalip",
        sf_entry sfgo (map_str_attr sfgo.sysflow_src (sfgo.attribute (str "POD_INTERNALIP_STR")))
            (sfgo.attribute (str "POD_INTERNALIP_STR")) map_str_val sect_none pproc_name,
      )
      ∷ (
        str "sf.pod.internalip+",
        sf_entry sfgo
            (map_int_array_attr sfgo.sysflow_src (sfgo.attribute (str "POD_INTERNALIP_ANY")))
            (sfgo.attribute (str "POD_INTERNALIP_ANY")) map_array_int sect_pod pproc_name,
      )
      ∷ (
        str "sf.pod.services",
        sf_entry sfgo (map_str_attr sfgo.sysflow_src (sfgo.attribute (str "POD_SERVICES_STR")))
            (sfgo.attribute (str "POD_SERVICES_STR")) map_str_val sect_none pproc_name,
      )
      ∷ (
        str "sf.pod.services+",
        sf_entry sfgo
            (map_svc_array_attr sfgo.sysflow_src (sfgo.attribute (str "POD_SERVICES_ANY")))
            (sfgo.attribute (str "POD_SERVICES_ANY")) map_array_svc sect_pod pproc_name,
      )
      ∷ (
        str "sf.ke.action",
        sf_entry sfgo (map_action sfgo sfgo.sysflow_src (sfgo.attribute (str "K8SE_ACTION_INT")))
            (sfgo.attribute (str "K8SE_ACTION_INT")) map_special_str sect_k8s_evt pproc_name,
      )
      ∷ (
        str "sf.ke.kind",
        sf_entry sfgo (map_kind sfgo sfgo.sysflow_src (sfgo.attribute (str "K8SE_KIND_INT")))
            (sfgo.attribute (str "K8SE_KIND_INT")) map_special_str sect_k8s_evt pproc_name,
      )
      ∷ (
        str "sf.ke.message",
        sf_entry sfgo (map_str_attr sfgo.sysflow_src (sfgo.attribute (str "K8SE_MESSAGE_STR")))
            (sfgo.attribute (str "K8SE_MESSAGE_STR")) map_str_val sect_k8s_evt pproc_name,
      )
      ∷ []

  -- sf.node and sf.meta
  unfoldable pub node_fields : List (Str × FieldEntry)
  node_fields =
      (
        str "sf.node.id",
        sf_entry sfgo (map_str_attr sfgo.sysflow_src (sfgo.attribute (str "SFHE_EXPORTER_STR")))
            (sfgo.attribute (str "SFHE_EXPORTER_STR")) map_str_val sect_node pproc_name,
      )
      ∷ (
        str "sf.node.ip",
        sf_entry sfgo (map_str_attr sfgo.sysflow_src (sfgo.attribute (str "SFHE_IP_STR")))
            (sfgo.attribute (str "SFHE_IP_STR")) map_str_val sect_node pproc_name,
      )
      ∷ (
        str "sf.meta.schema",
        sf_entry sfgo (map_int_attr sfgo.sysflow_src (sfgo.attribute (str "SFHE_VERSION_INT")))
            (sfgo.attribute (str "SFHE_VERSION_INT")) map_int_val sect_meta pproc_name,
      )
      ∷ (
        str "sf.meta.tracename",
        sf_entry sfgo (map_name sfgo.sysflow_src (sfgo.attribute (str "SFHE_FILENAME_STR")))
            (sfgo.attribute (str "SFHE_FILENAME_STR")) map_special_str sect_meta pproc_name,
      )
      ∷ []

  pub container_fields-IsFlat : All IsFlat container_fields
  unfolding container_fields
  container_fields-IsFlat = (
    map_str_attr-ReadsFlat sfgo.sysflow_src (sfgo.attribute (str "CONT_ID_STR")),
    (
      map_str_attr-ReadsFlat sfgo.sysflow_src (sfgo.attribute (str "CONT_NAME_STR")),
      (
        map_str_attr-ReadsFlat sfgo.sysflow_src (sfgo.attribute (str "CONT_IMAGEID_STR")),
        (
          map_str_attr-ReadsFlat sfgo.sysflow_src (sfgo.attribute (str "CONT_IMAGE_STR")),
          (
            map_cont_type-ReadsFlat sfgo sfgo.sysflow_src (sfgo.attribute (str "CONT_TYPE_INT")),
            (
              map_int_attr-ReadsFlat sfgo.sysflow_src (sfgo.attribute (str "CONT_PRIVILEGED_INT")),
              tt,
            ),
          ),
        ),
      ),
    ),
  )

  pub pod_fields-IsFlat : All IsFlat pod_fields
  unfolding pod_fields
  pod_fields-IsFlat = (
    map_int_attr-ReadsFlat sfgo.sysflow_src (sfgo.attribute (str "POD_TS_INT")),
    (
      map_str_attr-ReadsFlat sfgo.sysflow_src (sfgo.attribute (str "POD_ID_STR")),
      (
        map_str_attr-ReadsFlat sfgo.sysflow_src (sfgo.attribute (str "POD_NAME_STR")),
        (
          map_str_attr-ReadsFlat sfgo.sysflow_src (sfgo.attribute (str "POD_NODENAME_STR")),
          (
            map_str_attr-ReadsFlat sfgo.sysflow_src (sfgo.attribute (str "POD_NAMESPACE_STR")),
            (
              map_int_attr-ReadsFlat sfgo.sysflow_src (sfgo.attribute (str "POD_RESTARTCOUNT_INT")),
              (
                map_str_attr-ReadsFlat sfgo.sysflow_src (sfgo.attribute (str "POD_HOSTIP_STR")),
                (
                  map_int_array_attr-ReadsFlat sfgo.sysflow_src
                      (sfgo.attribute (str "POD_HOSTIP_ANY")),
                  (
                    map_str_attr-ReadsFlat sfgo.sysflow_src
                        (sfgo.attribute (str "POD_INTERNALIP_STR")),
                    (
                      map_int_array_attr-ReadsFlat sfgo.sysflow_src
                          (sfgo.attribute (str "POD_INTERNALIP_ANY")),
                      (
                        map_str_attr-ReadsFlat sfgo.sysflow_src
                            (sfgo.attribute (str "POD_SERVICES_STR")),
                        (
                          map_svc_array_attr-ReadsFlat sfgo.sysflow_src
                              (sfgo.attribute (str "POD_SERVICES_ANY")),
                          (
                            map_action-ReadsFlat sfgo sfgo.sysflow_src
                                (sfgo.attribute (str "K8SE_ACTION_INT")),
                            (
                              map_kind-ReadsFlat sfgo sfgo.sysflow_src
                                  (sfgo.attribute (str "K8SE_KIND_INT")),
                              (
                                map_str_attr-ReadsFlat sfgo.sysflow_src
                                    (sfgo.attribute (str "K8SE_MESSAGE_STR")),
                                tt,
                              ),
                            ),
                          ),
                        ),
                      ),
                    ),
                  ),
                ),
              ),
            ),
          ),
        ),
      ),
    ),
  )

  pub node_fields-IsFlat : All IsFlat node_fields
  unfolding node_fields
  node_fields-IsFlat = (
    map_str_attr-ReadsFlat sfgo.sysflow_src (sfgo.attribute (str "SFHE_EXPORTER_STR")),
    (
      map_str_attr-ReadsFlat sfgo.sysflow_src (sfgo.attribute (str "SFHE_IP_STR")),
      (
        map_int_attr-ReadsFlat sfgo.sysflow_src (sfgo.attribute (str "SFHE_VERSION_INT")),
        (map_name-ReadsFlat sfgo.sysflow_src (sfgo.attribute (str "SFHE_FILENAME_STR")), tt),
      ),
    ),
  )
