-- ===== src/Engine/Fields/FileFields.antt =====
-- core/policyengine/engine/fieldmapper.go: the exported attributes of files and flows.
use sf_processor.Prelude.{List, [], ◌∷◌, All}
use sf_processor.Prelude.Text.{Str, str}
use sf_processor.Engine.Record.{pproc_name}
use sf_processor.Engine.Fields.{
  Sfgo, map_dir, map_file_type, map_int_attr, map_ip, map_is_open_read, map_is_open_write, map_name,
  map_open_flags, map_path, map_port, map_str_attr, map_sum, map_symlink,
}
use sf_processor.Engine.Fields.Telemetry.{
  map_dir-ReadsFlat, map_file_type-ReadsFlat, map_int_attr-ReadsFlat, map_ip-ReadsFlat,
  map_is_open_read-ReadsFlat, map_is_open_write-ReadsFlat, map_name-ReadsFlat,
  map_open_flags-ReadsFlat, map_path-ReadsFlat, map_port-ReadsFlat, map_str_attr-ReadsFlat,
  map_sum-ReadsFlat, map_symlink-ReadsFlat,
}
use sf_processor.Engine.Fields.Entry.{
  FieldEntry, IsFlat, sf_entry, map_int_val, map_str_val, map_array_str, map_special_int,
  map_special_str, map_special_bool, sect_file, sect_net, sect_flow,
}

module _ (sfgo : Sfgo) where
  -- sf.file
  unfoldable pub file_fields : List (Str × FieldEntry)
  file_fields =
      (
        str "sf.file.name",
        sf_entry sfgo (map_name sfgo.sysflow_src (sfgo.attribute (str "FILE_PATH_STR")))
            (sfgo.attribute (str "FILE_PATH_STR")) map_special_str sect_file pproc_name,
      )
      ∷ (
        str "sf.file.path",
        sf_entry sfgo (map_path sfgo.sysflow_src (sfgo.attribute (str "FILE_PATH_STR")))
            (sfgo.attribute (str "FILE_PATH_STR")) map_special_str sect_file pproc_name,
      )
      ∷ (
        str "sf.file.symlink",
        sf_entry sfgo (map_symlink sfgo.sysflow_src (sfgo.attribute (str "FILE_PATH_STR")))
            (sfgo.attribute (str "FILE_PATH_STR")) map_special_str sect_file pproc_name,
      )
      ∷ (
        str "sf.file.oid",
        sf_entry sfgo (map_str_attr sfgo.sysflow_src (sfgo.attribute (str "FILE_OID_STR")))
            (sfgo.attribute (str "FILE_OID_STR")) map_str_val sect_file pproc_name,
      )
      ∷ (
        str "sf.file.directory",
        sf_entry sfgo (map_dir sfgo.sysflow_src (sfgo.attribute (str "FILE_PATH_STR")))
            (sfgo.attribute (str "FILE_PATH_STR")) map_special_str sect_file pproc_name,
      )
      ∷ (
        str "sf.file.newname",
        sf_entry sfgo (map_name sfgo.sysflow_src (sfgo.attribute (str "SEC_FILE_PATH_STR")))
            (sfgo.attribute (str "SEC_FILE_PATH_STR")) map_special_str sect_file pproc_name,
      )
      ∷ (
        str "sf.file.newpath",
        sf_entry sfgo (map_path sfgo.sysflow_src (sfgo.attribute (str "SEC_FILE_PATH_STR")))
            (sfgo.attribute (str "SEC_FILE_PATH_STR")) map_str_val sect_file pproc_name,
      )
      ∷ (
        str "sf.file.newsymlink",
        sf_entry sfgo (map_symlink sfgo.sysflow_src (sfgo.attribute (str "SEC_FILE_PATH_STR")))
            (sfgo.attribute (str "SEC_FILE_PATH_STR")) map_special_str sect_file pproc_name,
      )
      ∷ (
        str "sf.file.newoid",
        sf_entry sfgo (map_str_attr sfgo.sysflow_src (sfgo.attribute (str "SEC_FILE_OID_STR")))
            (sfgo.attribute (str "SEC_FILE_OID_STR")) map_str_val sect_file pproc_name,
      )
      ∷ (
        str "sf.file.newdirectory",
        sf_entry sfgo (map_dir sfgo.sysflow_src (sfgo.attribute (str "SEC_FILE_PATH_STR")))
            (sfgo.attribute (str "SEC_FILE_PATH_STR")) map_special_str sect_file pproc_name,
      )
      ∷ (
        str "sf.file.type",
        sf_entry sfgo
            (map_file_type sfgo sfgo.sysflow_src (sfgo.attribute (str "FILE_RESTYPE_INT")))
            (sfgo.attribute (str "FILE_RESTYPE_INT")) map_special_str sect_file pproc_name,
      )
      ∷ (
        str "sf.file.is_open_write",
        sf_entry sfgo
            (map_is_open_write sfgo sfgo.sysflow_src (sfgo.attribute (str "FL_FILE_OPENFLAGS_INT")))
            (sfgo.attribute (str "FL_FILE_OPENFLAGS_INT")) map_special_bool sect_file pproc_name,
      )
      ∷ (
        str "sf.file.is_open_read",
        sf_entry sfgo
            (map_is_open_read sfgo sfgo.sysflow_src (sfgo.attribute (str "FL_FILE_OPENFLAGS_INT")))
            (sfgo.attribute (str "FL_FILE_OPENFLAGS_INT")) map_special_bool sect_file pproc_name,
      )
      ∷ (
        str "sf.file.fd",
        sf_entry sfgo (map_int_attr sfgo.sysflow_src (sfgo.attribute (str "FL_FILE_FD_INT")))
            (sfgo.attribute (str "FL_FILE_FD_INT")) map_int_val sect_file pproc_name,
      )
      ∷ (
        str "sf.file.openflags",
        sf_entry sfgo
            (map_open_flags sfgo sfgo.sysflow_src (sfgo.attribute (str "FL_FILE_OPENFLAGS_INT")))
            (sfgo.attribute (str "FL_FILE_OPENFLAGS_INT")) map_array_str sect_file pproc_name,
      )
      ∷ []

  -- sf.net and sf.flow
  unfoldable pub flow_fields : List (Str × FieldEntry)
  flow_fields =
      (
        str "sf.net.proto",
        sf_entry sfgo (map_int_attr sfgo.sysflow_src (sfgo.attribute (str "FL_NETW_PROTO_INT")))
            (sfgo.attribute (str "FL_NETW_PROTO_INT")) map_int_val sect_net pproc_name,
      )
      ∷ (
        str "sf.net.sport",
        sf_entry sfgo (map_int_attr sfgo.sysflow_src (sfgo.attribute (str "FL_NETW_SPORT_INT")))
            (sfgo.attribute (str "FL_NETW_SPORT_INT")) map_int_val sect_net pproc_name,
      )
      ∷ (
        str "sf.net.dport",
        sf_entry sfgo (map_int_attr sfgo.sysflow_src (sfgo.attribute (str "FL_NETW_DPORT_INT")))
            (sfgo.attribute (str "FL_NETW_DPORT_INT")) map_int_val sect_net pproc_name,
      )
      ∷ (
        str "sf.net.port",
        sf_entry sfgo
            (map_port sfgo.sysflow_src (
              (sfgo.attribute (str "FL_NETW_SPORT_INT"))
              ∷ (sfgo.attribute (str "FL_NETW_DPORT_INT"))
              ∷ []))
            (sfgo.attribute (str "FL_NETW_SPORT_INT")) map_array_str sect_net pproc_name,
      )
      ∷ (
        str "sf.net.sip",
        sf_entry sfgo (map_ip sfgo sfgo.sysflow_src ((sfgo.attribute (str "FL_NETW_SIP_INT")) ∷ []))
            (sfgo.attribute (str "FL_NETW_SIP_INT")) map_special_str sect_net pproc_name,
      )
      ∷ (
        str "sf.net.dip",
        sf_entry sfgo (map_ip sfgo sfgo.sysflow_src ((sfgo.attribute (str "FL_NETW_DIP_INT")) ∷ []))
            (sfgo.attribute (str "FL_NETW_DIP_INT")) map_special_str sect_net pproc_name,
      )
      ∷ (
        str "sf.net.ip",
        sf_entry sfgo
            (map_ip sfgo sfgo.sysflow_src (
              (sfgo.attribute (str "FL_NETW_SIP_INT"))
              ∷ (sfgo.attribute (str "FL_NETW_DIP_INT"))
              ∷ []))
            (sfgo.attribute (str "FL_NETW_SIP_INT")) map_array_str sect_net pproc_name,
      )
      ∷ (
        str "sf.flow.rbytes",
        sf_entry sfgo
            (map_sum sfgo.sysflow_src (
              (sfgo.attribute (str "FL_FILE_NUMRRECVBYTES_INT"))
              ∷ (sfgo.attribute (str "FL_NETW_NUMRRECVBYTES_INT"))
              ∷ []))
            (sfgo.attribute (str "FL_FILE_NUMRRECVBYTES_INT")) map_special_int sect_flow pproc_name,
      )
      ∷ (
        str "sf.flow.rops",
        sf_entry sfgo
            (map_sum sfgo.sysflow_src (
              (sfgo.attribute (str "FL_FILE_NUMRRECVOPS_INT"))
              ∷ (sfgo.attribute (str "FL_NETW_NUMRRECVOPS_INT"))
              ∷ []))
            (sfgo.attribute (str "FL_FILE_NUMRRECVOPS_INT")) map_special_int sect_flow pproc_name,
      )
      ∷ (
        str "sf.flow.wbytes",
        sf_entry sfgo
            (map_sum sfgo.sysflow_src (
              (sfgo.attribute (str "FL_FILE_NUMWSENDBYTES_INT"))
              ∷ (sfgo.attribute (str "FL_NETW_NUMWSENDBYTES_INT"))
              ∷ []))
            (sfgo.attribute (str "FL_FILE_NUMWSENDBYTES_INT")) map_special_int sect_flow pproc_name,
      )
      ∷ (
        str "sf.flow.wops",
        sf_entry sfgo
            (map_sum sfgo.sysflow_src (
              (sfgo.attribute (str "FL_FILE_NUMWSENDOPS_INT"))
              ∷ (sfgo.attribute (str "FL_NETW_NUMWSENDOPS_INT"))
              ∷ []))
            (sfgo.attribute (str "FL_FILE_NUMWSENDOPS_INT")) map_special_int sect_flow pproc_name,
      )
      ∷ []

  pub file_fields-IsFlat : All IsFlat file_fields
  unfolding file_fields
  file_fields-IsFlat = (
    map_name-ReadsFlat sfgo.sysflow_src (sfgo.attribute (str "FILE_PATH_STR")),
    (
      map_path-ReadsFlat sfgo.sysflow_src (sfgo.attribute (str "FILE_PATH_STR")),
      (
        map_symlink-ReadsFlat sfgo.sysflow_src (sfgo.attribute (str "FILE_PATH_STR")),
        (
          map_str_attr-ReadsFlat sfgo.sysflow_src (sfgo.attribute (str "FILE_OID_STR")),
          (
            map_dir-ReadsFlat sfgo.sysflow_src (sfgo.attribute (str "FILE_PATH_STR")),
            (
              map_name-ReadsFlat sfgo.sysflow_src (sfgo.attribute (str "SEC_FILE_PATH_STR")),
              (
                map_path-ReadsFlat sfgo.sysflow_src (sfgo.attribute (str "SEC_FILE_PATH_STR")),
                (
                  map_symlink-ReadsFlat sfgo.sysflow_src (sfgo.attribute (str "SEC_FILE_PATH_STR")),
                  (
                    map_str_attr-ReadsFlat sfgo.sysflow_src
                        (sfgo.attribute (str "SEC_FILE_OID_STR")),
                    (
                      map_dir-ReadsFlat sfgo.sysflow_src (sfgo.attribute (str "SEC_FILE_PATH_STR")),
                      (
                        map_file_type-ReadsFlat sfgo sfgo.sysflow_src
                            (sfgo.attribute (str "FILE_RESTYPE_INT")),
                        (
                          map_is_open_write-ReadsFlat sfgo sfgo.sysflow_src
                              (sfgo.attribute (str "FL_FILE_OPENFLAGS_INT")),
                          (
                            map_is_open_read-ReadsFlat sfgo sfgo.sysflow_src
                                (sfgo.attribute (str "FL_FILE_OPENFLAGS_INT")),
                            (
                              map_int_attr-ReadsFlat sfgo.sysflow_src
                                  (sfgo.attribute (str "FL_FILE_FD_INT")),
                              (
                                map_open_flags-ReadsFlat sfgo sfgo.sysflow_src
                                    (sfgo.attribute (str "FL_FILE_OPENFLAGS_INT")),
                                tt,
                              ),
                            ),
                          ),
                        ),
                      ),
                    ),
                  ),
                ),
              ),
            ),
          ),
        ),
      ),
    ),
  )

  pub flow_fields-IsFlat : All IsFlat flow_fields
  unfolding flow_fields
  flow_fields-IsFlat = (
    map_int_attr-ReadsFlat sfgo.sysflow_src (sfgo.attribute (str "FL_NETW_PROTO_INT")),
    (
      map_int_attr-ReadsFlat sfgo.sysflow_src (sfgo.attribute (str "FL_NETW_SPORT_INT")),
      (
        map_int_attr-ReadsFlat sfgo.sysflow_src (sfgo.attribute (str "FL_NETW_DPORT_INT")),
        (
          map_port-ReadsFlat sfgo.sysflow_src (
              (sfgo.attribute (str "FL_NETW_SPORT_INT"))
              ∷ (sfgo.attribute (str "FL_NETW_DPORT_INT"))
              ∷ []),
          (
            map_ip-ReadsFlat sfgo sfgo.sysflow_src ((sfgo.attribute (str "FL_NETW_SIP_INT")) ∷ []),
            (
              map_ip-ReadsFlat sfgo sfgo.sysflow_src
                  ((sfgo.attribute (str "FL_NETW_DIP_INT")) ∷ []),
              (
                map_ip-ReadsFlat sfgo sfgo.sysflow_src (
                    (sfgo.attribute (str "FL_NETW_SIP_INT"))
                    ∷ (sfgo.attribute (str "FL_NETW_DIP_INT"))
                    ∷ []),
                (
                  map_sum-ReadsFlat sfgo.sysflow_src (
                      (sfgo.attribute (str "FL_FILE_NUMRRECVBYTES_INT"))
                      ∷ (sfgo.attribute (str "FL_NETW_NUMRRECVBYTES_INT"))
                      ∷ []),
                  (
                    map_sum-ReadsFlat sfgo.sysflow_src (
                        (sfgo.attribute (str "FL_FILE_NUMRRECVOPS_INT"))
                        ∷ (sfgo.attribute (str "FL_NETW_NUMRRECVOPS_INT"))
                        ∷ []),
                    (
                      map_sum-ReadsFlat sfgo.sysflow_src (
                          (sfgo.attribute (str "FL_FILE_NUMWSENDBYTES_INT"))
                          ∷ (sfgo.attribute (str "FL_NETW_NUMWSENDBYTES_INT"))
                          ∷ []),
                      (
                        map_sum-ReadsFlat sfgo.sysflow_src (
                            (sfgo.attribute (str "FL_FILE_NUMWSENDOPS_INT"))
                            ∷ (sfgo.attribute (str "FL_NETW_NUMWSENDOPS_INT"))
                            ∷ []),
                        tt,
                      ),
                    ),
                  ),
                ),
              ),
            ),
          ),
        ),
      ),
    ),
  )
