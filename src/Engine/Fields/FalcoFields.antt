-- ===== src/Engine/Fields/FalcoFields.antt =====
-- core/policyengine/engine/fieldmapper.go: the attributes that queries know, but exports do not.
use sf_processor.Prelude.{List, [], ◌∷◌, All}
use sf_processor.Prelude.Text.{Str, str}
use sf_processor.Engine.Record.{
  pproc_name, pproc_exe, pproc_args, pproc_uid, pproc_user, pproc_gid, pproc_group, pproc_tty,
  pproc_cmd_line, proc_aname, proc_apid,
}
use sf_processor.Engine.Fields.{
  Sfgo, map_cached_value, map_consts, map_cont_type, map_dir, map_file_type, map_int_attr, map_ip,
  map_is_open_read, map_is_open_write, map_join, map_name, map_op_flags, map_port, map_rec_type,
  map_str_attr,
}
use sf_processor.Engine.Fields.Telemetry.{
  map_cached_value-ReadsFlat, map_consts-ReadsFlat, map_cont_type-ReadsFlat, map_dir-ReadsFlat,
  map_file_type-ReadsFlat, map_int_attr-ReadsFlat, map_ip-ReadsFlat, map_is_open_read-ReadsFlat,
  map_is_open_write-ReadsFlat, map_join-ReadsFlat, map_name-ReadsFlat, map_op_flags-ReadsFlat,
  map_port-ReadsFlat, map_rec_type-ReadsFlat, map_str_attr-ReadsFlat,
}
use sf_processor.Engine.Fields.Entry.{FieldEntry, IsFlat, query_entry}

module _ (sfgo : Sfgo) where
  -- evt and fd
  unfoldable pub falco_event_fields : List (Str × FieldEntry)
  falco_event_fields =
      (str "evt.type", query_entry sfgo (map_op_flags sfgo sfgo.sysflow_src))
      ∷ (str "evt.rawres", query_entry sfgo (map_rec_type sfgo sfgo.sysflow_src))
      ∷ (str "evt.rawtime", query_entry sfgo (map_int_attr sfgo.sysflow_src sfgo.ts_int))
      ∷ (str "evt.dir", query_entry sfgo (map_consts (str ">" ∷ str "<" ∷ [])))
      ∷ (
        str "evt.is_open_read",
        query_entry sfgo
            (map_is_open_read sfgo sfgo.sysflow_src (sfgo.attribute (str "FL_FILE_OPENFLAGS_INT"))),
      )
      ∷ (
        str "evt.is_open_write",
        query_entry sfgo (
            map_is_open_write sfgo sfgo.sysflow_src (sfgo.attribute (str "FL_FILE_OPENFLAGS_INT"))),
      )
      ∷ (
        str "evt.arg.uid",
        query_entry sfgo (map_int_attr sfgo.sysflow_src (sfgo.attribute (str "PROC_UID_INT"))),
      )
      ∷ (
        str "fd.typechar",
        query_entry sfgo
            (map_file_type sfgo sfgo.sysflow_src (sfgo.attribute (str "FILE_RESTYPE_INT"))),
      )
      ∷ (
        str "fd.directory",
        query_entry sfgo (map_dir sfgo.sysflow_src (sfgo.attribute (str "FILE_PATH_STR"))),
      )
      ∷ (
        str "fd.name",
        query_entry sfgo (map_name sfgo.sysflow_src (sfgo.attribute (str "FILE_PATH_STR"))),
      )
      ∷ (
        str "fd.filename",
        query_entry sfgo (map_name sfgo.sysflow_src (sfgo.attribute (str "FILE_PATH_STR"))),
      )
      ∷ (
        str "fd.proto",
        query_entry sfgo (map_int_attr sfgo.sysflow_src (sfgo.attribute (str "FL_NETW_PROTO_INT"))),
      )
      ∷ (
        str "fd.lproto",
        query_entry sfgo (map_int_attr sfgo.sysflow_src (sfgo.attribute (str "FL_NETW_PROTO_INT"))),
      )
      ∷ (
        str "fd.l4proto",
        query_entry sfgo (map_int_attr sfgo.sysflow_src (sfgo.attribute (str "FL_NETW_PROTO_INT"))),
      )
      ∷ (
        str "fd.rproto",
        query_entry sfgo (map_int_attr sfgo.sysflow_src (sfgo.attribute (str "FL_NETW_PROTO_INT"))),
      )
      ∷ (
        str "fd.sproto",
        query_entry sfgo (map_int_attr sfgo.sysflow_src (sfgo.attribute (str "FL_NETW_PROTO_INT"))),
      )
      ∷ (
        str "fd.cproto",
        query_entry sfgo (map_int_attr sfgo.sysflow_src (sfgo.attribute (str "FL_NETW_PROTO_INT"))),
      )
      ∷ (
        str "fd.sport",
        query_entry sfgo (map_int_attr sfgo.sysflow_src (sfgo.attribute (str "FL_NETW_SPORT_INT"))),
      )
      ∷ (
        str "fd.dport",
        query_entry sfgo (map_int_attr sfgo.sysflow_src (sfgo.attribute (str "FL_NETW_DPORT_INT"))),
      )
      ∷ (
        str "fd.sip",
        query_entry sfgo
            (map_ip sfgo sfgo.sysflow_src ((sfgo.attribute (str "FL_NETW_SIP_INT")) ∷ [])),
      )
      ∷ (
        str "fd.dip",
        query_entry sfgo
            (map_ip sfgo sfgo.sysflow_src ((sfgo.attribute (str "FL_NETW_DIP_INT")) ∷ [])),
      )
      ∷ (
        str "fd.ip",
        query_entry sfgo (
            map_ip sfgo sfgo.sysflow_src (
              (sfgo.attribute (str "FL_NETW_SIP_INT"))
              ∷ (sfgo.attribute (str "FL_NETW_DIP_INT"))
              ∷ [])),
      )
      ∷ (
        str "fd.port",
        query_entry sfgo (
            map_port sfgo.sysflow_src (
              (sfgo.attribute (str "FL_NETW_SPORT_INT"))
              ∷ (sfgo.attribute (str "FL_NETW_DPORT_INT"))
              ∷ [])),
      )
      ∷ (
        str "fd.num",
        query_entry sfgo (map_int_attr sfgo.sysflow_src (sfgo.attribute (str "FL_FILE_FD_INT"))),
      )
      ∷ []

  -- user, proc and container
  unfoldable pub falco_proc_fields : List (Str × FieldEntry)
  falco_proc_fields =
      (
        str "user.name",
        query_entry sfgo (map_str_attr sfgo.sysflow_src (sfgo.attribute (str "PROC_USERNAME_STR"))),
      )
      ∷ (
        str "proc.pid",
        query_entry sfgo (map_int_attr sfgo.sysflow_src (sfgo.attribute (str "PROC_OID_HPID_INT"))),
      )
      ∷ (
        str "proc.tid",
        query_entry sfgo (map_int_attr sfgo.sysflow_src (sfgo.attribute (str "TID_INT"))),
      )
      ∷ (
        str "proc.gid",
        query_entry sfgo (map_int_attr sfgo.sysflow_src (sfgo.attribute (str "PROC_GID_INT"))),
      )
      ∷ (
        str "proc.uid",
        query_entry sfgo (map_int_attr sfgo.sysflow_src (sfgo.attribute (str "PROC_UID_INT"))),
      )
      ∷ (
        str "proc.group",
        query_entry sfgo
            (map_str_attr sfgo.sysflow_src (sfgo.attribute (str "PROC_GROUPNAME_STR"))),
      )
      ∷ (str "proc.tty", query_entry sfgo (map_cached_value sfgo.sysflow_src pproc_tty))
      ∷ (
        str "proc.user",
        query_entry sfgo (map_str_attr sfgo.sysflow_src (sfgo.attribute (str "PROC_USERNAME_STR"))),
      )
      ∷ (
        str "proc.exe",
        query_entry sfgo (map_str_attr sfgo.sysflow_src (sfgo.attribute (str "PROC_EXE_STR"))),
      )
      ∷ (
        str "proc.name",
        query_entry sfgo (map_name sfgo.sysflow_src (sfgo.attribute (str "PROC_EXE_STR"))),
      )
      ∷ (
        str "proc.args",
        query_entry sfgo (map_str_attr sfgo.sysflow_src (sfgo.attribute (str "PROC_EXEARGS_STR"))),
      )
      ∷ (
        str "proc.createtime",
        query_entry sfgo
            (map_int_attr sfgo.sysflow_src (sfgo.attribute (str "PROC_POID_CREATETS_INT"))),
      )
      ∷ (
        str "proc.cmdline",
        query_entry sfgo (
            map_join sfgo.sysflow_src (sfgo.attribute (str "PROC_EXE_STR"))
              ((sfgo.attribute (str "PROC_EXEARGS_STR")) ∷ [])),
      )
      ∷ (str "proc.aname", query_entry sfgo (map_cached_value sfgo.sysflow_src proc_aname))
      ∷ (str "proc.apid", query_entry sfgo (map_cached_value sfgo.sysflow_src proc_apid))
      ∷ (
        str "proc.ppid",
        query_entry sfgo
            (map_int_attr sfgo.sysflow_src (sfgo.attribute (str "PROC_POID_HPID_INT"))),
      )
      ∷ (str "proc.pgid", query_entry sfgo (map_cached_value sfgo.sysflow_src pproc_gid))
      ∷ (str "proc.puid", query_entry sfgo (map_cached_value sfgo.sysflow_src pproc_uid))
      ∷ (str "proc.pgroup", query_entry sfgo (map_cached_value sfgo.sysflow_src pproc_group))
      ∷ (str "proc.ptty", query_entry sfgo (map_cached_value sfgo.sysflow_src pproc_tty))
      ∷ (str "proc.puser", query_entry sfgo (map_cached_value sfgo.sysflow_src pproc_user))
      ∷ (str "proc.pexe", query_entry sfgo (map_cached_value sfgo.sysflow_src pproc_exe))
      ∷ (str "proc.pargs", query_entry sfgo (map_cached_value sfgo.sysflow_src pproc_args))
      ∷ (
        str "proc.pcreatetime",
        query_entry sfgo
            (map_int_attr sfgo.sysflow_src (sfgo.attribute (str "PROC_POID_CREATETS_INT"))),
      )
      ∷ (str "proc.pname", query_entry sfgo (map_cached_value sfgo.sysflow_src pproc_name))
      ∷ (str "proc.pcmdline", query_entry sfgo (map_cached_value sfgo.sysflow_src pproc_cmd_line))
      ∷ (
        str "container.id",
        query_entry sfgo (map_str_attr sfgo.sysflow_src (sfgo.attribute (str "CONT_ID_STR"))),
      )
      ∷ (
        str "container.image.id",
        query_entry sfgo (map_str_attr sfgo.sysflow_src (sfgo.attribute (str "CONT_IMAGEID_STR"))),
      )
      ∷ (
        str "container.image",
        query_entry sfgo (map_str_attr sfgo.sysflow_src (sfgo.attribute (str "CONT_IMAGE_STR"))),
      )
      ∷ (
        str "container.name",
        query_entry sfgo (map_str_attr sfgo.sysflow_src (sfgo.attribute (str "CONT_NAME_STR"))),
      )
      ∷ (
        str "container.type",
        query_entry sfgo
            (map_cont_type sfgo sfgo.sysflow_src (sfgo.attribute (str "CONT_TYPE_INT"))),
      )
      ∷ (
        str "container.privileged",
        query_entry sfgo
            (map_int_attr sfgo.sysflow_src (sfgo.attribute (str "CONT_PRIVILEGED_INT"))),
      )
      ∷ []

  pub falco_event_fields-IsFlat : All IsFlat falco_event_fields
  unfolding falco_event_fields
  falco_event_fields-IsFlat = (
    map_op_flags-ReadsFlat sfgo sfgo.sysflow_src,
    (
      map_rec_type-ReadsFlat sfgo sfgo.sysflow_src,
      (
        map_int_attr-ReadsFlat sfgo.sysflow_src sfgo.ts_int,
        (
          map_consts-ReadsFlat (str ">" ∷ str "<" ∷ []),
          (
            map_is_open_read-ReadsFlat sfgo sfgo.sysflow_src
                (sfgo.attribute (str "FL_FILE_OPENFLAGS_INT")),
            (
              map_is_open_write-ReadsFlat sfgo sfgo.sysflow_src
                  (sfgo.attribute (str "FL_FILE_OPENFLAGS_INT")),
              (
                map_int_attr-ReadsFlat sfgo.sysflow_src (sfgo.attribute (str "PROC_UID_INT")),
                (
                  map_file_type-ReadsFlat sfgo sfgo.sysflow_src
                      (sfgo.attribute (str "FILE_RESTYPE_INT")),
                  (
                    map_dir-ReadsFlat sfgo.sysflow_src (sfgo.attribute (str "FILE_PATH_STR")),
                    (
                      map_name-ReadsFlat sfgo.sysflow_src (sfgo.attribute (str "FILE_PATH_STR")),
                      (
                        map_name-ReadsFlat sfgo.sysflow_src (sfgo.attribute (str "FILE_PATH_STR")),
                        (
                          map_int_attr-ReadsFlat sfgo.sysflow_src
                              (sfgo.attribute (str "FL_NETW_PROTO_INT")),
                          (
                            map_int_attr-ReadsFlat sfgo.sysflow_src
                                (sfgo.attribute (str "FL_NETW_PROTO_INT")),
                            (
                              map_int_attr-ReadsFlat sfgo.sysflow_src
                                  (sfgo.attribute (str "FL_NETW_PROTO_INT")),
                              (
                                map_int_attr-ReadsFlat sfgo.sysflow_src
                                    (sfgo.attribute (str "FL_NETW_PROTO_INT")),
                                (
                                  map_int_attr-ReadsFlat sfgo.sysflow_src
                                      (sfgo.attribute (str "FL_NETW_PROTO_INT")),
                                  (
                                    map_int_attr-ReadsFlat sfgo.sysflow_src
                                        (sfgo.attribute (str "FL_NETW_PROTO_INT")),
                                    (
                                      map_int_attr-ReadsFlat sfgo.sysflow_src
                                          (sfgo.attribute (str "FL_NETW_SPORT_INT")),
                                      (
                                        map_int_attr-ReadsFlat sfgo.sysflow_src
                                            (sfgo.attribute (str "FL_NETW_DPORT_INT")),
                                        (
                                          map_ip-ReadsFlat sfgo sfgo.sysflow_src
                                              ((sfgo.attribute (str "FL_NETW_SIP_INT")) ∷ []),
                                          (
                                            map_ip-ReadsFlat sfgo sfgo.sysflow_src
                                                ((sfgo.attribute (str "FL_NETW_DIP_INT")) ∷ []),
                                            (
                                              map_ip-ReadsFlat sfgo sfgo.sysflow_src (
                                                  (sfgo.attribute (str "FL_NETW_SIP_INT"))
                                                  ∷ (sfgo.attribute (str "FL_NETW_DIP_INT"))
                                                  ∷ []),
                                              (
                                                map_port-ReadsFlat sfgo.sysflow_src (
                                                    (sfgo.attribute (str "FL_NETW_SPORT_INT"))
                                                    ∷ (sfgo.attribute (str "FL_NETW_DPORT_INT"))
                                                    ∷ []),
                                                (
                                                  map_int_attr-ReadsFlat sfgo.sysflow_src
                                                      (sfgo.attribute (str "FL_FILE_FD_INT")),
                                                  tt,
                                                ),
                                              ),
                                            ),
                                          ),
                                        ),
                                      ),
                                    ),
                                  ),
                                ),
                              ),
                            ),
                          ),
                        ),
                      ),
                    ),
                  ),
                ),
              ),
            ),
          ),
        ),
      ),
    ),
  )

  pub falco_proc_fields-IsFlat : All IsFlat falco_proc_fields
  unfolding falco_proc_fields
  falco_proc_fields-IsFlat = (
    map_str_attr-ReadsFlat sfgo.sysflow_src (sfgo.attribute (str "PROC_USERNAME_STR")),
    (
      map_int_attr-ReadsFlat sfgo.sysflow_src (sfgo.attribute (str "PROC_OID_HPID_INT")),
      (
        map_int_attr-ReadsFlat sfgo.sysflow_src (sfgo.attribute (str "TID_INT")),
        (
          map_int_attr-ReadsFlat sfgo.sysflow_src (sfgo.attribute (str "PROC_GID_INT")),
          (
            map_int_attr-ReadsFlat sfgo.sysflow_src (sfgo.attribute (str "PROC_UID_INT")),
            (
              map_str_attr-ReadsFlat sfgo.sysflow_src (sfgo.attribute (str "PROC_GROUPNAME_STR")),
              (
                map_cached_value-ReadsFlat sfgo.sysflow_src pproc_tty,
                (
                  map_str_attr-ReadsFlat sfgo.sysflow_src
                      (sfgo.attribute (str "PROC_USERNAME_STR")),
                  (
                    map_str_attr-ReadsFlat sfgo.sysflow_src (sfgo.attribute (str "PROC_EXE_STR")),
                    (
                      map_name-ReadsFlat sfgo.sysflow_src (sfgo.attribute (str "PROC_EXE_STR")),
                      (
                        map_str_attr-ReadsFlat sfgo.sysflow_src
                            (sfgo.attribute (str "PROC_EXEARGS_STR")),
                        (
                          map_int_attr-ReadsFlat sfgo.sysflow_src
                              (sfgo.attribute (str "PROC_POID_CREATETS_INT")),
                          (
                            map_join-ReadsFlat sfgo.sysflow_src
                                (sfgo.attribute (str "PROC_EXE_STR"))
                                ((sfgo.attribute (str "PROC_EXEARGS_STR")) ∷ []),
                            (
                              map_cached_value-ReadsFlat sfgo.sysflow_src proc_aname,
                              (
                                map_cached_value-ReadsFlat sfgo.sysflow_src proc_apid,
                                (
                                  map_int_attr-ReadsFlat sfgo.sysflow_src
                                      (sfgo.attribute (str "PROC_POID_HPID_INT")),
                                  (
                                    map_cached_value-ReadsFlat sfgo.sysflow_src pproc_gid,
                                    (
                                      map_cached_value-ReadsFlat sfgo.sysflow_src pproc_uid,
                                      (
                                        map_cached_value-ReadsFlat sfgo.sysflow_src pproc_group,
                                        (
                                          map_cached_value-ReadsFlat sfgo.sysflow_src pproc_tty,
                                          (
                                            map_cached_value-ReadsFlat sfgo.sysflow_src pproc_user,
                                            (
                                              map_cached_value-ReadsFlat sfgo.sysflow_src pproc_exe,
                                              (
                                                map_cached_value-ReadsFlat sfgo.sysflow_src
                                                    pproc_args,
                                                (
                                                  map_int_attr-ReadsFlat sfgo.sysflow_src (
                                                      sfgo.attribute
                                                        (str "PROC_POID_CREATETS_INT")),
                                                  (
                                                    map_cached_value-ReadsFlat sfgo.sysflow_src
                                                        pproc_name,
                                                    (
                                                      map_cached_value-ReadsFlat sfgo.sysflow_src
                                                          pproc_cmd_line,
                                                      (
                                                        map_str_attr-ReadsFlat sfgo.sysflow_src
                                                            (sfgo.attribute (str "CONT_ID_STR")),
                                                        (
                                                          map_str_attr-ReadsFlat sfgo.sysflow_src (
                                                            sfgo.attribute
                                                            (str "CONT_IMAGEID_STR")),
                                                          (
                                                            map_str_attr-ReadsFlat sfgo.sysflow_src
                                                            (sfgo.attribute (str "CONT_IMAGE_STR")),
                                                            (
                                                            map_str_attr-ReadsFlat sfgo.sysflow_src
                                                            (sfgo.attribute (str "CONT_NAME_STR")),
                                                            (
                                                            map_cont_type-ReadsFlat sfgo
                                                            sfgo.sysflow_src
                                                            (sfgo.attribute (str "CONT_TYPE_INT")),
                                                            (
                                                            map_int_attr-ReadsFlat sfgo.sysflow_src
                                                            (sfgo.attribute
                                                            (str "CONT_PRIVILEGED_INT")),
                                                            tt,
                                                            ),
                                                            ),
                                                            ),
                                                          ),
                                                        ),
                                                      ),
                                                    ),
                                                  ),
                                                ),
                                              ),
                                            ),
                                          ),
                                        ),
                                      ),
                                    ),
                                  ),
                                ),
                              ),
                            ),
                          ),
                        ),
                      ),
                    ),
                  ),
                ),
              ),
            ),
          ),
        ),
      ),
    ),
  )
