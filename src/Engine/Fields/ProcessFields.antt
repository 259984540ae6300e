-- ===== src/Engine/Fields/ProcessFields.antt =====
-- core/policyengine/engine/fieldmapper.go: the exported attributes of records and processes.
use sf_processor.Prelude.{List, [], ◌∷◌, All}
use sf_processor.Prelude.Text.{Str, str}
use sf_processor.Engine.Record.{
  pproc_name, pproc_exe, pproc_args, pproc_uid, pproc_user, pproc_gid, pproc_group, pproc_tty,
  pproc_entry, pproc_cmd_line, proc_aexe, proc_aname, proc_acmd_line, proc_apid,
}
use sf_processor.Engine.Fields.{
  Sfgo, map_cached_value, map_end_ts, map_int_attr, map_join, map_name, map_oid, map_op_flags,
  map_rec_type, map_ret, map_str_attr,
}
use sf_processor.Engine.Fields.Telemetry.{
  map_cached_value-ReadsFlat, map_end_ts-ReadsFlat, map_int_attr-ReadsFlat, map_join-ReadsFlat,
  map_name-ReadsFlat, map_oid-ReadsFlat, map_op_flags-ReadsFlat, map_rec_type-ReadsFlat,
  map_ret-ReadsFlat, map_str_attr-ReadsFlat,
}
use sf_processor.Engine.Fields.Entry.{
  FieldEntry, IsFlat, sf_entry, a_ids, parent_ids, map_int_val, map_str_val, map_bool_val,
  map_array_str, map_array_int, map_special_int, map_special_str, sect_none, sect_proc, sect_p_proc,
  sect_file,
}

module _ (sfgo : Sfgo) where
  -- SysFlow
  unfoldable pub record_fields : List (Str × FieldEntry)
  record_fields =
      (
        str "sf.type",
        sf_entry sfgo (map_rec_type sfgo sfgo.sysflow_src) sfgo.sf_rec_type map_special_str
            sect_none pproc_name,
      )
      ∷ (
        str "sf.opflags",
        sf_entry sfgo (map_op_flags sfgo sfgo.sysflow_src) sfgo.ev_proc_opflags_int map_array_str
            sect_none pproc_name,
      )
      ∷ (
        str "sf.ret",
        sf_entry sfgo (map_ret sfgo sfgo.sysflow_src) sfgo.sf_rec_type map_special_int sect_none
            pproc_name,
      )
      ∷ (
        str "sf.ts",
        sf_entry sfgo (map_int_attr sfgo.sysflow_src sfgo.ts_int) sfgo.ts_int map_int_val sect_none
            pproc_name,
      )
      ∷ (
        str "sf.endts",
        sf_entry sfgo (map_end_ts sfgo sfgo.sysflow_src) sfgo.fl_file_endts_int map_special_int
            sect_none pproc_name,
      )
      ∷ []

  -- sf.proc
  unfoldable pub proc_fields : List (Str × FieldEntry)
  proc_fields =
      (
        str "sf.proc.oid",
        sf_entry sfgo
            (map_oid sfgo sfgo.sysflow_src (
              (sfgo.attribute (str "PROC_OID_HPID_INT"))
              ∷ (sfgo.attribute (str "PROC_OID_CREATETS_INT"))
              ∷ []))
            (sfgo.attribute (str "PROC_OID_HPID_INT")) map_special_str sect_proc pproc_name,
      )
      ∷ (
        str "sf.proc.pid",
        sf_entry sfgo (map_int_attr sfgo.sysflow_src (sfgo.attribute (str "PROC_OID_HPID_INT")))
            (sfgo.attribute (str "PROC_OID_HPID_INT")) map_int_val sect_proc pproc_name,
      )
      ∷ (
        str "sf.proc.name",
        sf_entry sfgo (map_name sfgo.sysflow_src (sfgo.attribute (str "PROC_EXE_STR")))
            (sfgo.attribute (str "PROC_EXE_STR")) map_special_str sect_proc pproc_name,
      )
      ∷ (
        str "sf.proc.exe",
        sf_entry sfgo (map_str_attr sfgo.sysflow_src (sfgo.attribute (str "PROC_EXE_STR")))
            (sfgo.attribute (str "PROC_EXE_STR")) map_str_val sect_proc pproc_name,
      )
      ∷ (
        str "sf.proc.args",
        sf_entry sfgo (map_str_attr sfgo.sysflow_src (sfgo.attribute (str "PROC_EXEARGS_STR")))
            (sfgo.attribute (str "PROC_EXEARGS_STR")) map_str_val sect_proc pproc_name,
      )
      ∷ (
        str "sf.proc.uid",
        sf_entry sfgo (map_int_attr sfgo.sysflow_src (sfgo.attribute (str "PROC_UID_INT")))
            (sfgo.attribute (str "PROC_UID_INT")) map_int_val sect_proc pproc_name,
      )
      ∷ (
        str "sf.proc.user",
        sf_entry sfgo (map_str_attr sfgo.sysflow_src (sfgo.attribute (str "PROC_USERNAME_STR")))
            (sfgo.attribute (str "PROC_USERNAME_STR")) map_str_val sect_proc pproc_name,
      )
      ∷ (
        str "sf.proc.tid",
        sf_entry sfgo (map_int_attr sfgo.sysflow_src (sfgo.attribute (str "TID_INT")))
            (sfgo.attribute (str "TID_INT")) map_int_val sect_proc pproc_name,
      )
      ∷ (
        str "sf.proc.gid",
        sf_entry sfgo (map_int_attr sfgo.sysflow_src (sfgo.attribute (str "PROC_GID_INT")))
            (sfgo.attribute (str "PROC_GID_INT")) map_int_val sect_proc pproc_name,
      )
      ∷ (
        str "sf.proc.group",
        sf_entry sfgo (map_str_attr sfgo.sysflow_src (sfgo.attribute (str "PROC_GROUPNAME_STR")))
            (sfgo.attribute (str "PROC_GROUPNAME_STR")) map_str_val sect_proc pproc_name,
      )
      ∷ (
        str "sf.proc.createts",
        sf_entry sfgo (map_int_attr sfgo.sysflow_src (sfgo.attribute (str "PROC_OID_CREATETS_INT")))
            (sfgo.attribute (str "PROC_OID_CREATETS_INT")) map_int_val sect_proc pproc_name,
      )
      ∷ (
        str "sf.proc.tty",
        sf_entry sfgo (map_int_attr sfgo.sysflow_src (sfgo.attribute (str "PROC_TTY_INT")))
            (sfgo.attribute (str "PROC_TTY_INT")) map_bool_val sect_proc pproc_name,
      )
      ∷ (
        str "sf.proc.entry",
        sf_entry sfgo (map_int_attr sfgo.sysflow_src (sfgo.attribute (str "PROC_ENTRY_INT")))
            (sfgo.attribute (str "PROC_ENTRY_INT")) map_bool_val sect_proc pproc_name,
      )
      ∷ (
        str "sf.proc.cmdline",
        sf_entry sfgo
            (map_join sfgo.sysflow_src (sfgo.attribute (str "PROC_EXE_STR"))
              ((sfgo.attribute (str "PROC_EXEARGS_STR")) ∷ []))
            (sfgo.attribute (str "PROC_EXE_STR")) map_special_str sect_proc pproc_name,
      )
      ∷ (
        str "sf.proc.aname",
        sf_entry sfgo (map_cached_value sfgo.sysflow_src proc_aname) a_ids map_array_str sect_proc
            proc_aname,
      )
      ∷ (
        str "sf.proc.aexe",
        sf_entry sfgo (map_cached_value sfgo.sysflow_src proc_aexe) a_ids map_array_str sect_proc
            proc_aexe,
      )
      ∷ (
        str "sf.proc.acmdline",
        sf_entry sfgo (map_cached_value sfgo.sysflow_src proc_acmd_line) a_ids map_array_str
            sect_proc proc_acmd_line,
      )
      ∷ (
        str "sf.proc.apid",
        sf_entry sfgo (map_cached_value sfgo.sysflow_src proc_apid) a_ids map_array_int sect_proc
            proc_apid,
      )
      ∷ []

  -- sf.pproc
  unfoldable pub pproc_fields : List (Str × FieldEntry)
  pproc_fields =
      (
        str "sf.pproc.oid",
        sf_entry sfgo
            (map_oid sfgo sfgo.sysflow_src (
              (sfgo.attribute (str "PROC_POID_HPID_INT"))
              ∷ (sfgo.attribute (str "PROC_POID_CREATETS_INT"))
              ∷ []))
            (sfgo.attribute (str "PROC_POID_HPID_INT")) map_special_str sect_p_proc pproc_name,
      )
      ∷ (
        str "sf.pproc.pid",
        sf_entry sfgo (map_int_attr sfgo.sysflow_src (sfgo.attribute (str "PROC_POID_HPID_INT")))
            (sfgo.attribute (str "PROC_POID_HPID_INT")) map_int_val sect_p_proc pproc_name,
      )
      ∷ (
        str "sf.pproc.name",
        sf_entry sfgo (map_cached_value sfgo.sysflow_src pproc_name) parent_ids map_special_str
            sect_p_proc pproc_name,
      )
      ∷ (
        str "sf.pproc.exe",
        sf_entry sfgo (map_cached_value sfgo.sysflow_src pproc_exe) parent_ids map_special_str
            sect_p_proc pproc_exe,
      )
      ∷ (
        str "sf.pproc.args",
        sf_entry sfgo (map_cached_value sfgo.sysflow_src pproc_args) parent_ids map_special_str
            sect_p_proc pproc_args,
      )
      ∷ (
        str "sf.pproc.uid",
        sf_entry sfgo (map_cached_value sfgo.sysflow_src pproc_uid) parent_ids map_special_int
            sect_p_proc pproc_uid,
      )
      ∷ (
        str "sf.pproc.user",
        sf_entry sfgo (map_cached_value sfgo.sysflow_src pproc_user) parent_ids map_special_str
            sect_p_proc pproc_user,
      )
      ∷ (
        str "sf.pproc.gid",
        sf_entry sfgo (map_cached_value sfgo.sysflow_src pproc_gid) parent_ids map_special_int
            sect_p_proc pproc_gid,
      )
      ∷ (
        str "sf.pproc.group",
        sf_entry sfgo (map_cached_value sfgo.sysflow_src pproc_group) parent_ids map_special_str
            sect_p_proc pproc_group,
      )
      ∷ (
        str "sf.pproc.createts",
        sf_entry sfgo
            (map_int_attr sfgo.sysflow_src (sfgo.attribute (str "PROC_POID_CREATETS_INT")))
            (sfgo.attribute (str "PROC_POID_CREATETS_INT")) map_int_val sect_p_proc pproc_name,
      )
      ∷ (
        str "sf.pproc.tty",
        sf_entry sfgo (map_cached_value sfgo.sysflow_src pproc_tty) parent_ids map_special_int
            sect_p_proc pproc_tty,
      )
      ∷ (
        str "sf.pproc.entry",
        sf_entry sfgo (map_cached_value sfgo.sysflow_src pproc_entry) parent_ids map_special_int
            sect_p_proc pproc_entry,
      )
      ∷ (
        str "sf.pproc.cmdline",
        sf_entry sfgo (map_cached_value sfgo.sysflow_src pproc_cmd_line) parent_ids map_special_str
            sect_p_proc pproc_cmd_line,
      )
      ∷ (
        str "sf.file.name",
        sf_entry sfgo (map_name sfgo.sysflow_src (sfgo.attribute (str "FILE_PATH_STR")))
            (sfgo.attribute (str "FILE_PATH_STR")) map_special_str sect_file pproc_name,
      )
      ∷ []

  pub record_fields-IsFlat : All IsFlat record_fields
  unfolding record_fields
  record_fields-IsFlat = (
    map_rec_type-ReadsFlat sfgo sfgo.sysflow_src,
    (
      map_op_flags-ReadsFlat sfgo sfgo.sysflow_src,
      (
        map_ret-ReadsFlat sfgo sfgo.sysflow_src,
        (
          map_int_attr-ReadsFlat sfgo.sysflow_src sfgo.ts_int,
          (map_end_ts-ReadsFlat sfgo sfgo.sysflow_src, tt),
        ),
      ),
    ),
  )

  pub proc_fields-IsFlat : All IsFlat proc_fields
  unfolding proc_fields
  proc_fields-IsFlat = (
    map_oid-ReadsFlat sfgo sfgo.sysflow_src (
        (sfgo.attribute (str "PROC_OID_HPID_INT"))
        ∷ (sfgo.attribute (str "PROC_OID_CREATETS_INT"))
        ∷ []),
    (
      map_int_attr-ReadsFlat sfgo.sysflow_src (sfgo.attribute (str "PROC_OID_HPID_INT")),
      (
        map_name-ReadsFlat sfgo.sysflow_src (sfgo.attribute (str "PROC_EXE_STR")),
        (
          map_str_attr-ReadsFlat sfgo.sysflow_src (sfgo.attribute (str "PROC_EXE_STR")),
          (
            map_str_attr-ReadsFlat sfgo.sysflow_src (sfgo.attribute (str "PROC_EXEARGS_STR")),
            (
              map_int_attr-ReadsFlat sfgo.sysflow_src (sfgo.attribute (str "PROC_UID_INT")),
              (
                map_str_attr-ReadsFlat sfgo.sysflow_src (sfgo.attribute (str "PROC_USERNAME_STR")),
                (
                  map_int_attr-ReadsFlat sfgo.sysflow_src (sfgo.attribute (str "TID_INT")),
                  (
                    map_int_attr-ReadsFlat sfgo.sysflow_src (sfgo.attribute (str "PROC_GID_INT")),
                    (
                      map_str_attr-ReadsFlat sfgo.sysflow_src
                          (sfgo.attribute (str "PROC_GROUPNAME_STR")),
                      (
                        map_int_attr-ReadsFlat sfgo.sysflow_src
                            (sfgo.attribute (str "PROC_OID_CREATETS_INT")),
                        (
                          map_int_attr-ReadsFlat sfgo.sysflow_src
                              (sfgo.attribute (str "PROC_TTY_INT")),
                          (
                            map_int_attr-ReadsFlat sfgo.sysflow_src
                                (sfgo.attribute (str "PROC_ENTRY_INT")),
                            (
                              map_join-ReadsFlat sfgo.sysflow_src
                                  (sfgo.attribute (str "PROC_EXE_STR"))
                                  ((sfgo.attribute (str "PROC_EXEARGS_STR")) ∷ []),
                              (
                                map_cached_value-ReadsFlat sfgo.sysflow_src proc_aname,
                                (
                                  map_cached_value-ReadsFlat sfgo.sysflow_src proc_aexe,
                                  (
                                    map_cached_value-ReadsFlat sfgo.sysflow_src proc_acmd_line,
                                    (map_cached_value-ReadsFlat sfgo.sysflow_src proc_apid, tt),
                                  ),
                                ),
                              ),
                            ),
                          ),
                        ),
                      ),
                    ),
                  ),
                ),
              ),
            ),
          ),
        ),
      ),
    ),
  )

  pub pproc_fields-IsFlat : All IsFlat pproc_fields
  unfolding pproc_fields
  pproc_fields-IsFlat = (
    map_oid-ReadsFlat sfgo sfgo.sysflow_src (
        (sfgo.attribute (str "PROC_POID_HPID_INT"))
        ∷ (sfgo.attribute (str "PROC_POID_CREATETS_INT"))
        ∷ []),
    (
      map_int_attr-ReadsFlat sfgo.sysflow_src (sfgo.attribute (str "PROC_POID_HPID_INT")),
      (
        map_cached_value-ReadsFlat sfgo.sysflow_src pproc_name,
        (
          map_cached_value-ReadsFlat sfgo.sysflow_src pproc_exe,
          (
            map_cached_value-ReadsFlat sfgo.sysflow_src pproc_args,
            (
              map_cached_value-ReadsFlat sfgo.sysflow_src pproc_uid,
              (
                map_cached_value-ReadsFlat sfgo.sysflow_src pproc_user,
                (
                  map_cached_value-ReadsFlat sfgo.sysflow_src pproc_gid,
                  (
                    map_cached_value-ReadsFlat sfgo.sysflow_src pproc_group,
                    (
                      map_int_attr-ReadsFlat sfgo.sysflow_src
                          (sfgo.attribute (str "PROC_POID_CREATETS_INT")),
                      (
                        map_cached_value-ReadsFlat sfgo.sysflow_src pproc_tty,
                        (
                          map_cached_value-ReadsFlat sfgo.sysflow_src pproc_entry,
                          (
                            map_cached_value-ReadsFlat sfgo.sysflow_src pproc_cmd_line,
                            (
                              map_name-ReadsFlat sfgo.sysflow_src
                                  (sfgo.attribute (str "FILE_PATH_STR")),
                              tt,
                            ),
                          ),
                        ),
                      ),
                    ),
                  ),
                ),
              ),
            ),
          ),
        ),
      ),
    ),
  )
