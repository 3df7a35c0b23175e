-- ===== src/Nfs/Xdr/Results.antt =====
-- The arguments and results of the procedures but READDIR: NFS/nfs_xdr.c from line 269.
use llp_filesystem.Base.{true, ◌*◌, Option, none, some}
use llp_filesystem.Nfs.Types.{
  Fsinfo3args, Fsinfo3resok, Fsinfo3resfail, Fsinfo3res, Pathconf3args, Pathconf3resok,
  Pathconf3resfail, Pathconf3res, Getattr3args, Getattr3resok, Getattr3res, Access3args,
  Access3resok, Access3resfail, Access3res, Diropargs3, Lookup3args, Lookup3resok, Lookup3resfail,
  Lookup3res, Read3args, Read3resok, Read3resfail, Read3res,
}
use llp_filesystem.Nfs.Xdr.{
  XdrOp, xdr_encode, xdr_decode, xdr_free, Out, done, Routine, Library, ◌▸◌, field, cases,
  return_true,
}
use llp_filesystem.Nfs.Xdr.Basic.{
  no_limit, is_value, xdr_uint32, xdr_filename3, xdr_size3, xdr_offset3, xdr_count3, xdr_nfs_fh3,
  xdr_nfsstat3, xdr_nfstime3, xdr_fattr3, xdr_post_op_attr,
}

module _ (lib : Library) where
  open lib use {Stream, Cursor, x_op, xdr_bool, xdr_bytes, inline, ixdr_put_bool, ixdr_get_bool}

  unfoldable pub xdr_fsinfo3args : Routine Stream Fsinfo3args
  xdr_fsinfo3args = field (λ r. r.fsroot) (λ v r. record r { fsroot = v }) (xdr_nfs_fh3 lib)

  unfoldable pub xdr_fsinfo3resok : Routine Stream Fsinfo3resok
  xdr_fsinfo3resok =
      field (λ r. r.obj_attributes) (λ v r. record r { obj_attributes = v }) (xdr_post_op_attr lib)
      ▸ field (λ r. r.rtmax) (λ v r. record r { rtmax = v }) (xdr_uint32 lib)
      ▸ field (λ r. r.rtpref) (λ v r. record r { rtpref = v }) (xdr_uint32 lib)
      ▸ field (λ r. r.rtmult) (λ v r. record r { rtmult = v }) (xdr_uint32 lib)
      ▸ field (λ r. r.wtmax) (λ v r. record r { wtmax = v }) (xdr_uint32 lib)
      ▸ field (λ r. r.wtpref) (λ v r. record r { wtpref = v }) (xdr_uint32 lib)
      ▸ field (λ r. r.wtmult) (λ v r. record r { wtmult = v }) (xdr_uint32 lib)
      ▸ field (λ r. r.dtpref) (λ v r. record r { dtpref = v }) (xdr_uint32 lib)
      ▸ field (λ r. r.maxfilesize) (λ v r. record r { maxfilesize = v }) (xdr_size3 lib)
      ▸ field (λ r. r.time_delta) (λ v r. record r { time_delta = v }) (xdr_nfstime3 lib)
      ▸ field (λ r. r.properties) (λ v r. record r { properties = v }) (xdr_uint32 lib)

  unfoldable pub xdr_fsinfo3resfail : Routine Stream Fsinfo3resfail
  xdr_fsinfo3resfail =
      field (λ r. r.obj_attributes) (λ v r. record r { obj_attributes = v }) (xdr_post_op_attr lib)

  unfoldable pub xdr_fsinfo3res : Routine Stream Fsinfo3res
  xdr_fsinfo3res =
      field (λ r. r.status) (λ v r. record r { status = v }) (xdr_nfsstat3 lib)
      ▸ cases (λ r. is_value 0 r.status)
          (field (λ r. r.resok) (λ v r. record r { resok = v }) xdr_fsinfo3resok)
          (field (λ r. r.resfail) (λ v r. record r { resfail = v }) xdr_fsinfo3resfail)

  unfoldable pub xdr_pathconf3args : Routine Stream Pathconf3args
  xdr_pathconf3args = field (λ r. r.object) (λ v r. record r { object = v }) (xdr_nfs_fh3 lib)

  -- The four Booleans by their routine.
  unfoldable pub pathconf_bools : Routine Stream Pathconf3resok
  pathconf_bools =
      field (λ r. r.no_trunc) (λ v r. record r { no_trunc = v }) xdr_bool
      ▸ field (λ r. r.chown_restricted) (λ v r. record r { chown_restricted = v }) xdr_bool
      ▸ field (λ r. r.case_insensitive) (λ v r. record r { case_insensitive = v }) xdr_bool
      ▸ field (λ r. r.case_preserving) (λ v r. record r { case_preserving = v }) xdr_bool

  -- The four Booleans at a cursor, with IXDR_PUT_BOOL.
  unfoldable pub put_bools : Cursor → Routine Stream Pathconf3resok
  put_bools buf r x =
      let (buf1, x1) = ixdr_put_bool buf r.no_trunc x in
      let (buf2, x2) = ixdr_put_bool buf1 r.chown_restricted x1 in
      let (buf3, x3) = ixdr_put_bool buf2 r.case_insensitive x2 in
      let (buf4, x4) = ixdr_put_bool buf3 r.case_preserving x3 in done true r x4

  -- The same with IXDR_GET_BOOL.
  unfoldable pub get_bools : Cursor → Routine Stream Pathconf3resok
  get_bools buf r x =
      let (v1, buf1) = ixdr_get_bool buf x in
      let (v2, buf2) = ixdr_get_bool buf1 x in
      let (v3, buf3) = ixdr_get_bool buf2 x in
      let (v4, buf4) = ixdr_get_bool buf3 x in
      done true
        (record r {
          no_trunc = v1;
          chown_restricted = v2;
          case_insensitive = v3;
          case_preserving = v4;
        })
        x

  -- `if (buf == NULL)`, for the pointer that XDR_INLINE returned.
  abbrev pub at_cursor :
      (Cursor → Routine Stream Pathconf3resok)
      → Pathconf3resok
      → Option Cursor × Stream
      → Out Stream Pathconf3resok
  at_cursor at r (none, x) = pathconf_bools r x
  at_cursor at r (some cursor, x) = at cursor r x

  -- `buf = XDR_INLINE (xdrs, 4 * BYTES_PER_XDR_UNIT)`, and what follows.
  unfoldable pub inline_bools :
      (Cursor → Routine Stream Pathconf3resok) → Routine Stream Pathconf3resok
  inline_bools at r x = at_cursor at r (inline (4 * 4) x)

  unfoldable pub pathconf_numbers : Routine Stream Pathconf3resok
  pathconf_numbers =
      field (λ r. r.obj_attributes) (λ v r. record r { obj_attributes = v }) (xdr_post_op_attr lib)
      ▸ field (λ r. r.linkmax) (λ v r. record r { linkmax = v }) (xdr_uint32 lib)
      ▸ field (λ r. r.name_max) (λ v r. record r { name_max = v }) (xdr_uint32 lib)

  -- The three parts of the routine, by the operation of the stream.
  abbrev pub pathconf_by : XdrOp → Routine Stream Pathconf3resok
  pathconf_by xdr_encode = pathconf_numbers ▸ inline_bools put_bools
  pathconf_by xdr_decode = pathconf_numbers ▸ inline_bools get_bools
  pathconf_by xdr_free = pathconf_numbers ▸ pathconf_bools

  unfoldable pub xdr_pathconf3resok : Routine Stream Pathconf3resok
  xdr_pathconf3resok r x = pathconf_by (x_op x) r x

  unfoldable pub xdr_pathconf3resfail : Routine Stream Pathconf3resfail
  xdr_pathconf3resfail =
      field (λ r. r.obj_attributes) (λ v r. record r { obj_attributes = v }) (xdr_post_op_attr lib)

  unfoldable pub xdr_pathconf3res : Routine Stream Pathconf3res
  xdr_pathconf3res =
      field (λ r. r.status) (λ v r. record r { status = v }) (xdr_nfsstat3 lib)
      ▸ cases (λ r. is_value 0 r.status)
          (field (λ r. r.resok) (λ v r. record r { resok = v }) xdr_pathconf3resok)
          (field (λ r. r.resfail) (λ v r. record r { resfail = v }) xdr_pathconf3resfail)

  unfoldable pub xdr_getattr3args : Routine Stream Getattr3args
  xdr_getattr3args = field (λ r. r.object) (λ v r. record r { object = v }) (xdr_nfs_fh3 lib)

  unfoldable pub xdr_getattr3resok : Routine Stream Getattr3resok
  xdr_getattr3resok =
      field (λ r. r.obj_attributes) (λ v r. record r { obj_attributes = v }) (xdr_fattr3 lib)

  unfoldable pub xdr_getattr3res : Routine Stream Getattr3res
  xdr_getattr3res =
      field (λ r. r.status) (λ v r. record r { status = v }) (xdr_nfsstat3 lib)
      ▸ cases (λ r. is_value 0 r.status)
          (field (λ r. r.resok) (λ v r. record r { resok = v }) xdr_getattr3resok) return_true

  unfoldable pub xdr_access3args : Routine Stream Access3args
  xdr_access3args =
      field (λ r. r.object) (λ v r. record r { object = v }) (xdr_nfs_fh3 lib)
      ▸ field (λ r. r.access) (λ v r. record r { access = v }) (xdr_uint32 lib)

  unfoldable pub xdr_access3resok : Routine Stream Access3resok
  xdr_access3resok =
      field (λ r. r.obj_attributes) (λ v r. record r { obj_attributes = v }) (xdr_post_op_attr lib)
      ▸ field (λ r. r.access) (λ v r. record r { access = v }) (xdr_uint32 lib)

  unfoldable pub xdr_access3resfail : Routine Stream Access3resfail
  xdr_access3resfail =
      field (λ r. r.obj_attributes) (λ v r. record r { obj_attributes = v }) (xdr_post_op_attr lib)

  unfoldable pub xdr_access3res : Routine Stream Access3res
  xdr_access3res =
      field (λ r. r.status) (λ v r. record r { status = v }) (xdr_nfsstat3 lib)
      ▸ cases (λ r. is_value 0 r.status)
          (field (λ r. r.resok) (λ v r. record r { resok = v }) xdr_access3resok)
          (field (λ r. r.resfail) (λ v r. record r { resfail = v }) xdr_access3resfail)

  unfoldable pub xdr_diropargs3 : Routine Stream Diropargs3
  xdr_diropargs3 =
      field (λ r. r.dir) (λ v r. record r { dir = v }) (xdr_nfs_fh3 lib)
      ▸ field (λ r. r.name) (λ v r. record r { name = v }) (xdr_filename3 lib)

  unfoldable pub xdr_lookup3args : Routine Stream Lookup3args
  xdr_lookup3args = field (λ r. r.what) (λ v r. record r { what = v }) xdr_diropargs3

  unfoldable pub xdr_lookup3resok : Routine Stream Lookup3resok
  xdr_lookup3resok =
      field (λ r. r.object) (λ v r. record r { object = v }) (xdr_nfs_fh3 lib)
      ▸ field (λ r. r.obj_attributes) (λ v r. record r { obj_attributes = v })
          (xdr_post_op_attr lib)
      ▸ field (λ r. r.dir_attributes) (λ v r. record r { dir_attributes = v })
          (xdr_post_op_attr lib)

  unfoldable pub xdr_lookup3resfail : Routine Stream Lookup3resfail
  xdr_lookup3resfail =
      field (λ r. r.dir_attributes) (λ v r. record r { dir_attributes = v }) (xdr_post_op_attr lib)

  unfoldable pub xdr_lookup3res : Routine Stream Lookup3res
  xdr_lookup3res =
      field (λ r. r.status) (λ v r. record r { status = v }) (xdr_nfsstat3 lib)
      ▸ cases (λ r. is_value 0 r.status)
          (field (λ r. r.resok) (λ v r. record r { resok = v }) xdr_lookup3resok)
          (field (λ r. r.resfail) (λ v r. record r { resfail = v }) xdr_lookup3resfail)

  unfoldable pub xdr_read3args : Routine Stream Read3args
  xdr_read3args =
      field (λ r. r.file) (λ v r. record r { file = v }) (xdr_nfs_fh3 lib)
      ▸ field (λ r. r.offset) (λ v r. record r { offset = v }) (xdr_offset3 lib)
      ▸ field (λ r. r.count) (λ v r. record r { count = v }) (xdr_count3 lib)

  unfoldable pub xdr_read3resok : Routine Stream Read3resok
  xdr_read3resok =
      field (λ r. r.file_attributes) (λ v r. record r { file_attributes = v })
        (xdr_post_op_attr lib)
      ▸ field (λ r. r.count) (λ v r. record r { count = v }) (xdr_count3 lib)
      ▸ field (λ r. r.eof) (λ v r. record r { eof = v }) xdr_bool
      ▸ field (λ r. r.bytes) (λ v r. record r { bytes = v }) (xdr_bytes no_limit)

  unfoldable pub xdr_read3resfail : Routine Stream Read3resfail
  xdr_read3resfail =
      field (λ r. r.file_attributes) (λ v r. record r { file_attributes = v })
        (xdr_post_op_attr lib)

  unfoldable pub xdr_read3res : Routine Stream Read3res
  xdr_read3res =
      field (λ r. r.status) (λ v r. record r { status = v }) (xdr_nfsstat3 lib)
      ▸ cases (λ r. is_value 0 r.status)
          (field (λ r. r.resok) (λ v r. record r { resok = v }) xdr_read3resok)
          (field (λ r. r.resfail) (λ v r. record r { resfail = v }) xdr_read3resfail)
