-- ===== src/Nfs/Xdr/Basic.antt =====
-- The routines of the basic types, handles and attributes: lines 8 to 365 of NFS/nfs_xdr.c.
use llp_filesystem.Base.{ℕ, ◌-◌, ◌^◌, ℤ, pos, negsuc, Bool, false, ◌==◌, List}
use llp_filesystem.Nfs.Types.{
  CharPtr, Opaque, Mountres3Ok, Mountres3, Nfstime3, Specdata3, Fattr3, PostOpAttr,
}
use llp_filesystem.Nfs.Xdr.{Routine, Library, ◌▸◌, field, cases, return_true, return_false}

abbrev pub nfs3_fhsize : ℕ
nfs3_fhsize = 64

abbrev pub fhsize3 : ℕ
fhsize3 = 64

abbrev pub mntpathlen : ℕ
mntpathlen = 1024

abbrev pub mntnamlen : ℕ
mntnamlen = 255

abbrev pub verfsize : ℕ
verfsize = 8

-- `~0` as an `u_int`.
abbrev pub no_limit : ℕ
no_limit = 2 ^ 32 - 1

-- The test of a `case` label.
abbrev pub is_value : ℕ → ℤ → Bool
is_value n (pos k) = k == n
is_value n (negsuc k) = false

module _ (lib : Library) where
  open lib use {
    Stream, xdr_u_quad_t, xdr_quad_t, xdr_u_long, xdr_long, xdr_enum, xdr_bool, xdr_int, xdr_string,
    xdr_opaque, xdr_bytes, xdr_array,
  }

  unfoldable pub xdr_uint64 : Routine Stream ℕ
  xdr_uint64 = xdr_u_quad_t

  unfoldable pub xdr_int64 : Routine Stream ℤ
  xdr_int64 = xdr_quad_t

  unfoldable pub xdr_uint32 : Routine Stream ℕ
  xdr_uint32 = xdr_u_long

  unfoldable pub xdr_int32 : Routine Stream ℤ
  xdr_int32 = xdr_long

  unfoldable pub xdr_filename3 : Routine Stream CharPtr
  xdr_filename3 = xdr_string no_limit

  unfoldable pub xdr_nfspath3 : Routine Stream CharPtr
  xdr_nfspath3 = xdr_string no_limit

  unfoldable pub xdr_fileid3 : Routine Stream ℕ
  xdr_fileid3 = xdr_uint64

  unfoldable pub xdr_cookie3 : Routine Stream ℕ
  xdr_cookie3 = xdr_uint64

  unfoldable pub xdr_cookieverf3 : Routine Stream (List ℕ)
  xdr_cookieverf3 = xdr_opaque verfsize

  unfoldable pub xdr_createverf3 : Routine Stream (List ℕ)
  xdr_createverf3 = xdr_opaque verfsize

  unfoldable pub xdr_writeverf3 : Routine Stream (List ℕ)
  xdr_writeverf3 = xdr_opaque verfsize

  unfoldable pub xdr_uid3 : Routine Stream ℕ
  xdr_uid3 = xdr_uint32

  unfoldable pub xdr_size3 : Routine Stream ℕ
  xdr_size3 = xdr_uint64

  unfoldable pub xdr_gid3 : Routine Stream ℕ
  xdr_gid3 = xdr_uint32

  unfoldable pub xdr_offset3 : Routine Stream ℕ
  xdr_offset3 = xdr_uint64

  unfoldable pub xdr_mode3 : Routine Stream ℕ
  xdr_mode3 = xdr_uint32

  unfoldable pub xdr_count3 : Routine Stream ℕ
  xdr_count3 = xdr_uint32

  unfoldable pub xdr_mountstat3 : Routine Stream ℤ
  xdr_mountstat3 = xdr_enum

  unfoldable pub xdr_fhandle3 : Routine Stream Opaque
  xdr_fhandle3 = xdr_bytes fhsize3

  unfoldable pub xdr_dirpath : Routine Stream CharPtr
  xdr_dirpath = xdr_string mntpathlen

  unfoldable pub xdr_name : Routine Stream CharPtr
  xdr_name = xdr_string mntnamlen

  unfoldable pub xdr_nfs_fh3 : Routine Stream Opaque
  xdr_nfs_fh3 = xdr_bytes nfs3_fhsize

  unfoldable pub xdr_mountres3_ok : Routine Stream Mountres3Ok
  xdr_mountres3_ok =
      field (λ r. r.fhandle) (λ v r. record r { fhandle = v }) xdr_fhandle3
      ▸ field (λ r. r.auth_flavors) (λ v r. record r { auth_flavors = v })
          (xdr_array no_limit xdr_int)

  unfoldable pub xdr_mountres3 : Routine Stream Mountres3
  xdr_mountres3 =
      field (λ r. r.fhs_status) (λ v r. record r { fhs_status = v }) xdr_mountstat3
      ▸ cases (λ r. is_value 0 r.fhs_status)
          (field (λ r. r.mountinfo) (λ v r. record r { mountinfo = v }) xdr_mountres3_ok)
          return_true

  unfoldable pub xdr_nfsstat3 : Routine Stream ℤ
  xdr_nfsstat3 = xdr_enum

  unfoldable pub xdr_nfstime3 : Routine Stream Nfstime3
  xdr_nfstime3 =
      field (λ t. t.seconds) (λ v t. record t { seconds = v }) xdr_uint32
      ▸ field (λ t. t.nseconds) (λ v t. record t { nseconds = v }) xdr_uint32

  unfoldable pub xdr_specdata3 : Routine Stream Specdata3
  xdr_specdata3 =
      field (λ t. t.specdata1) (λ v t. record t { specdata1 = v }) xdr_uint32
      ▸ field (λ t. t.specdata2) (λ v t. record t { specdata2 = v }) xdr_uint32

  unfoldable pub xdr_ftype3 : Routine Stream ℤ
  xdr_ftype3 = xdr_enum

  unfoldable pub xdr_fattr3 : Routine Stream Fattr3
  xdr_fattr3 =
      field (λ a. a.type) (λ v a. record a { type = v }) xdr_ftype3
      ▸ field (λ a. a.mode) (λ v a. record a { mode = v }) xdr_mode3
      ▸ field (λ a. a.nlink) (λ v a. record a { nlink = v }) xdr_uint32
      ▸ field (λ a. a.uid) (λ v a. record a { uid = v }) xdr_uid3
      ▸ field (λ a. a.gid) (λ v a. record a { gid = v }) xdr_gid3
      ▸ field (λ a. a.size) (λ v a. record a { size = v }) xdr_size3
      ▸ field (λ a. a.used) (λ v a. record a { used = v }) xdr_size3
      ▸ field (λ a. a.rdev) (λ v a. record a { rdev = v }) xdr_specdata3
      ▸ field (λ a. a.fsid) (λ v a. record a { fsid = v }) xdr_uint64
      ▸ field (λ a. a.fileid) (λ v a. record a { fileid = v }) xdr_fileid3
      ▸ field (λ a. a.atime) (λ v a. record a { atime = v }) xdr_nfstime3
      ▸ field (λ a. a.mtime) (λ v a. record a { mtime = v }) xdr_nfstime3
      ▸ field (λ a. a.ctime) (λ v a. record a { ctime = v }) xdr_nfstime3

  unfoldable pub xdr_post_op_attr : Routine Stream PostOpAttr
  xdr_post_op_attr =
      field (λ p. p.attributes_follow) (λ v p. record p { attributes_follow = v }) xdr_bool
      ▸ cases (λ p. is_value 1 p.attributes_follow)
          (field (λ p. p.attributes) (λ v p. record p { attributes = v }) xdr_fattr3)
          (cases (λ p. is_value 0 p.attributes_follow) return_true return_false)
