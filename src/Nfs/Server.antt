-- ===== src/Nfs/Server.antt =====
-- NFS/nfs_server.c: one function for each procedure. The `static` result of a procedure is passed in
-- and returned; the calls that print are left out.
use llp_filesystem.Base.{
  ℕ, zero, suc, ◌+◌, ◌-◌, ◌%◌, ◌^◌, ◌==◌, Bool, false, [], ◌∷◌, ◌++◌, ℤ, pos, negsuc, ltb, length,
  take, drop, if◌then◌else◌,
}
use llp_filesystem.Nfs.Types.{
  CharPtr, Opaque, Mountres3, Fattr3, PostOpAttr, Fsinfo3args, Fsinfo3res, Pathconf3args,
  Pathconf3res, Getattr3args, Getattr3res, Access3args, Access3res, Readdir3args, Readdir3res,
  Lookup3args, Lookup3res, Read3args, Read3res,
}
use llp_filesystem.Nfs.System.{
  Str, Call, System, Io, pure, fault, ok, ◌>>=◌, ◌>>◌, check, call, as_i64, terminated, chars,
  use_chars,
}
use llp_filesystem.Nfs.Tools.{fill_attributes, fill_entries_for_readdir, get_socket_type}
use llp_filesystem.Nfs.Read.{fill_read3res_stream, nfs3_ok}

abbrev pub nfs3err_noent : ℤ
nfs3err_noent = pos 2

abbrev pub auth_unix : ℤ
auth_unix = pos 1

abbrev pub nfs_maxdata_tcp : ℕ
nfs_maxdata_tcp = 524288

abbrev pub nfs_maxdata_udp : ℕ
nfs_maxdata_udp = 32768

-- FSF3_LINK | FSF3_SYMLINK | FSF3_HOMOGENEOUS | FSF3_CANSETTIME
abbrev pub backend_fsinfo_properties : ℕ
backend_fsinfo_properties = 1 + 2 + 8 + 16

abbrev pub nfs_maxpathlen : ℕ
nfs_maxpathlen = 1024

-- ACCESS3_READ | ACCESS3_LOOKUP | ACCESS3_MODIFY | ACCESS3_EXTEND | ACCESS3_DELETE | ACCESS3_EXECUTE
abbrev pub access_all : ℕ
access_all = 1 + 2 + 4 + 8 + 16 + 32

-- SOCK_STREAM
abbrev pub is_stream : ℤ → Bool
is_stream (pos n) = n == 1
is_stream (negsuc n) = false

abbrev pub slash : ℕ
slash = 47

-- `path[len] = '\0'`, with `len` an `int`: the memory behind the pointer after it.
unfoldable pub put_nul : Opaque → Io Str
put_nul o =
    check (ltb o.data_len (2 ^ 31))
    >> check (ltb o.data_len (length o.data_val))
    >> pure (take o.data_len o.data_val ++ (0 ∷ []) ++ drop (suc o.data_len) o.data_val)

-- The path of a handle once it is ended.
unfoldable pub handle_path : Opaque → Io Str
handle_path o = put_nul o >>= λ m. use_chars (terminated m)

-- `strcpy` or `strcat` to a block that has `size` bytes, when its string becomes `s`.
abbrev pub store_string : ℕ → Str → Io Str
store_string size s = check (ltb (length s) size) >> pure s

-- `s[strlen(s) - 1]`, which is before the string when it is empty.
abbrev pub last_char : Str → Io ℕ
last_char [] h = fault
last_char (c ∷ []) h = ok c h
last_char (c ∷ d ∷ s) h = last_char (d ∷ s) h

abbrev pub followed : Fattr3 → PostOpAttr
followed a = record { attributes_follow = pos 1; attributes = a }

-- The pointer to a string, and its `strlen` as an `u_int`.
abbrev pub handle_of : Str → Opaque
handle_of path = record { data_len = length path % 2 ^ 32; data_val = path ++ (0 ∷ []) }

module _ (sys : System) where
  unfoldable pub mountproc3_mnt_3_svc : CharPtr → Mountres3 → Io Mountres3
  mountproc3_mnt_3_svc argp result = use_chars (chars argp) >>= λ path. pure (record {
    fhs_status = pos 0;
    mountinfo = record {
      fhandle = handle_of path;
      auth_flavors = record { auth_flavors_len = 1; auth_flavors_val = auth_unix ∷ [] };
    };
  })

  unfoldable pub nfsproc3_fsinfo_3_svc : Fsinfo3args → Fsinfo3res → Io Fsinfo3res
  nfsproc3_fsinfo_3_svc argp result = get_socket_type sys >>= λ type.
      let maxdata = if is_stream type then nfs_maxdata_tcp else nfs_maxdata_udp in
      use_chars (terminated argp.fsroot.data_val) >>= λ path.
      fill_attributes sys path result.resok.obj_attributes.attributes >>= λ filled.
      pure (record result {
        status = nfs3_ok;
        resok = record result.resok {
          obj_attributes = followed filled.1;
          rtmax = maxdata;
          rtpref = maxdata;
          rtmult = 4096;
          wtmax = maxdata;
          wtpref = maxdata;
          wtmult = 4096;
          dtpref = 4096;
          maxfilesize = 2 ^ 64 - 1;
          time_delta = record { seconds = 1; nseconds = 0 };
          properties = backend_fsinfo_properties;
        };
      })

  unfoldable pub nfsproc3_pathconf_3_svc : Pathconf3args → Pathconf3res → Io Pathconf3res
  nfsproc3_pathconf_3_svc argp result = use_chars (terminated argp.object.data_val) >>= λ path.
      fill_attributes sys path result.resok.obj_attributes.attributes >>= λ filled.
      pure (record result {
        status = nfs3_ok;
        resok = record {
          obj_attributes = followed filled.1;
          linkmax = 2 ^ 32 - 1;
          name_max = nfs_maxpathlen;
          no_trunc = pos 1;
          chown_restricted = pos 0;
          case_insensitive = pos 0;
          case_preserving = pos 1;
        };
      })

  unfoldable pub nfsproc3_getattr_3_svc : Getattr3args → Getattr3res → Io Getattr3res
  nfsproc3_getattr_3_svc argp result = handle_path argp.object >>= λ path.
      fill_attributes sys path result.resok.obj_attributes >>= λ filled.
      pure (record { status = nfs3_ok; resok = record { obj_attributes = filled.1 } })

  unfoldable pub nfsproc3_access_3_svc : Access3args → Access3res → Io Access3res
  nfsproc3_access_3_svc argp result = handle_path argp.object >>= λ path.
      fill_attributes sys path result.resok.obj_attributes.attributes >>= λ filled.
      pure (record result {
        status = nfs3_ok;
        resok = record { obj_attributes = followed filled.1; access = access_all };
      })

  -- `fuel` bounds the entries of the directory.
  unfoldable pub nfsproc3_readdir_3_svc : ℕ → Readdir3args → Readdir3res → Io Readdir3res
  nfsproc3_readdir_3_svc fuel argp result = handle_path argp.dir >>= λ path.
      fill_entries_for_readdir sys fuel path [] >>= λ listed.
      fill_attributes sys path result.resok.dir_attributes.attributes >>= λ filled.
      pure (record result {
        resok = record result.resok {
          dir_attributes = followed filled.1;
          reply = record {
            entries = listed.0;
            eof = elim listed.1 [ pos zero ↦ pos 1 | _ ↦ pos 0 ];
          };
        };
      })

  -- The path of a name in a directory, in a block from `malloc`.
  unfoldable pub join_path : Str → Str → Io Str
  join_path dir_path file_name =
      let size = length dir_path + length file_name + 2 in
      call (sys.malloc_answer) (Call.malloc size) >>= λ allocated.
      check allocated >> store_string size dir_path >> last_char dir_path >>= λ c.
      (if c == slash then pure dir_path else store_string size (dir_path ++ (slash ∷ [])))
      >>= λ path. store_string size (path ++ file_name)

  unfoldable pub nfsproc3_lookup_3_svc : Lookup3args → Lookup3res → Io Lookup3res
  nfsproc3_lookup_3_svc argp result = handle_path argp.what.dir >>= λ dir_path.
      use_chars (chars argp.what.name) >>= λ file_name. join_path dir_path file_name >>= λ path.
      fill_attributes sys dir_path result.resok.dir_attributes.attributes >>= λ dir.
      fill_attributes sys path result.resok.obj_attributes.attributes >>= λ found.
      let resok = record result.resok { dir_attributes = followed dir.1 } in
      pure (elim found.0 [
        | pos zero ↦ record result {
          status = nfs3_ok;
          resok = record resok { obj_attributes = followed found.1; object = handle_of path };
        }
        | _ ↦ record result {
          status = nfs3err_noent;
          resok = resok;
          resfail = record {
            dir_attributes = record result.resfail.dir_attributes { attributes_follow = pos 0 };
          };
        }
      ])

  unfoldable pub nfsproc3_read_3_svc : Read3args → Read3res → Io Read3res
  nfsproc3_read_3_svc argp result = handle_path argp.file >>= λ path.
      fill_read3res_stream sys path (as_i64 argp.offset) argp.count result
