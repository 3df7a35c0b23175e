-- ===== src/Nfs/Tools.antt =====
-- NFS/tools.c: attributes, directory entries, the socket type and the encoding of handles.
use llp_filesystem.Base.{
  ℕ, zero, suc, ◌+◌, ◌/◌, ◌%◌, ◌==◌, Bool, none, some, List, [], ◌∷◌, ◌++◌, ℤ, pos, negsuc, leb,
  length, take, drop, if◌then◌else◌,
}
use llp_filesystem.Nfs.Types.{Nfstime3, Fattr3, Opaque, Entry, in_dirent}
use llp_filesystem.Nfs.System.{
  Str, Timespec, StatBuf, Dirent, Call, System, Io, pure, out_of_fuel, ◌>>=◌, ◌>>◌, check, call,
  as_u64,
}

abbrev pub timespec_to_nfstime3 : Timespec → Nfstime3
timespec_to_nfstime3 ts = record { seconds = as_u64 ts.tv_sec; nseconds = as_u64 ts.tv_nsec }

-- `(mode & S_IFMT) == S_IFREG`
abbrev pub is_reg : ℕ → Bool
is_reg mode = mode / 4096 % 16 == 8

-- `(mode & S_IFMT) == S_IFDIR`
abbrev pub is_dir : ℕ → Bool
is_dir mode = mode / 4096 % 16 == 4

abbrev pub file_type : ℕ → ℤ
file_type mode =
    let type = if is_reg mode then pos 1 else negsuc 0 in if is_dir mode then pos 2 else type

-- The attributes that `fill_attributes` makes of a `struct stat`.
unfoldable pub attributes_of : System → StatBuf → Fattr3
attributes_of sys st = record {
  type = file_type st.st_mode;
  mode = st.st_mode;
  nlink = st.st_nlink;
  uid = st.st_uid;
  gid = st.st_gid;
  size = as_u64 st.st_size;
  used = as_u64 st.st_size;
  rdev = record { specdata1 = sys.major st.st_rdev; specdata2 = sys.minor st.st_rdev };
  fsid = st.st_dev;
  fileid = st.st_ino;
  atime = timespec_to_nfstime3 st.st_atim;
  mtime = timespec_to_nfstime3 st.st_mtim;
  ctime = timespec_to_nfstime3 st.st_ctim;
}

-- How the loop of `fill_entries_for_readdir` ends: at the end of the directory with the entries in
-- order, or without memory.
pub data Listed : Type 0 where
  all_listed : List Entry → Listed
  no_memory : Listed

abbrev pub entry3_of : Dirent → Entry
entry3_of d = record { fileid = d.d_ino; name = in_dirent d.d_name; cookie = as_u64 d.d_off }

-- An entry in front of the rest, as `nextentry` links them.
abbrev pub link_entry : Entry → Listed → Listed
link_entry e (all_listed es) = all_listed (e ∷ es)
link_entry e no_memory = no_memory

module _ (sys : System) where
  -- The result, and the attributes behind the pointer, which an error leaves.
  unfoldable pub fill_attributes : Str → Fattr3 → Io (ℤ × Fattr3)
  fill_attributes path attributes = call (sys.stat_answer) (Call.stat path) >>= λ answer.
      elim answer [
        | none ↦ pure (negsuc 0, attributes)
        | some st ↦ pure (pos 0, attributes_of sys st)
      ]

  unfoldable pub link_entries : ℕ → Io Listed
  link_entries zero = λ h. out_of_fuel
  link_entries (suc fuel) =
      let rest = link_entries fuel in
      call (sys.readdir_answer) Call.readdir >>= λ next. elim next [
        | none ↦ pure (all_listed [])
        | some d ↦ call (sys.malloc_answer) (Call.malloc 32) >>= λ allocated.
            if allocated then (rest >>= λ l. pure (link_entry (entry3_of d) l)) else pure no_memory
      ]

  -- The entries behind the pointer, and `*eof`.
  unfoldable pub fill_entries_for_readdir : ℕ → Str → List Entry → Io (List Entry × ℤ)
  fill_entries_for_readdir fuel path entries =
      call (sys.opendir_answer) (Call.opendir path) >>= λ opened.
      if opened
      then (link_entries fuel >>= λ listed. call (λ h. tt) Call.closedir >>= λ _. elim listed [
        | all_listed es ↦ pure (es, pos 0)
        | no_memory ↦ pure (entries, pos 1)
      ])
      else pure (entries, pos 1)

  unfoldable pub get_socket_type : Io ℤ
  get_socket_type = call (sys.getsockopt_answer) (Call.getsockopt (pos 1)) >>= λ answer.
      elim answer [ none ↦ pure (negsuc 0) | some v ↦ pure v ]

-- A handle of the `unfs3` server; `uint32` is an `unsigned long`.
pub record Unfs3Fh : Type 0 where
  pub dev : ℕ
  pub ino : ℕ
  pub gen : ℕ
  pub pwhash : ℕ
  pub len : ℕ
  pub inos : List ℕ

abbrev pub fh_length : Unfs3Fh → ℕ
fh_length fh = fh.len + 1 + 8 + 8 + 8 + 8

-- The bytes of a number in memory, the lowest first.
unfoldable pub bytes_of : ℕ → ℕ → List ℕ
bytes_of zero n = []
bytes_of (suc w) n = (n % 256) ∷ bytes_of w (n / 256)

-- `memcpy` to an offset of a buffer.
unfoldable pub copy_to : List ℕ → ℕ → List ℕ → Io (List ℕ)
copy_to buffer at bytes =
    check (leb (at + length bytes) (length buffer))
    >> pure (take at buffer ++ bytes ++ drop (at + length bytes) buffer)

-- The handle; its pointer is the buffer.
unfoldable pub fh_encode : Unfs3Fh → List ℕ → Io Opaque
fh_encode fh buffer = copy_to buffer 0 (bytes_of 8 fh.dev) >>= λ b1.
    copy_to b1 8 (bytes_of 8 fh.ino) >>= λ b2. copy_to b2 16 (bytes_of 8 fh.gen) >>= λ b3.
    copy_to b3 24 (bytes_of 8 fh.pwhash) >>= λ b4. copy_to b4 32 (bytes_of 1 fh.len) >>= λ b5.
    (if fh.len == 0 then pure b5 else copy_to b5 33 (take fh.len fh.inos)) >>= λ b6.
    pure (record { data_len = fh_length fh; data_val = b6 })
