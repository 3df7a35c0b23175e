-- ===== src/Nfs/System.antt =====
-- The calls of the NFS server to the system, the C library and the RPC transport.
use Prim.Native.Char.{code}
use Prim.Native.String.{String}
use llp_filesystem.Base.{
  ℕ, zero, suc, ◌-◌, ◌^◌, Bool, Option, none, some, List, [], ◌∷◌, ◌++◌, ℤ, pos, negsuc, ltb,
  if◌then◌else◌,
}
use llp_filesystem.Calls.{Outcome, Doing}
pub use llp_filesystem.Calls.{ok, fault, out_of_fuel, pure, and_then, ◌>>=◌, ◌>>◌, check, call}
use llp_filesystem.Nfs.Types.{
  CharPtr, null, owned, in_dirent, Mountres3, Fsinfo3res, Pathconf3res, Getattr3res, Access3res,
  Readdir3res, Lookup3res, Read3res, Fsinfo3args, Pathconf3args, Getattr3args, Access3args,
  Readdir3args, Lookup3args, Read3args,
}

abbrev pub Str : Type 0
Str = List ℕ

pub record Timespec : Type 0 where
  pub tv_sec : ℤ
  pub tv_nsec : ℤ

pub record StatBuf : Type 0 where
  pub st_mode : ℕ
  pub st_nlink : ℕ
  pub st_uid : ℕ
  pub st_gid : ℕ
  pub st_size : ℤ
  pub st_rdev : ℕ
  pub st_dev : ℕ
  pub st_ino : ℕ
  pub st_atim : Timespec
  pub st_mtim : Timespec
  pub st_ctim : Timespec

pub record Dirent : Type 0 where
  pub d_ino : ℕ
  pub d_off : ℤ
  pub d_name : Str

-- The arguments that a dispatcher decodes.
pub data Argument : Type 0 where
  mnt_arg getattr_arg lookup_arg access_arg read_arg readdir_arg fsinfo_arg pathconf_arg : Argument

-- A result, with the routine that sends it.
pub data Sent : Type 0 where
  void : Sent
  mountres3 : Mountres3 → Sent
  getattr3res : Getattr3res → Sent
  lookup3res : Lookup3res → Sent
  access3res : Access3res → Sent
  read3res : Read3res → Sent
  readdir3res : Readdir3res → Sent
  fsinfo3res : Fsinfo3res → Sent
  pathconf3res : Pathconf3res → Sent

pub data Protocol : Type 0 where
  udp tcp : Protocol

pub data Call : Type 0 where
  stat : Str → Call
  opendir : Str → Call
  readdir : Call
  closedir : Call
  malloc : ℕ → Call
  getsockopt : ℤ → Call
  open_rdonly : Str → Call
  lseek : ℤ → ℤ → Call
  pread : ℤ → ℕ → ℤ → Call
  close : ℤ → Call
  svc_getargs : Argument → Call
  svc_sendreply : Sent → Call
  svcerr_noproc : Call
  svcerr_decode : Call
  svcerr_systemerr : Call
  svc_freeargs : Argument → Call
  pmap_unset : ℕ → ℕ → Call
  svcudp_create : Call
  svctcp_create : Call
  svc_register : ℕ → ℕ → Protocol → Call
  svc_run : Call

-- The calls made so far, the newest first.
abbrev pub History : Type 0
History = List Call

-- The answer to the newest call, after those before it. `none` is the error, the NULL or the end.
-- `svc_getargs` answers for each type of arguments.
pub record System : Type 0 where
  pub stat_answer : History → Option StatBuf
  pub opendir_answer : History → Bool
  pub readdir_answer : History → Option Dirent
  pub malloc_answer : History → Bool
  pub getsockopt_answer : History → Option ℤ
  pub fd_answer : History → ℤ
  pub lseek_answer : History → ℤ
  pub pread_answer : History → Option Str
  pub svc_answer : History → Bool
  pub dirpath : History → Option CharPtr
  pub getattr3args : History → Option Getattr3args
  pub lookup3args : History → Option Lookup3args
  pub access3args : History → Option Access3args
  pub read3args : History → Option Read3args
  pub readdir3args : History → Option Readdir3args
  pub fsinfo3args : History → Option Fsinfo3args
  pub pathconf3args : History → Option Pathconf3args
  pub major : ℕ → ℕ
  pub minor : ℕ → ℕ

abbrev pub Run : Type 0 → Type 0
Run A = Outcome History A

abbrev pub Io : Type 0 → Type 0
Io A = Doing History A

-- A value of 64 bits without sign.
abbrev pub as_u64 : ℤ → ℕ
as_u64 (pos n) = n
as_u64 (negsuc n) = 2 ^ 64 - suc n

-- A value of 64 bits with sign.
abbrev pub as_i64 : ℕ → ℤ
as_i64 n = if ltb n (2 ^ 63) then pos n else negsuc (2 ^ 64 - suc n)

-- The string that starts at a place in memory, if a NUL ends it there.
unfoldable pub terminated : Str → Option Str
terminated [] = none
terminated (zero ∷ m) = some []
terminated (suc c ∷ m) = elim (terminated m) [ none ↦ none | some s ↦ some (suc c ∷ s) ]

-- What a pointer points to, up to the NUL.
abbrev pub chars : CharPtr → Option Str
chars null = none
chars (owned s) = terminated (s ++ (0 ∷ []))
chars (in_dirent s) = none

-- A use of a string: a fault if there is none.
abbrev pub use_chars : Option Str → Io Str
use_chars none h = fault
use_chars (some s) h = ok s h

abbrev pub codes : String → Str
codes String.[] = []
codes (String.◌∷◌ c s) = code c ∷ codes s
