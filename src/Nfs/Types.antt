-- ===== src/Nfs/Types.antt =====
-- The types of NFS/nfs.h. A C union is a record with a field for each member.
use llp_filesystem.Base.{ℕ, ℤ, List, [], ◌∷◌, ◌<◌}

-- The characters of a C string: none of them is the NUL.
abbrev pub IsText : List ℕ → Type 0
IsText [] = Unit {0}
IsText (c ∷ s) = (0 < c) × IsText s

-- A string: NULL, one that the program owns, or one in the buffer of an open directory stream.
pub data CharPtr : Type 0 where
  null : CharPtr
  owned : List ℕ → CharPtr
  in_dirent : List ℕ → CharPtr

-- A length and a pointer: the memory from the pointer to the end of its allocation.
pub record Opaque : Type 0 where
  pub data_len : ℕ
  pub data_val : List ℕ

pub record Flavors : Type 0 where
  pub auth_flavors_len : ℕ
  pub auth_flavors_val : List ℤ

pub record Mountres3Ok : Type 0 where
  pub fhandle : Opaque
  pub auth_flavors : Flavors

pub record Mountres3 : Type 0 where
  pub fhs_status : ℤ
  pub mountinfo : Mountres3Ok

pub record Nfstime3 : Type 0 where
  pub seconds : ℕ
  pub nseconds : ℕ

pub record Specdata3 : Type 0 where
  pub specdata1 : ℕ
  pub specdata2 : ℕ

pub record Fattr3 : Type 0 where
  pub type : ℤ
  pub mode : ℕ
  pub nlink : ℕ
  pub uid : ℕ
  pub gid : ℕ
  pub size : ℕ
  pub used : ℕ
  pub rdev : Specdata3
  pub fsid : ℕ
  pub fileid : ℕ
  pub atime : Nfstime3
  pub mtime : Nfstime3
  pub ctime : Nfstime3

pub record PostOpAttr : Type 0 where
  pub attributes_follow : ℤ
  pub attributes : Fattr3

pub record Fsinfo3args : Type 0 where
  pub fsroot : Opaque

pub record Fsinfo3resok : Type 0 where
  pub obj_attributes : PostOpAttr
  pub rtmax : ℕ
  pub rtpref : ℕ
  pub rtmult : ℕ
  pub wtmax : ℕ
  pub wtpref : ℕ
  pub wtmult : ℕ
  pub dtpref : ℕ
  pub maxfilesize : ℕ
  pub time_delta : Nfstime3
  pub properties : ℕ

pub record Fsinfo3resfail : Type 0 where
  pub obj_attributes : PostOpAttr

pub record Fsinfo3res : Type 0 where
  pub status : ℤ
  pub resok : Fsinfo3resok
  pub resfail : Fsinfo3resfail

pub record Pathconf3args : Type 0 where
  pub object : Opaque

pub record Pathconf3resok : Type 0 where
  pub obj_attributes : PostOpAttr
  pub linkmax : ℕ
  pub name_max : ℕ
  pub no_trunc : ℤ
  pub chown_restricted : ℤ
  pub case_insensitive : ℤ
  pub case_preserving : ℤ

pub record Pathconf3resfail : Type 0 where
  pub obj_attributes : PostOpAttr

pub record Pathconf3res : Type 0 where
  pub status : ℤ
  pub resok : Pathconf3resok
  pub resfail : Pathconf3resfail

pub record Getattr3args : Type 0 where
  pub object : Opaque

pub record Getattr3resok : Type 0 where
  pub obj_attributes : Fattr3

pub record Getattr3res : Type 0 where
  pub status : ℤ
  pub resok : Getattr3resok

pub record Access3args : Type 0 where
  pub object : Opaque
  pub access : ℕ

pub record Access3resok : Type 0 where
  pub obj_attributes : PostOpAttr
  pub access : ℕ

pub record Access3resfail : Type 0 where
  pub obj_attributes : PostOpAttr

pub record Access3res : Type 0 where
  pub status : ℤ
  pub resok : Access3resok
  pub resfail : Access3resfail

pub record Readdir3args : Type 0 where
  pub dir : Opaque
  pub cookie : ℕ
  pub cookieverf : List ℕ
  pub count : ℕ

-- An `entry3` without its pointer to the next.
pub record Entry : Type 0 where
  pub fileid : ℕ
  pub name : CharPtr
  pub cookie : ℕ

-- The entries that `nextentry` leads to are a list, which is empty for NULL.
pub record Entry3 : Type 0 where
  pub entry : Entry
  pub nextentry : List Entry

pub record Dirlist3 : Type 0 where
  pub entries : List Entry
  pub eof : ℤ

pub record Readdir3resok : Type 0 where
  pub dir_attributes : PostOpAttr
  pub cookieverf : List ℕ
  pub reply : Dirlist3

pub record Readdir3resfail : Type 0 where
  pub dir_attributes : PostOpAttr

pub record Readdir3res : Type 0 where
  pub status : ℤ
  pub resok : Readdir3resok
  pub resfail : Readdir3resfail

pub record Diropargs3 : Type 0 where
  pub dir : Opaque
  pub name : CharPtr

pub record Lookup3args : Type 0 where
  pub what : Diropargs3

pub record Lookup3resok : Type 0 where
  pub object : Opaque
  pub obj_attributes : PostOpAttr
  pub dir_attributes : PostOpAttr

pub record Lookup3resfail : Type 0 where
  pub dir_attributes : PostOpAttr

pub record Lookup3res : Type 0 where
  pub status : ℤ
  pub resok : Lookup3resok
  pub resfail : Lookup3resfail

pub record Read3args : Type 0 where
  pub file : Opaque
  pub offset : ℕ
  pub count : ℕ

pub record Read3resok : Type 0 where
  pub file_attributes : PostOpAttr
  pub count : ℕ
  pub eof : ℤ
  pub bytes : Opaque

pub record Read3resfail : Type 0 where
  pub file_attributes : PostOpAttr

pub record Read3res : Type 0 where
  pub status : ℤ
  pub resok : Read3resok
  pub resfail : Read3resfail
