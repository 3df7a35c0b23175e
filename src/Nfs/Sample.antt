-- ===== src/Nfs/Sample.antt =====
-- A small system and blank results, for running NFS/.
use llp_filesystem.Base.{true, Option, none, some, [], ◌∷◌, pos}
use llp_filesystem.Nfs.Types.{
  owned, Opaque, Nfstime3, Fattr3, PostOpAttr, Pathconf3resok, Getattr3args, Getattr3res,
  Access3res, Readdir3res, Lookup3res, Read3res,
}
use llp_filesystem.Nfs.System.{Str, codes, Timespec, StatBuf, Dirent, Call, History, System}
use llp_filesystem.Nfs.Server.{followed}
use llp_filesystem.Nfs.Dispatch.{Statics}
use llp_filesystem.Nfs.Handles.{at_path}
use llp_filesystem.Nfs.Reading.{part}

abbrev pub moment : Timespec
moment = record { tv_sec = pos 7; tv_nsec = pos 0 }

abbrev pub some_file : StatBuf
some_file = record {
  st_mode = 33188;
  st_nlink = 1;
  st_uid = 1000;
  st_gid = 1000;
  st_size = pos 5;
  st_rdev = 0;
  st_dev = 3;
  st_ino = 12;
  st_atim = moment;
  st_mtim = moment;
  st_ctim = moment;
}

abbrev pub some_dirent : Dirent
some_dirent = record { d_ino = 12; d_off = pos 1; d_name = codes "b" }

-- A directory stream yields one entry.
abbrev pub next_entry : History → Option Dirent
next_entry (Call.readdir ∷ Call.opendir p ∷ h) = some some_dirent
next_entry h = none

abbrev pub content : Str
content = codes "hello"

abbrev pub getattr_request : Getattr3args
getattr_request = record { object = at_path (codes "/a") (9 ∷ []) }

abbrev pub system : System
system = record {
  stat_answer = λ h. some some_file;
  opendir_answer = λ h. true;
  readdir_answer = next_entry;
  malloc_answer = λ h. true;
  getsockopt_answer = λ h. some (pos 1);
  fd_answer = λ h. pos 3;
  lseek_answer = λ h. pos 1;
  pread_answer = λ h. some (part content 1 3);
  svc_answer = λ h. true;
  dirpath = λ h. some (owned (codes "/a"));
  getattr3args = λ h. some getattr_request;
  lookup3args = λ h. none;
  access3args = λ h. none;
  read3args = λ h. none;
  readdir3args = λ h. none;
  fsinfo3args = λ h. none;
  pathconf3args = λ h. none;
  major = λ n. 0;
  minor = λ n. 0;
}

abbrev pub time_zero : Nfstime3
time_zero = record { seconds = 0; nseconds = 0 }

abbrev pub blank_attr : Fattr3
blank_attr = record {
  type = pos 0;
  mode = 0;
  nlink = 0;
  uid = 0;
  gid = 0;
  size = 0;
  used = 0;
  rdev = record { specdata1 = 0; specdata2 = 0 };
  fsid = 0;
  fileid = 0;
  atime = time_zero;
  mtime = time_zero;
  ctime = time_zero;
}

abbrev pub blank_post : PostOpAttr
blank_post = record { attributes_follow = pos 0; attributes = blank_attr }

abbrev pub blank_object : Opaque
blank_object = record { data_len = 0; data_val = [] }

abbrev pub getattr0 : Getattr3res
getattr0 = record { status = pos 0; resok = record { obj_attributes = blank_attr } }

abbrev pub access0 : Access3res
access0 = record {
  status = pos 0;
  resok = record { obj_attributes = blank_post; access = 0 };
  resfail = record { obj_attributes = blank_post };
}

abbrev pub lookup0 : Lookup3res
lookup0 = record {
  status = pos 0;
  resok = record {
    object = blank_object;
    obj_attributes = blank_post;
    dir_attributes = blank_post;
  };
  resfail = record { dir_attributes = blank_post };
}

abbrev pub read0 : Read3res
read0 = record {
  status = pos 0;
  resok = record { file_attributes = blank_post; count = 0; eof = pos 0; bytes = blank_object };
  resfail = record { file_attributes = blank_post };
}

abbrev pub readdir0 : Readdir3res
readdir0 = record {
  status = pos 0;
  resok = record {
    dir_attributes = blank_post;
    cookieverf = 0 ∷ 0 ∷ 0 ∷ 0 ∷ 0 ∷ 0 ∷ 0 ∷ 0 ∷ [];
    reply = record { entries = []; eof = pos 0 };
  };
  resfail = record { dir_attributes = blank_post };
}

abbrev pub pathconf_part : Pathconf3resok
pathconf_part = record {
  obj_attributes = followed blank_attr;
  linkmax = 100;
  name_max = 1024;
  no_trunc = pos 1;
  chown_restricted = pos 0;
  case_insensitive = pos 0;
  case_preserving = pos 1;
}

abbrev pub statics0 : Statics
statics0 = record {
  mnt = record {
    fhs_status = pos 0;
    mountinfo = record {
      fhandle = blank_object;
      auth_flavors = record { auth_flavors_len = 0; auth_flavors_val = [] };
    };
  };
  getattr = getattr0;
  lookup = lookup0;
  access = access0;
  read = read0;
  readdir = readdir0;
  fsinfo = record {
    status = pos 0;
    resok = record {
      obj_attributes = blank_post;
      rtmax = 0;
      rtpref = 0;
      rtmult = 0;
      wtmax = 0;
      wtpref = 0;
      wtmult = 0;
      dtpref = 0;
      maxfilesize = 0;
      time_delta = time_zero;
      properties = 0;
    };
    resfail = record { obj_attributes = blank_post };
  };
  pathconf = record {
    status = pos 0;
    resok = pathconf_part;
    resfail = record { obj_attributes = blank_post };
  };
}
