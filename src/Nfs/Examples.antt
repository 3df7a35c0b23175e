-- ===== src/Nfs/Examples.antt =====
-- The theorems on NFS/ applied to a small system.
use mathlib.Core.Path.{subst}
use llp_filesystem.Base.{
  ℕ, zero, suc, ◌≡◌, refl, Bool, true, false, Option, none, some, List, [], ◌∷◌, ◌++◌, pos, arith,
}
use llp_filesystem.Nfs.Types.{
  IsText, CharPtr, Getattr3args, in_dirent, owned, Opaque, PostOpAttr, Pathconf3resok, Getattr3res,
  Access3res, Readdir3args, Readdir3res, Lookup3res,
}
use llp_filesystem.Nfs.Xdr.{done}
use llp_filesystem.Nfs.Xdr.Results.{xdr_getattr3args, xdr_lookup3res, xdr_pathconf3resok}
use llp_filesystem.Nfs.Xdr.Listing.{to_pointer, xdr_readdir3res}
use llp_filesystem.Nfs.Xdr.Sends.{SendsFrom}
use llp_filesystem.Nfs.Xdr.Attributes.{IsTime, IsFollowing}
use llp_filesystem.Nfs.Xdr.Contents.{xdr_lookup3res-ok}
use llp_filesystem.Nfs.Xdr.Entries.{xdr_readdir3res-ok}
use llp_filesystem.Nfs.Xdr.Bools.{IsPathconf3resok, plain}
use llp_filesystem.Nfs.Xdr.Pathconf.{pathconf_wire, xdr_pathconf3resok-plain}
use llp_filesystem.Nfs.Memory.{
  memory, tapes, Tape, writing, reading, memory-Laws, memory-InlineLaws,
}
use llp_filesystem.Nfs.System.{
  terminated, getattr_arg, mnt_arg, Str, codes, Call, History, ok, fault,
}
use llp_filesystem.Nfs.Tools.{fill_attributes, Unfs3Fh, fh_encode, attributes_of}
use llp_filesystem.Nfs.Read.{nfs3_ok}
use llp_filesystem.Nfs.Server.{
  handle_path, put_nul, followed, mountproc3_mnt_3_svc, nfsproc3_getattr_3_svc,
  nfsproc3_access_3_svc, nfsproc3_readdir_3_svc, nfsproc3_lookup_3_svc, nfsproc3_read_3_svc,
}
use llp_filesystem.Nfs.Dispatch.{procedure, nfs_program_3, mount_3}
use llp_filesystem.Nfs.Handles.{at_path, getattr-access-filled}
use llp_filesystem.Nfs.Lookup.{block, lookup_result, nfsproc3_lookup_3_svc-joined}
use llp_filesystem.Nfs.Decoded.{zeroed_args, handle_wire, decoded_getattr-fault}
use llp_filesystem.Nfs.Refused.{IsRefused, lookup_long-IsRefused}
use llp_filesystem.Nfs.Listing.{Yields, listing, nfsproc3_readdir_3_svc-listing}
use llp_filesystem.Nfs.Reading.{
  IsPart, Returns, EndsWith, nfsproc3_read_3_svc-EndsWith, nfsproc3_read_3_svc-part,
}
use llp_filesystem.Nfs.Requests.{
  Returned, AnsweredOnce, nfs_program_3-AnsweredOnce, mount_3-AnsweredOnce,
}
use llp_filesystem.Nfs.Encoding.{fh_encode-bounds}
use llp_filesystem.Nfs.Sample.{
  getattr0, getattr_request, some_file, some_dirent, content, system, lookup0, read0, readdir0,
  pathconf_part, statics0,
}

abbrev path_a : Str
path_a = codes "/a"

abbrev handle_a : Opaque
handle_a = at_path path_a (9 ∷ [])

getattr_request-Returned :
    (a : Getattr3args)
    → some getattr_request ≡ some a
    → Returned (nfsproc3_getattr_3_svc system a getattr0 (Call.svc_getargs getattr_arg ∷ []))
unfolding nfsproc3_getattr_3_svc handle_path put_nul terminated fill_attributes
getattr_request-Returned a e = subst IfAny e tt
  where
    IfAny : Option Getattr3args → Type 0
    IfAny none = Unit {0}
    IfAny (some a) =
        Returned (nfsproc3_getattr_3_svc system a getattr0 (Call.svc_getargs getattr_arg ∷ []))

nfs_program_3-AnsweredOnce_example : AnsweredOnce system [] (nfs_program_3 system 4 1 statics0 [])
unfolding procedure
nfs_program_3-AnsweredOnce_example =
    nfs_program_3-AnsweredOnce system 4 1 statics0 [] getattr_request-Returned

decoded_path-Returned :
    (a : CharPtr)
    → some (owned (codes "/a")) ≡ some a
    → Returned (mountproc3_mnt_3_svc system a (statics0.mnt) (Call.svc_getargs mnt_arg ∷ []))
unfolding mountproc3_mnt_3_svc terminated
decoded_path-Returned a e = subst IfAny e tt
  where
    IfAny : Option CharPtr → Type 0
    IfAny none = Unit {0}
    IfAny (some a) =
        Returned (mountproc3_mnt_3_svc system a (statics0.mnt) (Call.svc_getargs mnt_arg ∷ []))

mount_3-AnsweredOnce_example : AnsweredOnce system [] (mount_3 system 1 statics0 [])
mount_3-AnsweredOnce_example = mount_3-AnsweredOnce system 1 statics0 [] decoded_path-Returned

abbrev path_a-IsText : IsText path_a
path_a-IsText = ((omega arith), ((omega arith), tt))

abbrev name_b : Str
name_b = codes "b"

nfsproc3_lookup_3_svc-joined_example :
    nfsproc3_lookup_3_svc system
      (record { what = record { dir = handle_a; name = owned name_b } })
      lookup0
      []
    ≡ (let asked_dir = Call.stat path_a ∷ block system path_a name_b ∷ [] in
        ok
          (lookup_result system (some some_file) (some some_file) (codes "/a/b") lookup0)
          (Call.stat (codes "/a/b") ∷ asked_dir))
nfsproc3_lookup_3_svc-joined_example =
    nfsproc3_lookup_3_svc-joined system 47 (codes "a") name_b 9 [] lookup0 [] path_a-IsText
      ((omega arith), tt) (omega arith) refl

-- 40 characters.
abbrev long_name : Str
long_name = codes "0123456789012345678901234567890123456789"

abbrev long_dir : Str
long_dir = codes "01234567890123456789012345678"

abbrev is_text : Str → Bool
is_text [] = true
is_text (zero ∷ s) = false
is_text (suc c ∷ s) = is_text s

is_text-IsText : (s : Str) → is_text s ≡ true → IsText s
is_text-IsText [] e = tt
is_text-IsText (zero ∷ s) e = ground arith
is_text-IsText (suc c ∷ s) e = (omega arith, is_text-IsText s e)

lookup_long-IsRefused_example :
    (reply : Lookup3res) × (g : History) × (nfsproc3_lookup_3_svc system
        (record {
          what = record { dir = at_path (47 ∷ long_dir) (9 ∷ []); name = owned long_name };
        })
        lookup0
        []
      ≡ ok reply g)
    × (reply.status ≡ nfs3_ok)
    × IsRefused memory tapes memory-Laws reply
lookup_long-IsRefused_example =
    lookup_long-IsRefused memory tapes memory-Laws system 47 long_dir long_name 9 [] lookup0 []
      some_file (is_text-IsText (47 ∷ long_dir) refl) (is_text-IsText long_name refl) (omega arith)
      refl refl (omega arith) (omega arith)

decoded_getattr-fault_example :
    (args : Getattr3args) × (xdr_getattr3args memory zeroed_args (
        reading
          (handle_wire memory tapes memory-Laws system handle_a (omega arith) (omega arith) ++ []))
      ≡ done true args (reading []))
    × (nfsproc3_getattr_3_svc system args getattr0 [] ≡ fault)
decoded_getattr-fault_example =
    decoded_getattr-fault memory tapes memory-Laws system handle_a (omega arith) (omega arith) []
      getattr0 []

getattr-access-filled_example :
    ((r : Getattr3res)
      → nfsproc3_getattr_3_svc system (record { object = handle_a }) r []
        ≡ ok
            (record {
              status = nfs3_ok;
              resok = record { obj_attributes = attributes_of system some_file };
            })
            (Call.stat path_a ∷ []))
    × ((n : ℕ) (r : Access3res)
        → nfsproc3_access_3_svc system (record { object = handle_a; access = n }) r []
          ≡ ok
              (record r {
                status = nfs3_ok;
                resok = record {
                  obj_attributes = followed (attributes_of system some_file);
                  access = 63;
                };
              })
              (Call.stat path_a ∷ []))
getattr-access-filled_example =
    getattr-access-filled system path_a 9 [] [] path_a-IsText (omega arith)

abbrev listing_request : Readdir3args
listing_request = record { dir = handle_a; cookie = 0; cookieverf = []; count = 512 }

-- The stream of the example yields its one entry.
some_dirent-Yields : Yields system (some_dirent ∷ []) (Call.opendir path_a ∷ [])
some_dirent-Yields = (refl, refl, refl)

nfsproc3_readdir_3_svc-listing_example :
    (let closed =
        Call.closedir ∷ Call.readdir ∷ Call.malloc 32 ∷ Call.readdir ∷ Call.opendir path_a ∷ [] in
      nfsproc3_readdir_3_svc system 4 listing_request readdir0 []
      ≡ ok
          (listing system
            (record { fileid = 12; name = in_dirent name_b; cookie = 1 } ∷ [])
            (pos 1)
            path_a
            closed
            readdir0)
          (Call.stat path_a ∷ closed))
nfsproc3_readdir_3_svc-listing_example =
    nfsproc3_readdir_3_svc-listing system path_a 9 [] 0 512 [] 4 readdir0 [] true (some_dirent ∷ [])
      path_a-IsText (omega arith) refl (λ o. some_dirent-Yields) (omega arith)

nfsproc3_read_3_svc-EndsWith_example :
    EndsWith system []
      (nfsproc3_read_3_svc system (record { file = handle_a; offset = 1; count = 3 }) read0 [])
nfsproc3_read_3_svc-EndsWith_example =
    nfsproc3_read_3_svc-EndsWith system path_a 9 [] 1 3 read0 [] path_a-IsText (omega arith)

nfsproc3_read_3_svc-part_example :
    Returns
      (IsPart (codes "ell"))
      (nfsproc3_read_3_svc system (record { file = handle_a; offset = 1; count = 3 }) read0 [])
nfsproc3_read_3_svc-part_example =
    nfsproc3_read_3_svc-part system path_a 9 [] 1 3 content read0 [] path_a-IsText (omega arith)
      (omega arith) (omega arith) refl refl refl refl refl

abbrev small_fh : Unfs3Fh
small_fh = record { dev = 1; ino = 2; gen = 3; pwhash = 4; len = 40; inos = long_name }

abbrev buffer_of : ℕ → List ℕ
buffer_of zero = []
buffer_of (suc n) = 0 ∷ buffer_of n

fh_encode-bounds_example : fh_encode small_fh (buffer_of 64) [] ≡ fault
fh_encode-bounds_example = fh_encode-bounds small_fh [] (buffer_of 64) (omega arith) (omega arith)

abbrev following : PostOpAttr
following = followed (attributes_of system some_file)

seven-IsTime : IsTime (record { seconds = 7; nseconds = 0 })
seven-IsTime = record { seconds = omega arith; nseconds = omega arith }

following-IsFollowing : IsFollowing following
unfolding attributes_of
following-IsFollowing = record {
  attributes_follow = refl;
  attributes = record {
    type = omega arith;
    mode = omega arith;
    nlink = omega arith;
    uid = omega arith;
    gid = omega arith;
    size = omega arith;
    used = omega arith;
    rdev = record { specdata1 = omega arith; specdata2 = omega arith };
    fsid = omega arith;
    fileid = omega arith;
    atime = seven-IsTime;
    mtime = seven-IsTime;
    ctime = seven-IsTime;
  };
}

abbrev lookup1 : Lookup3res
lookup1 = record lookup0 {
  resok = record { object = handle_a; obj_attributes = following; dir_attributes = following };
}

xdr_lookup3res-ok_example :
    SendsFrom tapes
      (λ b. b.resok.object.data_val ≡ [])
      (xdr_lookup3res memory)
      lookup1
      (λ b. record b {
        status = pos 0;
        resok = record lookup1.resok { object = record { data_len = 2; data_val = path_a } };
      })
xdr_lookup3res-ok_example = xdr_lookup3res-ok memory tapes memory-Laws lookup1 refl (record {
  object = record { within = omega arith; held = omega arith };
  obj_attributes = following-IsFollowing;
  dir_attributes = following-IsFollowing;
})

abbrev name_b-IsText : IsText name_b
name_b-IsText = (omega arith, tt)

abbrev readdir1 : Readdir3res
readdir1 = record readdir0 {
  resok = record {
    dir_attributes = following;
    cookieverf = 0 ∷ 0 ∷ 0 ∷ 0 ∷ 0 ∷ 0 ∷ 0 ∷ 0 ∷ [];
    reply = record {
      entries =
          record { fileid = 12; name = owned name_b; cookie = 1 }
          ∷ record { fileid = 13; name = owned path_a; cookie = 2 }
          ∷ [];
      eof = pos 1;
    };
  };
}

xdr_readdir3res-ok_example :
    SendsFrom tapes
      (λ b. to_pointer b.resok.reply.entries ≡ none)
      (xdr_readdir3res memory 2)
      readdir1
      (λ b. record b { status = pos 0; resok = readdir1.resok })
xdr_readdir3res-ok_example =
    xdr_readdir3res-ok memory tapes memory-Laws readdir1 2 (omega arith) refl (record {
      dir_attributes = following-IsFollowing;
      cookieverf = refl;
      reply = record {
        entries = (
          record {
            fileid = omega arith;
            name = (name_b-IsText, omega arith);
            cookie = omega arith;
          },
          (
            record {
              fileid = omega arith;
              name = (path_a-IsText, omega arith);
              cookie = omega arith;
            },
            tt,
          ),
        );
        eof = omega arith;
      };
    })

abbrev pathconf1 : Pathconf3resok
pathconf1 = record pathconf_part { obj_attributes = following }

pathconf1-IsPathconf3resok : IsPathconf3resok pathconf1
pathconf1-IsPathconf3resok = record {
  obj_attributes = following-IsFollowing;
  linkmax = omega arith;
  name_max = omega arith;
  no_trunc = omega arith;
  chown_restricted = omega arith;
  case_insensitive = omega arith;
  case_preserving = omega arith;
}

xdr_pathconf3resok-plain_example :
    (let wire =
        pathconf_wire memory tapes memory-Laws memory-InlineLaws pathconf1
          pathconf1-IsPathconf3resok in
      ((w : Tape)
        → xdr_pathconf3resok memory pathconf1 (writing w)
          ≡ plain memory tapes memory-Laws pathconf1 (writing w))
      × ((b : Pathconf3resok) (rest : Tape)
          → xdr_pathconf3resok memory b (reading (wire ++ rest))
            ≡ plain memory tapes memory-Laws b (reading (wire ++ rest))))
xdr_pathconf3resok-plain_example =
    xdr_pathconf3resok-plain memory tapes memory-Laws memory-InlineLaws pathconf1
      pathconf1-IsPathconf3resok
