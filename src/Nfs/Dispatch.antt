-- ===== src/Nfs/Dispatch.antt =====
-- NFS/nfs_svc.c: the dispatchers of the two programs, and `main`.
use llp_filesystem.Base.{ℕ, ◌==◌, Bool, Option, none, some, if◌then◌else◌}
use llp_filesystem.Nfs.Types.{
  Mountres3, Fsinfo3res, Pathconf3res, Getattr3res, Access3res, Readdir3res, Lookup3res, Read3res,
}
use llp_filesystem.Nfs.System.{
  Argument, mnt_arg, getattr_arg, lookup_arg, access_arg, read_arg, readdir_arg, fsinfo_arg,
  pathconf_arg, Sent, void, mountres3, getattr3res, lookup3res, access3res, read3res, readdir3res,
  fsinfo3res, pathconf3res, Protocol, udp, tcp, Call, History, System, Io, pure, ◌>>=◌, ◌>>◌, call,
}
use llp_filesystem.Nfs.Server.{
  mountproc3_mnt_3_svc, nfsproc3_fsinfo_3_svc, nfsproc3_pathconf_3_svc, nfsproc3_getattr_3_svc,
  nfsproc3_access_3_svc, nfsproc3_readdir_3_svc, nfsproc3_lookup_3_svc, nfsproc3_read_3_svc,
}

-- The `static` results of the procedures.
pub record Statics : Type 0 where
  pub mnt : Mountres3
  pub getattr : Getattr3res
  pub lookup : Lookup3res
  pub access : Access3res
  pub read : Read3res
  pub readdir : Readdir3res
  pub fsinfo : Fsinfo3res
  pub pathconf : Pathconf3res

-- How a dispatcher ends.
pub data Ended (A : Type 0) : Type 0 where
  returned : A → Ended A
  exited : Ended A

-- `rq_proc` of the program NFS.
pub data Procedure : Type 0 where
  nullproc getattr lookup access read readdir fsinfo pathconf noproc : Procedure

unfoldable pub procedure : ℕ → Procedure
procedure n =
    if n == 0
    then nullproc
    else if n == 1
    then getattr
    else if n == 3
    then lookup
    else if n == 4
    then access
    else if n == 6
    then read
    else if n == 16
    then readdir
    else if n == 19
    then fsinfo
    else if n == 20
    then pathconf
    else noproc

module _ (sys : System) where
  -- `svc_sendreply` and the answer to its failure, then `svc_freeargs`.
  unfoldable pub reply_and_free : {R : Type 0} → Argument → Sent → R → Io (Ended R)
  reply_and_free arg sent result = call (sys.svc_answer) (Call.svc_sendreply sent) >>= λ replied.
      (if replied then pure tt else call (λ h. tt) Call.svcerr_systemerr)
      >> call (sys.svc_answer) (Call.svc_freeargs arg)
      >>= λ freed. pure (if freed then returned result else exited)

  -- What follows the `switch`, for the procedure that it chose.
  unfoldable pub serve :
      {A R : Type 0}
      → Argument
      → (History → Option A)
      → (R → Sent)
      → (A → R → Io R)
      → R
      → Io (Ended R)
  serve arg getargs sent local result = call getargs (Call.svc_getargs arg) >>= λ got. elim got [
    | none ↦ call (λ h. tt) Call.svcerr_decode >> pure (returned result)
    | some argument ↦ local argument result >>= λ result'. reply_and_free arg (sent result') result'
  ]

  -- `case NULLPROC`
  unfoldable pub null_procedure : Statics → Io (Ended Statics)
  null_procedure s = call (sys.svc_answer) (Call.svc_sendreply void) >> pure (returned s)

  -- `default`
  unfoldable pub no_procedure : Statics → Io (Ended Statics)
  no_procedure s = call (λ h. tt) Call.svcerr_noproc >> pure (returned s)

  abbrev pub ended_map : {A B : Type 0} → (A → B) → Ended A → Ended B
  ended_map f (returned a) = returned (f a)
  ended_map f exited = exited

  -- A procedure at its own result.
  abbrev pub keep : {A B : Type 0} → (A → B) → Io (Ended A) → Io (Ended B)
  keep f m = m >>= λ e. pure (ended_map f e)

  unfoldable pub mount_3 : ℕ → Statics → Io (Ended Statics)
  mount_3 rq_proc s =
      if rq_proc == 0
      then null_procedure s
      else if rq_proc == 1
      then keep (λ r. record s { mnt = r })
          (serve mnt_arg (sys.dirpath) mountres3 (mountproc3_mnt_3_svc sys) s.mnt)
      else no_procedure s

  -- `fuel` bounds the entries of a directory.
  unfoldable pub run_procedure : ℕ → Procedure → Statics → Io (Ended Statics)
  run_procedure fuel nullproc s = null_procedure s
  run_procedure fuel getattr s =
      keep (λ r. record s { getattr = r })
        (serve getattr_arg (sys.getattr3args) getattr3res (nfsproc3_getattr_3_svc sys) s.getattr)
  run_procedure fuel lookup s =
      keep (λ r. record s { lookup = r })
        (serve lookup_arg (sys.lookup3args) lookup3res (nfsproc3_lookup_3_svc sys) s.lookup)
  run_procedure fuel access s =
      keep (λ r. record s { access = r })
        (serve access_arg (sys.access3args) access3res (nfsproc3_access_3_svc sys) s.access)
  run_procedure fuel read s =
      keep (λ r. record s { read = r })
        (serve read_arg (sys.read3args) read3res (nfsproc3_read_3_svc sys) s.read)
  run_procedure fuel readdir s =
      keep (λ r. record s { readdir = r })
        (serve readdir_arg (sys.readdir3args) readdir3res (nfsproc3_readdir_3_svc sys fuel)
          s.readdir)
  run_procedure fuel fsinfo s =
      keep (λ r. record s { fsinfo = r })
        (serve fsinfo_arg (sys.fsinfo3args) fsinfo3res (nfsproc3_fsinfo_3_svc sys) s.fsinfo)
  run_procedure fuel pathconf s =
      keep (λ r. record s { pathconf = r })
        (serve pathconf_arg (sys.pathconf3args) pathconf3res (nfsproc3_pathconf_3_svc sys)
          s.pathconf)
  run_procedure fuel noproc s = no_procedure s

  unfoldable pub nfs_program_3 : ℕ → ℕ → Statics → Io (Ended Statics)
  nfs_program_3 fuel rq_proc s = run_procedure fuel (procedure rq_proc) s

  -- A step of `main` that ends the process when it fails.
  abbrev pub or_exit : Io Bool → Io (Unit {0}) → Io (Unit {0})
  or_exit m k = m >>= λ done. if done then k else pure tt

  register : ℕ → Protocol → Io Bool
  register program protocol = call (sys.svc_answer) (Call.svc_register program 3 protocol)

  -- `main`, which returns when the process exits.
  unfoldable pub main : Io (Unit {0})
  unfolding register
  main =
      call (λ h. tt) (Call.pmap_unset 100005 3)
      >> call (λ h. tt) (Call.pmap_unset 100003 3)
      >> or_exit (call (sys.svc_answer) Call.svcudp_create) (
          or_exit (register 100005 udp) (
            or_exit (register 100003 udp) (
              or_exit (call (sys.svc_answer) Call.svctcp_create) (
                or_exit (register 100005 tcp)
                  (or_exit (register 100003 tcp) (call (λ h. tt) Call.svc_run))))))
