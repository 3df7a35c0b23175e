-- ===== src/Nfs/Requests.antt =====
-- The dispatchers answer every request once.
use llp_filesystem.Base.{
  ℕ, suc, ◌≡◌, refl, ap, false, Option, ◌∷◌, ◌==◌, Option-cases, Bool-cases, inl, inr, arith, some,
}
use llp_filesystem.Nfs.System.{
  Argument, Sent, Call, History, System, Run, Io, ok, fault, out_of_fuel, and_then, mnt_arg,
  getattr_arg, lookup_arg, access_arg, read_arg, readdir_arg, fsinfo_arg, pathconf_arg,
}
use llp_filesystem.Nfs.Server.{
  mountproc3_mnt_3_svc, nfsproc3_fsinfo_3_svc, nfsproc3_pathconf_3_svc, nfsproc3_getattr_3_svc,
  nfsproc3_access_3_svc, nfsproc3_readdir_3_svc, nfsproc3_lookup_3_svc, nfsproc3_read_3_svc,
}
use llp_filesystem.Nfs.Dispatch.{
  Statics, Procedure, nullproc, getattr, lookup, access, read, readdir, fsinfo, pathconf, noproc,
  procedure, reply_and_free, serve, null_procedure, no_procedure, mount_3, run_procedure,
  nfs_program_3, keep,
}
use llp_filesystem.Nfs.Serving.{
  is_void, HasMade, Quiet, and_then-HasMade, replies, mnt-Quiet, fsinfo-Quiet, pathconf-Quiet,
  getattr-Quiet, access-Quiet, readdir-Quiet, lookup-Quiet, read-Quiet,
}

abbrev pub Returned : {A : Type 0} → Run A → Type 0
Returned (ok a g) = Unit {0}
Returned fault = ⊥
Returned out_of_fuel = ⊥

and_then-Returned :
    {A B : Type 0} (r : Run A) (k : A → Io B)
    → Returned r
    → ((a : A) (g : History) → Returned (k a g))
    → Returned (and_then r k)
and_then-Returned (ok a g) k q rest = rest a g
and_then-Returned fault k q rest = absurd q
and_then-Returned out_of_fuel k q rest = absurd q

module _ (sys : System) where
  -- The run returns, with one more answer made.
  abbrev pub AnsweredOnce : {A : Type 0} → History → Run A → Type 0
  AnsweredOnce h (ok a g) = replies sys g ≡ suc (replies sys h)
  AnsweredOnce h fault = ⊥
  AnsweredOnce h out_of_fuel = ⊥

  both-AnsweredOnce :
      {A : Type 0} (h : History) (r : Run A)
      → Returned r
      → HasMade sys (suc (replies sys h)) r
      → AnsweredOnce h r
  both-AnsweredOnce h (ok a g) q made = made
  both-AnsweredOnce h fault q made = absurd q
  both-AnsweredOnce h out_of_fuel q made = absurd q

  reply_and_free-Returned :
      {R : Type 0} (arg : Argument) (s : Sent) (r : R) (h : History)
      → Returned (reply_and_free sys arg s r h)
  unfolding reply_and_free
  reply_and_free-Returned arg s r h = ground arith

  reply_and_free-HasMade :
      {R : Type 0} (arg : Argument) (s : Sent) (r : R) (n : ℕ) (h : History)
      → is_void s ≡ false
      → replies sys h ≡ n
      → HasMade sys (suc n) (reply_and_free sys arg s r h)
  unfolding reply_and_free
  reply_and_free-HasMade arg s r n h counted e =
      elim (Bool-cases (sys.svc_answer (Call.svc_sendreply s ∷ h))) [
        | inl out ↦ ground (arith, out, e)
        | inr lost ↦ ground (arith, lost, counted, e)
      ]

  serve-HasMade :
      {A R B : Type 0} (arg : Argument) (getargs : History → Option A) (sent : R → Sent)
      (local : A → R → Io R) (r : R) (f : R → B)
      → ((a : A) → Quiet sys (local a r))
      → ((r' : R) → is_void (sent r') ≡ false)
      → (n : ℕ) (h : History) → replies sys h ≡ n
      → HasMade sys (suc n) (keep sys f (serve sys arg getargs sent local r) h)
  unfolding serve
  serve-HasMade arg getargs sent local r f q counted n h e =
      elim (Option-cases (getargs (Call.svc_getargs arg ∷ h))) [
        | inl none_got ↦ rw (none_got) (ap suc e)
        | inr (a, got) ↦ rw (got) (
            and_then-HasMade sys (suc n) (suc n) _ _
              (and_then-HasMade sys n (suc n) (local a r (Call.svc_getargs arg ∷ h)) _ (q a n _ e)
                λ r' g e1. reply_and_free-HasMade arg (sent r') r' n g (counted r') e1)
              λ ended g e2. e2)
      ]

  null-HasMade :
      (s : Statics) (n : ℕ) (h : History)
      → replies sys h ≡ n
      → HasMade sys (suc n) (null_procedure sys s h)
  unfolding null_procedure
  null-HasMade s n h e = ground (arith, e)

  no_procedure-HasMade :
      (s : Statics) (n : ℕ) (h : History)
      → replies sys h ≡ n
      → HasMade sys (suc n) (no_procedure sys s h)
  unfolding no_procedure
  no_procedure-HasMade s n h e = ap suc e

  run_procedure-HasMade :
      (fuel : ℕ) (p : Procedure) (s : Statics) (n : ℕ) (h : History)
      → replies sys h ≡ n
      → HasMade sys (suc n) (run_procedure sys fuel p s h)
  unfolding run_procedure
  run_procedure-HasMade fuel nullproc s = null-HasMade s
  run_procedure-HasMade fuel getattr s =
      serve-HasMade _ _ _ _ _ _ (λ a. getattr-Quiet sys a s.getattr) (λ r'. refl)
  run_procedure-HasMade fuel lookup s =
      serve-HasMade _ _ _ _ _ _ (λ a. lookup-Quiet sys a s.lookup) (λ r'. refl)
  run_procedure-HasMade fuel access s =
      serve-HasMade _ _ _ _ _ _ (λ a. access-Quiet sys a s.access) (λ r'. refl)
  run_procedure-HasMade fuel read s =
      serve-HasMade _ _ _ _ _ _ (λ a. read-Quiet sys a s.read) (λ r'. refl)
  run_procedure-HasMade fuel readdir s =
      serve-HasMade _ _ _ _ _ _ (λ a. readdir-Quiet sys fuel a s.readdir) (λ r'. refl)
  run_procedure-HasMade fuel fsinfo s =
      serve-HasMade _ _ _ _ _ _ (λ a. fsinfo-Quiet sys a s.fsinfo) (λ r'. refl)
  run_procedure-HasMade fuel pathconf s =
      serve-HasMade _ _ _ _ _ _ (λ a. pathconf-Quiet sys a s.pathconf) (λ r'. refl)
  run_procedure-HasMade fuel noproc s = no_procedure-HasMade s

  serve-Returned :
      {A R B : Type 0} (arg : Argument) (getargs : History → Option A) (sent : R → Sent)
      (local : A → R → Io R) (r : R) (f : R → B) (h : History)
      → ((a : A)
          → getargs (Call.svc_getargs arg ∷ h) ≡ some a
          → Returned (local a r (Call.svc_getargs arg ∷ h)))
      → Returned (keep sys f (serve sys arg getargs sent local r) h)
  unfolding serve
  serve-Returned arg getargs sent local r f h q =
      elim (Option-cases (getargs (Call.svc_getargs arg ∷ h))) [
        | inl none_got ↦ rw (none_got) tt
        | inr (a, got) ↦ rw (got) (
            and_then-Returned _ _
              (and_then-Returned (local a r (Call.svc_getargs arg ∷ h)) _ (q a got)
                λ r' g. reply_and_free-Returned arg (sent r') r' g)
              λ ended g. tt)
      ]

  -- The function that a dispatcher calls returns on the arguments that are decoded, if any are.
  abbrev pub HandlerReturns :
      {A R : Type 0} → Argument → (History → Option A) → (A → R → Io R) → R → History → Type 0
  HandlerReturns {A = A} arg getargs local r h =
      (a : A)
      → getargs (Call.svc_getargs arg ∷ h) ≡ some a
      → Returned (local a r (Call.svc_getargs arg ∷ h))

  -- The same for the function of a procedure.
  abbrev pub ProcedureReturns : ℕ → Procedure → Statics → History → Type 0
  ProcedureReturns fuel nullproc s h = Unit {0}
  ProcedureReturns fuel getattr s h =
      HandlerReturns getattr_arg (sys.getattr3args) (nfsproc3_getattr_3_svc sys) s.getattr h
  ProcedureReturns fuel lookup s h =
      HandlerReturns lookup_arg (sys.lookup3args) (nfsproc3_lookup_3_svc sys) s.lookup h
  ProcedureReturns fuel access s h =
      HandlerReturns access_arg (sys.access3args) (nfsproc3_access_3_svc sys) s.access h
  ProcedureReturns fuel read s h =
      HandlerReturns read_arg (sys.read3args) (nfsproc3_read_3_svc sys) s.read h
  ProcedureReturns fuel readdir s h =
      HandlerReturns readdir_arg (sys.readdir3args) (nfsproc3_readdir_3_svc sys fuel) s.readdir h
  ProcedureReturns fuel fsinfo s h =
      HandlerReturns fsinfo_arg (sys.fsinfo3args) (nfsproc3_fsinfo_3_svc sys) s.fsinfo h
  ProcedureReturns fuel pathconf s h =
      HandlerReturns pathconf_arg (sys.pathconf3args) (nfsproc3_pathconf_3_svc sys) s.pathconf h
  ProcedureReturns fuel noproc s h = Unit {0}

  null-no-Returned :
      (s : Statics) (h : History)
      → Returned (null_procedure sys s h) × Returned (no_procedure sys s h)
  unfolding null_procedure no_procedure
  null-no-Returned s h = (tt, tt)

  run_procedure-Returned :
      (fuel : ℕ) (p : Procedure) (s : Statics) (h : History)
      → ProcedureReturns fuel p s h
      → Returned (run_procedure sys fuel p s h)
  unfolding run_procedure
  run_procedure-Returned fuel nullproc s h q = (null-no-Returned s h).0
  run_procedure-Returned fuel getattr s h q = serve-Returned _ _ _ _ _ _ h q
  run_procedure-Returned fuel lookup s h q = serve-Returned _ _ _ _ _ _ h q
  run_procedure-Returned fuel access s h q = serve-Returned _ _ _ _ _ _ h q
  run_procedure-Returned fuel read s h q = serve-Returned _ _ _ _ _ _ h q
  run_procedure-Returned fuel readdir s h q = serve-Returned _ _ _ _ _ _ h q
  run_procedure-Returned fuel fsinfo s h q = serve-Returned _ _ _ _ _ _ h q
  run_procedure-Returned fuel pathconf s h q = serve-Returned _ _ _ _ _ _ h q
  run_procedure-Returned fuel noproc s h q = (null-no-Returned s h).1

  -- A run of the dispatcher of NFS in which the function of the procedure returns comes to its end, and has
  -- made exactly one answer to the request: a reply that goes out, or one of the errors, for
  -- arguments that do not decode, for an unknown procedure, or for a reply that does not go out. The
  -- reply of NULLPROC counts whether or not it goes out.
  pub nfs_program_3-AnsweredOnce :
      (fuel rq_proc : ℕ) (s : Statics) (h : History)
      → ProcedureReturns fuel (procedure rq_proc) s h
      → AnsweredOnce h (nfs_program_3 sys fuel rq_proc s h)
  unfolding nfs_program_3
  nfs_program_3-AnsweredOnce fuel rq_proc s h q =
      both-AnsweredOnce h _ (run_procedure-Returned fuel (procedure rq_proc) s h q)
        (run_procedure-HasMade fuel (procedure rq_proc) s (replies sys h) h refl)

  -- A run of the dispatcher of MOUNT in which the function for MNT returns, if its argument decodes,
  -- comes to its end and has made exactly one answer, for every number of a procedure: a reply that
  -- goes out, or one of the errors, for an argument that does not decode, for a procedure other than
  -- NULLPROC and MNT, or for a reply that does not go out. The reply of NULLPROC counts whether or
  -- not it goes out.
  pub mount_3-AnsweredOnce :
      (rq_proc : ℕ) (s : Statics) (h : History)
      → HandlerReturns mnt_arg (sys.dirpath) (mountproc3_mnt_3_svc sys) s.mnt h
      → AnsweredOnce h (mount_3 sys rq_proc s h)
  unfolding mount_3
  mount_3-AnsweredOnce rq_proc s h q = elim (Bool-cases (rq_proc == 0)) [
    | inl z ↦
        rw (z)
          (both-AnsweredOnce h _ (null-no-Returned s h).0 (null-HasMade s (replies sys h) h refl))
    | inr z ↦ elim (Bool-cases (rq_proc == 1)) [
      | inl o ↦
          rw (z, o)
            (both-AnsweredOnce h _ (serve-Returned _ _ _ _ _ _ h q) (
              serve-HasMade _ _ _ _ _ _ (λ a. mnt-Quiet sys a s.mnt) (λ r'. refl) (replies sys h) h
                refl))
      | inr o ↦
          rw (z, o)
            (both-AnsweredOnce h _ (null-no-Returned s h).1
              (no_procedure-HasMade s (replies sys h) h refl))
    ]
  ]
