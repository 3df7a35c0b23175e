-- ===== src/Nfs/Startup.antt =====
-- What `main` of NFS/nfs_svc.c does before it waits for requests.
use llp_filesystem.Base.{ℕ, ◌≡◌, List, [], ◌∷◌, if◌then◌else◌, arith}
use llp_filesystem.Nfs.System.{
  Protocol, udp, tcp, Call, History, System, Run, ok, fault, out_of_fuel,
}
use llp_filesystem.Nfs.Dispatch.{main}

module _ (sys : System) where
  -- The registrations that succeeded.
  abbrev pub registered : History → List (ℕ × Protocol)
  registered [] = []
  registered (Call.svc_register program version protocol ∷ h) =
      if sys.svc_answer (Call.svc_register program version protocol ∷ h)
      then (program, protocol) ∷ registered h
      else registered h
  registered (_ ∷ h) = registered h

  -- What holds when the process ends: if it has waited for requests, then this was the last call, and
  -- both programs are registered for both protocols.
  abbrev pub RunsRegistered : Run (Unit {0}) → Type 0
  RunsRegistered (ok a (Call.svc_run ∷ h)) =
      registered h ≡ (100003, tcp) ∷ (100005, tcp) ∷ (100003, udp) ∷ (100005, udp) ∷ []
  RunsRegistered (ok a h) = Unit {0}
  RunsRegistered fault = ⊥
  RunsRegistered out_of_fuel = ⊥

  -- `main`, whatever the system answers, comes to its end, and waits for requests only with both programs
  -- registered for UDP and for TCP.
  pub main-RunsRegistered : RunsRegistered (main sys [])
  unfolding main
  main-RunsRegistered = ground arith
