-- ===== src/Nfs/Refused.antt =====
-- A LOOKUP whose reply cannot be sent, because the handle in it is longer than a handle may be.
use llp_filesystem.Base.{
  ℕ, ◌^◌, ◌<◌, ◌≡◌, refl, ap, ◌∙◌, true, false, some, List, ◌∷◌, ◌++◌, length, arith,
}
use llp_filesystem.Nfs.Types.{IsText, owned, Lookup3resok, Lookup3resfail, Lookup3res}
use llp_filesystem.Nfs.Xdr.{done, Library, cases}
use llp_filesystem.Nfs.Xdr.Basic.{xdr_nfs_fh3, xdr_nfsstat3}
use llp_filesystem.Nfs.Xdr.Results.{xdr_lookup3resok, xdr_lookup3res}
use llp_filesystem.Nfs.Xdr.Sends.{Streams}
use llp_filesystem.Nfs.Xdr.Laws.{Laws}
use llp_filesystem.Nfs.System.{Str, StatBuf, Call, History, System, ok}
use llp_filesystem.Nfs.Read.{nfs3_ok}
use llp_filesystem.Nfs.Server.{nfsproc3_lookup_3_svc}
use llp_filesystem.Nfs.Handles.{at_path}
use llp_filesystem.Nfs.Lookup.{joined, block, lookup_result, nfsproc3_lookup_3_svc-joined}

module _ (lib : Library) (st : Streams (lib.Stream)) (laws : Laws lib st) where
  -- The reply is one that its routine refuses to write.
  abbrev pub IsRefused : Lookup3res → Type 0
  IsRefused r =
      (w : List (st.Piece))
      → (x : lib.Stream) × (xdr_lookup3res lib r (st.encoder w) ≡ done false r x)

  long_handle-IsRefused :
      (ok_part : Lookup3resok) (fail_part : Lookup3resfail)
      → 64 < ok_part.object.data_len
      → IsRefused (record { status = nfs3_ok; resok = ok_part; resfail = fail_part })
  unfolding xdr_lookup3res xdr_lookup3resok xdr_nfs_fh3 xdr_nfsstat3 cases
  long_handle-IsRefused ok_part fail_part long w =
      let status = laws.enum nfs3_ok (omega arith) in
      let (x, e) = laws.bytes_refused 64 ok_part.object (w ++ status.wire) long in
      (x, rw (status.encodes w, e) refl)

  -- LOOKUP of a text in a directory whose handle has a byte to spare and holds a text that is not
  -- empty and shorter than 2 ^ 31 bytes, when `malloc` succeeds and there is a file at the joined
  -- path, which is longer than 64 bytes and shorter than 2 ^ 32: it returns NFS3_OK in a reply
  -- that its XDR routine refuses to write, over any RPC library that obeys the laws.
  pub lookup_long-IsRefused :
      (sys : System) (d : ℕ) (dir name : Str) (c : ℕ) (rest : Str) (r : Lookup3res) (h : History)
      (found : StatBuf)
      → IsText (d ∷ dir)
      → IsText name
      → length (d ∷ dir) < 2 ^ 31
      → sys.malloc_answer (block sys (d ∷ dir) name ∷ h) ≡ true
      → (let asked_dir = Call.stat (d ∷ dir) ∷ block sys (d ∷ dir) name ∷ h in
          sys.stat_answer (Call.stat (joined (d ∷ dir) name) ∷ asked_dir) ≡ some found)
      → 64 < length (joined (d ∷ dir) name)
      → length (joined (d ∷ dir) name) < 2 ^ 32
      → (reply : Lookup3res) × (g : History) × (nfsproc3_lookup_3_svc sys
            (record { what = record { dir = at_path (d ∷ dir) (c ∷ rest); name = owned name } })
            r
            h
          ≡ ok reply g)
        × (reply.status ≡ nfs3_ok)
        × IsRefused reply
  lookup_long-IsRefused sys d dir name c rest r h found t t1 small m e long fits =
      let path = joined (d ∷ dir) name in
      let asked_dir = Call.stat (d ∷ dir) ∷ block sys (d ∷ dir) name ∷ h in
      let reply = lookup_result sys (sys.stat_answer asked_dir) (some found) path r in
      (
        reply,
        Call.stat path ∷ asked_dir,
        nfsproc3_lookup_3_svc-joined sys d dir name c rest r h t t1 small m
            ∙ ap
                (λ o.
                  ok (lookup_result sys (sys.stat_answer asked_dir) o path r)
                    (Call.stat path ∷ asked_dir))
                e,
        refl,
        long_handle-IsRefused reply.resok reply.resfail (omega arith),
      )
