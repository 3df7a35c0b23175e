-- ===== src/Nfs/Decoded.antt =====
-- What GETATTR does with a handle that came over the wire.
use llp_filesystem.Base.{
  ◌≤◌, ◌≡◌, refl, sym, ap, ◌∙◌, true, List, [], ◌++◌, length, take, length-take, arith,
}
use llp_filesystem.Nfs.Types.{Opaque, Getattr3args, Getattr3res}
use llp_filesystem.Nfs.Xdr.{done, Library, put_back}
use llp_filesystem.Nfs.Xdr.Basic.{xdr_nfs_fh3}
use llp_filesystem.Nfs.Xdr.Results.{xdr_getattr3args}
use llp_filesystem.Nfs.Xdr.Sends.{Streams}
use llp_filesystem.Nfs.Xdr.Laws.{Laws, sent}
use llp_filesystem.Nfs.System.{History, System, fault}
use llp_filesystem.Nfs.Server.{nfsproc3_getattr_3_svc}
use llp_filesystem.Nfs.Handles.{handle_path-exact}

-- The arguments after the memset.
abbrev pub zeroed_args : Getattr3args
zeroed_args = record { object = record { data_len = 0; data_val = [] } }

module _ (lib : Library) (st : Streams (lib.Stream)) (laws : Laws lib st) (sys : System) where
  -- The wire form of a handle.
  abbrev pub handle_wire :
      (o : Opaque) → o.data_len ≤ 64 → o.data_len ≤ length o.data_val → List (st.Piece)
  handle_wire o short held = (laws.bytes 64 o short held).wire

  -- Over an RPC library that obeys the laws, the wire form of any handle of at most 64 bytes, which
  -- are in memory where it is sent, is decoded into arguments that were set to zero bytes first, as
  -- nfs_svc.c does, and GETATTR on the decoded arguments writes outside of the memory of the
  -- handle.
  pub decoded_getattr-fault :
      (o : Opaque) (short : o.data_len ≤ 64) (held : o.data_len ≤ length o.data_val)
      (rest : List (st.Piece)) (r : Getattr3res) (h : History)
      → (args : Getattr3args) × (xdr_getattr3args lib zeroed_args
            (st.decoder (handle_wire o short held ++ rest))
          ≡ done true args (st.decoder rest))
        × (nfsproc3_getattr_3_svc sys args r h ≡ fault)
  unfolding xdr_getattr3args xdr_nfs_fh3 nfsproc3_getattr_3_svc
  decoded_getattr-fault o short held rest r h =
      let exact : o.data_len ≡ length (take o.data_len o.data_val) =
        sym (length-take o.data_len o.data_val ∙ omega (arith, held)) in
      (
        record { object = sent o },
        ap (put_back (λ v. record zeroed_args { object = v }))
            ((laws.bytes 64 o short held).decodes zeroed_args.object rest refl),
        rw (handle_path-exact (sent o) h exact) refl,
      )
