-- ===== src/Nfs/Xdr/Info.antt =====
-- The round trips of the results with attributes: FSINFO, GETATTR and ACCESS.
use mathlib.Core.Path.{subst}
use llp_filesystem.Base.{◌^◌, ◌<◌, ◌≡◌, refl, sym, ap, true, pos, arith}
use llp_filesystem.Nfs.Types.{
  Fsinfo3resok, Fsinfo3res, Getattr3resok, Getattr3res, Access3resok, Access3res,
}
use llp_filesystem.Nfs.Xdr.{Library}
use llp_filesystem.Nfs.Xdr.Basic.{is_value, xdr_uint64, xdr_uint32, xdr_size3, xdr_nfsstat3}
use llp_filesystem.Nfs.Xdr.Results.{
  xdr_fsinfo3resok, xdr_fsinfo3res, xdr_getattr3resok, xdr_getattr3res, xdr_access3resok,
  xdr_access3res,
}
use llp_filesystem.Nfs.Xdr.Sends.{Streams, Sends, Sends-then, Sends-field, Sends-cases, Sends-as}
use llp_filesystem.Nfs.Xdr.Laws.{Laws, IsInt}
use llp_filesystem.Nfs.Xdr.Attributes.{
  IsTime, IsAttr, IsFollowing, IsInt-pos, xdr_nfstime3-Sends, xdr_fattr3-Sends,
  xdr_post_op_attr-Sends,
}

pub record IsFsinfo3resok (a : Fsinfo3resok) : Type 0 where
  pub obj_attributes : IsFollowing a.obj_attributes
  pub rtmax : a.rtmax < 2 ^ 32
  pub rtpref : a.rtpref < 2 ^ 32
  pub rtmult : a.rtmult < 2 ^ 32
  pub wtmax : a.wtmax < 2 ^ 32
  pub wtpref : a.wtpref < 2 ^ 32
  pub wtmult : a.wtmult < 2 ^ 32
  pub dtpref : a.dtpref < 2 ^ 32
  pub maxfilesize : a.maxfilesize < 2 ^ 64
  pub time_delta : IsTime a.time_delta
  pub properties : a.properties < 2 ^ 32

pub record IsGetattr3resok (a : Getattr3resok) : Type 0 where
  pub obj_attributes : IsAttr a.obj_attributes

pub record IsAccess3resok (a : Access3resok) : Type 0 where
  pub obj_attributes : IsFollowing a.obj_attributes
  pub access : a.access < 2 ^ 32

module _ (lib : Library) (st : Streams (lib.Stream)) (laws : Laws lib st) where
  pub xdr_fsinfo3resok-Sends :
      (a : Fsinfo3resok) → IsFsinfo3resok a → Sends st (xdr_fsinfo3resok lib) a (λ _. a)
  unfolding xdr_fsinfo3resok xdr_uint32 xdr_uint64 xdr_size3
  xdr_fsinfo3resok-Sends a v =
      Sends-as st
        (Sends-then st
          (Sends-field st _ _ a
            (xdr_post_op_attr-Sends lib st laws a.obj_attributes v.obj_attributes) refl)
          (Sends-then st (Sends-field st _ _ a (laws.u_long a.rtmax v.rtmax) refl) (
            Sends-then st (Sends-field st _ _ a (laws.u_long a.rtpref v.rtpref) refl) (
              Sends-then st (Sends-field st _ _ a (laws.u_long a.rtmult v.rtmult) refl) (
                Sends-then st (Sends-field st _ _ a (laws.u_long a.wtmax v.wtmax) refl) (
                  Sends-then st (Sends-field st _ _ a (laws.u_long a.wtpref v.wtpref) refl) (
                    Sends-then st (Sends-field st _ _ a (laws.u_long a.wtmult v.wtmult) refl) (
                      Sends-then st (Sends-field st _ _ a (laws.u_long a.dtpref v.dtpref) refl) (
                        Sends-then st
                          (Sends-field st _ _ a (laws.u_quad_t a.maxfilesize v.maxfilesize) refl)
                          (Sends-then st
                            (Sends-field st _ _ a
                              (xdr_nfstime3-Sends lib st laws a.time_delta v.time_delta) refl)
                            (Sends-field st _ _ a (laws.u_long a.properties v.properties)
                              refl)))))))))))
        (λ b. refl)

  pub xdr_fsinfo3res-ok :
      (a : Fsinfo3res)
      → a.status ≡ pos 0
      → IsFsinfo3resok a.resok
      → Sends st (xdr_fsinfo3res lib) a (λ b. record b { status = a.status; resok = a.resok })
  unfolding xdr_fsinfo3res xdr_nfsstat3
  xdr_fsinfo3res-ok a ok v =
      let test = ap (is_value 0) ok in
      let is_int = subst IsInt (sym ok) (IsInt-pos 0 (omega arith)) in
      Sends-cases st true _ _ _ test (λ b. test)
        (Sends-field st _ _ a (laws.enum a.status is_int) refl)
        (Sends-field st _ _ a (xdr_fsinfo3resok-Sends a.resok v) refl)

  pub xdr_getattr3resok-Sends :
      (a : Getattr3resok) → IsGetattr3resok a → Sends st (xdr_getattr3resok lib) a (λ _. a)
  unfolding xdr_getattr3resok
  xdr_getattr3resok-Sends a v =
      Sends-as st
        (Sends-field st _ _ a (xdr_fattr3-Sends lib st laws a.obj_attributes v.obj_attributes) refl)
        (λ b. refl)

  pub xdr_getattr3res-ok :
      (a : Getattr3res)
      → a.status ≡ pos 0
      → IsGetattr3resok a.resok
      → Sends st (xdr_getattr3res lib) a (λ b. record b { status = a.status; resok = a.resok })
  unfolding xdr_getattr3res xdr_nfsstat3
  xdr_getattr3res-ok a ok v =
      let test = ap (is_value 0) ok in
      let is_int = subst IsInt (sym ok) (IsInt-pos 0 (omega arith)) in
      Sends-cases st true _ _ _ test (λ b. test)
        (Sends-field st _ _ a (laws.enum a.status is_int) refl)
        (Sends-field st _ _ a (xdr_getattr3resok-Sends a.resok v) refl)

  pub xdr_access3resok-Sends :
      (a : Access3resok) → IsAccess3resok a → Sends st (xdr_access3resok lib) a (λ _. a)
  unfolding xdr_access3resok xdr_uint32
  xdr_access3resok-Sends a v =
      Sends-as st
        (Sends-then st
          (Sends-field st _ _ a
            (xdr_post_op_attr-Sends lib st laws a.obj_attributes v.obj_attributes) refl)
          (Sends-field st _ _ a (laws.u_long a.access v.access) refl))
        (λ b. refl)

  pub xdr_access3res-ok :
      (a : Access3res)
      → a.status ≡ pos 0
      → IsAccess3resok a.resok
      → Sends st (xdr_access3res lib) a (λ b. record b { status = a.status; resok = a.resok })
  unfolding xdr_access3res xdr_nfsstat3
  xdr_access3res-ok a ok v =
      let test = ap (is_value 0) ok in
      let is_int = subst IsInt (sym ok) (IsInt-pos 0 (omega arith)) in
      Sends-cases st true _ _ _ test (λ b. test)
        (Sends-field st _ _ a (laws.enum a.status is_int) refl)
        (Sends-field st _ _ a (xdr_access3resok-Sends a.resok v) refl)
