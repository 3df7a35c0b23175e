-- ===== src/Nfs/Xdr/Attributes.antt =====
-- The round trips of times, device numbers and attributes.
use mathlib.Core.Path.{subst}
use mathlib.Core.List.{append-nil}
use llp_filesystem.Base.{◌∙◌, arith, [], sym, ℕ, ◌^◌, ◌<◌, ◌≡◌, refl, ap, true, false, pos}
use llp_filesystem.Nfs.Types.{Nfstime3, Specdata3, Fattr3, PostOpAttr}
use llp_filesystem.Nfs.Xdr.{done, Library, field, cases, return_true, return_false}
use llp_filesystem.Nfs.Xdr.Basic.{
  xdr_uint64, xdr_uint32, xdr_uid3, xdr_gid3, xdr_size3, xdr_mode3, xdr_fileid3, xdr_ftype3,
  xdr_nfstime3, xdr_specdata3, xdr_fattr3, xdr_post_op_attr, is_value,
}
use llp_filesystem.Nfs.Xdr.Sends.{
  Streams, Sends, Sends-after, cases-chosen, Sends-then, Sends-field, Sends-cases, Sends-as,
}
use llp_filesystem.Nfs.Xdr.Laws.{Laws, IsInt, IsBool}

pub record IsTime (t : Nfstime3) : Type 0 where
  pub seconds : t.seconds < 2 ^ 32
  pub nseconds : t.nseconds < 2 ^ 32

pub record IsSpec (t : Specdata3) : Type 0 where
  pub specdata1 : t.specdata1 < 2 ^ 32
  pub specdata2 : t.specdata2 < 2 ^ 32

pub record IsAttr (a : Fattr3) : Type 0 where
  pub type : IsInt a.type
  pub mode : a.mode < 2 ^ 32
  pub nlink : a.nlink < 2 ^ 32
  pub uid : a.uid < 2 ^ 32
  pub gid : a.gid < 2 ^ 32
  pub size : a.size < 2 ^ 64
  pub used : a.used < 2 ^ 64
  pub rdev : IsSpec a.rdev
  pub fsid : a.fsid < 2 ^ 64
  pub fileid : a.fileid < 2 ^ 64
  pub atime : IsTime a.atime
  pub mtime : IsTime a.mtime
  pub ctime : IsTime a.ctime

-- Attributes that follow.
pub record IsFollowing (a : PostOpAttr) : Type 0 where
  pub attributes_follow : a.attributes_follow ≡ pos 1
  pub attributes : IsAttr a.attributes

pub IsInt-pos : (n : ℕ) → n < 2 ^ 31 → IsInt (pos n)
IsInt-pos n h = h

module _ (lib : Library) (st : Streams (lib.Stream)) (laws : Laws lib st) where
  pub xdr_nfstime3-Sends : (a : Nfstime3) → IsTime a → Sends st (xdr_nfstime3 lib) a (λ _. a)
  unfolding xdr_nfstime3 xdr_uint32
  xdr_nfstime3-Sends a v =
      Sends-as st
        (Sends-then st (Sends-field st _ _ a (laws.u_long a.seconds v.seconds) refl)
          (Sends-field st _ _ a (laws.u_long a.nseconds v.nseconds) refl))
        (λ b. refl)

  pub xdr_specdata3-Sends : (a : Specdata3) → IsSpec a → Sends st (xdr_specdata3 lib) a (λ _. a)
  unfolding xdr_specdata3 xdr_uint32
  xdr_specdata3-Sends a v =
      Sends-as st
        (Sends-then st (Sends-field st _ _ a (laws.u_long a.specdata1 v.specdata1) refl)
          (Sends-field st _ _ a (laws.u_long a.specdata2 v.specdata2) refl))
        (λ b. refl)

  pub xdr_fattr3-Sends : (a : Fattr3) → IsAttr a → Sends st (xdr_fattr3 lib) a (λ _. a)
  unfolding xdr_fattr3 xdr_uint32 xdr_uint64 xdr_uid3 xdr_gid3 xdr_size3 xdr_mode3 xdr_fileid3
      xdr_ftype3
  xdr_fattr3-Sends a v =
      Sends-as st
        (Sends-then st (Sends-field st _ _ a (laws.enum a.type v.type) refl) (
          Sends-then st (Sends-field st _ _ a (laws.u_long a.mode v.mode) refl) (
            Sends-then st (Sends-field st _ _ a (laws.u_long a.nlink v.nlink) refl) (
              Sends-then st (Sends-field st _ _ a (laws.u_long a.uid v.uid) refl) (
                Sends-then st (Sends-field st _ _ a (laws.u_long a.gid v.gid) refl) (
                  Sends-then st (Sends-field st _ _ a (laws.u_quad_t a.size v.size) refl) (
                    Sends-then st (Sends-field st _ _ a (laws.u_quad_t a.used v.used) refl) (
                      Sends-then st (Sends-field st _ _ a (xdr_specdata3-Sends a.rdev v.rdev) refl)
                        (Sends-then st (Sends-field st _ _ a (laws.u_quad_t a.fsid v.fsid) refl) (
                          Sends-then st
                            (Sends-field st _ _ a (laws.u_quad_t a.fileid v.fileid) refl)
                            (Sends-then st
                              (Sends-field st _ _ a (xdr_nfstime3-Sends a.atime v.atime) refl)
                              (Sends-then st
                                (Sends-field st _ _ a (xdr_nfstime3-Sends a.mtime v.mtime) refl)
                                (Sends-field st _ _ a (xdr_nfstime3-Sends a.ctime v.ctime)
                                  refl)))))))))))))
        (λ b. refl)

  pub xdr_post_op_attr-Sends :
      (a : PostOpAttr) → IsFollowing a → Sends st (xdr_post_op_attr lib) a (λ _. a)
  unfolding xdr_post_op_attr
  xdr_post_op_attr-Sends a v =
      let is_bool = subst IsBool (sym v.attributes_follow) (omega arith) in
      let yes_follow = ap (is_value 1) v.attributes_follow in
      Sends-as st
        (Sends-cases st true _ _ _ yes_follow (λ b. yes_follow)
          (Sends-field st _ _ a (laws.bool a.attributes_follow is_bool) refl)
          (Sends-field st _ _ a (xdr_fattr3-Sends a.attributes v.attributes) refl))
        (λ b. refl)

  -- Attributes that do not follow leave the receiver's.
  pub xdr_post_op_attr-absent :
      (a : PostOpAttr)
      → a.attributes_follow ≡ pos 0
      → Sends st
          (xdr_post_op_attr lib)
          a
          (λ b. record b { attributes_follow = a.attributes_follow })
  unfolding xdr_post_op_attr
  xdr_post_op_attr-absent a none_follow =
      let test = ap (is_value 1) none_follow in
      let test_0 = ap (is_value 0) none_follow in
      let is_bool = subst IsBool (sym none_follow) (omega arith) in
      Sends-after st (λ b. Unit {0}) _ (λ b. b)
        (Sends-field st _ _ a (laws.bool a.attributes_follow is_bool) refl) (λ b h. tt) []
        (λ w.
          skipped a (st.encoder w) test test_0
          ∙ ap (λ z. done true a (st.encoder z)) (sym (append-nil w)))
        (λ b rest h.
          skipped (record b { attributes_follow = a.attributes_follow }) (st.decoder rest) test
            test_0)
    where
      skipped :
          (b : PostOpAttr) (x : lib.Stream)
          → is_value 1 b.attributes_follow ≡ false
          → is_value 0 b.attributes_follow ≡ true
          → cases
              (λ p. is_value 1 p.attributes_follow)
              (field (λ p. p.attributes) (λ v p. record p { attributes = v }) (xdr_fattr3 lib))
              (cases (λ p. is_value 0 p.attributes_follow) return_true return_false)
              b
              x
            ≡ done true b x
      skipped b x h k =
          cases-chosen st (λ p. is_value 1 p.attributes_follow) false _ _ b x h
          ∙ cases-chosen st (λ p. is_value 0 p.attributes_follow) true _ _ b x k
