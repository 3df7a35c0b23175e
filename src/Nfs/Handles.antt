-- ===== src/Nfs/Handles.antt =====
-- What the procedures make of a handle, and the attributes that they send.
use mathlib.Core.List.{append_assoc}
use llp_filesystem.Base.{
  ℕ, zero, suc, ◌^◌, ◌<◌, ◌≡◌, refl, ap, Option, none, some, [], ◌∷◌, ◌++◌, ℤ, pos, negsuc, length,
  length-append, take, drop, lt→ltb, Option-cases, inl, inr, arith,
}
use llp_filesystem.Nfs.Types.{IsText, Opaque, Fattr3, Getattr3res, Access3res}
use llp_filesystem.Nfs.System.{Str, StatBuf, Call, History, System, ok, fault, terminated}
use llp_filesystem.Nfs.Tools.{attributes_of, fill_attributes}
use llp_filesystem.Nfs.Read.{nfs3_ok}
use llp_filesystem.Nfs.Server.{
  put_nul, handle_path, followed, access_all, nfsproc3_getattr_3_svc, nfsproc3_access_3_svc,
}

-- A handle for the path `p`, with `rest` in memory behind it.
abbrev pub at_path : Str → Str → Opaque
at_path p rest = record { data_len = length p; data_val = p ++ rest }

pub terminated-append : (p rest : Str) → IsText p → terminated (p ++ (0 ∷ rest)) ≡ some p
unfolding terminated
terminated-append [] rest t = refl
terminated-append (zero ∷ p) rest (c, t) = absurd (omega arith)
terminated-append (suc c ∷ p) rest (d, t) = rw (terminated-append p rest t) refl

pub take-append : (p rest : Str) → take (length p) (p ++ rest) ≡ p
take-append [] rest = refl
take-append (c ∷ p) rest = ap (λ s. c ∷ s) (take-append p rest)

-- The path comes out of a handle with a byte to spare.
pub handle_path-at_path :
    (p : Str) (c : ℕ) (rest : Str) (h : History)
    → IsText p
    → length p < 2 ^ 31
    → handle_path (at_path p (c ∷ rest)) h ≡ ok p h
unfolding handle_path put_nul
handle_path-at_path p c rest h t small =
    rw
      (
        lt→ltb (length p) (2 ^ 31) small,
        lt→ltb (length p) (length (p ++ (c ∷ rest))) (omega (arith, length-append p (c ∷ rest))),
        take-append p (c ∷ rest),
        append_assoc p (0 ∷ []) (drop (suc (length p)) (p ++ (c ∷ rest))),
        terminated-append p (drop (suc (length p)) (p ++ (c ∷ rest))) t,
      )
      refl

pub put_nul-exact :
    (o : Opaque) (h : History) → o.data_len ≡ length o.data_val → put_nul o h ≡ fault
unfolding put_nul
put_nul-exact o h e = ground arith

pub handle_path-exact :
    (o : Opaque) (h : History) → o.data_len ≡ length o.data_val → handle_path o h ≡ fault
unfolding handle_path
handle_path-exact o h e = rw (put_nul-exact o h e) refl

module _ (sys : System) where
  -- The attributes that are there after `fill_attributes`.
  abbrev pub filled : Option StatBuf → Fattr3 → Fattr3
  filled none old = old
  filled (some st) old = attributes_of sys st

  -- The result of `fill_attributes`.
  abbrev pub filling : Option StatBuf → ℤ
  filling none = negsuc 0
  filling (some st) = pos 0

  pub fill_attributes-filled :
      (path : Str) (old : Fattr3) (h : History)
      → fill_attributes sys path old h ≡ (
          let answer = sys.stat_answer (Call.stat path ∷ h) in
          ok (filling answer, filled answer old) (Call.stat path ∷ h))
  unfolding fill_attributes
  fill_attributes-filled path old h = elim (Option-cases (sys.stat_answer (Call.stat path ∷ h))) [
    | inl e ↦ rw (e) refl
    | inr (st, e) ↦ rw (e) refl
  ]

  -- For a handle with a byte to spare that holds a path without a NUL, shorter than 2 ^ 31 bytes,
  -- GETATTR and ACCESS ask for the file at the path, and return NFS3_OK whether there is one or
  -- not: with its attributes if there is, and otherwise with those of the answer before.
  pub getattr-access-filled :
      (p : Str) (c : ℕ) (rest : Str) (h : History)
      → IsText p
      → length p < 2 ^ 31
      → ((r : Getattr3res)
          → nfsproc3_getattr_3_svc sys (record { object = at_path p (c ∷ rest) }) r h
            ≡ ok
                (record {
                  status = nfs3_ok;
                  resok = record {
                    obj_attributes =
                        filled (sys.stat_answer (Call.stat p ∷ h)) r.resok.obj_attributes;
                  };
                })
                (Call.stat p ∷ h))
        × ((n : ℕ) (r : Access3res)
            → nfsproc3_access_3_svc sys (record { object = at_path p (c ∷ rest); access = n }) r h
              ≡ ok
                  (record r {
                    status = nfs3_ok;
                    resok = record {
                      obj_attributes = followed (
                          filled
                            (sys.stat_answer (Call.stat p ∷ h))
                            r.resok.obj_attributes.attributes);
                      access = access_all;
                    };
                  })
                  (Call.stat p ∷ h))
  unfolding nfsproc3_getattr_3_svc nfsproc3_access_3_svc
  getattr-access-filled p c rest h t small =
      let at = handle_path-at_path p c rest h t small in
      (
        λ r. rw (at, fill_attributes-filled p r.resok.obj_attributes h) refl,
        λ n r. rw (at, fill_attributes-filled p r.resok.obj_attributes.attributes h) refl,
      )
