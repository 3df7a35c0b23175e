-- ===== src/Nfs/Xdr/Contents.antt =====
-- The round trips of LOOKUP's and READ's results and of READ's arguments.
use mathlib.Core.Path.{subst}
use llp_filesystem.Base.{ℕ, suc, ◌^◌, ◌≤◌, ◌<◌, ◌≡◌, refl, sym, ap, true, false, pos, length, arith}
use llp_filesystem.Nfs.Types.{
  Opaque, Lookup3resok, Lookup3resfail, Lookup3res, Read3args, Read3resok, Read3resfail, Read3res,
}
use llp_filesystem.Nfs.Xdr.{Library}
use llp_filesystem.Nfs.Xdr.Basic.{
  no_limit, is_value, xdr_uint64, xdr_uint32, xdr_offset3, xdr_count3, xdr_nfs_fh3, xdr_nfsstat3,
}
use llp_filesystem.Nfs.Xdr.Results.{
  xdr_lookup3resok, xdr_lookup3resfail, xdr_lookup3res, xdr_read3args, xdr_read3resok,
  xdr_read3resfail, xdr_read3res,
}
use llp_filesystem.Nfs.Xdr.Sends.{
  Streams, Sends, SendsFrom, SendsFrom-behind, SendsFrom-weaken, Sends-then, Sends-field,
  SendsFrom-cases, Sends-cases, Sends-as,
}
use llp_filesystem.Nfs.Xdr.Laws.{Laws, IsInt, IsBool, IsNullOpaque, sent}
use llp_filesystem.Nfs.Xdr.Attributes.{
  IsFollowing, IsInt-pos, xdr_post_op_attr-Sends, xdr_post_op_attr-absent,
}

-- At most `limit` bytes, and the memory has them.
pub record IsOpaque (limit : ℕ) (o : Opaque) : Type 0 where
  pub within : o.data_len ≤ limit
  pub held : o.data_len ≤ length o.data_val

pub record IsLookup3resok (a : Lookup3resok) : Type 0 where
  pub object : IsOpaque 64 a.object
  pub obj_attributes : IsFollowing a.obj_attributes
  pub dir_attributes : IsFollowing a.dir_attributes

pub record IsRead3resok (a : Read3resok) : Type 0 where
  pub file_attributes : a.file_attributes.attributes_follow ≡ pos 0
  pub count : a.count < 2 ^ 32
  pub eof : IsBool a.eof
  pub bytes : IsOpaque no_limit a.bytes

pub record IsRead3args (a : Read3args) : Type 0 where
  pub file : IsOpaque 64 a.file
  pub offset : a.offset < 2 ^ 64
  pub count : a.count < 2 ^ 32

module _ (lib : Library) (st : Streams (lib.Stream)) (laws : Laws lib st) where
  pub xdr_lookup3resok-Sends :
      (a : Lookup3resok)
      → IsLookup3resok a
      → SendsFrom st
          (λ b. IsNullOpaque b.object)
          (xdr_lookup3resok lib)
          a
          (λ _. record a { object = sent a.object })
  unfolding xdr_lookup3resok xdr_nfs_fh3
  xdr_lookup3resok-Sends a v =
      Sends-as st
        (Sends-then st
          (Sends-field st _ _ a (laws.bytes 64 a.object v.object.within v.object.held) refl)
          (Sends-then st
            (Sends-field st _ _ a
              (xdr_post_op_attr-Sends lib st laws a.obj_attributes v.obj_attributes) refl)
            (Sends-field st _ _ a
              (xdr_post_op_attr-Sends lib st laws a.dir_attributes v.dir_attributes) refl)))
        (λ b. refl)

  -- Over an RPC library that obeys the laws, a LOOKUP reply with status NFS3_OK, a handle of at
  -- most 64 bytes that are in memory, and attributes that follow with numbers in range, goes
  -- through: a receiver whose handle is a NULL pointer reads the same status, the same attributes,
  -- and a handle whose memory is exactly the bytes of the handle that was sent.
  pub xdr_lookup3res-ok :
      (a : Lookup3res)
      → a.status ≡ pos 0
      → IsLookup3resok a.resok
      → SendsFrom st
          (λ b. IsNullOpaque b.resok.object)
          (xdr_lookup3res lib)
          a
          (λ b. record b {
            status = a.status;
            resok = record a.resok { object = sent a.resok.object };
          })
  unfolding xdr_lookup3res xdr_nfsstat3
  xdr_lookup3res-ok a ok v =
      let test = ap (is_value 0) ok in
      let is_int = subst IsInt (sym ok) (IsInt-pos 0 (omega arith)) in
      SendsFrom-cases st {Q = λ b. IsNullOpaque b.resok.object} true _ _ _ test (λ b. test)
        (SendsFrom-weaken st (λ b. IsNullOpaque b.resok.object)
          (Sends-field st _ _ a (laws.enum a.status is_int) refl) (λ b h. tt))
        (λ b h. h) (Sends-field st _ _ a (xdr_lookup3resok-Sends a.resok v) refl)

  xdr_lookup3resfail-absent :
      (a : Lookup3resfail)
      → a.dir_attributes.attributes_follow ≡ pos 0
      → Sends st (xdr_lookup3resfail lib) a (λ b. record b {
        dir_attributes = record b.dir_attributes {
          attributes_follow = a.dir_attributes.attributes_follow;
        };
      })
  unfolding xdr_lookup3resfail
  xdr_lookup3resfail-absent a absent =
      Sends-field st _ _ a (xdr_post_op_attr-absent lib st laws a.dir_attributes absent) refl

  pub xdr_lookup3res-fail :
      (a : Lookup3res) (n : ℕ)
      → a.status ≡ pos (suc n)
      → n < 2 ^ 16
      → a.resfail.dir_attributes.attributes_follow ≡ pos 0
      → Sends st (xdr_lookup3res lib) a (λ b. record b {
        status = a.status;
        resfail = record b.resfail {
          dir_attributes = record b.resfail.dir_attributes {
            attributes_follow = a.resfail.dir_attributes.attributes_follow;
          };
        };
      })
  unfolding xdr_lookup3res xdr_nfsstat3
  xdr_lookup3res-fail a n fails small absent =
      let test : is_value 0 a.status ≡ false = ground (arith, fails) in
      let is_int = subst IsInt (sym fails) (IsInt-pos (suc n) (omega arith)) in
      Sends-cases st false _ _ _ test (λ b. ground (arith, fails))
        (Sends-field st _ _ a (laws.enum a.status is_int) refl)
        (Sends-field st _ _ a (xdr_lookup3resfail-absent a.resfail absent) refl)

  abbrev pub IsNullBytes : Read3resok → Type 0
  IsNullBytes b = IsNullOpaque b.bytes

  pub xdr_read3resok-Sends :
      (a : Read3resok)
      → IsRead3resok a
      → SendsFrom st IsNullBytes (xdr_read3resok lib) a (λ b. record a {
        file_attributes = record b.file_attributes {
          attributes_follow = a.file_attributes.attributes_follow;
        };
        bytes = sent a.bytes;
      })
  unfolding xdr_read3resok xdr_count3 xdr_uint32
  xdr_read3resok-Sends a v =
      Sends-as st
        (SendsFrom-behind st IsNullBytes
          (Sends-field st _ _ a
            (xdr_post_op_attr-absent lib st laws a.file_attributes v.file_attributes) refl)
          (λ b h. h)
          (SendsFrom-behind st IsNullBytes (Sends-field st _ _ a (laws.u_long a.count v.count) refl)
            (λ b h. h)
            (SendsFrom-behind st IsNullBytes (Sends-field st _ _ a (laws.bool a.eof v.eof) refl)
              (λ b h. h)
              (Sends-field st _ _ a (laws.bytes no_limit a.bytes v.bytes.within v.bytes.held)
                refl))))
        (λ b. refl)

  pub xdr_read3res-ok :
      (a : Read3res)
      → a.status ≡ pos 0
      → IsRead3resok a.resok
      → SendsFrom st
          (λ b. IsNullOpaque b.resok.bytes)
          (xdr_read3res lib)
          a
          (λ b. record b {
            status = a.status;
            resok = record a.resok {
              file_attributes = record b.resok.file_attributes {
                attributes_follow = a.resok.file_attributes.attributes_follow;
              };
              bytes = sent a.resok.bytes;
            };
          })
  unfolding xdr_read3res xdr_nfsstat3
  xdr_read3res-ok a ok v =
      let test = ap (is_value 0) ok in
      let is_int = subst IsInt (sym ok) (IsInt-pos 0 (omega arith)) in
      SendsFrom-cases st {Q = λ b. IsNullOpaque b.resok.bytes} true _ _ _ test (λ b. test)
        (SendsFrom-weaken st (λ b. IsNullOpaque b.resok.bytes)
          (Sends-field st _ _ a (laws.enum a.status is_int) refl) (λ b h. tt))
        (λ b h. h) (Sends-field st _ _ a (xdr_read3resok-Sends a.resok v) refl)

  xdr_read3resfail-absent :
      (a : Read3resfail)
      → a.file_attributes.attributes_follow ≡ pos 0
      → Sends st (xdr_read3resfail lib) a (λ b. record b {
        file_attributes = record b.file_attributes {
          attributes_follow = a.file_attributes.attributes_follow;
        };
      })
  unfolding xdr_read3resfail
  xdr_read3resfail-absent a absent =
      Sends-field st _ _ a (xdr_post_op_attr-absent lib st laws a.file_attributes absent) refl

  pub xdr_read3res-fail :
      (a : Read3res) (n : ℕ)
      → a.status ≡ pos (suc n)
      → n < 2 ^ 16
      → a.resfail.file_attributes.attributes_follow ≡ pos 0
      → Sends st (xdr_read3res lib) a (λ b. record b {
        status = a.status;
        resfail = record b.resfail {
          file_attributes = record b.resfail.file_attributes {
            attributes_follow = a.resfail.file_attributes.attributes_follow;
          };
        };
      })
  unfolding xdr_read3res xdr_nfsstat3
  xdr_read3res-fail a n fails small absent =
      let test : is_value 0 a.status ≡ false = ground (arith, fails) in
      let is_int = subst IsInt (sym fails) (IsInt-pos (suc n) (omega arith)) in
      Sends-cases st false _ _ _ test (λ b. ground (arith, fails))
        (Sends-field st _ _ a (laws.enum a.status is_int) refl)
        (Sends-field st _ _ a (xdr_read3resfail-absent a.resfail absent) refl)

  pub xdr_read3args-Sends :
      (a : Read3args)
      → IsRead3args a
      → SendsFrom st
          (λ b. IsNullOpaque b.file)
          (xdr_read3args lib)
          a
          (λ _. record a { file = sent a.file })
  unfolding xdr_read3args xdr_nfs_fh3 xdr_offset3 xdr_uint64 xdr_count3 xdr_uint32
  xdr_read3args-Sends a v =
      Sends-as st
        (Sends-then st (Sends-field st _ _ a (laws.bytes 64 a.file v.file.within v.file.held) refl)
          (Sends-then st (Sends-field st _ _ a (laws.u_quad_t a.offset v.offset) refl)
            (Sends-field st _ _ a (laws.u_long a.count v.count) refl)))
        (λ b. refl)
