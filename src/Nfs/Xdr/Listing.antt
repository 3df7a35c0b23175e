-- ===== src/Nfs/Xdr/Listing.antt =====
-- READDIR's arguments and results, with the linked list of entries: lines 632 to 718 of NFS/nfs_xdr.c.
use llp_filesystem.Base.{ℕ, zero, suc, Option, none, some, List, [], ◌∷◌}
use llp_filesystem.Nfs.Types.{
  null, Readdir3args, Entry, Entry3, Dirlist3, Readdir3resok, Readdir3resfail, Readdir3res,
}
use llp_filesystem.Nfs.Xdr.{out_of_fuel, Routine, Library, ◌▸◌, field, cases}
use llp_filesystem.Nfs.Xdr.Basic.{
  is_value, xdr_filename3, xdr_fileid3, xdr_cookie3, xdr_cookieverf3, xdr_count3, xdr_nfs_fh3,
  xdr_nfsstat3, xdr_post_op_attr,
}

-- A pointer to an `entry3`: NULL for the empty list.
abbrev pub to_pointer : List Entry → Option Entry3
to_pointer [] = none
to_pointer (e ∷ es) = some (record { entry = e; nextentry = es })

-- `sizeof (entry3)` bytes of zero.
abbrev pub zeroed : Entry3
zeroed = record { entry = record { fileid = 0; name = null; cookie = 0 }; nextentry = [] }

abbrev pub of_pointer : Option Entry3 → List Entry
of_pointer none = []
of_pointer (some e) = e.entry ∷ e.nextentry

module _ (lib : Library) where
  open lib use {Stream, xdr_bool, xdr_pointer}

  -- The routine calls itself through `xdr_pointer`, once for each entry.
  unfoldable pub xdr_entry3 : ℕ → Routine Stream Entry3
  xdr_entry3 zero = λ e x. out_of_fuel
  xdr_entry3 (suc fuel) =
      field (λ r. r.entry.fileid) (λ v r. record r { entry = record r.entry { fileid = v } })
        (xdr_fileid3 lib)
      ▸ field (λ r. r.entry.name) (λ v r. record r { entry = record r.entry { name = v } })
          (xdr_filename3 lib)
      ▸ field (λ r. r.entry.cookie) (λ v r. record r { entry = record r.entry { cookie = v } })
          (xdr_cookie3 lib)
      ▸ field (λ r. to_pointer r.nextentry) (λ v r. record r { nextentry = of_pointer v })
          (xdr_pointer zeroed (xdr_entry3 fuel))

  unfoldable pub xdr_dirlist3 : ℕ → Routine Stream Dirlist3
  xdr_dirlist3 fuel =
      field (λ r. to_pointer r.entries) (λ v r. record r { entries = of_pointer v })
        (xdr_pointer zeroed (xdr_entry3 fuel))
      ▸ field (λ r. r.eof) (λ v r. record r { eof = v }) xdr_bool

  unfoldable pub xdr_readdir3args : Routine Stream Readdir3args
  xdr_readdir3args =
      field (λ r. r.dir) (λ v r. record r { dir = v }) (xdr_nfs_fh3 lib)
      ▸ field (λ r. r.cookie) (λ v r. record r { cookie = v }) (xdr_cookie3 lib)
      ▸ field (λ r. r.cookieverf) (λ v r. record r { cookieverf = v }) (xdr_cookieverf3 lib)
      ▸ field (λ r. r.count) (λ v r. record r { count = v }) (xdr_count3 lib)

  unfoldable pub xdr_readdir3resok : ℕ → Routine Stream Readdir3resok
  xdr_readdir3resok fuel =
      field (λ r. r.dir_attributes) (λ v r. record r { dir_attributes = v }) (xdr_post_op_attr lib)
      ▸ field (λ r. r.cookieverf) (λ v r. record r { cookieverf = v }) (xdr_cookieverf3 lib)
      ▸ field (λ r. r.reply) (λ v r. record r { reply = v }) (xdr_dirlist3 fuel)

  unfoldable pub xdr_readdir3resfail : Routine Stream Readdir3resfail
  xdr_readdir3resfail =
      field (λ r. r.dir_attributes) (λ v r. record r { dir_attributes = v }) (xdr_post_op_attr lib)

  unfoldable pub xdr_readdir3res : ℕ → Routine Stream Readdir3res
  xdr_readdir3res fuel =
      field (λ r. r.status) (λ v r. record r { status = v }) (xdr_nfsstat3 lib)
      ▸ cases (λ r. is_value 0 r.status)
          (field (λ r. r.resok) (λ v r. record r { resok = v }) (xdr_readdir3resok fuel))
          (field (λ r. r.resfail) (λ v r. record r { resfail = v }) xdr_readdir3resfail)
