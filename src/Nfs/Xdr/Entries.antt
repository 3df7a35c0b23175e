-- ===== src/Nfs/Xdr/Entries.antt =====
-- The round trip of READDIR's result with its linked list.
use mathlib.Core.Path.{subst}
use llp_filesystem.Base.{
  ℕ, zero, suc, ◌+◌, none, [], ◌∷◌, ◌^◌, ◌≤◌, ◌<◌, ◌≡◌, refl, sym, ap, true, pos, List, length,
  arith,
}
use llp_filesystem.Nfs.Types.{
  IsText, CharPtr, null, owned, in_dirent, Entry, Entry3, Dirlist3, Readdir3resok, Readdir3res,
}
use llp_filesystem.Nfs.Xdr.{Library}
use llp_filesystem.Nfs.Xdr.Basic.{
  no_limit, is_value, xdr_uint64, xdr_filename3, xdr_fileid3, xdr_cookie3, xdr_cookieverf3,
  xdr_nfsstat3,
}
use llp_filesystem.Nfs.Xdr.Listing.{
  to_pointer, zeroed, of_pointer, xdr_entry3, xdr_dirlist3, xdr_readdir3resok, xdr_readdir3res,
}
use llp_filesystem.Nfs.Xdr.Sends.{
  Streams, SendsFrom, SendsFrom-behind, SendsFrom-keep, SendsFrom-then, SendsFrom-weaken,
  SendsFrom-cases, Sends-then, Sends-field, Sends-as,
}
use llp_filesystem.Nfs.Xdr.Laws.{Laws, IsInt, IsBool}
use llp_filesystem.Nfs.Xdr.Attributes.{IsFollowing, IsInt-pos, xdr_post_op_attr-Sends}

of_pointer-to_pointer : (es : List Entry) → of_pointer (to_pointer es) ≡ es
of_pointer-to_pointer [] = refl
of_pointer-to_pointer (e ∷ es) = refl

abbrev pub IsName : CharPtr → Type 0
IsName (owned s) = IsText s × (length s + 1 < 2 ^ 32)
IsName (in_dirent s) = ⊥
IsName null = ⊥

pub record IsEntry (e : Entry) : Type 0 where
  pub fileid : e.fileid < 2 ^ 64
  pub name : IsName e.name
  pub cookie : e.cookie < 2 ^ 64

abbrev pub AllEntry : List Entry → Type 0
AllEntry [] = Unit {0}
AllEntry (e ∷ es) = IsEntry e × AllEntry es

pub record IsListing (d : Dirlist3) : Type 0 where
  pub entries : AllEntry d.entries
  pub eof : IsBool d.eof

pub record IsReaddir3resok (a : Readdir3resok) : Type 0 where
  pub dir_attributes : IsFollowing a.dir_attributes
  pub cookieverf : length a.cookieverf ≡ 8
  pub reply : IsListing a.reply

module _ (lib : Library) (st : Streams (lib.Stream)) (laws : Laws lib st) where
  xdr_filename3-Sends :
      (n : CharPtr) → IsName n → SendsFrom st (λ b. b ≡ null) (xdr_filename3 lib) n (λ _. n)
  unfolding xdr_filename3
  xdr_filename3-Sends (owned s) (text, short) = laws.string no_limit s text (omega arith) short
  xdr_filename3-Sends (in_dirent s) v = absurd v
  xdr_filename3-Sends null v = absurd v

  abbrev chain : Entry → List Entry → Entry3
  chain e es = record { entry = e; nextentry = es }

  -- The pointers of an entry that nothing was read into are NULL.
  abbrev IsFreshRest : Entry3 → Type 0
  IsFreshRest b = to_pointer b.nextentry ≡ none

  abbrev IsFresh : Entry3 → Type 0
  IsFresh b = (b.entry.name ≡ null) × IsFreshRest b

  -- An entry, when the pointer to the rest of the list goes through.
  xdr_entry3-Sends :
      (e : Entry) (es : List Entry) (fuel : ℕ)
      → IsEntry e
      → SendsFrom st
          (λ b. b ≡ none)
          (lib.xdr_pointer zeroed (xdr_entry3 lib fuel))
          (to_pointer es)
          (λ _. to_pointer es)
      → SendsFrom st IsFresh (xdr_entry3 lib (suc fuel)) (chain e es) (λ _. chain e es)
  unfolding xdr_entry3 xdr_fileid3 xdr_cookie3 xdr_uint64
  xdr_entry3-Sends e es fuel v rest =
      let a = chain e es in
      let whole = ap (λ l. chain e l) (of_pointer-to_pointer es) in
      Sends-as st
        (SendsFrom-behind st IsFresh (Sends-field st _ _ a (laws.u_quad_t e.fileid v.fileid) refl)
          (λ b h. h)
          (SendsFrom-then st
            (SendsFrom-keep st IsFreshRest
              (Sends-field st _ _ a (xdr_filename3-Sends e.name v.name) refl))
            (λ b h. h.1)
            (SendsFrom-behind st IsFreshRest
              (Sends-field st _ _ a (laws.u_quad_t e.cookie v.cookie) refl) (λ b h. h)
              (Sends-field st _ _ a rest whole))))
        (λ b. whole)

  xdr_pointer-Sends :
      (es : List Entry) (fuel : ℕ)
      → AllEntry es
      → length es ≤ fuel
      → SendsFrom st
          (λ b. b ≡ none)
          (lib.xdr_pointer zeroed (xdr_entry3 lib fuel))
          (to_pointer es)
          (λ _. to_pointer es)
  xdr_pointer-Sends [] fuel v enough =
      SendsFrom-weaken st (λ b. b ≡ none) (laws.pointer_null zeroed (xdr_entry3 lib fuel))
        (λ b h. tt)
  xdr_pointer-Sends (e ∷ es) zero v enough = absurd (omega arith)
  xdr_pointer-Sends (e ∷ es) (suc fuel) (v, vs) enough =
      laws.pointer_to zeroed (xdr_entry3 lib (suc fuel)) (chain e es) (refl, refl)
        (xdr_entry3-Sends e es fuel v (xdr_pointer-Sends es fuel vs (omega arith)))

  pub xdr_dirlist3-Sends :
      (a : Dirlist3) (fuel : ℕ)
      → IsListing a
      → length a.entries ≤ fuel
      → SendsFrom st (λ b. to_pointer b.entries ≡ none) (xdr_dirlist3 lib fuel) a (λ _. a)
  unfolding xdr_dirlist3
  xdr_dirlist3-Sends a fuel v enough =
      let whole = of_pointer-to_pointer a.entries in
      Sends-as st
        (Sends-then st
          (Sends-field st _ _ a (xdr_pointer-Sends a.entries fuel v.entries enough)
            (ap (λ l. record a { entries = l }) whole))
          (Sends-field st _ _ a (laws.bool a.eof v.eof) refl))
        (λ b. ap (λ l. record a { entries = l }) whole)

  -- The list of a reply that nothing was read into is empty.
  abbrev pub IsFreshReply : Readdir3resok → Type 0
  IsFreshReply b = to_pointer b.reply.entries ≡ none

  pub xdr_readdir3resok-Sends :
      (a : Readdir3resok) (fuel : ℕ)
      → length a.reply.entries ≤ fuel
      → IsReaddir3resok a
      → SendsFrom st IsFreshReply (xdr_readdir3resok lib fuel) a (λ _. a)
  unfolding xdr_readdir3resok xdr_cookieverf3
  xdr_readdir3resok-Sends a fuel enough v =
      Sends-as st
        (SendsFrom-behind st IsFreshReply
          (Sends-field st _ _ a
            (xdr_post_op_attr-Sends lib st laws a.dir_attributes v.dir_attributes) refl)
          (λ b h. h)
          (SendsFrom-behind st IsFreshReply
            (Sends-field st _ _ a (laws.opaque 8 a.cookieverf v.cookieverf) refl) (λ b h. h)
            (Sends-field st _ _ a (xdr_dirlist3-Sends a.reply fuel v.reply enough) refl)))
        (λ b. refl)

  -- Over an RPC library that obeys the laws, a READDIR reply with status NFS3_OK whose attributes
  -- follow, whose numbers are in range, whose Boolean for the end is 0 or 1, whose verifier has 8
  -- bytes and whose names are strings without NUL that the program owns, shorter than 2 ^ 32 - 1 bytes,
  -- goes through: what is written is read back, by a receiver whose list is a NULL pointer, as the
  -- same status and the same result, with all its entries in order, and no further, for any fuel
  -- that is not below the number of entries.
  pub xdr_readdir3res-ok :
      (a : Readdir3res) (fuel : ℕ)
      → length a.resok.reply.entries ≤ fuel
      → a.status ≡ pos 0
      → IsReaddir3resok a.resok
      → SendsFrom st
          (λ b. IsFreshReply b.resok)
          (xdr_readdir3res lib fuel)
          a
          (λ b. record b { status = a.status; resok = a.resok })
  unfolding xdr_readdir3res xdr_nfsstat3
  xdr_readdir3res-ok a fuel enough ok v =
      let test = ap (is_value 0) ok in
      let is_int = subst IsInt (sym ok) (IsInt-pos 0 (omega arith)) in
      SendsFrom-cases st {Q = λ b. IsFreshReply b.resok} true _ _ _ test (λ b. test)
        (SendsFrom-weaken st (λ b. IsFreshReply b.resok)
          (Sends-field st _ _ a (laws.enum a.status is_int) refl) (λ b h. tt))
        (λ b h. h) (Sends-field st _ _ a (xdr_readdir3resok-Sends a.resok fuel enough v) refl)
