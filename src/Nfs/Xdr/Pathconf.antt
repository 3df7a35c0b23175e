-- ===== src/Nfs/Xdr/Pathconf.antt =====
-- PATHCONF's result, whose routine writes and reads its Booleans at a cursor where it can.
use mathlib.Core.List.{append_assoc}
use llp_filesystem.Base.{inl, inr, ◌∙◌, ◌++◌, ◌≡◌, refl, sym, ap, true, List}
use llp_filesystem.Nfs.Types.{Pathconf3resok}
use llp_filesystem.Nfs.Xdr.{done, then_go, Routine, Library, ◌▸◌}
use llp_filesystem.Nfs.Xdr.Results.{
  pathconf_bools, put_bools, get_bools, at_cursor, pathconf_by, inline_bools, pathconf_numbers,
  xdr_pathconf3resok,
}
use llp_filesystem.Nfs.Xdr.Sends.{Streams, Sends}
use llp_filesystem.Nfs.Xdr.Laws.{Laws}
use llp_filesystem.Nfs.Xdr.Bools.{
  append_four, InlineLaws, IsPathconf3resok, pathconf_numbers-Sends, bools_of, bools_of-AllBool,
  bools_wire, with_bools, plain, pathconf_bools-encodes, pathconf_bools-decodes,
}

module _ (lib : Library) (st : Streams (lib.Stream)) (laws : Laws lib st)
    (il : InlineLaws lib st laws) where
  put_bools-encodes :
      (a : Pathconf3resok) (v : IsPathconf3resok a) (w : List (st.Piece))
      → put_bools lib (il.reserved w 4).0 a (il.reserved w 4).1
        ≡ done true a (st.encoder (w ++ bools_wire lib st laws a v))
  unfolding put_bools
  put_bools-encodes a v w =
      let w1 = (laws.bool a.no_trunc v.no_trunc).wire in
      let w2 = (laws.bool a.chown_restricted v.chown_restricted).wire in
      let w3 = (laws.bool a.case_insensitive v.case_insensitive).wire in
      let w4 = (laws.bool a.case_preserving v.case_preserving).wire in
      rw
        (
          il.put w 3 a.no_trunc v.no_trunc,
          il.put (w ++ w1) 2 a.chown_restricted v.chown_restricted,
          il.put ((w ++ w1) ++ w2) 1 a.case_insensitive v.case_insensitive,
          il.put (((w ++ w1) ++ w2) ++ w3) 0 a.case_preserving v.case_preserving,
          il.reserved_none,
          append_four w w1 w2 w3 w4,
        )
        refl

  get_bools-decodes :
      (a : Pathconf3resok) (v : IsPathconf3resok a) (b : Pathconf3resok) (x : lib.Stream)
      → get_bools lib (il.cursor_at (bools_wire lib st laws a v)) b x
        ≡ done true (with_bools lib st laws a b) x
  unfolding get_bools
  get_bools-decodes a v b x =
      rw
        (
          il.get a.no_trunc v.no_trunc,
          il.get a.chown_restricted v.chown_restricted,
          il.get a.case_insensitive v.case_insensitive,
          il.get a.case_preserving v.case_preserving,
        )
        refl

  inline_bools-encodes :
      (a : Pathconf3resok) (v : IsPathconf3resok a) (w : List (st.Piece))
      → inline_bools lib (put_bools lib) a (st.encoder w)
        ≡ done true a (st.encoder (w ++ bools_wire lib st laws a v))
  unfolding inline_bools
  inline_bools-encodes a v w = elim (il.reserve w 4) [
    | inl none_left ↦
        ap (at_cursor lib (put_bools lib) a) none_left ∙ pathconf_bools-encodes lib st laws a v w
    | inr at ↦ ap (at_cursor lib (put_bools lib) a) at ∙ put_bools-encodes a v w
  ]

  inline_bools-decodes :
      (a : Pathconf3resok) (v : IsPathconf3resok a) (b : Pathconf3resok) (rest : List (st.Piece))
      → inline_bools lib (get_bools lib) b (st.decoder (bools_wire lib st laws a v ++ rest))
        ≡ done true (with_bools lib st laws a b) (st.decoder rest)
  unfolding inline_bools
  inline_bools-decodes a v b rest =
      elim (il.skip (bools_of lib st laws a) (bools_of-AllBool lib st laws a v) rest) [
        | inl none_left ↦
            ap (at_cursor lib (get_bools lib) b) none_left
            ∙ (pathconf_bools-decodes lib st laws a v b rest)
        | inr at ↦
            ap (at_cursor lib (get_bools lib) b) at ∙ (get_bools-decodes a v b (st.decoder rest))
      ]

  -- What a PATHCONF result is sent as.
  abbrev pub pathconf_wire : (a : Pathconf3resok) → IsPathconf3resok a → List (st.Piece)
  pathconf_wire a v = (pathconf_numbers-Sends lib st laws a v).wire ++ bools_wire lib st laws a v

  -- By the wire form of the numbers and of the Booleans.
  in_parts :
      (k l : Routine (lib.Stream) Pathconf3resok) (a : Pathconf3resok) (v : IsPathconf3resok a)
      → ((w : List (st.Piece))
          → k a (st.encoder w) ≡ done true a (st.encoder (w ++ bools_wire lib st laws a v)))
      → ((b : Pathconf3resok) (rest : List (st.Piece))
          → l b (st.decoder (bools_wire lib st laws a v ++ rest))
            ≡ done true (with_bools lib st laws a b) (st.decoder rest))
      → ((w : List (st.Piece))
          → (pathconf_numbers lib ▸ k) a (st.encoder w)
            ≡ done true a (st.encoder (w ++ pathconf_wire a v)))
        × ((b : Pathconf3resok) (rest : List (st.Piece))
            → (pathconf_numbers lib ▸ l) b (st.decoder (pathconf_wire a v ++ rest))
              ≡ done true a (st.decoder rest))
  in_parts k l a v encodes decodes =
      let p = pathconf_numbers-Sends lib st laws a v in
      let tail = bools_wire lib st laws a v in
      (
        λ w.
            ap (λ o. then_go o k) (p.encodes w)
            ∙ encodes (w ++ p.wire)
            ∙ ap (λ z. done true a (st.encoder z)) (append_assoc w p.wire tail),
        λ b rest.
            ap (λ z. then_go (pathconf_numbers lib b (st.decoder z)) l)
              (append_assoc p.wire tail rest)
            ∙ ap (λ o. then_go o l) (p.decodes b (tail ++ rest) tt)
            ∙ decodes _ rest,
      )

  xdr_pathconf3resok-Sends :
      (a : Pathconf3resok) → IsPathconf3resok a → Sends st (xdr_pathconf3resok lib) a (λ _. a)
  unfolding xdr_pathconf3resok
  xdr_pathconf3resok-Sends a v =
      let (encodes, decodes) =
        in_parts (inline_bools lib (put_bools lib)) (inline_bools lib (get_bools lib)) a v
          (inline_bools-encodes a v) (inline_bools-decodes a v) in
      record {
        wire = pathconf_wire a v;
        encodes = λ w. ap (λ o. pathconf_by lib o a (st.encoder w)) (laws.encoder-op w) ∙ encodes w;
        decodes = λ b rest any.
            ap (λ o. pathconf_by lib o b (st.decoder (pathconf_wire a v ++ rest)))
              (laws.decoder-op (pathconf_wire a v ++ rest))
            ∙ decodes b rest;
      }

  -- Over an RPC library that obeys the laws, also for its cursors, and for a result whose numbers
  -- fit, whose Booleans are 0 or 1 and whose attributes follow, the routine that uses a cursor where
  -- the stream gives one does what the routine for one field after the other does: it writes the
  -- same stream, and from the wire form it reads the same object, whatever the object held before.
  pub xdr_pathconf3resok-plain :
      (a : Pathconf3resok) (v : IsPathconf3resok a)
      → ((w : List (st.Piece))
          → xdr_pathconf3resok lib a (st.encoder w) ≡ plain lib st laws a (st.encoder w))
        × ((b : Pathconf3resok) (rest : List (st.Piece))
            → xdr_pathconf3resok lib b (st.decoder (pathconf_wire a v ++ rest))
              ≡ plain lib st laws b (st.decoder (pathconf_wire a v ++ rest)))
  unfolding xdr_pathconf3resok
  xdr_pathconf3resok-plain a v =
      let (encodes, decodes) =
        in_parts (inline_bools lib (put_bools lib)) (inline_bools lib (get_bools lib)) a v
          (inline_bools-encodes a v) (inline_bools-decodes a v) in
      let (encodes1, decodes1) =
        in_parts (pathconf_bools lib) (pathconf_bools lib) a v
          (pathconf_bools-encodes lib st laws a v) (pathconf_bools-decodes lib st laws a v) in
      (
        λ w.
            ap (λ o. pathconf_by lib o a (st.encoder w)) (laws.encoder-op w)
            ∙ encodes w
            ∙ sym (encodes1 w),
        λ b rest.
            ap (λ o. pathconf_by lib o b (st.decoder (pathconf_wire a v ++ rest)))
              (laws.decoder-op (pathconf_wire a v ++ rest))
            ∙ decodes b rest
            ∙ sym (decodes1 b rest),
      )
